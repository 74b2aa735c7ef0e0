-- ===== src/Vulnmap/Tests.antt =====
-- Runs of the range tests, and instances of the theorems about them.
use khulnasoft_lab_vulnmap_l.Vulnmap.Range.{Position, Range}

abbrev r : Range
r = record { start = record { line = 1; character = 5 }; end = record { line = 1; character = 10 } }

abbrev left : Range
left = record {
  start = record { line = 1; character = 0 };
  end = record { line = 1; character = 7 };
}

abbrev cursor : Position
cursor = record { line = 1; character = 8 }
