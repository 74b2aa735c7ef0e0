-- ===== src/Vulnmap/Range/Laws.antt =====
-- `Contains` and `Overlaps` against the order of positions in a document.
use khulnasoft_lab_vulnmap_l.Prelude.{◌≤◌, ◌<◌, ◌≡◌, ◌⊎◌, ◌↔◌, true, false, arith}
use khulnasoft_lab_vulnmap_l.Vulnmap.Range.{Position, Range, contains, overlaps}

infix 50 ◌⊑◌
-- The order of positions in a document: by line, then by character.
abbrev pub ◌⊑◌ : Position → Position → Type 0
p ⊑ q = (p.line < q.line) ⊎ ((p.line ≡ q.line) × (p.character ≤ q.character))

abbrev pub IsOrdered : Range → Type 0
IsOrdered r = r.start ⊑ r.end

abbrev pub point : Position → Range
point p = record { start = p; end = p }

-- For an `other` whose start does not come after its end, `Contains` answers true exactly when
-- `other` begins at or after the start of `r` and ends at or before the end of `r`.
pub contains_iff :
    (r other : Range)
    → IsOrdered other
    → (contains r other ≡ true) ↔ ((r.start ⊑ other.start) × (other.end ⊑ r.end))
unfolding contains
contains_iff r other h = ground arith

-- On a range within one line, `Overlaps` answers true for a cursor position exactly when the
-- position lies on the range, both ends included.
pub overlaps-point_iff :
    (r : Range) (p : Position)
    → r.start.line ≡ r.end.line
    → IsOrdered r
    → (overlaps r (point p) ≡ true) ↔ ((r.start ⊑ p) × (p ⊑ r.end))
unfolding overlaps contains
overlaps-point_iff r p same h = ground arith

-- Ranges that `Overlaps` accepts share a line: neither lies wholly on lines before the other.
pub overlaps_lines :
    (r other : Range)
    → overlaps r other ≡ true
    → (r.start.line ≤ other.end.line) × (other.start.line ≤ r.end.line)
unfolding overlaps contains
overlaps_lines r other h = ground arith

-- A range that begins on the single line of `r` before `r`, and ends inside `r`, is reported as
-- not overlapping, although its end lies on `r`.
pub overlaps_misses_left :
    (r other : Range)
    → r.start.line ≡ r.end.line
    → other.start.line ≡ r.start.line
    → other.end.line ≡ r.start.line
    → other.start.character < r.start.character
    → r.start.character ≤ other.end.character
    → other.end.character < r.end.character
    → (overlaps r other ≡ false) × (r.start ⊑ other.end) × (other.end ⊑ r.end)
unfolding overlaps contains
overlaps_misses_left r other a b c d e f = ground arith
