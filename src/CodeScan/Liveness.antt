-- ===== src/CodeScan/Liveness.antt =====
-- No call of `Scan` waits in vain.
use khulnasoft_lab_vulnmap_l.Prelude.{ℕ, Text, Bool, true, false, ◌≡◌}
use khulnasoft_lab_vulnmap_l.CodeScan.{
  ScanRequest, Phase, marked, ready, waiting, collected, Scanner, Step,
}

-- Begun, and not ended.
abbrev pub live : Phase → Bool
live marked = true
live ready = true
live (waiting p) = true
live (collected fs) = true
live _ = false

module _ (is_directory : Text → Bool) (request : ℕ → ScanRequest) where
  -- There is a step that moves this call from its phase to another one.
  abbrev pub CanMove : ℕ → Scanner → Type 0
  CanMove n s =
      (t : Scanner) × Step is_directory request s t × ¬ ((t.process n).phase ≡ (s.process n).phase)
