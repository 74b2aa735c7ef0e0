-- ===== src/Scanner/Progress.antt =====
-- What a scan does by itself: how long it goes on, and that it is stuck only while a product scanner
-- has not returned. Whether one returns is its own affair.
use khulnasoft_lab_vulnmap_l.Prelude.{
  ℕ, ◌+◌, ◌≤◌, Bool, true, false, inl, inr, List, [], ◌∷◌, ◌++◌, length, Any,
}
use khulnasoft_lab_vulnmap_l.Externals.{Externals}
use khulnasoft_lab_vulnmap_l.Vulnmap.Product.{Product}
use khulnasoft_lab_vulnmap_l.Config.{Config}
use khulnasoft_lab_vulnmap_l.Folder.{Folder, ScanData}
use khulnasoft_lab_vulnmap_l.Scanner.{ProductScanner}
use khulnasoft_lab_vulnmap_l.Scanner.Goroutines.{
  ScanPhase, called, rejected, waiting, completed, Task, scanning, received, updating, loaded,
  sending, ScanState,
}

-- The moves that are left to a goroutine, messages aside.
abbrev moves_left : Task → ℕ
moves_left (scanning p) = 0
moves_left (received d) = length d.issues + length d.issues + 3
moves_left (updating d dedup counts left) = length left + length left + 2
moves_left (loaded d dedup counts i left cached) = length left + length left + 3
moves_left (sending es) = 1

abbrev all_moves_left : List Task → ℕ
all_moves_left [] = 0
all_moves_left (t ∷ ts) = moves_left t + all_moves_left ts

abbrev one_if_not : Bool → ℕ
one_if_not true = 0
one_if_not false = 1

-- The steps that the call itself has left.
abbrev calls_left : ScanPhase → Bool → ℕ
calls_left called cancelled = 3
calls_left waiting cancelled = 1 + one_if_not cancelled
calls_left rejected cancelled = 0
calls_left completed cancelled = 0

-- Four steps for a delivery, and two for each of its issues.
abbrev pub steps_for : List ScanData → ℕ
steps_for [] = 0
steps_for (d ∷ ds) = 4 + length d.issues + length d.issues + steps_for ds

abbrev pub IsScanning : Task → Type 0
IsScanning (scanning p) = Unit
IsScanning _ = ⊥

Any-middle :
    (xs : List Task) (y : Task) (ys : List Task) → IsScanning y → Any IsScanning (xs ++ (y ∷ ys))
Any-middle [] y ys h = inl h
Any-middle (x ∷ xs) y ys h = inr (Any-middle xs y ys h)

module _ (x : Externals) (c : Config) (scanners : List ProductScanner) (f : Folder) where
  -- What the steps so far and those left amount to, at most.
  abbrev IsBounded : ℕ → ScanState → Type 0
  IsBounded n s =
      n + all_moves_left s.tasks + calls_left s.phase s.cancelled
      ≤ 3 + steps_for s.delivered + length s.sent
