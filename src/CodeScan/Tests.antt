-- ===== src/CodeScan/Tests.antt =====
-- A run of three calls of `Scan` on one folder, and instances of the theorems about the throttling.
use khulnasoft_lab_vulnmap_l.Prelude.Maps.{lookup, store}
use khulnasoft_lab_vulnmap_l.Prelude.Strings.{text_eq}
use khulnasoft_lab_vulnmap_l.Prelude.{ℕ, Text, codes, Bool, true, false, ◌≡◌, refl, ◌⊎◌, [], some}
use khulnasoft_lab_vulnmap_l.CodeScan.{
  ScanRequest, Scanner, changes_of, mark_changed, begin_scan, admission, admit, register_scan,
  collect, new_scanner, begins, registers, collects, Reach, start, later,
}
use khulnasoft_lab_vulnmap_l.CodeScan.Exclusion.{one_active_scan}
use khulnasoft_lab_vulnmap_l.CodeScan.Pending.{to_collect, no_change_forgotten}

abbrev no_directory : Text → Bool
no_directory p = false

abbrev same_folder : ℕ → ScanRequest
same_folder n = record {
  path = codes "/w/a.go";
  folder_path = codes "/w";
  sast_enabled = some true;
}

-- Call 0 has taken its file, call 1 waits for it, and call 2 is turned away.
abbrev busy : Scanner
busy = register_scan (same_folder 2) 2 (
    begin_scan (same_folder 2) 2 (
      register_scan (same_folder 1) 1 (
        begin_scan (same_folder 1) 1 (
          collect no_directory (same_folder 0) 0
            (register_scan (same_folder 0) 0 (begin_scan (same_folder 0) 0 new_scanner))))))

busy_is_reached : Reach no_directory same_folder busy
unfolding register_scan begin_scan mark_changed collect admission admit lookup store text_eq
busy_is_reached =
    later
      (later
        (later
          (later (later (later (later start (begins 0 refl)) (registers 0 refl)) (collects 0 refl))
            (begins 1 refl))
          (registers 1 refl))
        (begins 2 refl))
      (registers 2 refl)

one_active_scan_example : ◌≡◌ {A = ℕ} 0 0
unfolding register_scan begin_scan mark_changed collect admission admit lookup store text_eq
one_active_scan_example =
    one_active_scan no_directory same_folder busy 0 0 busy_is_reached refl refl refl

no_change_forgotten_example :
    (changes_of (codes "/w") busy ≡ [])
    ⊎ ((n : ℕ) × ((codes "/w" ≡ codes "/w") × (to_collect (busy.process n).phase ≡ true)))
no_change_forgotten_example =
    no_change_forgotten no_directory same_folder busy (codes "/w") busy_is_reached
