-- ===== src/OssScan/Tests.antt =====
-- Two scans of a directory, a scan that fails, and instances of the theorems about them.
use khulnasoft_lab_vulnmap_l.Prelude.{
  ℕ, Text, text_eq, codes, true, false, ◌≡◌, refl, ◌⊎◌, [], ◌∷◌, none, some,
}
use khulnasoft_lab_vulnmap_l.CodeBundle.{answered}
use khulnasoft_lab_vulnmap_l.OssScan.{
  CliResult, exit_error, determine_target_file, prepare_scan_command,
}
use khulnasoft_lab_vulnmap_l.OssScan.Lifecycle.{
  OssScanner, OssWorld, new_cli_scanner, begin_oss_scan, register_oss_scan, receive_result, receive,
  OssReach, start, later, begins, registers, receives,
}
use khulnasoft_lab_vulnmap_l.OssScan.Errors.{
  has_failed, is_failure, is_told, HasNoIssues, IsQuiet, receive-outcome,
}
use khulnasoft_lab_vulnmap_l.OssScan.Exclusion.{one_scan_in_flight}
use khulnasoft_lab_vulnmap_l.OssScan.Listener.{failed_scan_not_done}

abbrev world : OssWorld Text
world = record {
  is_directory = λ p. true;
  absolute = λ p. p;
  read_file = λ p. none;
  unmarshal = λ output. answered (output ∷ []);
  display_target_file = λ r. r;
  convert = λ r path content. [];
  scan_command = λ args. codes "vulnmap" ∷ codes "test" ∷ args;
}

abbrev request : ℕ → Text
request n = codes "/w"

abbrev started : OssScanner
started = register_oss_scan world request 0 (begin_oss_scan world request 0 new_cli_scanner)

started-OssReach : OssReach world request started
unfolding begin_oss_scan
started-OssReach = later (later start (begins 0 refl)) (registers 0 refl)

abbrev replaced : OssScanner
replaced = register_oss_scan world request 1 (begin_oss_scan world request 1 started)

replaced-OssReach : OssReach world request replaced
unfolding begin_oss_scan register_oss_scan text_eq
replaced-OssReach = later (later started-OssReach (begins 1 refl)) (registers 1 refl)

one_scan_in_flight_example :
    ◌≡◌ {A = ℕ} 0 1
    ⊎ (((replaced.process 0).is_signalled ≡ true) ⊎ ((replaced.process 1).is_signalled ≡ true))
unfolding begin_oss_scan register_oss_scan text_eq
one_scan_in_flight_example =
    one_scan_in_flight world request replaced 0 1 replaced-OssReach refl refl refl

abbrev bad_run : CliResult
bad_run = record { output = []; error = some (exit_error 2 [] (codes "exit status 2")) }

abbrev failed_scan : OssScanner
failed_scan = receive_result world request 0 false bad_run started

failed_scan-OssReach : OssReach world request failed_scan
unfolding begin_oss_scan register_oss_scan
failed_scan-OssReach = later started-OssReach (receives 0 false bad_run refl)

failed_scan_not_done_example : (failed_scan.process 0).is_done ≡ false
unfolding begin_oss_scan register_oss_scan receive_result
failed_scan_not_done_example =
    failed_scan_not_done world request failed_scan 0 (codes "exit status 2") failed_scan-OssReach
      refl refl

receive-outcome_example :
    (has_failed (receive world false true (codes "/w") [] bad_run.error).0 ≡ true)
    × (false ≡ true
        → HasNoIssues (receive world false true (codes "/w") [] bad_run.error).0
          × IsQuiet (receive world false true (codes "/w") [] bad_run.error).1)
    × (false ≡ false
        → is_failure bad_run.error ≡ true
        → is_told (receive world false true (codes "/w") [] bad_run.error).1 ≡ true)
    × (is_failure bad_run.error ≡ false
        → true ≡ true
        → HasNoIssues (receive world false true (codes "/w") [] bad_run.error).0
          × IsQuiet (receive world false true (codes "/w") [] bad_run.error).1)
receive-outcome_example = receive-outcome world false true (codes "/w") [] bad_run.error

command_line :
    prepare_scan_command (λ c. c) (codes "vulnmap") ([] ∷ codes "-d" ∷ []) (codes "/w" ∷ [])
    ≡ codes "vulnmap" ∷ codes "test" ∷ codes "/w" ∷ codes "--json" ∷ codes "-d" ∷ []
unfolding prepare_scan_command
command_line = refl

manifest_of_lock_file : determine_target_file (codes "yarn.lock") ≡ codes "package.json"
unfolding determine_target_file text_eq
manifest_of_lock_file = refl
