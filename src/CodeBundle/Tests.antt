-- ===== src/CodeBundle/Tests.antt =====
-- A backend that keeps count, one that does not, and instances of the theorems about scans.
use mathlib.Core.Path.{subst}
use khulnasoft_lab_vulnmap_l.Prelude.Maps.{TextMap}
use khulnasoft_lab_vulnmap_l.Prelude.Strings.{split_on, has_prefix}
use khulnasoft_lab_vulnmap_l.Prelude.{
  ℕ, ◌+◌, ltb, Text, codes, text_eq, true, false, ◌≡◌, refl, sym, ap, List, [], ◌∷◌, none, some,
  All, map, length, arith, if◌then◌else◌,
}
use khulnasoft_lab_vulnmap_l.Vulnmap.Issue.{
  Issue, CodeIssueData, code_data, high, code_security_vulnerability,
}
use khulnasoft_lab_vulnmap_l.Vulnmap.Product.{code}
use khulnasoft_lab_vulnmap_l.UploadBatch.{BundleFile}
use khulnasoft_lab_vulnmap_l.UploadBatch.Complete.{with_files, UniquePaths}
use khulnasoft_lab_vulnmap_l.CodeBundle.{World, Bundle, Answer, failed, answered, upload}
use khulnasoft_lab_vulnmap_l.CodeBundle.Upload.{IsExact, without, Completes, upload-Completes}
use khulnasoft_lab_vulnmap_l.CodeBundle.Endless.{IsStuck, upload_endless}
use khulnasoft_lab_vulnmap_l.CodeBundle.Actions.{ActionSource, add_issue_actions}
use khulnasoft_lab_vulnmap_l.CodeBundle.Analysis.{AnalysisSettings, retrieve_analysis}
use khulnasoft_lab_vulnmap_l.CodeBundle.Analysis.Outcome.{
  IsClock, Concludes, retrieve_analysis-Concludes,
}
use khulnasoft_lab_vulnmap_l.CodeBundle.Creation.{
  CodeScanState, new_bundler, Collection, empty_collection, collect_files, created, create_bundle,
  file_key, matches_filters, is_member, path_ext, has_slash, path_base, last_part,
}
use khulnasoft_lab_vulnmap_l.CodeBundle.Creation.Files.{
  GathersSound, IsPresent, collect_files-IsSound,
}
use khulnasoft_lab_vulnmap_l.CodeBundle.Creation.Complete.{
  admissible, changed_keys, collect_files-admissible,
}
use khulnasoft_lab_vulnmap_l.CodeBundle.Actions.Lenses.{
  HasLiveLenses, add_issue_actions-HasLiveLenses,
}
use khulnasoft_lab_vulnmap_l.CodeBundle.Scan.{upload_and_analyze}
use khulnasoft_lab_vulnmap_l.CodeBundle.Scan.Ends.{IsExactFirst, Ends, upload_and_analyze-Ends}

-- The clock, and the files that the backend misses.
pub record Backend : Type 0 where
  pub clock : ℕ
  pub missing : List Text

abbrev first_key : TextMap Text → List Text
first_key [] = []
first_key ((k, h) ∷ rest) = k ∷ []

-- A backend that misses the first file of a new bundle, and that takes two seconds for an analysis.
abbrev exact_world : World Backend
exact_world = record {
  cancelled = λ w. false;
  now = λ w. w.clock;
  sleep = λ w. record w { clock = w.clock + 1000000000 };
  read_file = λ w path. some (codes "package a");
  get_filters = λ w. (w, answered (record { extensions = codes ".go" ∷ []; config_files = [] }));
  create_bundle = λ hashes w.
      (record w { missing = first_key hashes }, answered (codes "b1", first_key hashes));
  extend_bundle = λ hash files w. (
    record w { missing = without files w.missing },
    answered (codes "b2", without files w.missing),
  );
  run_analysis = λ options root w. (
    w,
    answered (
      [],
      record {
        message = if ltb w.clock 2000000000 then codes "ANALYZING" else codes "COMPLETE";
        percentage = 50;
      },
    ),
  );
}

-- A backend that never gets the file it asks for.
abbrev stuck_world : World Backend
stuck_world = record exact_world {
  extend_bundle = λ hash files w. (w, answered (codes "b2", codes "a.go" ∷ []));
}

-- A backend that refuses every upload.
abbrev refusing_world : World Backend
refusing_world = record exact_world { extend_bundle = λ hash files w. (w, failed (codes "413")) }

abbrev needs_of : Backend → List Text
needs_of w = w.missing

abbrev missing_in : Answer (Text × List Text) → List Text
missing_in (failed e) = []
missing_in (answered (hash, paths)) = paths

first_key-UniquePaths : (hashes : TextMap Text) → UniquePaths (first_key hashes)
first_key-UniquePaths [] = tt
first_key-UniquePaths ((k, h) ∷ rest) = (tt, tt)

exact_world-IsExact : IsExact exact_world needs_of
exact_world-IsExact = record {
  extend-needs = λ hash files w. refl;
  extend-missing = λ hash files w answer e. sym (ap missing_in e);
}

first_key-IsExactFirst : IsExactFirst exact_world needs_of
first_key-IsExactFirst = record {
  create-missing = λ hashes w answer e.
      (sym (ap missing_in e), subst UniquePaths (ap missing_in e) (first_key-UniquePaths hashes));
}

stuck_world-IsStuck : IsStuck stuck_world
stuck_world-IsStuck = record {
  not_cancelled = λ w. refl;
  extend-answers = λ hash files w. (codes "b2", codes "a.go", [], refl);
}

abbrev source : ActionSource
source = record {
  autofix_enabled = true;
  learn_enabled = true;
  autofix_edit = λ issue. none;
  new_uuid = λ n. n ∷ [];
  get_lesson = λ issue. answered (some (codes "https://learn"));
}

abbrev settings : AnalysisSettings
settings = record { timeout = 3000000000; token = codes "t"; hash = λ t. t; actions = source }

exact_world-IsClock : IsClock exact_world settings
exact_world-IsClock = record {
  run_analysis-now = λ options root w. omega arith;
  sleep-now = λ w. omega arith;
}

abbrev file : BundleFile
file = record { hash = codes "1"; content = codes "package a" }

abbrev bundle : Bundle
bundle = record {
  bundle_hash = codes "b1";
  upload_batches = [];
  files = (codes "a.go", file) ∷ [];
  missing_files = codes "a.go" ∷ [];
  limit_to_files = [];
  root_path = codes "/w";
}

abbrev missing_one : Backend
missing_one = record { clock = 0; missing = codes "a.go" ∷ [] }

upload-Completes_example :
    Completes exact_world needs_of bundle
      (with_files bundle.files bundle.missing_files)
      (upload exact_world bundle.files 2 bundle missing_one)
upload-Completes_example =
    upload-Completes exact_world needs_of bundle.files exact_world-IsExact bundle missing_one refl
      (tt, tt)

upload_endless_example : upload stuck_world bundle.files 7 bundle missing_one ≡ none
upload_endless_example =
    upload_endless stuck_world bundle.files stuck_world-IsStuck 7 bundle missing_one tt

retrieve_analysis-Concludes_example :
    Concludes exact_world settings 0
      (codes "/w")
      (retrieve_analysis exact_world settings 5 bundle missing_one)
retrieve_analysis-Concludes_example =
    retrieve_analysis-Concludes exact_world settings exact_world-IsClock 4 bundle missing_one
      (omega arith)

abbrev start : CodeScanState Backend
start = record { uploader = new_bundler; world = record { clock = 0; missing = [] }; events = [] }

upload_and_analyze-Ends_example : Ends (
    upload_and_analyze exact_world settings
      (codes "/w")
      (record { rounds = 2; polls = 5 })
      (codes "/w/a.go" ∷ codes "/w/b.go" ∷ [])
      (codes "/w/a.go" ∷ [])
      start)
upload_and_analyze-Ends_example =
    upload_and_analyze-Ends exact_world settings (codes "/w") needs_of exact_world-IsExact
      first_key-IsExactFirst exact_world-IsClock 4 (codes "/w/a.go" ∷ codes "/w/b.go" ∷ [])
      (codes "/w/a.go" ∷ []) start (omega arith)

-- The collections of scans.
abbrev loaded : CodeScanState Backend
loaded = record {
  uploader = record { supported_extensions = codes ".go" ∷ []; supported_config_files = [] };
  world = record { clock = 0; missing = [] };
  events = [];
}

abbrev go_files : List Text
go_files = codes "/w/a.go" ∷ codes "/w/b.c" ∷ []

collect_files-IsSound_example :
    GathersSound
      (λ t. t)
      (codes "/w")
      (codes "/w/a.go" ∷ [])
      exact_world
      (collect_files exact_world
        (λ t. t)
        (codes "/w")
        (codes "/w/a.go" ∷ [])
        go_files
        empty_collection
        start)
collect_files-IsSound_example =
    collect_files-IsSound (λ t. t) (codes "/w") (codes "/w/a.go" ∷ []) exact_world go_files start

collect_files-admissible_example :
    (c : Collection) × ((collect_files exact_world
        (λ t. t)
        (codes "/w")
        (codes "/w/a.go" ∷ [])
        go_files
        empty_collection
        loaded).1
      ≡ answered (some c))
    × All
        (λ f. IsPresent (λ t. t) c.bundle_files (file_key (codes "/w") f.0))
        (admissible exact_world loaded.uploader loaded.world go_files)
    × (c.limit_to_files
        ≡ changed_keys exact_world
            (λ t. t)
            (codes "/w")
            (codes "/w/a.go" ∷ [])
            (admissible exact_world loaded.uploader loaded.world go_files))
collect_files-admissible_example =
    collect_files-admissible exact_world (λ t. t) (codes "/w") (codes "/w/a.go" ∷ []) go_files
      loaded refl refl

one_is_admissible :
    admissible exact_world loaded.uploader loaded.world go_files
    ≡ (codes "/w/a.go", codes "package a") ∷ []
unfolding matches_filters is_member path_ext has_slash path_base last_part split_on text_eq
one_is_admissible = refl

abbrev created_bundle : Bundle
created_bundle = record {
  bundle_hash = codes "b1";
  upload_batches = [];
  files = (codes "a.go", record { hash = codes "package a"; content = codes "package a" }) ∷ [];
  missing_files = codes "a.go" ∷ [];
  limit_to_files = codes "a.go" ∷ [];
  root_path = codes "/w";
}

abbrev after_creation_state : CodeScanState Backend
after_creation_state = record loaded { world = record { clock = 0; missing = codes "a.go" ∷ [] } }

creates :
    create_bundle refusing_world (λ t. t) (codes "/w") (codes "/w/a.go" ∷ []) go_files loaded
    ≡ (after_creation_state, created created_bundle)
unfolding create_bundle has_prefix
creates = refl

is_refused :
    upload refusing_world created_bundle.files 2 created_bundle after_creation_state.world
    ≡ some (after_creation_state.world, failed (codes "413"))
unfolding upload text_eq
is_refused = refl

-- Nobody has cancelled the scan, and still the error of its upload is lost.
refused_scan_is_silent :
    upload_and_analyze refusing_world settings
      (codes "/w")
      (record { rounds = 2; polls = 5 })
      go_files
      (codes "/w/a.go" ∷ [])
      loaded
    ≡ some (after_creation_state, answered [])
unfolding upload_and_analyze create_bundle has_prefix upload text_eq
refused_scan_is_silent = refl

abbrev finding : CodeIssueData
finding = record {
  key = [];
  title = codes "SQL injection";
  message = [];
  rule = [];
  rule_id = codes "go/Sqli";
  repo_dataset_size = 0;
  example_commit_fixes = [];
  cwe = [];
  text = [];
  markers = [];
  cols = (0, 0);
  rows = (0, 0);
  is_security_type = true;
  is_autofixable = true;
}

abbrev found : Issue
found = record {
  id = codes "go/Sqli";
  severity = high;
  issue_type = code_security_vulnerability;
  range = record {
    start = record { line = 3; character = 0 };
    end = record { line = 3; character = 9 };
  };
  message = codes "bad";
  formatted_message = codes "";
  affected_file_path = codes "/w/a.go";
  product = code;
  references = [];
  issue_description_url = none;
  code_actions = [];
  codelens_commands = [];
  ecosystem = [];
  cwes = [];
  cves = [];
  additional_data = code_data finding;
}

add_issue_actions-HasLiveLenses_example :
    All HasLiveLenses (add_issue_actions source (found ∷ found ∷ []))
add_issue_actions-HasLiveLenses_example =
    add_issue_actions-HasLiveLenses source (found ∷ found ∷ []) (tt, (tt, tt))

two_actions :
    map (λ issue. length issue.code_actions) (add_issue_actions source (found ∷ [])) ≡ 2 ∷ []
unfolding add_issue_actions
two_actions = refl
