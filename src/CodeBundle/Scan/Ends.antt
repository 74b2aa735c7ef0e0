-- ===== src/CodeBundle/Scan/Ends.antt =====
-- A code scan ends, and what it tells of its errors.
use mathlib.Core.List.{append_assoc}
use khulnasoft_lab_vulnmap_l.Prelude.Maps.{TextMap}
use khulnasoft_lab_vulnmap_l.Prelude.{
  ℕ, suc, ◌*◌, ◌<◌, Text, codes, Bool, true, false, ◌≡◌, refl, sym, ap, ◌⊎◌, inl, inr, List, [],
  ◌∷◌, ◌++◌, Option, none, some, length, Any, Any-append_left, Any-append_right,
}
use khulnasoft_lab_vulnmap_l.Vulnmap.Issue.{Issue}
use khulnasoft_lab_vulnmap_l.Progress.{one_second}
use khulnasoft_lab_vulnmap_l.UploadBatch.{BundleFile}
use khulnasoft_lab_vulnmap_l.UploadBatch.Complete.{UniquePaths}
use khulnasoft_lab_vulnmap_l.CodeBundle.{World, Bundle, Answer, failed, answered, upload, after}
use khulnasoft_lab_vulnmap_l.CodeBundle.Upload.{
  IsExact, upload_nothing, Completes, upload-Completes,
}
use khulnasoft_lab_vulnmap_l.CodeBundle.Analysis.{
  ScanEvent, error_captured, analysis_is_ready, AnalysisSettings, Retrieval,
}
use khulnasoft_lab_vulnmap_l.CodeBundle.Analysis.Outcome.{
  IsClock, Concludes, retrieve_analysis-Concludes,
}
use khulnasoft_lab_vulnmap_l.CodeBundle.Creation.{
  CodeScanState, Creation, no_files_to_scan, creation_failed, created, create_bundle, Collection,
  empty_collection, collect_files, send_hashes, answer_creation, bundle_from, finish_creation,
}
use khulnasoft_lab_vulnmap_l.CodeBundle.Scan.{
  track_result, handle_error, after_analysis, after_upload, after_creation, upload_and_analyze,
}

-- An error was captured whose text ends with the given one.
abbrev pub Reports : Text → List ScanEvent → Type 0
Reports e es =
    Any (λ event. (p : Text) × (message : Text) × (event ≡ error_captured p (message ++ e))) es

-- The analytics were told of a success.
abbrev pub TellsSuccess : List ScanEvent → Type 0
TellsSuccess es = Any (λ event. (n : ℕ) × (event ≡ analysis_is_ready true n)) es

Any-Reports :
    (root e : Text) (es : List ScanEvent)
    → Any (λ event. event ≡ error_captured root e) es
    → Reports e es
Any-Reports root e [] r = r
Any-Reports root e (event ∷ es) (inl r) = inl (root, [], r)
Any-Reports root e (event ∷ es) (inr r) = inr (Any-Reports root e es r)

module _ {W : Type 0} where
  -- A scan that returns. Its error was captured; its issues, if there are any, come with a success.
  abbrev pub Ends : Option (CodeScanState W × Answer (List Issue)) → Type 0
  Ends none = ⊥
  Ends (some (s, failed e)) = Reports e s.events
  Ends (some (s, answered issues)) = (issues ≡ []) ⊎ TellsSuccess s.events

  handle_error-Reports :
      (path e msg : Text) (n : ℕ) (s : CodeScanState W)
      → Reports e (handle_error path e msg n s).events
  unfolding handle_error track_result
  handle_error-Reports path e msg n s =
      Any-append_left _ (s.events ++ (error_captured path (msg ++ (codes ": " ++ e)) ∷ [])) _ (
        Any-append_right _ s.events _ (
          inl (
            path,
            msg ++ codes ": ",
            ap (error_captured path) (sym (append_assoc msg (codes ": ") e)),
          )))

module _ {W : Type 0} (x : World W) where
  -- A backend that begins to count with the files it misses of a new bundle, none of them twice.
  pub record IsExactFirst (needs : W → List Text) : Type 0 where
    pub create-missing :
        (hashes : TextMap Text) (w : W) (answer : Text × List Text)
        → (x.create_bundle hashes w).1 ≡ answered answer
        → (answer.1 ≡ needs (x.create_bundle hashes w).0) × UniquePaths answer.1

module _ {W : Type 0} (x : World W) (settings : AnalysisSettings) (path : Text) where
  either_way :
      (cancelled : Bool) (stop go : Option (CodeScanState W × Answer (List Issue)))
      → Ends stop
      → Ends go
      → Ends (elim cancelled [ true ↦ stop | false ↦ go ])
  either_way true stop go a b = a
  either_way false stop go a b = b

  analysis-Ends :
      (n : ℕ) (s : CodeScanState W) (root : Text) (r : Option (Retrieval W))
      → Concludes x settings 0 root r
      → Ends (after_analysis x settings path n s r)
  unfolding after_analysis track_result
  analysis-Ends n s root none c = c
  analysis-Ends n s root (some (w, es, failed e)) c = either_way (x.cancelled w) _ _ (inl refl) (
      Any-append_left _ (s.events ++ es) _
        (Any-append_right _ s.events es (Any-Reports root e es c.0)))
  analysis-Ends n s root (some (w, es, answered issues)) c =
      either_way (x.cancelled w) _ _ (inl refl)
        (inr (Any-append_right _ (s.events ++ es) _ (inl (n, refl))))

  -- The bundle misses nothing, or what the backend misses.
  abbrev IsReady : (W → List Text) → Bundle → W → Type 0
  IsReady needs b w =
      (b.missing_files ≡ []) ⊎ ((b.missing_files ≡ needs w) × UniquePaths b.missing_files)

  abbrev CreatesReady : (W → List Text) → CodeScanState W × Creation → Type 0
  CreatesReady needs (s, no_files_to_scan) = Unit
  CreatesReady needs (s, creation_failed e) = Unit
  CreatesReady needs (s, created b) = IsReady needs b s.world

  by_hash :
      (hash : Text) (s : CodeScanState W) (go : Option (CodeScanState W × Answer (List Issue)))
      → Ends go
      → Ends (elim hash [ [] ↦ some (s, answered []) | c ∷ hash' ↦ go ])
  by_hash [] s go e = inl refl
  by_hash (c ∷ hash) s go e = e

  abbrev Returns : Option (W × Answer Bundle) → Type 0
  Returns none = ⊥
  Returns (some r) = Unit

  returned-Ends :
      (n : ℕ) (b : Bundle) (s : CodeScanState W) (r : Option (W × Answer Bundle))
      → IsClock x settings
      → settings.timeout < n * one_second
      → Returns r
      → Ends (after_upload x settings path (suc n) b s r)
  unfolding after_upload
  returned-Ends n b s none clock enough r = r
  returned-Ends n b s (some (w, failed e)) clock enough r =
      either_way (x.cancelled w) _ _
        (handle_error-Reports path e (codes "error uploading files...") (length b.files)
          (record s { world = w }))
        (inl refl)
  returned-Ends n b s (some (w, answered b')) clock enough r =
      by_hash b'.bundle_hash (record s { world = w }) _
        (analysis-Ends (length b.files) (record s { world = w }) b'.root_path _
          (retrieve_analysis-Concludes x settings clock n b' w enough))

  Completes-Returns :
      (needs : W → List Text) (b : Bundle) (ds : List (Text × BundleFile))
      (r : Option (W × Answer Bundle))
      → Completes x needs b ds r
      → Returns r
  Completes-Returns needs b ds none c = c
  Completes-Returns needs b ds (some r) c = tt

  upload-Returns :
      (needs : W → List Text) (b : Bundle) (w : W)
      → IsExact x needs
      → IsReady needs b w
      → Returns (upload x b.files 2 b w)
  upload-Returns needs b w exact (inl nothing) =
      rw (upload_nothing x needs b.files 1 b w nothing) tt
  upload-Returns needs b w exact (inr (counted, unique)) =
      Completes-Returns needs b _ (upload x b.files 2 b w)
        (upload-Completes x needs b.files exact b w counted unique)

  upload-Ends :
      (needs : W → List Text) (n : ℕ) (b : Bundle) (s : CodeScanState W)
      → IsExact x needs
      → IsClock x settings
      → settings.timeout < n * one_second
      → IsReady needs b s.world
      → Ends (after_upload x settings path (suc n) b s (upload x b.files 2 b s.world))
  upload-Ends needs n b s exact clock enough ready =
      returned-Ends n b s (upload x b.files 2 b s.world) clock enough
        (upload-Returns needs b s.world exact ready)

  creation-Ends :
      (needs : W → List Text) (n : ℕ) (r : CodeScanState W × Creation)
      → IsExact x needs
      → IsClock x settings
      → settings.timeout < n * one_second
      → CreatesReady needs r
      → Ends (after_creation x settings path (record { rounds = 2; polls = suc n }) r)
  unfolding after_creation
  creation-Ends needs n (s, no_files_to_scan) exact clock enough ready = inl refl
  creation-Ends needs n (s, creation_failed e) exact clock enough ready =
      either_way (x.cancelled s.world) _ _ (inl refl)
        (handle_error-Reports path e (codes "error creating bundle...") 0 s)
  creation-Ends needs n (s, created b) exact clock enough ready =
      upload-Ends needs n b s exact clock enough ready

  send_hashes-CreatesReady :
      (needs : W → List Text) (changed_files : List Text) (c : Collection) (s : CodeScanState W)
      → IsExactFirst x needs
      → CreatesReady needs (send_hashes x settings.hash path changed_files c s)
  unfolding send_hashes answer_creation
  send_hashes-CreatesReady needs changed_files c s first = by_hashes c.file_hashes refl
    where
      sent :
          (w : W) (r : Answer (Text × List Text))
          → ((answer : Text × List Text)
              → r ≡ answered answer
              → (answer.1 ≡ needs w) × UniquePaths answer.1)
          → CreatesReady needs
              (record s { world = w }, answer_creation x settings.hash path changed_files c r)
      sent w (failed e) law = tt
      sent w (answered (h, missing)) law = inr (law (h, missing) refl)

      by_hashes :
          (hashes : TextMap Text)
          → c.file_hashes ≡ hashes
          → CreatesReady needs (elim hashes [
            | [] ↦ (s, created (bundle_from x settings.hash path changed_files c))
            | file ∷ files ↦ (
              record s { world = (x.create_bundle c.file_hashes s.world).0 },
              answer_creation x settings.hash path changed_files c
                  (x.create_bundle c.file_hashes s.world).1,
            )
          ])
      by_hashes [] e = inl refl
      by_hashes (h ∷ hs) e = sent _ _ (first.create-missing c.file_hashes s.world)

  collected-CreatesReady :
      (needs : W → List Text) (changed_files : List Text)
      (r : CodeScanState W × Answer (Option Collection))
      → IsExactFirst x needs
      → CreatesReady needs (
          after r
            (finish_creation x settings.hash path changed_files)
            (λ s e. (s, creation_failed e)))
  unfolding finish_creation
  collected-CreatesReady needs changed_files (s, failed e) first = tt
  collected-CreatesReady needs changed_files (s, answered none) first = inl refl
  collected-CreatesReady needs changed_files (s, answered (some c)) first =
      send_hashes-CreatesReady needs changed_files c s first

  create_bundle-CreatesReady :
      (needs : W → List Text) (files changed_files : List Text) (s : CodeScanState W)
      → IsExactFirst x needs
      → CreatesReady needs (create_bundle x settings.hash path changed_files files s)
  unfolding create_bundle
  create_bundle-CreatesReady needs [] changed_files s first = tt
  create_bundle-CreatesReady needs (f ∷ fs) changed_files s first =
      collected-CreatesReady needs changed_files
        (collect_files x settings.hash path changed_files (f ∷ fs) empty_collection s) first

  -- A code scan ends, if the backend keeps count of the files it misses, calls do not turn the clock
  -- back, and a pause takes a second: two rounds of uploads are enough, and more polls than the
  -- timeout has seconds. An error that it returns was captured, and if it returns issues, the
  -- analytics were told of a success.
  pub upload_and_analyze-Ends :
      (needs : W → List Text)
      → IsExact x needs
      → IsExactFirst x needs
      → IsClock x settings
      → (n : ℕ) (files changed_files : List Text) (s : CodeScanState W)
      → settings.timeout < n * one_second
      → Ends (
          upload_and_analyze x settings path
            (record { rounds = 2; polls = suc n })
            files
            changed_files
            s)
  unfolding upload_and_analyze
  upload_and_analyze-Ends needs exact first clock n files changed_files s enough =
      either_way (x.cancelled s.world) _ _ (inl refl) (
        creation-Ends needs n (create_bundle x settings.hash path changed_files files s) exact clock
          enough (create_bundle-CreatesReady needs files changed_files s first))
