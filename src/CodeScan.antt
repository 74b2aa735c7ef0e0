-- ===== src/CodeScan.antt =====
-- infrastructure/code/code.go, `Scan` and `waitForScanToFinish`: how scans of one folder are
-- throttled. Any number of calls of `Scan` run at once; a step is what one call does in one critical
-- section, or between two, and a run is any interleaving of such steps. A call is known by a number,
-- which also names the `ScanStatus` that it allocates; `finished` is true once the channel is closed.
-- The upload and the analysis, for which `UploadAndAnalyze` is called, lie between `collect` and
-- `finish`.
pub mod Throttle
pub mod Exclusion
pub mod Liveness
pub mod Pending
pub mod Tests
use khulnasoft_lab_vulnmap_l.Prelude.Maps.{TextMap, lookup, store}
use khulnasoft_lab_vulnmap_l.Prelude.{
  ℕ, ◌==◌, Text, text_eq, Bool, true, false, not, ◌≡◌, ◌||◌, List, [], ◌∷◌, ◌++◌, Option, none,
  some, if◌then◌else◌,
}

pub record ScanStatus : Type 0 where
  pub finished : Bool
  pub is_running : Bool
  pub is_pending : Bool

-- `NewScanStatus`
abbrev pub new_scan_status : ScanStatus
new_scan_status = record { finished = false; is_running = false; is_pending = false }

-- What `SastSettings` answers to a call: `none` is its error.
pub record ScanRequest : Type 0 where
  pub path : Text
  pub folder_path : Text
  pub sast_enabled : Option Bool

-- Where a call of `Scan` stands.
pub data Phase : Type 0 where
  arrived failed marked turned_away ready returned : Phase
  -- blocked until the scan with this number has finished
  waiting : ℕ → Phase
  -- the changed files it took, none if there was no changed path
  collected : Option (List Text) → Phase

pub record ScanProcess : Type 0 where
  pub phase : Phase
  pub status : ScanStatus

-- The fields of `Scanner` that the calls share, and the calls.
pub record Scanner : Type 0 where
  pub running_scans : TextMap ℕ
  pub changed_paths : TextMap (List Text)
  pub process : ℕ → ScanProcess

abbrev pub update {ℓ} : {A : Type ℓ} → ℕ → A → (ℕ → A) → ℕ → A
update n a f m = if n == m then a else f m

abbrev pub put : ℕ → Phase → ScanStatus → Scanner → Scanner
put n ph st s = record s { process = update n (record { phase = ph; status = st }) s.process }

-- `New`, with calls that have not begun.
abbrev pub new_scanner : Scanner
new_scanner = record {
  running_scans = [];
  changed_paths = [];
  process = λ n. record { phase = arrived; status = new_scan_status };
}

abbrev pub changes_of : Text → Scanner → List Text
changes_of folder s = elim (lookup folder s.changed_paths) [ none ↦ [] | some paths ↦ paths ]

unfoldable pub add_path : Text → List Text → List Text
unfolding text_eq
add_path path [] = path ∷ []
add_path path (p ∷ ps) = let rest = add_path path ps in if text_eq p path then p ∷ ps else p ∷ rest

-- The first section that locks `changedFilesMutex`.
unfoldable pub mark_changed : ScanRequest → ℕ → Scanner → Scanner
unfolding add_path
mark_changed req n s = put n marked new_scan_status (record s {
  changed_paths =
      store req.folder_path (add_path req.path (changes_of req.folder_path s)) s.changed_paths;
})

-- The calls that end before: the settings cannot be read, or SAST is off.
unfoldable pub begin_scan : ScanRequest → ℕ → Scanner → Scanner
unfolding mark_changed
begin_scan req n s = elim req.sast_enabled [
  | none ↦ put n failed new_scan_status s
  | some false ↦ put n failed new_scan_status s
  | some true ↦ mark_changed req n s
]

-- What the lookup in `runningScans` decides.
pub data Admission : Type 0 where
  proceed already_waiting : Admission
  wait_for : ℕ → Admission

unfoldable pub admission : Option ℕ → (ℕ → ScanProcess) → Admission
admission none process = proceed
admission (some previous) process =
    if (process previous).status.is_running
    then (if (process previous).status.is_pending then already_waiting else wait_for previous)
    else proceed

-- The rest of the locked section of `waitForScanToFinish`.
unfoldable pub admit : Admission → ScanRequest → ℕ → Scanner → Scanner
admit already_waiting req n s = put n turned_away (record new_scan_status { is_running = true }) s
admit proceed req n s =
    put n ready (record new_scan_status { is_running = true })
      (record s { running_scans = store req.folder_path n s.running_scans })
admit (wait_for previous) req n s =
    put n (waiting previous) (record new_scan_status { is_running = true; is_pending = true })
      (record s { running_scans = store req.folder_path n s.running_scans })

-- `waitForScanToFinish` up to the blocking receive.
unfoldable pub register_scan : ScanRequest → ℕ → Scanner → Scanner
unfolding admission admit
register_scan req n s = admit (admission (lookup req.folder_path s.running_scans) s.process) req n s

-- After the receive: `isPending` is reset.
unfoldable pub wake : ℕ → Scanner → Scanner
wake n s = put n ready (record (s.process n).status { is_pending = false }) s

module _ (is_directory : Text → Bool) where
  changed_files : List Text → List Text
  changed_files [] = []
  changed_files (p ∷ ps) =
      let rest = changed_files ps in if not (is_directory p) then p ∷ rest else rest

  collected_from : List Text → Option (List Text)
  unfolding changed_files
  collected_from [] = none
  collected_from (p ∷ ps) = some (changed_files (p ∷ ps))

  -- The second section that locks `changedFilesMutex`: every changed path is taken out.
  unfoldable pub collect : ScanRequest → ℕ → Scanner → Scanner
  unfolding collected_from
  collect req n s =
      put n (collected (collected_from (changes_of req.folder_path s))) (s.process n).status
        (record s { changed_paths = store req.folder_path [] s.changed_paths })

-- The deferred function.
unfoldable pub finish : ℕ → Scanner → Scanner
finish n s = put n returned (record (s.process n).status { is_running = false; finished = true }) s

module _ (is_directory : Text → Bool) (request : ℕ → ScanRequest) where
  pub data Step (s : Scanner) : Scanner → Type 0 where
    begins : (n : ℕ) → (s.process n).phase ≡ arrived → Step s (begin_scan (request n) n s)
    registers : (n : ℕ) → (s.process n).phase ≡ marked → Step s (register_scan (request n) n s)
    wakes :
        (n previous : ℕ)
        → (s.process n).phase ≡ waiting previous
        → (s.process previous).status.finished ≡ true
        → Step s (wake n s)
    collects : (n : ℕ) → (s.process n).phase ≡ ready → Step s (collect is_directory (request n) n s)
    finishes :
        (n : ℕ) (files : Option (List Text))
        → (s.process n).phase ≡ collected files
        → Step s (finish n s)

  pub data Reach : Scanner → Type 0 where
    start : Reach new_scanner
    later : {s t : Scanner} → Reach s → Step s t → Reach t
