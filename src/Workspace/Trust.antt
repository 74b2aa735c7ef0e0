-- ===== src/Workspace/Trust.antt =====
-- `TrustFoldersAndScan` and the dialog that leads to it, in `HandleUntrustedFolders`.
use khulnasoft_lab_vulnmap_l.Prelude.Maps.{TextMap}
use khulnasoft_lab_vulnmap_l.Prelude.Strings.{has_prefix_self}
use khulnasoft_lab_vulnmap_l.Prelude.{
  Text, codes, text_eq, text_eq_refl, ◌≡◌, refl, ap, ◌∙◌, Bool, true, false, ◌||◌, inl, inr, List,
  [], ◌∷◌, ◌++◌, map, Option, none, some, if◌then◌else◌, arith, All, Bool-cases,
}
use mathlib.Core.List.{append_assoc, append-nil}
use khulnasoft_lab_vulnmap_l.Externals.{Externals}
use khulnasoft_lab_vulnmap_l.Config.{Config, set_trusted_folders}
use khulnasoft_lab_vulnmap_l.Folder.{
  Folder, ScanData, Effect, send_trusted_folders, is_trusted, has_trusted_prefix,
}
use khulnasoft_lab_vulnmap_l.Folder.Scan.{scan_folder}
use khulnasoft_lab_vulnmap_l.Workspace.{
  Workspace, write_back, set_trust_request, get_folder_trust, untrusted_among,
}

abbrev pub do_trust : Text
do_trust = codes "Trust folders and continue"

module _ (x : Externals) (deliveries : Text → List ScanData) where
  -- The loop: each folder's path is added to the settings, and then the folder is scanned.
  trust_each : List Text → List Folder → Config → Workspace → Config × Workspace × List Effect
  trust_each paths [] c w = (c, w, send_trusted_folders paths ∷ [])
  trust_each paths (f ∷ fs) c w =
      let paths' = paths ++ (f.path ∷ []) in
      let c' = set_trusted_folders paths' c in
      let (w', sent) = write_back (scan_folder x c' (deliveries f.path) f) w in
      let (c'', w'', later) = trust_each paths' fs c' w' in (c'', w'', sent ++ later)

  -- `TrustFoldersAndScan`
  unfoldable pub trust_folders_and_scan :
      List Folder → Config → Workspace → Config × Workspace × List Effect
  unfolding trust_each
  trust_folders_and_scan to_be_trusted c w = trust_each c.trusted_folders to_be_trusted c w

  decided : Option Text → List Folder → Config → Workspace → Config × Workspace × List Effect
  unfolding trust_folders_and_scan
  decided none untrusted c w = (c, w, [])
  decided (some title) untrusted c w =
      let trusting = trust_folders_and_scan untrusted c w in
      if text_eq title do_trust then trusting else (c, w, [])

  asked : Option Text → List Folder → Config → Workspace → Config × Workspace × List Effect
  unfolding decided
  asked answer [] c w = (c, w, [])
  asked answer (f ∷ fs) c w = decided answer (f ∷ fs) c w

  -- `HandleUntrustedFolders`. The answer is the title of the chosen action, or `none` when the
  -- dialog fails.
  unfoldable pub handle_untrusted_folders :
      Option Text → Config → Workspace → Config × Workspace × List Effect
  unfolding asked set_trust_request get_folder_trust
  handle_untrusted_folders answer c w =
      let (c', w', sent) = asked answer (get_folder_trust c w).1 c (set_trust_request true w) in
      if w.trust_request_ongoing then (c, w, []) else (c', set_trust_request false w', sent)

-- `Execute` of `trustWorkspaceFoldersCommand`
unfoldable pub trust_workspace_folders : Config → Workspace → Config × List Effect
unfolding get_folder_trust
trust_workspace_folders c w =
    let paths = c.trusted_folders ++ map (λ (f : Folder). f.path) (get_folder_trust c w).1 in
    if c.trusted_folders_feature_enabled
    then (set_trusted_folders paths c, send_trusted_folders paths ∷ [])
    else (c, [])

has_trusted_prefix-append :
    (path : Text) (ps qs : List Text)
    → has_trusted_prefix path (ps ++ qs)
      ≡ (has_trusted_prefix path ps || has_trusted_prefix path qs)
unfolding has_trusted_prefix
has_trusted_prefix-append path [] qs = refl
has_trusted_prefix-append path (p ∷ ps) qs = ground (arith, has_trusted_prefix-append path ps qs)

abbrev paths_of : List Folder → List Text
paths_of fs = map (λ (f : Folder). f.path) fs

abbrev trusting : List Text → Config → Config
trusting paths c = record c { trusted_folders = paths }

trusts : Config → Folder → List Text → Bool
trusts c f paths = is_trusted (trusting paths c) f

-- More trusted paths trust every folder that fewer do.
is_trusted-more :
    (c : Config) (f : Folder) (ps qs rs : List Text)
    → is_trusted (trusting qs c) f ≡ true
    → is_trusted (trusting (ps ++ (qs ++ rs)) c) f ≡ true
unfolding is_trusted
is_trusted-more c f ps qs rs h =
    ground (
      arith,
      has_trusted_prefix-append f.path ps (qs ++ rs),
      has_trusted_prefix-append f.path qs rs,
    )

is_trusted_extended :
    (c : Config) (qs : List Text) (f : Folder)
    → is_trusted c f ≡ true
    → is_trusted (trusting (c.trusted_folders ++ qs) c) f ≡ true
unfolding is_trusted
is_trusted_extended c qs f h = ground (arith, has_trusted_prefix-append f.path c.trusted_folders qs)

feature_off :
    (c : Config) (m : TextMap Folder)
    → c.trusted_folders_feature_enabled ≡ false
    → untrusted_among c m ≡ []
unfolding untrusted_among is_trusted
feature_off c [] h = refl
feature_off c ((key, f) ∷ m) h = ground (arith, feature_off c m)

-- A folder is trusted once its own path is.
is_trusted_own : (c : Config) (f : Folder) → is_trusted (trusting (f.path ∷ []) c) f ≡ true
unfolding is_trusted has_trusted_prefix
is_trusted_own c f = ground (arith, has_prefix_self f.path)

-- Each folder of a list is trusted, once the paths of the list are.
own_paths_trusted :
    (c : Config) (fs : List Folder) (ps : List Text)
    → All (λ f. is_trusted (trusting (ps ++ paths_of fs) c) f ≡ true) fs
own_paths_trusted c [] ps = tt
own_paths_trusted c (f ∷ fs) ps = (
  is_trusted-more c f ps (f.path ∷ []) (paths_of fs) (is_trusted_own c f),
  rw (append_assoc ps (f.path ∷ []) (paths_of fs)) at
      (own_paths_trusted c fs (ps ++ (f.path ∷ []))),
)

none_untrusted :
    (c c' : Config) (m : TextMap Folder)
    → ((f : Folder) → is_trusted c f ≡ true → is_trusted c' f ≡ true)
    → All (λ f. is_trusted c' f ≡ true) (untrusted_among c m)
    → untrusted_among c' m ≡ []
unfolding untrusted_among
none_untrusted c c' [] more h = refl
none_untrusted c c' ((key, f) ∷ m) more h = elim (Bool-cases (is_trusted c f)) [
  | inl e ↦ rw (more f e) (none_untrusted c c' m more (rw e at h))
  | inr e ↦
      let h' : (is_trusted c' f ≡ true) × All (λ g. is_trusted c' g ≡ true) (untrusted_among c m) =
        rw e at h in
      rw h'.0 (none_untrusted c c' m more h'.1)
]

abbrev all_paths : Config → Workspace → List Text
all_paths c w = c.trusted_folders ++ paths_of (untrusted_among c w.folders)

extended :
    (c : Config) (w : Workspace) → untrusted_among (trusting (all_paths c w) c) w.folders ≡ []
extended c w =
    none_untrusted c (trusting (all_paths c w) c) w.folders
      (is_trusted_extended c (paths_of (untrusted_among c w.folders)))
      (own_paths_trusted c (untrusted_among c w.folders) c.trusted_folders)

-- The command that trusts the workspace leaves no folder of the workspace untrusted, with the
-- trust feature on or off.
pub trust_workspace_folders-none_untrusted :
    (c : Config) (w : Workspace) → (get_folder_trust (trust_workspace_folders c w).0 w).1 ≡ []
unfolding trust_workspace_folders get_folder_trust
trust_workspace_folders-none_untrusted c w = elim (Bool-cases c.trusted_folders_feature_enabled) [
  | inl e ↦ simp e (unfold set_trusted_folders in extended c w)
  | inr e ↦ simp e (feature_off c w.folders e)
]

module _ (x : Externals) (deliveries : Text → List ScanData) where
  -- The workspace after the scan of `f`.
  abbrev scanned : Folder → Config → Workspace → Workspace
  scanned f c w =
      (write_back
        (scan_folder x (trusting (c.trusted_folders ++ (f.path ∷ [])) c) (deliveries f.path) f) w).0

  -- The loop ends with the paths of all its folders added.
  trust_each-config :
      (fs : List Folder) (c : Config) (w : Workspace)
      → (trust_each x deliveries c.trusted_folders fs c w).0
        ≡ trusting (c.trusted_folders ++ paths_of fs) c
  unfolding trust_each set_trusted_folders
  trust_each-config [] c w = rw append-nil
  trust_each-config (f ∷ fs) c w =
      trust_each-config fs (trusting (c.trusted_folders ++ (f.path ∷ [])) c) (scanned f c w)
      ∙ ap (λ (ps : List Text). trusting ps c)
          (append_assoc c.trusted_folders (f.path ∷ []) (paths_of fs))

  asked-config :
      (c : Config) (fs : List Folder) (w : Workspace)
      → (asked x deliveries (some do_trust) fs c w).0
        ≡ trusting (c.trusted_folders ++ paths_of fs) c
  unfolding asked trust_folders_and_scan
  asked-config c [] w = rw append-nil
  asked-config c (f ∷ fs) w = rw (text_eq_refl do_trust) (trust_each-config (f ∷ fs) c w)

  -- When no trust request is under way and the user chooses to trust, every folder that the
  -- workspace held is trusted under the settings that result.
  pub accepted_dialog_trusts_all :
      (c : Config) (w : Workspace)
      → w.trust_request_ongoing ≡ false
      → untrusted_among (handle_untrusted_folders x deliveries (some do_trust) c w).0 w.folders ≡ []
  unfolding handle_untrusted_folders
  accepted_dialog_trusts_all c w h =
      simp (h, asked-config c (untrusted_among c w.folders) (set_trust_request true w))
        (extended c w)
