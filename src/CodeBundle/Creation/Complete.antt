-- ===== src/CodeBundle/Creation/Complete.antt =====
-- Which files a bundle holds, once the filters are loaded.
use mathlib.Core.List.{append_assoc, append-nil}
use khulnasoft_lab_vulnmap_l.Prelude.Maps.{lookup-store_self}
use khulnasoft_lab_vulnmap_l.Prelude.{
  Text, Bool, true, false, ◌≡◌, refl, sym, ap, ◌∙◌, List, [], ◌∷◌, ◌++◌, Option, none, some, All,
  inl, inr, Bool-cases, arith, if◌then◌else◌,
}
use khulnasoft_lab_vulnmap_l.CodeBundle.{World, failed, answered, after}
use khulnasoft_lab_vulnmap_l.CodeBundle.Analysis.{ScanEvent}
use khulnasoft_lab_vulnmap_l.CodeBundle.Creation.{
  BundleUploader, CodeScanState, Collection, empty_collection, has_size, get_file_from, file_key,
  is_member, path_events, matches_filters, is_unloaded, add_file, add_content, add_supported,
  is_supported, collect_files,
}
use khulnasoft_lab_vulnmap_l.CodeBundle.Creation.Files.{IsPresent, IsPresent-store}

if_running :
    {R : Type 0} (cancelled : Bool) (stop go : R)
    → cancelled ≡ false
    → (elim cancelled [ true ↦ stop | false ↦ go ]) ≡ go
if_running true stop go e = cc e
if_running false stop go e = refl

module _ {W : Type 0} (x : World W) where
  abbrev with_content : Text → Option Text → List (Text × Text) → List (Text × Text)
  with_content path none rest = rest
  with_content path (some content) rest = if has_size content then (path, content) ∷ rest else rest

  -- The supported files that can be read and have an admissible size, with their contents.
  abbrev pub admissible : BundleUploader → W → List Text → List (Text × Text)
  admissible u w [] = []
  admissible u w (path ∷ paths) =
      let rest = admissible u w paths in
      if matches_filters path u then with_content path (x.read_file w path) rest else rest

  module _ (hash : Text → Text) (root_path : Text) (changed_files : List Text) where
    abbrev gathered : List (Text × Text) → Collection → Collection
    gathered [] c = c
    gathered ((path, content) ∷ fs) c =
        gathered fs (add_file hash root_path changed_files path content c)

    abbrev told : List (Text × Text) → List ScanEvent
    told [] = []
    told ((path, content) ∷ fs) = path_events root_path path ++ told fs

    -- The keys of the changed ones.
    abbrev pub changed_keys : List (Text × Text) → List Text
    changed_keys [] = []
    changed_keys ((path, content) ∷ fs) =
        let rest = changed_keys fs in
        if is_member path changed_files then file_key root_path path ∷ rest else rest

    abbrev state_after : List (Text × Text) → CodeScanState W → CodeScanState W
    state_after fs s = record s { events = s.events ++ told fs }

    abbrev adds : Text → Bool → Collection → CodeScanState W → Collection × CodeScanState W
    adds path supported c s = add_supported x hash root_path changed_files path supported c s

    abbrev Goes : List Text → Collection → CodeScanState W → List (Text × Text) → Type 0
    Goes paths c s fs =
        collect_files x hash root_path changed_files paths c s
        ≡ (state_after fs s, answered (some (gathered fs c)))

    is_supported-loaded :
        (path : Text) (s : CodeScanState W)
        → is_unloaded s.uploader ≡ false
        → is_supported x path s ≡ (s, answered (matches_filters path s.uploader))
    unfolding is_supported
    is_supported-loaded path s e = rw e refl

    collect-step :
        (path : Text) (paths : List Text) (c : Collection) (s : CodeScanState W)
        → is_unloaded s.uploader ≡ false
        → x.cancelled s.world ≡ false
        → collect_files x hash root_path changed_files (path ∷ paths) c s
          ≡ collect_files x hash root_path changed_files paths
              (adds path (matches_filters path s.uploader) c s).0
              (adds path (matches_filters path s.uploader) c s).1
    unfolding collect_files
    collect-step path paths c s loaded running =
        if_running (x.cancelled s.world) _ _ running
        ∙ (ap
            (λ r.
              after r
                (λ supported s'.
                  collect_files x hash root_path changed_files paths (adds path supported c s').0
                    (adds path supported c s').1)
                (λ s' e. (s', failed e)))
            (is_supported-loaded path s loaded))

    -- The files of one path, if it is admissible.
    abbrev one : BundleUploader → W → Text → List (Text × Text)
    one u w path = if matches_filters path u then with_content path (x.read_file w path) [] else []

    nothing_told :
        (c : Collection) (s : CodeScanState W)
        → ◌≡◌ {A = Collection × CodeScanState W} (c, s) (gathered [] c, state_after [] s)
    nothing_told c s = ap (λ es. (c, record s { events = es })) (sym (append-nil s.events))

    adds-content :
        (path : Text) (content : Option Text) (c : Collection) (s : CodeScanState W)
        → add_content x hash root_path changed_files path content c s ≡ (
          gathered (with_content path content []) c,
          state_after (with_content path content []) s,
        )
    unfolding add_content
    adds-content path none c s = nothing_told c s
    adds-content path (some content) c s = elim (Bool-cases (has_size content)) [
      | inl e ↦ rw e (
          ap
            (λ es. (
              add_file hash root_path changed_files path content c,
              record s { events = s.events ++ es },
            ))
            (sym (append-nil (path_events root_path path))))
      | inr e ↦ rw e (nothing_told c s)
    ]

    adds-one :
        (path : Text) (supported : Bool) (c : Collection) (s : CodeScanState W)
        → adds path supported c s ≡ (
          gathered (if supported then with_content path (x.read_file s.world path) [] else []) c,
          state_after (if supported then with_content path (x.read_file s.world path) [] else []) s,
        )
    unfolding add_supported
    adds-one path false c s = nothing_told c s
    adds-one path true c s = adds-content path (x.read_file s.world path) c s

    with_content-one :
        (path : Text) (content : Option Text) (rest : List (Text × Text))
        → with_content path content rest ≡ with_content path content [] ++ rest
    with_content-one path none rest = refl
    with_content-one path (some content) rest = ground (arith, has_size content)

    admissible-one :
        (u : BundleUploader) (w : W) (path : Text) (paths : List Text)
        → admissible u w (path ∷ paths) ≡ one u w path ++ admissible u w paths
    admissible-one u w path paths = elim (Bool-cases (matches_filters path u)) [
      | inl e ↦ rw e (with_content-one path (x.read_file w path) (admissible u w paths))
      | inr e ↦ rw e refl
    ]

    gathered-append :
        (fs gs : List (Text × Text)) (c : Collection)
        → gathered (fs ++ gs) c ≡ gathered gs (gathered fs c)
    gathered-append [] gs c = refl
    gathered-append ((path, content) ∷ fs) gs c = gathered-append fs gs _

    told-append : (fs gs : List (Text × Text)) → told (fs ++ gs) ≡ told fs ++ told gs
    told-append [] gs = refl
    told-append ((path, content) ∷ fs) gs =
        ap (λ es. path_events root_path path ++ es) (told-append fs gs)
        ∙ sym (append_assoc (path_events root_path path) (told fs) (told gs))

    state_after-append :
        (fs gs : List (Text × Text)) (s : CodeScanState W)
        → state_after gs (state_after fs s) ≡ state_after (fs ++ gs) s
    state_after-append fs gs s =
        ap (λ es. record s { events = es })
          (append_assoc s.events (told fs) (told gs)
            ∙ ap (λ es. s.events ++ es) (sym (told-append fs gs)))

    collect-nil :
        (c : Collection) (s : CodeScanState W)
        → collect_files x hash root_path changed_files [] c s ≡ (s, answered (some c))
    unfolding collect_files
    collect-nil c s = refl

    collect_files-gathered :
        (paths : List Text) (c : Collection) (s : CodeScanState W)
        → is_unloaded s.uploader ≡ false
        → x.cancelled s.world ≡ false
        → Goes paths c s (admissible s.uploader s.world paths)
    collect_files-gathered [] c s loaded running =
        collect-nil c s ∙ ap (λ r. (r.1, answered (some r.0))) (nothing_told c s)
    collect_files-gathered (path ∷ paths) c s loaded running =
        collect-step path paths c s loaded running
        ∙ ap (λ r. collect_files x hash root_path changed_files paths r.0 r.1)
            (adds-one path (matches_filters path s.uploader) c s)
        ∙ collect_files-gathered paths (gathered (one s.uploader s.world path) c)
            (state_after (one s.uploader s.world path) s) loaded running
        ∙ ap
            (λ t. (
              t,
              answered (
                  some (
                    gathered (admissible s.uploader s.world paths)
                      (gathered (one s.uploader s.world path) c))),
            ))
            (state_after-append (one s.uploader s.world path) (admissible s.uploader s.world paths)
              s)
        ∙ ap
            (λ g. (
              state_after (one s.uploader s.world path ++ admissible s.uploader s.world paths) s,
              answered (some g),
            ))
            (sym (
              gathered-append (one s.uploader s.world path) (admissible s.uploader s.world paths)
                c))
        ∙ ap (λ fs. (state_after fs s, answered (some (gathered fs c))))
            (sym (admissible-one s.uploader s.world path paths))

    added-IsPresent :
        (k path content : Text) (c : Collection)
        → IsPresent hash c.bundle_files k
        → IsPresent hash (add_file hash root_path changed_files path content c).bundle_files k
    unfolding add_file
    added-IsPresent k path content c p =
        IsPresent-store hash (file_key root_path path) k (get_file_from hash content) c.bundle_files
          p

    own-IsPresent :
        (path content : Text) (c : Collection)
        → IsPresent hash
            (add_file hash root_path changed_files path content c).bundle_files
            (file_key root_path path)
    unfolding add_file
    own-IsPresent path content c = (
      get_file_from hash content,
      lookup-store_self (file_key root_path path) (get_file_from hash content) c.bundle_files,
    )

    IsPresent-later :
        (k : Text) (fs : List (Text × Text)) (c : Collection)
        → IsPresent hash c.bundle_files k
        → IsPresent hash (gathered fs c).bundle_files k
    IsPresent-later k [] c p = p
    IsPresent-later k ((path, content) ∷ fs) c p =
        IsPresent-later k fs _ (added-IsPresent k path content c p)

    gathered-IsPresent :
        (fs : List (Text × Text)) (c : Collection)
        → All (λ f. IsPresent hash (gathered fs c).bundle_files (file_key root_path f.0)) fs
    gathered-IsPresent [] c = tt
    gathered-IsPresent ((path, content) ∷ fs) c = (
      IsPresent-later (file_key root_path path) fs _ (own-IsPresent path content c),
      gathered-IsPresent fs _,
    )

    gathered-limit :
        (fs : List (Text × Text)) (c : Collection)
        → (gathered fs c).limit_to_files ≡ c.limit_to_files ++ changed_keys fs
    unfolding add_file
    gathered-limit [] c = sym (append-nil c.limit_to_files)
    gathered-limit ((path, content) ∷ fs) c =
        gathered-limit fs (add_file hash root_path changed_files path content c)
        ∙ one_limit (is_member path changed_files) (file_key root_path path) c.limit_to_files
            (changed_keys fs)
      where
        one_limit :
            (changed : Bool) (k : Text) (limit ks : List Text)
            → (if changed then limit ++ (k ∷ []) else limit) ++ ks
              ≡ limit ++ (if changed then k ∷ ks else ks)
        one_limit true k limit ks = append_assoc limit (k ∷ []) ks
        one_limit false k limit ks = refl

    -- If the filters are loaded and the scan is not cancelled, the loop over the files ends with a
    -- collection in which each supported file is present that can be read and has an admissible
    -- size, and to which, of these, exactly the changed ones limit the analysis, in their order.
    pub collect_files-admissible :
        (paths : List Text) (s : CodeScanState W)
        → is_unloaded s.uploader ≡ false
        → x.cancelled s.world ≡ false
        → (c : Collection) × ((collect_files x hash root_path changed_files paths empty_collection
              s).1
            ≡ answered (some c))
          × All
              (λ f. IsPresent hash c.bundle_files (file_key root_path f.0))
              (admissible s.uploader s.world paths)
          × (c.limit_to_files ≡ changed_keys (admissible s.uploader s.world paths))
    collect_files-admissible paths s loaded running = (
      gathered (admissible s.uploader s.world paths) empty_collection,
      ap (λ r. r.1) (collect_files-gathered paths empty_collection s loaded running),
      gathered-IsPresent (admissible s.uploader s.world paths) empty_collection,
      gathered-limit (admissible s.uploader s.world paths) empty_collection,
    )
