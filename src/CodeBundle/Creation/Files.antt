-- ===== src/CodeBundle/Creation/Files.antt =====
-- What a bundle holds: only files of an admissible size, with the hashes that the backend is sent.
use khulnasoft_lab_vulnmap_l.Prelude.Maps.{TextMap, lookup, store, lookup-store, lookup-store_self}
use khulnasoft_lab_vulnmap_l.Prelude.{
  Text, text_eq, Bool, true, false, ◌≡◌, refl, List, [], ◌∷◌, ◌++◌, Option, none, some, All,
  All-append, inl, inr, Bool-cases, if◌then◌else◌,
}
use khulnasoft_lab_vulnmap_l.UploadBatch.{BundleFile}
use khulnasoft_lab_vulnmap_l.CodeBundle.{World, Answer, failed, answered, after}
use khulnasoft_lab_vulnmap_l.CodeBundle.Creation.{
  CodeScanState, Collection, empty_collection, has_size, get_file_from, file_key, is_member,
  add_file, add_content, add_supported, is_supported, collect_files,
}

module _ (hash : Text → Text) where
  -- The file under a key, and the hash under the same key.
  abbrev pub Agrees : Option BundleFile → Option Text → Type 0
  Agrees none none = Unit
  Agrees (some f) (some h) =
      (has_size f.content ≡ true) × (f.hash ≡ hash f.content) × (h ≡ hash f.content)
  Agrees (some f) none = ⊥
  Agrees none (some h) = ⊥

  abbrev pub IsPresent : TextMap BundleFile → Text → Type 0
  IsPresent files k = (f : BundleFile) × (lookup k files ≡ some f)

  -- Each file has an admissible size and its own hash, the hashes are those of the files, and the
  -- analysis is limited to files that are there.
  abbrev pub IsSound : Collection → Type 0
  IsSound c =
      ((k : Text) → Agrees (lookup k c.bundle_files) (lookup k c.file_hashes))
      × All (IsPresent c.bundle_files) c.limit_to_files

  stored-Agrees :
      (k j content : Text) (files : TextMap BundleFile) (hashes : TextMap Text)
      → has_size content ≡ true
      → Agrees (lookup j files) (lookup j hashes)
      → Agrees
          (lookup j (store k (get_file_from hash content) files))
          (lookup j (store k (hash content) hashes))
  stored-Agrees k j content files hashes size a =
      rw
        (
          lookup-store k j (get_file_from hash content) files,
          lookup-store k j (hash content) hashes,
        )
        (chosen (text_eq k j))
    where
      chosen :
          (same : Bool)
          → Agrees
              (if same then some (get_file_from hash content) else lookup j files)
              (if same then some (hash content) else lookup j hashes)
      chosen true = (size, refl, refl)
      chosen false = a

  pub IsPresent-store :
      (k j : Text) (f : BundleFile) (files : TextMap BundleFile)
      → IsPresent files j
      → IsPresent (store k f files) j
  IsPresent-store k j f files p = rw (lookup-store k j f files) (chosen (text_eq k j))
    where
      chosen :
          (same : Bool) → (g : BundleFile) × ((if same then some f else lookup j files) ≡ some g)
      chosen true = (f, refl)
      chosen false = p

  All-IsPresent :
      (k : Text) (f : BundleFile) (files : TextMap BundleFile) (ks : List Text)
      → All (IsPresent files) ks
      → All (IsPresent (store k f files)) ks
  All-IsPresent k f files [] h = tt
  All-IsPresent k f files (j ∷ ks) h =
      (IsPresent-store k j f files h.0, All-IsPresent k f files ks h.1)

  module _ (root_path : Text) (changed_files : List Text) where
    add_file-IsSound :
        (path content : Text) (c : Collection)
        → has_size content ≡ true
        → IsSound c
        → IsSound (add_file hash root_path changed_files path content c)
    unfolding add_file
    add_file-IsSound path content c size h = (
      λ k.
          stored-Agrees (file_key root_path path) k content c.bundle_files c.file_hashes size
            (h.0 k),
      limited (is_member path changed_files),
    )
      where
        files' : TextMap BundleFile
        files' = store (file_key root_path path) (get_file_from hash content) c.bundle_files

        limited :
            (changed : Bool)
            → All (IsPresent files') (
                if changed
                then c.limit_to_files ++ (file_key root_path path ∷ [])
                else c.limit_to_files)
        limited false = All-IsPresent _ _ c.bundle_files c.limit_to_files h.1
        limited true =
            All-append (IsPresent files') c.limit_to_files _
              (All-IsPresent _ _ c.bundle_files c.limit_to_files h.1)
              ((get_file_from hash content, lookup-store_self _ _ c.bundle_files), tt)

    module _ {W : Type 0} (x : World W) where
      add_content-IsSound :
          (path : Text) (content : Option Text) (c : Collection) (s : CodeScanState W)
          → IsSound c
          → IsSound (add_content x hash root_path changed_files path content c s).0
      unfolding add_content
      add_content-IsSound path none c s h = h
      add_content-IsSound path (some content) c s h = elim (Bool-cases (has_size content)) [
        | inl e ↦ rw e (add_file-IsSound path content c e h)
        | inr e ↦ rw e h
      ]

      add_supported-IsSound :
          (path : Text) (supported : Bool) (c : Collection) (s : CodeScanState W)
          → IsSound c
          → IsSound (add_supported x hash root_path changed_files path supported c s).0
      unfolding add_supported
      add_supported-IsSound path false c s h = h
      add_supported-IsSound path true c s h =
          add_content-IsSound path (x.read_file s.world path) c s h

      abbrev pub GathersSound : CodeScanState W × Answer (Option Collection) → Type 0
      GathersSound (s, failed e) = Unit
      GathersSound (s, answered none) = Unit
      GathersSound (s, answered (some c)) = IsSound c

      after-GathersSound :
          (path : Text) (paths : List Text) (c : Collection) (r : CodeScanState W × Answer Bool)
          → ((c' : Collection) (s : CodeScanState W)
              → IsSound c'
              → GathersSound (collect_files x hash root_path changed_files paths c' s))
          → IsSound c
          → GathersSound (
              after r
                (λ supported s.
                  collect_files x hash root_path changed_files paths
                    (add_supported x hash root_path changed_files path supported c s).0
                    (add_supported x hash root_path changed_files path supported c s).1)
                (λ s e. (s, failed e)))
      after-GathersSound path paths c (s, failed e) later h = tt
      after-GathersSound path paths c (s, answered supported) later h =
          later _ _ (add_supported-IsSound path supported c s h)

      unless_cancelled :
          (cancelled : Bool) (s : CodeScanState W)
          (r : CodeScanState W × Answer (Option Collection))
          → GathersSound r
          → GathersSound (elim cancelled [ true ↦ (s, answered none) | false ↦ r ])
      unless_cancelled true s r h = tt
      unless_cancelled false s r h = h

      collect_files-from :
          (paths : List Text) (c : Collection) (s : CodeScanState W)
          → IsSound c
          → GathersSound (collect_files x hash root_path changed_files paths c s)
      unfolding collect_files
      collect_files-from [] c s h = h
      collect_files-from (path ∷ paths) c s h =
          unless_cancelled (x.cancelled s.world) s _
            (after-GathersSound path paths c (is_supported x path s) (collect_files-from paths) h)

      empty-IsSound : IsSound empty_collection
      unfolding lookup
      empty-IsSound = (λ k. tt, tt)

      -- Whatever the backend, the file system and the cancellation do: if the loop over the files of a
      -- scan ends with a collection, then each file in it has a size from 1 to 1 MiB and the hash of
      -- its content, the hashes to send are the files' own under the same keys, and each file that
      -- the analysis is limited to is in the bundle.
      pub collect_files-IsSound :
          (paths : List Text) (s : CodeScanState W)
          → GathersSound (collect_files x hash root_path changed_files paths empty_collection s)
      collect_files-IsSound paths s = collect_files-from paths empty_collection s empty-IsSound
