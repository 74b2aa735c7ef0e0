-- ===== src/UploadBatch/Complete.antt =====
-- The batches hold the missing files, each once and with its content.
use mathlib.Core.List.{append_assoc}
use khulnasoft_lab_vulnmap_l.Prelude.Maps.{TextMap, lookup, store, lookup-store}
use khulnasoft_lab_vulnmap_l.Prelude.{
  Text, text_eq_iff, Bool, true, false, ◌≡◌, ◌≢◌, refl, ap, ◌∙◌, List, [], ◌∷◌, ◌++◌, map, none,
  All, arith,
}
use khulnasoft_lab_vulnmap_l.UploadBatch.{
  BundleFile, UploadBatch, new_upload_batch, can_fit_file, file_at, with_document, group_from,
  group_in_batches,
}

-- The documents of all batches, in the order in which they are uploaded.
abbrev pub documents_of : List UploadBatch → List (Text × BundleFile)
documents_of [] = []
documents_of (b ∷ bs) = b.documents ++ documents_of bs

-- No path stands twice.
abbrev pub UniquePaths : List Text → Type 0
UniquePaths [] = Unit
UniquePaths (p ∷ ps) = All (λ q. p ≢ q) ps × UniquePaths ps

-- None of the paths is in the map.
abbrev IsFresh : TextMap BundleFile → List Text → Type 0
IsFresh m ps = All (λ p. lookup p m ≡ none) ps

store_fresh :
    (k : Text) (v : BundleFile) (m : TextMap BundleFile)
    → lookup k m ≡ none
    → store k v m ≡ m ++ ((k, v) ∷ [])
unfolding lookup store
store_fresh k v [] e = refl
store_fresh k v ((j, w) ∷ m) e = ground (arith, store_fresh k v m)

store-IsFresh :
    (k : Text) (v : BundleFile) (m : TextMap BundleFile) (ps : List Text)
    → All (λ q. k ≢ q) ps
    → IsFresh m ps
    → IsFresh (store k v m) ps
store-IsFresh k v m [] ne h = tt
store-IsFresh k v m (p ∷ ps) ne h = (
  ground (arith, lookup-store k p v m, text_eq_iff k p, ne.0, h.0),
  store-IsFresh k v m ps ne.1 h.1,
)

alone-IsFresh :
    (k : Text) (v : BundleFile) (ps : List Text) → All (λ q. k ≢ q) ps → IsFresh (store k v []) ps
unfolding lookup store
alone-IsFresh k v [] ne = tt
alone-IsFresh k v (p ∷ ps) ne = (ground (arith, text_eq_iff k p, ne.0), alone-IsFresh k v ps ne.1)

lookup-none : (p : Text) → lookup {V = BundleFile} p [] ≡ none
unfolding lookup
lookup-none p = refl

empty-IsFresh : (ps : List Text) → IsFresh [] ps
unfolding lookup
empty-IsFresh [] = tt
empty-IsFresh (p ∷ ps) = (refl, empty-IsFresh ps)

module _ (files : TextMap BundleFile) where
  abbrev pub with_files : List Text → List (Text × BundleFile)
  with_files ps = map (λ p. (p, file_at files p)) ps

  one_more :
      (p : Text) (ps : List Text) (b : UploadBatch) (fit : Bool) (added started : List UploadBatch)
      → lookup p b.documents ≡ none
      → documents_of added ≡ store p (file_at files p) b.documents ++ with_files ps
      → documents_of started ≡ store p (file_at files p) [] ++ with_files ps
      → documents_of (elim fit [
        | true ↦ added
        | false ↦ (can_fit_file p (file_at files p).content b).1 ∷ started
      ])
        ≡ b.documents ++ with_files (p ∷ ps)
  one_more p ps b true added started free ea es =
      ea
      ∙ ap (λ ds. ds ++ with_files ps) (store_fresh p (file_at files p) b.documents free)
      ∙ append_assoc b.documents ((p, file_at files p) ∷ []) (with_files ps)
  one_more p ps b false added started free ea es =
      ap (λ ds. b.documents ++ ds)
        (es ∙ ap (λ ds. ds ++ with_files ps) (store_fresh p (file_at files p) [] (lookup-none p)))

  group_from-documents :
      (ps : List Text) (b : UploadBatch)
      → UniquePaths ps
      → IsFresh b.documents ps
      → documents_of (group_from files b ps) ≡ b.documents ++ with_files ps
  unfolding group_from
  group_from-documents [] b u f = refl
  group_from-documents (p ∷ ps) b u f =
      one_more p ps b (can_fit_file p (file_at files p).content b).0
        (group_from files
          (with_document p (file_at files p) (can_fit_file p (file_at files p).content b).1) ps)
        (group_from files (with_document p (file_at files p) new_upload_batch) ps) f.0
        (group_from-documents ps _ u.1 (store-IsFresh p (file_at files p) b.documents ps u.0 f.1))
        (group_from-documents ps _ u.1 (alone-IsFresh p (file_at files p) ps u.0))

  -- The documents of all batches, one batch after another, are the missing files in their order,
  -- each with its content, if no file is listed twice.
  pub group_in_batches-documents :
      (missing : List Text)
      → UniquePaths missing
      → documents_of (group_in_batches files missing) ≡ with_files missing
  unfolding group_in_batches
  group_in_batches-documents [] u = refl
  group_in_batches-documents (p ∷ ps) u =
      group_from-documents (p ∷ ps) new_upload_batch u (empty-IsFresh (p ∷ ps))
