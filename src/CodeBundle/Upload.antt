-- ===== src/CodeBundle/Upload.antt =====
-- Whether the uploads end: two rounds are enough for a backend that keeps count of what it misses.
use mathlib.Core.Path.{subst}
use mathlib.Core.List.{append_assoc, append-nil}
use khulnasoft_lab_vulnmap_l.Prelude.Maps.{TextMap}
use khulnasoft_lab_vulnmap_l.Prelude.{
  ℕ, suc, Text, text_eq, text_eq_refl, Bool, true, false, ◌||◌, ◌≡◌, refl, sym, ap, ◌∙◌, List, [],
  ◌∷◌, ◌++◌, Option, none, some, arith, if◌then◌else◌, inl, inr, All, Bool-cases,
}
use khulnasoft_lab_vulnmap_l.UploadBatch.{
  BundleFile, UploadBatch, file_at, group_in_batches, has_content,
}
use khulnasoft_lab_vulnmap_l.UploadBatch.Complete.{
  documents_of, with_files, UniquePaths, group_in_batches-documents,
}
use khulnasoft_lab_vulnmap_l.CodeBundle.{
  World, Bundle, Answer, failed, answered, after, or_stop, cancellation, upload_batch, upload_round,
  upload, after_extension,
}

-- The paths that are not among the documents.
abbrev holds : List (Text × BundleFile) → Text → Bool
holds [] p = false
holds ((k, file) ∷ ds) p = text_eq k p || holds ds p

abbrev pub without : List (Text × BundleFile) → List Text → List Text
without ds [] = []
without ds (p ∷ ps) = let rest = without ds ps in if holds ds p then rest else p ∷ rest

without_none : (ps : List Text) → without [] ps ≡ ps
without_none [] = refl
without_none (p ∷ ps) = ap (λ qs. p ∷ qs) (without_none ps)

holds-append :
    (ds es : List (Text × BundleFile)) (p : Text) → holds (ds ++ es) p ≡ (holds ds p || holds es p)
holds-append [] es p = refl
holds-append ((k, f) ∷ ds) es p = ground (arith, holds-append ds es p)

without-append :
    (ds es : List (Text × BundleFile)) (ps : List Text)
    → without es (without ds ps) ≡ without (ds ++ es) ps
without-append ds es [] = refl
without-append ds es (p ∷ ps) = ground (arith, without-append ds es ps, holds-append ds es p)

abbrev IsHeld : List (Text × BundleFile) → List Text → Type 0
IsHeld ds ps = All (λ p. holds ds p ≡ true) ps

IsHeld-more :
    (d : Text × BundleFile) (ds : List (Text × BundleFile)) (ps : List Text)
    → IsHeld ds ps
    → IsHeld (d ∷ ds) ps
IsHeld-more d ds [] h = tt
IsHeld-more (k, f) ds (p ∷ ps) h = (ground (arith, h.0), IsHeld-more (k, f) ds ps h.1)

with_files-IsHeld : (files : TextMap BundleFile) (ps : List Text) → IsHeld (with_files files ps) ps
with_files-IsHeld files [] = tt
with_files-IsHeld files (p ∷ ps) = (
  ground (arith, text_eq_refl p),
  IsHeld-more (p, file_at files p) (with_files files ps) ps (with_files-IsHeld files ps),
)

without-IsHeld :
    (ds : List (Text × BundleFile)) (ps : List Text) → IsHeld ds ps → without ds ps ≡ []
without-IsHeld ds [] h = refl
without-IsHeld ds (p ∷ ps) h = rw h.0 (without-IsHeld ds ps h.1)

-- No path is left once the documents of all were sent.
all_sent : (files : TextMap BundleFile) (ps : List Text) → without (with_files files ps) ps ≡ []
all_sent files ps = without-IsHeld (with_files files ps) ps (with_files-IsHeld files ps)

module _ {W : Type 0} (x : World W) (needs : W → List Text) where
  -- A backend that keeps count: it misses the same files as before but those it is sent, and says so.
  pub record IsExact : Type 0 where
    pub extend-needs :
        (hash : Text) (ds : TextMap BundleFile) (w : W)
        → needs (x.extend_bundle hash ds w).0 ≡ without ds (needs w)
    pub extend-missing :
        (hash : Text) (ds : TextMap BundleFile) (w : W) (answer : Text × List Text)
        → (x.extend_bundle hash ds w).1 ≡ answered answer
        → answer.1 ≡ needs (x.extend_bundle hash ds w).0

  -- What the batches of a round do to the bundle, if no error ends it.
  abbrev Sends : List UploadBatch → Bundle → W → W × Answer Bundle → Type 0
  Sends bs b w (w', failed e) = Unit
  Sends bs b w (w', answered b') =
      (b'.missing_files ≡ needs w')
      × (needs w' ≡ without (documents_of bs) (needs w))
      × (b'.upload_batches ≡ b.upload_batches ++ bs)

  after_extension-Sends :
      (batch : UploadBatch) (b : Bundle) (w w' : W) (r : Answer (Text × List Text))
      → ((answer : Text × List Text) → r ≡ answered answer → answer.1 ≡ needs w')
      → needs w' ≡ without batch.documents (needs w)
      → Sends (batch ∷ []) b w (w', after_extension batch b r)
  unfolding after_extension
  after_extension-Sends batch b w w' (failed e) m n = tt
  after_extension-Sends batch b w w' (answered (h, missing)) m n = (
    m (h, missing) refl,
    n ∙ ap (λ ds. without ds (needs w)) (sym (append-nil batch.documents)),
    refl,
  )

  no_documents :
      (h : Text) (ds : TextMap BundleFile) (n : ℕ)
      → has_content (record { hash = h; documents = ds; size = n }) ≡ false
      → ds ≡ []
  no_documents h [] n e = refl
  no_documents h (d ∷ ds) n e = cc e

  upload_batch-Sends :
      IsExact
      → (batch : UploadBatch) (b : Bundle) (w : W) → b.missing_files ≡ needs w
      → Sends (batch ∷ []) b w (upload_batch x batch b w)
  unfolding upload_batch
  upload_batch-Sends exact batch b w e = elim (Bool-cases (has_content batch)) [
    | inl c ↦ rw c (
        after_extension-Sends batch b w (x.extend_bundle b.bundle_hash batch.documents w).0
          (x.extend_bundle b.bundle_hash batch.documents w).1
          (exact.extend-missing b.bundle_hash batch.documents w)
          (exact.extend-needs b.bundle_hash batch.documents w))
    | inr c ↦ rw c (
      e,
      sym (
          ap (λ ds. without (ds ++ []) (needs w))
            (no_documents batch.hash batch.documents batch.size c)
          ∙ without_none (needs w)),
      refl,
    )
  ]

  after-Sends :
      (batch : UploadBatch) (bs : List UploadBatch) (b : Bundle) (w : W) (r : W × Answer Bundle)
      → Sends (batch ∷ []) b w r
      → ((b' : Bundle) (w' : W)
          → b'.missing_files ≡ needs w'
          → Sends bs b' w' (upload_round x bs b' w'))
      → Sends (batch ∷ bs) b w (after r (upload_round x bs) (λ w' e. (w', failed e)))
  after-Sends batch bs b w (w', failed e) s later = tt
  after-Sends batch bs b w (w', answered b') s later =
      joined (upload_round x bs b' w') (later b' w' s.0)
    where
      joined : (r : W × Answer Bundle) → Sends bs b' w' r → Sends (batch ∷ bs) b w r
      joined (w'', failed e) t = tt
      joined (w'', answered b'') t = (
        t.0,
        t.1
            ∙ ap (λ ns. without (documents_of bs) ns)
                (s.1 ∙ ap (λ ds. without ds (needs w)) (append-nil batch.documents))
            ∙ without-append batch.documents (documents_of bs) (needs w),
        t.2 ∙ ap (λ us. us ++ bs) s.2 ∙ append_assoc b.upload_batches (batch ∷ []) bs,
      )

  unless_cancelled :
      (c : Bool) (bs : List UploadBatch) (b : Bundle) (w : W) (r : W × Answer Bundle)
      → Sends bs b w r
      → Sends bs b w (elim c [ true ↦ (w, failed cancellation) | false ↦ r ])
  unless_cancelled true bs b w r s = tt
  unless_cancelled false bs b w r s = s

  upload_round-Sends :
      IsExact
      → (bs : List UploadBatch) (b : Bundle) (w : W) → b.missing_files ≡ needs w
      → Sends bs b w (upload_round x bs b w)
  unfolding upload_round
  upload_round-Sends exact [] b w e =
      (e, sym (without_none (needs w)), sym (append-nil b.upload_batches))
  upload_round-Sends exact (batch ∷ bs) b w e =
      unless_cancelled (x.cancelled w) (batch ∷ bs) b w
        (after (upload_batch x batch b w) (upload_round x bs) (λ w' e. (w', failed e)))
        (after-Sends batch bs b w (upload_batch x batch b w) (upload_batch-Sends exact batch b w e)
          (upload_round-Sends exact bs))

  documents_of-append :
      (bs cs : List UploadBatch) → documents_of (bs ++ cs) ≡ documents_of bs ++ documents_of cs
  documents_of-append [] cs = refl
  documents_of-append (b ∷ bs) cs =
      ap (λ ds. b.documents ++ ds) (documents_of-append bs cs)
      ∙ sym (append_assoc b.documents (documents_of bs) (documents_of cs))

  -- An upload that returns, and that misses no file any more unless it failed: then the documents
  -- sent after those of the bundle are the given ones.
  abbrev pub Completes : Bundle → List (Text × BundleFile) → Option (W × Answer Bundle) → Type 0
  Completes b ds none = ⊥
  Completes b ds (some (w', failed e)) = Unit
  Completes b ds (some (w', answered b')) =
      (b'.missing_files ≡ [])
      × (documents_of b'.upload_batches ≡ documents_of b.upload_batches ++ ds)

  module _ (files : TextMap BundleFile) where
    pub upload_nothing :
        (n : ℕ) (b : Bundle) (w : W)
        → b.missing_files ≡ []
        → upload x files (suc n) b w ≡ some (w, answered b)
    unfolding upload
    upload_nothing n b w e = rw e refl

    upload_something :
        (n : ℕ) (b : Bundle) (w : W) (p : Text) (ps : List Text)
        → b.missing_files ≡ p ∷ ps
        → upload x files (suc n) b w
          ≡ or_stop (group_in_batches files (p ∷ ps)) (some (w, answered b)) (
              after
                (upload_round x (group_in_batches files (p ∷ ps)) b w)
                (upload x files n)
                (λ w' e. some (w', failed e)))
    unfolding upload
    upload_something n b w p ps e = rw e refl

    -- A round in which everything is sent ends the uploads.
    last_round :
        (bs : List UploadBatch) (b : Bundle) (w : W) (r : W × Answer Bundle)
        → without (documents_of bs) (needs w) ≡ []
        → Sends bs b w r
        → Completes b (documents_of bs) (after r (upload x files 1) (λ w' e. some (w', failed e)))
    last_round bs b w (w', failed e) left s = tt
    last_round bs b w (w', answered b') left s =
        rw (upload_nothing 0 b' w' (s.0 ∙ s.1 ∙ left))
          (s.0 ∙ s.1 ∙ left, ap documents_of s.2 ∙ documents_of-append b.upload_batches bs)

    -- The check for a round without batches decides nothing.
    or_stop-Completes :
        (bs : List UploadBatch) (b : Bundle) (w : W) (go : Option (W × Answer Bundle))
        → (bs ≡ [] → b.missing_files ≡ [])
        → Completes b (documents_of bs) go
        → Completes b (documents_of bs) (or_stop bs (some (w, answered b)) go)
    or_stop-Completes [] b w go left c =
        (left refl, sym (append-nil (documents_of b.upload_batches)))
    or_stop-Completes (batch ∷ bs) b w go left c = c

    -- With a backend that keeps count of the files it misses, and missing files of which none is
    -- listed twice, two rounds of the outer loop are enough: the upload returns, and unless it
    -- fails or is cancelled, no file is missing in the end, and the documents sent are exactly the
    -- missing files, each once and with its content.
    pub upload-Completes :
        IsExact
        → (b : Bundle) (w : W) → b.missing_files ≡ needs w
        → UniquePaths b.missing_files
        → Completes b (with_files files b.missing_files) (upload x files 2 b w)
    upload-Completes exact b w e u = by_missing b.missing_files refl
      where
        unique : {ps : List Text} → b.missing_files ≡ ps → UniquePaths ps
        unique m = subst (λ qs. UniquePaths qs) m u

        everything :
            {p : Text} {ps : List Text}
            → b.missing_files ≡ p ∷ ps
            → without (documents_of (group_in_batches files (p ∷ ps))) (needs w) ≡ []
        everything {p = p} {ps = ps} m =
            ap (λ ds. without ds (needs w)) (group_in_batches-documents files (p ∷ ps) (unique m))
            ∙ ap (λ ns. without (with_files files (p ∷ ps)) ns) (sym e ∙ m)
            ∙ all_sent files (p ∷ ps)

        by_missing :
            (ps : List Text)
            → b.missing_files ≡ ps
            → Completes b (with_files files ps) (upload x files 2 b w)
        by_missing [] m =
            rw (upload_nothing 1 b w m) (m, sym (append-nil (documents_of b.upload_batches)))
        by_missing (p ∷ ps) m = rw (upload_something 1 b w p ps m) (
            subst
              (λ ds. Completes b ds (
                or_stop (group_in_batches files (p ∷ ps)) (some (w, answered b)) (
                  after (upload_round x (group_in_batches files (p ∷ ps)) b w) (upload x files 1)
                    (λ w' e. some (w', failed e)))))
              (group_in_batches-documents files (p ∷ ps) (unique m))
              (or_stop-Completes (group_in_batches files (p ∷ ps)) b w _
                (λ none_left. cc (
                  sym (ap documents_of none_left)
                  ∙ group_in_batches-documents files (p ∷ ps) (unique m)))
                (last_round (group_in_batches files (p ∷ ps)) b w _ (everything m)
                  (upload_round-Sends exact (group_in_batches files (p ∷ ps)) b w e))))
