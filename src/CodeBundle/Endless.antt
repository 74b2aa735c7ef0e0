-- ===== src/CodeBundle/Endless.antt =====
-- The outer loop of `Upload` has no bound: a backend that goes on reporting missing files keeps it busy.
use mathlib.Core.Path.{subst}
use khulnasoft_lab_vulnmap_l.Prelude.Maps.{TextMap}
use khulnasoft_lab_vulnmap_l.Prelude.{
  ℕ, zero, suc, Text, Bool, true, false, ◌≡◌, refl, ◌∙◌, List, [], ◌∷◌, Option, none, some, inl,
  inr, Bool-cases,
}
use khulnasoft_lab_vulnmap_l.UploadBatch.{
  BundleFile, UploadBatch, group_in_batches, group_from, can_fit_file, file_at, has_content,
  new_upload_batch,
}
use khulnasoft_lab_vulnmap_l.CodeBundle.{
  World, Bundle, Answer, failed, answered, after, or_stop, cancellation, after_extension,
  upload_batch, upload_round, upload,
}

module _ {W : Type 0} (x : World W) where
  -- A scan that is not cancelled, and a backend that answers each request with a missing file.
  pub record IsStuck : Type 0 where
    pub not_cancelled : (w : W) → x.cancelled w ≡ false
    pub extend-answers :
        (hash : Text) (ds : TextMap BundleFile) (w : W)
        → (h : Text) × (p : Text) × (ps : List Text) × ((x.extend_bundle hash ds w).1
            ≡ answered (h, p ∷ ps))

  abbrev Misses : List Text → Type 0
  Misses [] = ⊥
  Misses (p ∷ ps) = Unit

  abbrev GoesOn : W × Answer Bundle → Type 0
  GoesOn (w, failed e) = ⊥
  GoesOn (w, answered b) = Misses b.missing_files

  upload_batch-GoesOn :
      IsStuck
      → (batch : UploadBatch) (b : Bundle) (w : W) → Misses b.missing_files
      → GoesOn (upload_batch x batch b w)
  unfolding upload_batch after_extension
  upload_batch-GoesOn stuck batch b w m = elim (Bool-cases (has_content batch)) [
    | inl c ↦ rw (c, (stuck.extend-answers b.bundle_hash batch.documents w).3) tt
    | inr c ↦ rw c m
  ]

  after-GoesOn :
      (bs : List UploadBatch) (r : W × Answer Bundle)
      → GoesOn r
      → ((b : Bundle) (w : W) → Misses b.missing_files → GoesOn (upload_round x bs b w))
      → GoesOn (after r (upload_round x bs) (λ w' e. (w', failed e)))
  after-GoesOn bs (w, failed e) g later = g
  after-GoesOn bs (w, answered b) g later = later b w g

  upload_round-GoesOn :
      IsStuck
      → (bs : List UploadBatch) (b : Bundle) (w : W) → Misses b.missing_files
      → GoesOn (upload_round x bs b w)
  unfolding upload_round
  upload_round-GoesOn stuck [] b w m = m
  upload_round-GoesOn stuck (batch ∷ bs) b w m = running (x.cancelled w) _ (stuck.not_cancelled w) (
      after-GoesOn bs (upload_batch x batch b w) (upload_batch-GoesOn stuck batch b w m)
        (upload_round-GoesOn stuck bs))
    where
      running :
          (c : Bool) (r : W × Answer Bundle)
          → c ≡ false
          → GoesOn r
          → GoesOn (elim c [ true ↦ (w, failed cancellation) | false ↦ r ])
      running true r e g = cc e
      running false r e g = g

  module _ (files : TextMap BundleFile) where
    after_round :
        (n : ℕ) (r : W × Answer Bundle)
        → GoesOn r
        → ((b : Bundle) (w : W) → Misses b.missing_files → upload x files n b w ≡ none)
        → after r (upload x files n) (λ w' e. some (w', failed e)) ≡ none
    after_round n (w, failed e) g later = absurd g
    after_round n (w, answered b) g later = later b w g

    either-or_stop :
        (fits : Bool) (full : UploadBatch) (added started : List UploadBatch)
        (stop go : Option (W × Answer Bundle))
        → or_stop added stop go ≡ go
        → or_stop (elim fits [ true ↦ added | false ↦ full ∷ started ]) stop go ≡ go
    either-or_stop true full added started stop go e = e
    either-or_stop false full added started stop go e = refl

    or_stop-group_from :
        (ps : List Text) (batch : UploadBatch) (stop go : Option (W × Answer Bundle))
        → or_stop (group_from files batch ps) stop go ≡ go
    unfolding group_from
    or_stop-group_from [] batch stop go = refl
    or_stop-group_from (p ∷ ps) batch stop go =
        either-or_stop (can_fit_file p (file_at files p).content batch).0 _ (group_from files _ ps)
          _ stop go (or_stop-group_from ps _ stop go)

    upload-next :
        (n : ℕ) (b : Bundle) (w : W) (p : Text) (ps : List Text)
        → b.missing_files ≡ p ∷ ps
        → upload x files (suc n) b w
          ≡ after
              (upload_round x (group_in_batches files (p ∷ ps)) b w)
              (upload x files n)
              (λ w' e. some (w', failed e))
    unfolding upload group_in_batches
    upload-next n b w p ps e = rw e (or_stop-group_from (p ∷ ps) new_upload_batch _ _)

    upload-zero : (b : Bundle) (w : W) → upload x files 0 b w ≡ none
    unfolding upload
    upload-zero b w = refl

    round_endless :
        IsStuck
        → (n : ℕ) (b : Bundle) (w : W) (ps : List Text) → b.missing_files ≡ ps
        → Misses b.missing_files
        → ((b' : Bundle) (w' : W) → Misses b'.missing_files → upload x files n b' w' ≡ none)
        → upload x files (suc n) b w ≡ none
    round_endless stuck n b w [] e m later = absurd (subst Misses e m)
    round_endless stuck n b w (p ∷ ps) e m later =
        upload-next n b w p ps e
        ∙ after_round n _ (upload_round-GoesOn stuck (group_in_batches files (p ∷ ps)) b w m) later

    -- If the scan is not cancelled and the backend answers each request with at least one missing
    -- file, then the upload of a bundle that misses a file does not return, however many rounds it
    -- is given.
    pub upload_endless :
        IsStuck
        → (rounds : ℕ) (b : Bundle) (w : W) → Misses b.missing_files
        → upload x files rounds b w ≡ none
    upload_endless stuck zero b w m = upload-zero b w
    upload_endless stuck (suc n) b w m =
        round_endless stuck n b w b.missing_files refl m (upload_endless stuck n)
