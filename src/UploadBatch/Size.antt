-- ===== src/UploadBatch/Size.antt =====
-- How large the batches become by the measure of `getSize`, which is an estimate: the escaping of
-- the JSON body and the encoding of the request are not in it.
use khulnasoft_lab_vulnmap_l.Prelude.Maps.{TextMap, store}
use khulnasoft_lab_vulnmap_l.Prelude.{
  ℕ, suc, ◌+◌, ◌≤◌, ltb→lt, Text, text_eq, Bool, true, false, ◌≡◌, refl, ◌⊎◌, inl, inr, List, [],
  ◌∷◌, length, All, arith, Bool-cases,
}
use khulnasoft_lab_vulnmap_l.UploadBatch.{
  BundleFile, UploadBatch, max_upload_batch_size, new_upload_batch, get_total_doc_payload_size,
  get_size, can_fit_file, file_at, with_document, group_from, group_in_batches,
}

abbrev pub payload : Text × BundleFile → ℕ
payload (path, file) = get_total_doc_payload_size path file.content

-- The payloads of all documents.
abbrev pub payloads : TextMap BundleFile → ℕ
payloads [] = 0
payloads (d ∷ ds) = payload d + payloads ds

-- What `getSize` says of a batch of these documents when each of them is counted in its size.
abbrev pub counted_size : TextMap BundleFile → ℕ
counted_size ds = get_size (record { hash = []; documents = ds; size = payloads ds })

-- Storing replaces or adds a document, so the number and the payload grow by one document at most.
store-grows :
    (path : Text) (file : BundleFile) (m : TextMap BundleFile)
    → (length (store path file m) ≤ suc (length m))
      × (payloads (store path file m) ≤ payload (path, file) + payloads m)
      × (1 ≤ length (store path file m))
unfolding store
store-grows path file [] = (omega arith, omega arith, omega arith)
store-grows path file ((p, f) ∷ m) = elim (Bool-cases (text_eq p path)) [
  | inl same ↦ (rw same (omega arith), rw same (omega arith), rw same (omega arith))
  | inr other ↦ (
    rw other (omega (arith, (store-grows path file m).0)),
    rw other (omega (arith, (store-grows path file m).1)),
    rw other (omega arith),
  )
]

module _ (files : TextMap BundleFile) (bound : ℕ) where
  -- The payload of each of the files is at most the bound.
  abbrev pub IsBounded : List Text → Type 0
  IsBounded ps = All (λ p. payload (p, file_at files p) ≤ bound) ps

  -- What a batch being filled satisfies: `size` counts every document but one.
  abbrev Fills : UploadBatch → Type 0
  Fills b =
      (payloads b.documents ≤ b.size + bound)
      × (length b.documents + b.size ≤ max_upload_batch_size)
      × (length b.documents ≡ 0 → b.size ≡ 0)

  get_size-length :
      (h : Text) (ds : TextMap BundleFile) (n : ℕ)
      → (length ds ≡ 0)
        ⊎ (suc (get_size (record { hash = h; documents = ds; size = n })) ≡ 12 + length ds + n)
  get_size-length h [] n = inl refl
  get_size-length h (d ∷ ds) n = inr (omega arith)

  counted_size-length : (ds : TextMap BundleFile) → (counted_size ds ≤ 11 + length ds + payloads ds)
  counted_size-length [] = omega arith
  counted_size-length (d ∷ ds) = omega arith

  Fills-counted_size :
      (b : UploadBatch) → Fills b → counted_size b.documents ≤ max_upload_batch_size + 11 + bound
  Fills-counted_size b f = omega (arith, counted_size-length b.documents, f.0, f.1)

  starts-Fills :
      (p : Text)
      → payload (p, file_at files p) ≤ bound
      → Fills (with_document p (file_at files p) new_upload_batch)
  unfolding store
  starts-Fills p small = (omega (arith, small), omega arith, λ e. refl)

  added-Fills :
      (p : Text) (b : UploadBatch)
      → (can_fit_file p (file_at files p).content b).0 ≡ true
      → Fills b
      → Fills (with_document p (file_at files p) (can_fit_file p (file_at files p).content b).1)
  added-Fills p b fit f = (
    omega (arith, (store-grows p (file_at files p) b.documents).1, f.0),
    elim (get_size-length b.hash b.documents b.size) [
      | inl empty ↦
          omega (
            arith,
            (store-grows p (file_at files p) b.documents).0,
            ltb→lt _ _ fit,
            f.2 empty,
            empty,
          )
      | inr e ↦ omega (arith, (store-grows p (file_at files p) b.documents).0, ltb→lt _ _ fit, e)
    ],
    λ e. omega (arith, (store-grows p (file_at files p) b.documents).2),
  )

  abbrev AllSmall : List UploadBatch → Type 0
  AllSmall bs = All (λ g. counted_size g.documents ≤ max_upload_batch_size + 11 + bound) bs

  chosen :
      (fit : Bool) (added started : List UploadBatch) (full : UploadBatch)
      → (fit ≡ true → AllSmall added)
      → AllSmall (full ∷ started)
      → AllSmall (elim fit [ true ↦ added | false ↦ full ∷ started ])
  chosen true added started full a s = a refl
  chosen false added started full a s = s

  group_from-counted_size :
      (ps : List Text) (b : UploadBatch)
      → IsBounded ps
      → Fills b
      → All
          (λ g. counted_size g.documents ≤ max_upload_batch_size + 11 + bound)
          (group_from files b ps)
  unfolding group_from
  group_from-counted_size [] b small f = (Fills-counted_size b f, tt)
  group_from-counted_size (p ∷ ps) b small f =
      chosen (can_fit_file p (file_at files p).content b).0 _ _ _
        (λ fit. group_from-counted_size ps _ small.1 (added-Fills p b fit f))
        (Fills-counted_size b f, group_from-counted_size ps _ small.1 (starts-Fills p small.0))

  -- If `getTotalDocPayloadSize` of each missing file is at most the bound, then `getSize` of each
  -- batch, with all of its documents counted in its size, exceeds the batch limit by no more than the
  -- bound and 11.
  pub group_in_batches-counted_size :
      (missing : List Text)
      → IsBounded missing
      → All
          (λ g. counted_size g.documents ≤ max_upload_batch_size + 11 + bound)
          (group_in_batches files missing)
  unfolding group_in_batches
  group_in_batches-counted_size [] small = tt
  group_in_batches-counted_size (p ∷ ps) small =
      group_from-counted_size (p ∷ ps) new_upload_batch small (omega arith, omega arith, λ e. refl)
