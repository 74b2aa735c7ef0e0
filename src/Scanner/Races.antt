-- ===== src/Scanner/Races.antt =====
-- What no race between the goroutines of a scan can break: the cached list of a file is what it was
-- before the scan and then issues of that file that the scanners found. A store can undo the store of
-- another goroutine, but not what was there before the scan.
use mathlib.Core.List.{append_assoc, append-nil}
use khulnasoft_lab_vulnmap_l.Prelude.Maps.{
  TextMap, lookup, store, lookup-store, UniqueKeys, UniqueKeys-store,
}
use khulnasoft_lab_vulnmap_l.Prelude.{
  Text, text_eq, text_eq_iff, ◌≡◌, refl, sym, ap, ◌∙◌, inl, inr, List, [], ◌∷◌, ◌++◌, Option, none,
  some, All, All-append, Any, Bool-cases,
}
use khulnasoft_lab_vulnmap_l.Externals.{Externals}
use khulnasoft_lab_vulnmap_l.Vulnmap.Issue.{Issue}
use khulnasoft_lab_vulnmap_l.Config.{Config}
use khulnasoft_lab_vulnmap_l.Folder.{Folder, ScanData}
use khulnasoft_lab_vulnmap_l.Folder.Results.{or_empty, member, unique_issue_id}
use khulnasoft_lab_vulnmap_l.Scanner.Goroutines.{
  Task, scanning, received, updating, loaded, sending, ScanState, prepare, list_after, store_issue,
  Move, prepares, loads, stores, publishes, sends, leaves, emit,
}

pub All-map :
    {A : Type 0} (P Q : A → Type 0) (xs : List A) → ((x : A) → P x → Q x) → All P xs → All Q xs
All-map P Q [] g h = tt
All-map P Q (x ∷ xs) g h = (g x h.0, All-map P Q xs g h.1)

All-of_members :
    {A : Type 0} (P : A → Type 0) (xs : List A) → ((x : A) → Any (λ y. y ≡ x) xs → P x) → All P xs
All-of_members P [] g = tt
All-of_members P (x ∷ xs) g = (g x (inl refl), All-of_members P xs (λ y m. g y (inr m)))

Any-of_member :
    {A : Type 0} (P : A → Type 0) (x : A) (xs : List A) → Any (λ y. y ≡ x) xs → P x → Any P xs
Any-of_member P x [] m p = absurd m
Any-of_member P x (y ∷ ys) (inl e) p = inl (rw e p)
Any-of_member P x (y ∷ ys) (inr m) p = inr (Any-of_member P x ys m p)

module _ {A : Type 0} (P : A → Type 0) where
  pub All-middle : (xs : List A) (y : A) (ys : List A) → All P (xs ++ (y ∷ ys)) → P y
  All-middle [] y ys h = h.0
  All-middle (x ∷ xs) y ys h = All-middle xs y ys h.1

  pub All-replaced :
      (xs : List A) (y : A) (ys zs : List A)
      → All P (xs ++ (y ∷ ys))
      → All P zs
      → All P (xs ++ (zs ++ ys))
  All-replaced [] y ys zs h k = All-append P zs ys k h.1
  All-replaced (x ∷ xs) y ys zs h k = (h.0, All-replaced xs y ys zs h.1 k)

-- One of the deliveries has no error, and the issue.
abbrev pub IsFound : List ScanData → Issue → Type 0
IsFound ds i = Any (λ (d : ScanData). (d.err ≡ none) × Any (λ j. j ≡ i) d.issues) ds

module _ (f : Folder) where
  -- The list is the folder's list of the file, and after it issues of the file that were found.
  abbrev pub IsGrown : List ScanData → Text → List Issue → Type 0
  IsGrown ds p is =
      (added : List Issue) × (is ≡ or_empty (lookup p f.cache) ++ added)
      × All (λ i. (i.affected_file_path ≡ p) × IsFound ds i) added

  -- What a goroutine holds comes from what was delivered, and from the cache.
  abbrev pub IsSound : List ScanData → Task → Type 0
  IsSound ds (scanning p) = Unit
  IsSound ds (received d) = Any (λ e. e ≡ d) ds
  IsSound ds (updating d dedup counts left) = All (IsFound ds) left
  IsSound ds (loaded d dedup counts i left cached) =
      IsFound ds i × All (IsFound ds) left × IsGrown ds i.affected_file_path cached
  IsSound ds (sending es) = Unit

  IsGrown-later :
      (ds : List ScanData) (d : ScanData) (p : Text) (is : List Issue)
      → IsGrown ds p is
      → IsGrown (d ∷ ds) p is
  IsGrown-later ds d p is (added, e, h) = (added, e, All-map _ _ added (λ i k. (k.0, inr k.1)) h)

  pub IsSound-later :
      (ds : List ScanData) (d : ScanData) (t : Task) → IsSound ds t → IsSound (d ∷ ds) t
  IsSound-later ds d (scanning p) h = tt
  IsSound-later ds d (received e) h = inr h
  IsSound-later ds d (updating e dedup counts left) h = All-map _ _ left (λ i k. inr k) h
  IsSound-later ds d (loaded e dedup counts i left cached) h =
      (inr h.0, All-map _ _ left (λ i k. inr k) h.1, IsGrown-later ds d _ cached h.2)
  IsSound-later ds d (sending es) h = tt

  -- What holds of the cache.
  pub record IsSafe (ds : List ScanData) (m : TextMap (List Issue)) : Type 0 where
    pub grown : (p : Text) → IsGrown ds p (or_empty (lookup p m))
    pub unique : UniqueKeys f.cache → UniqueKeys m

  pub IsSafe-start : IsSafe [] f.cache
  IsSafe-start = record {
    grown = λ p. ([], sym (append-nil (or_empty (lookup p f.cache))), tt);
    unique = λ u. u;
  }

  pub IsSafe-later :
      (ds : List ScanData) (d : ScanData) (m : TextMap (List Issue))
      → IsSafe ds m
      → IsSafe (d ∷ ds) m
  IsSafe-later ds d m h = record {
    grown = λ p. IsGrown-later ds d p _ (h.grown p);
    unique = h.unique;
  }

  list_after-IsGrown :
      (ds : List ScanData) (dedup : List Text) (i : Issue) (cached : List Issue)
      → IsFound ds i
      → IsGrown ds i.affected_file_path cached
      → IsGrown ds i.affected_file_path (list_after dedup i cached)
  unfolding list_after
  list_after-IsGrown ds dedup i cached found (added, e, h) =
      elim (Bool-cases (member (unique_issue_id i) dedup)) [
        | inl known ↦ rw known (added, e, h)
        | inr new ↦ rw new (
          added ++ (i ∷ []),
          ap (λ is. is ++ (i ∷ [])) e ∙ append_assoc (or_empty (lookup _ f.cache)) added (i ∷ []),
          All-append _ added (i ∷ []) h ((refl, found), tt),
        )
      ]

  IsSafe-store :
      (ds : List ScanData) (k : Text) (is : List Issue) (m : TextMap (List Issue))
      → IsGrown ds k is
      → IsSafe ds m
      → IsSafe ds (store k is m)
  IsSafe-store ds k is m g h = record {
    grown = λ p. rw (lookup-store k p is m) (elim (Bool-cases (text_eq k p)) [
      | inl same ↦ rw same (rw (← (text_eq_iff k p).0 same) g)
      | inr other ↦ rw other (h.grown p)
    ]);
    unique = λ u. UniqueKeys-store k is m (h.unique u);
  }

  prepare-IsSound :
      (ds : List ScanData) (seen : TextMap (List Issue)) (d : ScanData)
      → Any (λ e. e ≡ d) ds
      → IsSound ds (prepare f.path seen d)
  unfolding prepare
  prepare-IsSound ds seen d m = by_error d.err refl
    where
      by_error : (o : Option Text) → d.err ≡ o → IsSound ds (prepare f.path seen d)
      by_error (some e) at = rw at tt
      by_error none at =
          rw at (All-of_members (IsFound ds) d.issues (λ i j. Any-of_member _ d ds m (at, j)))

  module _ (x : Externals) (c : Config) where
    -- A goroutine's move keeps what it holds and the cache sound.
    pub Move-IsSound :
        (s s' : ScanState) (t : Task) (ts : List Task)
        → Move x c f s t ts s'
        → IsSound s.delivered t
        → IsSafe s.delivered s.cache
        → All (IsSound s.delivered) ts × IsSafe s.delivered s'.cache × (s'.delivered ≡ s.delivered)
    unfolding store_issue emit
    Move-IsSound s _ _ _ (prepares d seen) h k =
        ((prepare-IsSound s.delivered seen d h, tt), k, refl)
    Move-IsSound s _ _ _ (loads d dedup counts i left) h k =
        (((h.0, h.1, k.grown i.affected_file_path), tt), k, refl)
    Move-IsSound s _ _ _ (stores d dedup counts i left cached) h k = (
      (h.1, tt),
      IsSafe-store s.delivered i.affected_file_path (list_after dedup i cached) s.cache
          (list_after-IsGrown s.delivered dedup i cached h.0 h.2) k,
      refl,
    )
    Move-IsSound s _ _ _ (publishes d dedup counts seen) h k = ((tt, tt), k, refl)
    Move-IsSound s _ _ _ (sends e es) h k = ((tt, tt), k, refl)
    Move-IsSound s _ _ _ leaves h k = (tt, k, refl)
