-- ===== src/Folder/Rescan.antt =====
-- Reporting the same issues again: what `processResults` has stored, it recognises.
use khulnasoft_lab_vulnmap_l.Prelude.Maps.{
  TextMap, lookup, store, lookup-store, lookup-store_self, store-lookup_self,
}
use khulnasoft_lab_vulnmap_l.Prelude.{
  Text, text_eq, text_eq_refl, ◌≡◌, refl, ◌⊎◌, inl, inr, true, false, ◌||◌, List, [], ◌∷◌, ◌++◌,
  Option, none, some, if◌then◌else◌, arith, All, Bool-cases,
}
use khulnasoft_lab_vulnmap_l.Externals.{Externals}
use khulnasoft_lab_vulnmap_l.Vulnmap.Issue.{Issue}
use khulnasoft_lab_vulnmap_l.Config.{Config}
use khulnasoft_lab_vulnmap_l.Folder.{Folder, ScanData}
use khulnasoft_lab_vulnmap_l.Folder.Results.{
  unique_issue_id, issue_ids, create_dedup_map, member, or_empty, Counts, process_issue,
  process_issues, updated,
}
use khulnasoft_lab_vulnmap_l.Folder.Scan.{process_results, process_by}

member-append : (a : Text) (xs ys : List Text) → member a (xs ++ ys) ≡ (member a xs || member a ys)
unfolding member
member-append a [] ys = refl
member-append a (x ∷ xs) ys = ground (arith, member-append a xs ys)

-- A store keeps the ids of a map, if the new list keeps those of the list that it replaces.
member-store :
    (a k : Text) (v : List Issue) (m : TextMap (List Issue))
    → ((old : List Issue)
        → lookup k m ≡ some old
        → member a (issue_ids old) ≡ true
        → member a (issue_ids v) ≡ true)
    → member a (create_dedup_map m) ≡ true
    → member a (create_dedup_map (store k v m)) ≡ true
unfolding create_dedup_map store lookup member
member-store a k v [] keep h = cc
member-store a k v ((j, w) ∷ m) keep h = elim (Bool-cases (text_eq j k)) [
  | inl same ↦ rw same (
      ground (
        arith,
        keep w (rw same),
        member-append a (issue_ids w) (create_dedup_map m),
        member-append a (issue_ids v) (create_dedup_map m),
      ))
  | inr other ↦ rw other (
      ground (
        arith,
        member-append a (issue_ids w) (create_dedup_map m),
        member-append a (issue_ids w) (create_dedup_map (store k v m)),
        member-store a k v m (λ old p. keep old (rw other p)),
      ))
]

member-store_new :
    (a k : Text) (v : List Issue) (m : TextMap (List Issue))
    → member a (issue_ids v) ≡ true
    → member a (create_dedup_map (store k v m)) ≡ true
unfolding create_dedup_map store
member-store_new a k v [] h = ground (arith, member-append a (issue_ids v) [])
member-store_new a k v ((j, w) ∷ m) h = ground (
  arith,
  member-append a (issue_ids v) (create_dedup_map m),
  member-append a (issue_ids w) (create_dedup_map (store k v m)),
  member-store_new a k v m,
)

issue_ids-append : (xs ys : List Issue) → issue_ids (xs ++ ys) ≡ issue_ids xs ++ issue_ids ys
unfolding issue_ids
issue_ids-append [] ys = refl
issue_ids-append (x ∷ xs) ys = cc (issue_ids-append xs ys)

-- The cache has a list for the file of the issue.
abbrev IsKeyed : TextMap (List Issue) → Issue → Type 0
IsKeyed cache i = (is : List Issue) × (lookup i.affected_file_path cache ≡ some is)

abbrev IsKnown : TextMap (List Issue) → Issue → Type 0
IsKnown cache i = member (unique_issue_id i) (create_dedup_map cache) ≡ true

-- The list that one round stores.
abbrev pub stored : List Text → Issue → Option (List Issue) → List Issue
stored dedup i old =
    if member (unique_issue_id i) dedup then or_empty old else or_empty old ++ (i ∷ [])

module _ (dedup : List Text) (i : Issue) (cache : TextMap (List Issue)) (counts : Counts) where
  abbrev pub next : TextMap (List Issue)
  next = (process_issue dedup i (cache, counts)).0

  pub next-eq-store :
      next ≡ store i.affected_file_path (stored dedup i (lookup i.affected_file_path cache)) cache
  unfolding process_issue
  next-eq-store = ground arith

  -- One round of the loop keeps every id that the cache holds.
  next-member :
      (a : Text)
      → member a (create_dedup_map cache) ≡ true
      → member a (create_dedup_map next) ≡ true
  next-member a h = rw next-eq-store (
      member-store a i.affected_file_path (stored dedup i (lookup i.affected_file_path cache)) cache
        keep h)
    where
      keep :
          (old : List Issue)
          → lookup i.affected_file_path cache ≡ some old
          → member a (issue_ids old) ≡ true
          → member a (issue_ids (stored dedup i (lookup i.affected_file_path cache))) ≡ true
      keep old e k = rw e (
          ground (
            arith,
            issue_ids-append old (i ∷ []),
            member-append a (issue_ids old) (issue_ids (i ∷ [])),
          ))

  next-lookup :
      (k : Text) (is : List Issue)
      → lookup k cache ≡ some is
      → (is' : List Issue) × (lookup k next ≡ some is')
  next-lookup k is h = elim (Bool-cases (text_eq i.affected_file_path k)) [
    | inl e ↦
        (stored dedup i (lookup i.affected_file_path cache), rw (next-eq-store, lookup-store, e))
    | inr e ↦ (is, rw (next-eq-store, lookup-store, e) h)
  ]

  next-IsKeyed : IsKeyed next i
  next-IsKeyed =
      (stored dedup i (lookup i.affected_file_path cache), rw (next-eq-store, lookup-store_self))

  next-IsKnown : member (unique_issue_id i) dedup ≡ false → IsKnown next i
  unfolding issue_ids member
  next-IsKnown h = rw next-eq-store (
      member-store_new (unique_issue_id i) i.affected_file_path
        (stored dedup i (lookup i.affected_file_path cache)) cache
        (ground (
          arith,
          issue_ids-append (or_empty (lookup i.affected_file_path cache)) (i ∷ []),
          member-append (unique_issue_id i)
              (issue_ids (or_empty (lookup i.affected_file_path cache))) (issue_ids (i ∷ [])),
          text_eq_refl (unique_issue_id i),
        )))

-- The whole loop, from a set of ids that the cache holds.
module _ (dedup : List Text) where
  loop-member :
      (a : Text) (is : List Issue) (s : TextMap (List Issue) × Counts)
      → member a (create_dedup_map s.0) ≡ true
      → member a (create_dedup_map (process_issues dedup is s).0) ≡ true
  unfolding process_issues
  loop-member a [] s h = h
  loop-member a (i ∷ is) s h =
      loop-member a is (process_issue dedup i s) (next-member dedup i s.0 s.1 a h)

  loop-lookup :
      (k : Text) (is : List Issue) (s : TextMap (List Issue) × Counts) (v : List Issue)
      → lookup k s.0 ≡ some v
      → (v' : List Issue) × (lookup k (process_issues dedup is s).0 ≡ some v')
  unfolding process_issues
  loop-lookup k [] s v h = (v, h)
  loop-lookup k (i ∷ is) s v h =
      let (v', h') = next-lookup dedup i s.0 s.1 k v h in
      loop-lookup k is (process_issue dedup i s) v' h'

  -- After the loop every reported issue is known, and its file has a list.
  loop-All :
      (is : List Issue) (s : TextMap (List Issue) × Counts)
      → ((a : Text) → member a dedup ≡ true → member a (create_dedup_map s.0) ≡ true)
      → All
          (λ i. IsKnown (process_issues dedup is s).0 i × IsKeyed (process_issues dedup is s).0 i)
          is
  unfolding process_issues
  loop-All [] s h = tt
  loop-All (i ∷ is) s h = (
    (known, loop-lookup i.affected_file_path is s' keyed.0 keyed.1),
    loop-All is s' (λ a m. next-member dedup i s.0 s.1 a (h a m)),
  )
    where
      s' : TextMap (List Issue) × Counts
      s' = process_issue dedup i s

      keyed : IsKeyed s'.0 i
      keyed = next-IsKeyed dedup i s.0 s.1

      at_once :
          (member (unique_issue_id i) dedup ≡ true) ⊎ (member (unique_issue_id i) dedup ≡ false)
          → IsKnown s'.0 i
      at_once (inl e) = next-member dedup i s.0 s.1 (unique_issue_id i) (h (unique_issue_id i) e)
      at_once (inr e) = next-IsKnown dedup i s.0 s.1 e

      known : IsKnown (process_issues dedup is s').0 i
      known =
          loop-member (unique_issue_id i) is s'
            (at_once (Bool-cases (member (unique_issue_id i) dedup)))

-- A round for a known issue leaves the cache and the counts alone.
known_round :
    (dedup : List Text) (i : Issue) (s : TextMap (List Issue) × Counts)
    → member (unique_issue_id i) dedup ≡ true
    → IsKeyed s.0 i
    → process_issue dedup i s ≡ s
unfolding process_issue
known_round dedup i s h (v, e) = ground (arith, e, store-lookup_self i.affected_file_path v s.0)

known_loop :
    (dedup : List Text) (is : List Issue) (s : TextMap (List Issue) × Counts)
    → All (λ i. (member (unique_issue_id i) dedup ≡ true) × IsKeyed s.0 i) is
    → process_issues dedup is s ≡ s
unfolding process_issues
known_loop dedup [] s h = refl
known_loop dedup (i ∷ is) s h = rw (known_round dedup i s h.0.0 h.0.1) (known_loop dedup is s h.1)

-- Updating twice with the same issues is updating once, and the second time counts no issue.
updated_twice :
    (is : List Issue) (cache : TextMap (List Issue))
    → updated is (updated is cache).0 ≡ ((updated is cache).0, [])
unfolding updated
updated_twice is cache =
    known_loop (create_dedup_map (updated is cache).0) is ((updated is cache).0, [])
      (loop-All (create_dedup_map cache) is (cache, []) (λ a h. h))

-- Processing a scan result a second time leaves the folder as the first time left it.
pub process_results_twice :
    (x : Externals) (c : Config) (d : ScanData) (f : Folder)
    → (process_results x c d (process_results x c d f).0).0 ≡ (process_results x c d f).0
unfolding process_results
process_results_twice x c d f = go d.err
  where
    go :
        (e : Option Text)
        → (process_by x c e d (process_by x c e d f).0).0 ≡ (process_by x c e d f).0
    go (some e) = refl
    go none = rw (updated_twice d.issues f.cache)
