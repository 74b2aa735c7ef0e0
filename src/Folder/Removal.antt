-- ===== src/Folder/Removal.antt =====
-- What the clearing operations leave in the cache, and what they tell the client.
use khulnasoft_lab_vulnmap_l.Prelude.Maps.{
  TextMap, lookup, store, delete, lookup-store, lookup-delete, keys, UniqueKeys, empty_of_lookup,
}
use khulnasoft_lab_vulnmap_l.Prelude.Strings.{contains}
use khulnasoft_lab_vulnmap_l.Prelude.{
  ◌≤◌, ◌≢◌, Text, text_eq_iff, ◌≡◌, refl, ◌==◌, inl, inr, Bool, true, false, ◌&&◌, List, [], ◌∷◌,
  map, Option, none, some, arith, All, Bool-cases, length, if◌then◌else◌,
}
use khulnasoft_lab_vulnmap_l.Externals.{Externals}
use khulnasoft_lab_vulnmap_l.Vulnmap.Product.{FilterableIssueType, filterable_eq, filterable_eq_iff}
use khulnasoft_lab_vulnmap_l.Vulnmap.Issue.{Issue, get_filterable_issue_type}
use khulnasoft_lab_vulnmap_l.Folder.{Folder, publish_diagnostics}
use khulnasoft_lab_vulnmap_l.Folder.Results.{or_empty}
use khulnasoft_lab_vulnmap_l.Folder.Clear.{
  without_type, clear_diagnostics_from_file, clear_diagnostics_from_path_recursively,
  clear_diagnostics, clear_diagnostics_by_issue_type, clear_matching, clear_each, clear_type_in,
}

-- Whether a map has a key.
abbrev pub has_key : Text → TextMap (List Issue) → Bool
has_key k m = elim (lookup k m) [ none ↦ false | some v ↦ true ]

module _ (x : Externals) where
  clear_matching-lookup :
      (removed : Text) (m : TextMap (List Issue)) (f : Folder) (k : Text)
      → lookup k (clear_matching x removed m f).0.cache
        ≡ (if has_key k m && contains k removed then none else lookup k f.cache)
  unfolding clear_matching lookup clear_diagnostics_from_file
  clear_matching-lookup removed [] f k = refl
  clear_matching-lookup removed ((key, issues) ∷ m) f k = elim (Bool-cases (contains key removed)) [
    | inl e ↦
        rw (e, clear_matching)
          (ground (
            arith,
            clear_matching-lookup removed m (clear_diagnostics_from_file x key f).0 k,
            lookup-delete key k f.cache,
            text_eq_iff key k,
          ))
    | inr e ↦
        rw (e, clear_matching)
          (ground (arith, clear_matching-lookup removed m f k, text_eq_iff key k))
  ]

  -- Clearing below a path drops exactly the files whose path contains the removed path, and keeps
  -- the list of every other file.
  pub clear_recursively-lookup :
      (removed : Text) (f : Folder) (k : Text)
      → lookup k (clear_diagnostics_from_path_recursively x removed f).0.cache
        ≡ (if contains k removed then none else lookup k f.cache)
  unfolding clear_diagnostics_from_path_recursively
  clear_recursively-lookup removed f k = ground (arith, clear_matching-lookup removed f.cache f k)

  clear_each-lookup :
      (m : TextMap (List Issue)) (f : Folder) (k : Text)
      → lookup k (clear_each x m f).0.cache ≡ (if has_key k m then none else lookup k f.cache)
  unfolding clear_each lookup
  clear_each-lookup [] f k = refl
  clear_each-lookup ((key, issues) ∷ m) f k = ground (
    arith,
    clear_each-lookup m (record f { cache = delete key f.cache }) k,
    lookup-delete key k f.cache,
  )

  clear_each-effects :
      (m : TextMap (List Issue)) (f : Folder)
      → (clear_each x m f).1 ≡ map (λ k. publish_diagnostics (x.path_to_uri k) []) (keys m)
  unfolding clear_each
  clear_each-effects [] f = refl
  clear_each-effects ((key, issues) ∷ m) f =
      ground (arith, clear_each-effects m (record f { cache = delete key f.cache }))

  -- `ClearDiagnostics` empties the cache, and sends an empty list of diagnostics for each file that
  -- the cache held, so that the client drops what it shows.
  pub clear_diagnostics-empty :
      (f : Folder)
      → ((clear_diagnostics x f).0.cache ≡ [])
        × ((clear_diagnostics x f).1
            ≡ map (λ k. publish_diagnostics (x.path_to_uri k) []) (keys f.cache))
  unfolding clear_diagnostics
  clear_diagnostics-empty f = (
    empty_of_lookup (clear_each x f.cache f).0.cache
        (λ k. ground (arith, clear_each-lookup f.cache f k)),
    clear_each-effects f.cache f,
  )

-- `length` falls when an issue is dropped, so equal lengths mean equal lists.
without_type-le :
    (t : FilterableIssueType) (is : List Issue) → length (without_type t is) ≤ length is
unfolding without_type
without_type-le t [] = omega arith
without_type-le t (i ∷ is) = ground (arith, without_type-le t is)

without_type_same :
    (t : FilterableIssueType) (is : List Issue)
    → length is ≡ length (without_type t is)
    → without_type t is ≡ is
unfolding without_type
without_type_same t [] h = refl
without_type_same t (i ∷ is) h = ground (arith, without_type-le t is, without_type_same t is)

-- What is kept is not of the removed type.
without_type-All :
    (t : FilterableIssueType) (is : List Issue)
    → All (λ i. get_filterable_issue_type i ≢ t) (without_type t is)
unfolding without_type
without_type-All t [] = tt
without_type-All t (i ∷ is) = elim (Bool-cases (filterable_eq (get_filterable_issue_type i) t)) [
  | inl e ↦ rw e (without_type-All t is)
  | inr e ↦ rw e (
    (λ p. ground (arith, filterable_eq_iff (get_filterable_issue_type i) t)),
    without_type-All t is,
  )
]

-- The kept issues of a file that may not be cached.
abbrev pub without_in : FilterableIssueType → Option (List Issue) → Option (List Issue)
without_in t none = none
without_in t (some is) = some (without_type t is)

-- What the rest of the range still finds in the folder's cache.
module _ (key k : Text) (issues : List Issue) (m cache : TextMap (List Issue)) where
  tail_keeps :
      (is : List Issue)
      → lookup key m ≡ none
      → (lookup k ((key, issues) ∷ m) ≡ some is → lookup k cache ≡ some is)
      → lookup k m ≡ some is
      → lookup k cache ≡ some is
  unfolding lookup
  tail_keeps is u h e = ground (arith, text_eq_iff key k)

  tail_keeps_stored :
      (v is : List Issue)
      → lookup key m ≡ none
      → (lookup k ((key, issues) ∷ m) ≡ some is → lookup k cache ≡ some is)
      → lookup k m ≡ some is
      → lookup k (store key v cache) ≡ some is
  unfolding lookup
  tail_keeps_stored v is u h e = ground (arith, lookup-store key k v cache, text_eq_iff key k)

module _ (x : Externals) (t : FilterableIssueType) where
  clear_type_in-lookup :
      (m : TextMap (List Issue)) (f : Folder) (k : Text)
      → UniqueKeys m
      → ((is : List Issue) → lookup k m ≡ some is → lookup k f.cache ≡ some is)
      → lookup k (clear_type_in x t m f).0.cache
        ≡ (if has_key k m then without_in t (lookup k f.cache) else lookup k f.cache)
  unfolding clear_type_in lookup
  clear_type_in-lookup [] f k u h = refl
  clear_type_in-lookup ((key, issues) ∷ m) f k u h =
      elim (Bool-cases (length issues == length (without_type t issues))) [
        | inl e ↦
            rw (e, clear_type_in)
              (ground (
                arith,
                u.0,
                text_eq_iff key k,
                h issues,
                without_type_same t issues,
                clear_type_in-lookup m f k u.1
                    (λ is. tail_keeps key k issues m f.cache is u.0 (h is)),
              ))
        | inr e ↦
            rw (e, clear_type_in)
              (ground (
                arith,
                u.0,
                text_eq_iff key k,
                h issues,
                lookup-store key k (without_type t issues) f.cache,
                clear_type_in-lookup m
                    (record f { cache = store key (without_type t issues) f.cache }) k u.1
                    (λ is.
                      tail_keeps_stored key k issues m f.cache (without_type t issues) is u.0
                        (h is)),
              ))
      ]

  -- In a cache that holds each file once, clearing an issue type leaves under every file the issues
  -- of the other types, in their order, and no issue of the removed type.
  pub clear_by_type-lookup :
      (f : Folder) (k : Text)
      → UniqueKeys f.cache
      → (lookup k (clear_diagnostics_by_issue_type x t f).0.cache ≡ without_in t (lookup k f.cache))
        × All
            (λ i. get_filterable_issue_type i ≢ t)
            (or_empty (lookup k (clear_diagnostics_by_issue_type x t f).0.cache))
  unfolding clear_diagnostics_by_issue_type
  clear_by_type-lookup f k u = (left, rw left (right (lookup k f.cache)))
    where
      left : lookup k (clear_type_in x t f.cache f).0.cache ≡ without_in t (lookup k f.cache)
      left = ground (arith, clear_type_in-lookup f.cache f k u (λ is e. e))

      right :
          (o : Option (List Issue))
          → All (λ i. get_filterable_issue_type i ≢ t) (or_empty (without_in t o))
      right none = tt
      right (some is) = without_type-All t is
