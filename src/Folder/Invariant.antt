-- ===== src/Folder/Invariant.antt =====
-- What holds of a folder between operations: the cache has each file once, and every cached issue
-- stands under its own file.
use khulnasoft_lab_vulnmap_l.Prelude.Maps.{
  TextMap, lookup, store, delete, lookup-store, lookup-delete, UniqueKeys, UniqueKeys-store,
  UniqueKeys-delete,
}
use khulnasoft_lab_vulnmap_l.Prelude.Strings.{contains}
use khulnasoft_lab_vulnmap_l.Prelude.{
  Text, text_eq, text_eq_iff, ◌≡◌, refl, ◌==◌, inl, inr, Bool, true, false, List, [], ◌∷◌, ◌++◌,
  Option, none, some, arith, All, All-append, Bool-cases, length, if◌then◌else◌,
}
use khulnasoft_lab_vulnmap_l.Externals.{Externals}
use khulnasoft_lab_vulnmap_l.Vulnmap.Product.{FilterableIssueType, filterable_eq}
use khulnasoft_lab_vulnmap_l.Vulnmap.Issue.{Issue, get_filterable_issue_type}
use khulnasoft_lab_vulnmap_l.Config.{Config}
use khulnasoft_lab_vulnmap_l.Folder.{Folder, ScanData, is_trusted, document_diagnostics_from_cache}
use khulnasoft_lab_vulnmap_l.Folder.Results.{
  Counts, or_empty, member, unique_issue_id, create_dedup_map, process_issue, process_issues,
  updated,
}
use khulnasoft_lab_vulnmap_l.Folder.Rescan.{stored, next-eq-store}
use khulnasoft_lab_vulnmap_l.Folder.Scan.{
  cached_data, process_results, process_by, process_all, scan_uncached, scan,
}
use khulnasoft_lab_vulnmap_l.Folder.Clear.{
  without_type, clear_diagnostics_from_file, clear_matching, clear_each, clear_type_in,
}

abbrev pub IsFiledUnder : Text → List Issue → Type 0
IsFiledUnder k is = All (λ i. i.affected_file_path ≡ k) is

pub record IsFiled (m : TextMap (List Issue)) : Type 0 where
  pub unique : UniqueKeys m
  pub at_key : (k : Text) (is : List Issue) → lookup k m ≡ some is → IsFiledUnder k is

module _ (m : TextMap (List Issue)) (h : IsFiled m) (k : Text) where
  IsFiled-store : (v : List Issue) → IsFiledUnder k v → IsFiled (store k v m)
  IsFiled-store v filed = record {
    unique = UniqueKeys-store k v m h.unique;
    at_key = λ j is e. elim (Bool-cases (text_eq k j)) [
      | inl same ↦ rw (← (text_eq_iff k j).0 same) (rw (some_of j is e same) filed)
      | inr other ↦ h.at_key j is (ground (arith, lookup-store k j v m))
    ];
  }
    where
      some_of :
          (j : Text) (is : List Issue)
          → lookup j (store k v m) ≡ some is
          → text_eq k j ≡ true
          → is ≡ v
      some_of j is e same = ground (arith, lookup-store k j v m)

  pub IsFiled-delete : IsFiled (delete k m)
  IsFiled-delete = record {
    unique = UniqueKeys-delete k m h.unique;
    at_key = λ j is e. h.at_key j is (ground (arith, lookup-delete k j m));
  }

stored-IsFiledUnder :
    (dedup : List Text) (i : Issue) (m : TextMap (List Issue))
    → IsFiled m
    → IsFiledUnder i.affected_file_path (stored dedup i (lookup i.affected_file_path m))
stored-IsFiledUnder dedup i m h = by_test (member (unique_issue_id i) dedup)
  where
    old :
        (o : Option (List Issue))
        → lookup i.affected_file_path m ≡ o
        → IsFiledUnder i.affected_file_path (or_empty o)
    old none e = tt
    old (some is) e = h.at_key i.affected_file_path is e

    cached : List Issue
    cached = or_empty (lookup i.affected_file_path m)

    by_test :
        (b : Bool) → IsFiledUnder i.affected_file_path (if b then cached else cached ++ (i ∷ []))
    by_test true = old (lookup i.affected_file_path m) refl
    by_test false =
        All-append (λ j. j.affected_file_path ≡ i.affected_file_path) cached (i ∷ [])
          (old (lookup i.affected_file_path m) refl) (refl, tt)

process_issues-IsFiled :
    (dedup : List Text) (is : List Issue) (s : TextMap (List Issue) × Counts)
    → IsFiled s.0
    → IsFiled (process_issues dedup is s).0
unfolding process_issues
process_issues-IsFiled dedup [] s h = h
process_issues-IsFiled dedup (i ∷ is) s h =
    process_issues-IsFiled dedup is (process_issue dedup i s) (
      rw (next-eq-store dedup i s.0 s.1) (
        IsFiled-store s.0 h i.affected_file_path (stored dedup i (lookup i.affected_file_path s.0))
          (stored-IsFiledUnder dedup i s.0 h)))

module _ (x : Externals) (c : Config) where
  pub process_results-IsFiled :
      (d : ScanData) (f : Folder) → IsFiled f.cache → IsFiled (process_results x c d f).0.cache
  unfolding process_results
  process_results-IsFiled d f h = go d.err
    where
      go : (e : Option Text) → IsFiled (process_by x c e d f).0.cache
      go (some e) = h
      go none =
          unfold updated in
          process_issues-IsFiled (create_dedup_map f.cache) d.issues (f.cache, []) h

  pub process_all-IsFiled :
      (ds : List ScanData) (f : Folder) → IsFiled f.cache → IsFiled (process_all x c ds f).0.cache
  unfolding process_all
  process_all-IsFiled [] f h = h
  process_all-IsFiled (d ∷ ds) f h =
      process_all-IsFiled ds (process_results x c d f).0 (process_results-IsFiled d f h)

  pub scan-IsFiled :
      (path : Text) (ds : List ScanData) (f : Folder)
      → IsFiled f.cache
      → IsFiled (scan x c path ds f).0.cache
  unfolding scan
  scan-IsFiled path ds f h = go (is_trusted c f) (document_diagnostics_from_cache f path)
    where
      go :
          (trusted : Bool) (cached : Option (List Issue))
          → IsFiled (if trusted then scan_uncached x c cached ds f else (f, [])).0.cache
      go false cached = h
      go true none = process_all-IsFiled ds f h
      go true (some is) = process_results-IsFiled (cached_data is) f h

module _ (x : Externals) where
  pub clear_matching-IsFiled :
      (removed : Text) (m : TextMap (List Issue)) (f : Folder)
      → IsFiled f.cache
      → IsFiled (clear_matching x removed m f).0.cache
  unfolding clear_matching
  clear_matching-IsFiled removed [] f h = h
  clear_matching-IsFiled removed ((key, issues) ∷ m) f h =
      elim (Bool-cases (contains key removed)) [
        | inl e ↦
            rw (e, clear_matching)
              (clear_matching-IsFiled removed m (clear_diagnostics_from_file x key f).0
                (IsFiled-delete f.cache h key))
        | inr e ↦ rw (e, clear_matching) (clear_matching-IsFiled removed m f h)
      ]

  pub clear_each-IsFiled :
      (m : TextMap (List Issue)) (f : Folder) → IsFiled f.cache → IsFiled (clear_each x m f).0.cache
  unfolding clear_each
  clear_each-IsFiled [] f h = h
  clear_each-IsFiled ((key, issues) ∷ m) f h =
      clear_each-IsFiled m (record f { cache = delete key f.cache }) (IsFiled-delete f.cache h key)

  without_type-IsFiledUnder :
      (t : FilterableIssueType) (k : Text) (is : List Issue)
      → IsFiledUnder k is
      → IsFiledUnder k (without_type t is)
  unfolding without_type
  without_type-IsFiledUnder t k [] h = tt
  without_type-IsFiledUnder t k (i ∷ is) h =
      elim (Bool-cases (filterable_eq (get_filterable_issue_type i) t)) [
        | inl e ↦ rw e (without_type-IsFiledUnder t k is h.1)
        | inr e ↦ rw e (h.0, without_type-IsFiledUnder t k is h.1)
      ]

  pub clear_type_in-IsFiled :
      (t : FilterableIssueType) (m : TextMap (List Issue)) (f : Folder)
      → All (λ entry. IsFiledUnder entry.0 entry.1) m
      → IsFiled f.cache
      → IsFiled (clear_type_in x t m f).0.cache
  unfolding clear_type_in
  clear_type_in-IsFiled t [] f hm h = h
  clear_type_in-IsFiled t ((file, issues) ∷ m) f hm h =
      elim (Bool-cases (length issues == length (without_type t issues))) [
        | inl e ↦ rw (e, clear_type_in) (clear_type_in-IsFiled t m f hm.1 h)
        | inr e ↦
            rw (e, clear_type_in)
              (clear_type_in-IsFiled t m
                (record f { cache = store file (without_type t issues) f.cache }) hm.1
                (IsFiled-store f.cache h file (without_type t issues)
                  (without_type-IsFiledUnder t file issues hm.0)))
      ]
