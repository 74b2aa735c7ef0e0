-- ===== src/Settings/Removed.antt =====
-- `UpdateSettings` and the issues of a product that the settings switch off.
use khulnasoft_lab_vulnmap_l.Prelude.Maps.{TextMap, lookup}
use khulnasoft_lab_vulnmap_l.Prelude.{
  Text, Bool, true, false, not, ◌&&◌, ◌≡◌, ◌≢◌, refl, ◌∙◌, inl, inr, List, [], ◌∷◌, Option, none,
  some, All, arith, Bool-cases, Option-cases,
}
use mathlib.Core.Path.{subst}
use khulnasoft_lab_vulnmap_l.Externals.{Externals}
use khulnasoft_lab_vulnmap_l.Vulnmap.Product.{FilterableIssueType, filterable_eq}
use khulnasoft_lab_vulnmap_l.Vulnmap.Issue.{Issue, get_filterable_issue_type}
use khulnasoft_lab_vulnmap_l.Config.{displayable_issue_types}
use khulnasoft_lab_vulnmap_l.Folder.{Folder, Effect}
use khulnasoft_lab_vulnmap_l.Folder.Clear.{without_type, clear_diagnostics_by_issue_type}
use khulnasoft_lab_vulnmap_l.Folder.Results.{or_empty}
use khulnasoft_lab_vulnmap_l.Folder.Removal.{without_in, clear_by_type-lookup}
use khulnasoft_lab_vulnmap_l.Folder.Invariant.{IsFiled}
use khulnasoft_lab_vulnmap_l.Folder.Operations.{clear_by_type-IsFiled}
use khulnasoft_lab_vulnmap_l.Workspace.{
  Workspace, each_folder, clear_issues, clear_issues_of, clear_issues_by_type,
}
use khulnasoft_lab_vulnmap_l.Workspace.Laws.{
  each_folder-lookup, each_folder-lookup-none, clear_issues-lookup,
}
use khulnasoft_lab_vulnmap_l.Settings.{ServerConfig, Server}
use khulnasoft_lab_vulnmap_l.Settings.Apply.{clear_if_removed, clear_removed}

-- A property of the cache of every folder.
abbrev pub Caches : (TextMap (List Issue) → Type 0) → Workspace → Type 0
Caches P w = (k : Text) (f : Folder) → lookup k w.folders ≡ some f → P f.cache

-- A property of every issue of a cache.
abbrev pub Cached : (Issue → Type 0) → TextMap (List Issue) → Type 0
Cached P m = (file : Text) (is : List Issue) → lookup file m ≡ some is → All P is

each_folder-found :
    (body : Folder → Folder × List Effect) (m : TextMap Folder) (k : Text) (f : Folder)
    → lookup k (each_folder body m).0 ≡ some f
    → (g : Folder) × (lookup k m ≡ some g) × ((body g).0 ≡ f)
each_folder-found body m k f e = elim (Option-cases (lookup k m)) [
  | inl gone ↦ cc (e, each_folder-lookup-none body m k gone)
  | inr (g, at) ↦ (g, at, ground (arith, each_folder-lookup body m k g))
]

-- A body that takes one property of a cache to another does so in all folders.
each_folder-Caches :
    (P Q : TextMap (List Issue) → Type 0) (body : Folder → Folder × List Effect)
    → ((f : Folder) → P f.cache → Q (body f).0.cache)
    → (w w' : Workspace) → w'.folders ≡ (each_folder body w.folders).0
    → Caches P w
    → Caches Q w'
each_folder-Caches P Q body step w w' same h k f e =
    let (g, at, result) = each_folder-found body w.folders k f (rw (← same) e) in
    rw (← result) (step g (h k g at))

All-without_type :
    (P : Issue → Type 0) (t : FilterableIssueType) (is : List Issue)
    → All P is
    → All P (without_type t is)
unfolding without_type
All-without_type P t [] h = tt
All-without_type P t (i ∷ is) h =
    elim (Bool-cases (filterable_eq (get_filterable_issue_type i) t)) [
      | inl e ↦ rw e (All-without_type P t is h.1)
      | inr e ↦ rw e (h.0, All-without_type P t is h.1)
    ]

All-map : (P Q : Issue → Type 0) (is : List Issue) → ((i : Issue) → P i → Q i) → All P is → All Q is
All-map P Q [] imp p = tt
All-map P Q (i ∷ is) imp p = (imp i p.0, All-map P Q is imp p.1)

All-both : (P Q : Issue → Type 0) (is : List Issue) → All P is → All Q is → All (λ i. P i × Q i) is
All-both P Q [] p q = tt
All-both P Q (i ∷ is) p q = ((p.0, q.0), All-both P Q is p.1 q.1)

abbrev Excludes : FilterableIssueType → Issue → Type 0
Excludes t i = get_filterable_issue_type i ≢ t

module _ (x : Externals) (t : FilterableIssueType) where
  clear_by_type-Cached :
      (P : Issue → Type 0) (f : Folder)
      → IsFiled f.cache
      → Cached P f.cache
      → Cached (λ i. P i × Excludes t i) (clear_diagnostics_by_issue_type x t f).0.cache
  clear_by_type-Cached P f filed h file is e = from_cache (lookup file f.cache) refl
    where
      after : TextMap (List Issue)
      after = (clear_diagnostics_by_issue_type x t f).0.cache

      kept : lookup file after ≡ without_in t (lookup file f.cache)
      kept = (clear_by_type-lookup x t f file filed.unique).0

      none_left : All (Excludes t) (or_empty (lookup file after))
      none_left = (clear_by_type-lookup x t f file filed.unique).1

      is_kept : (js : List Issue) → lookup file f.cache ≡ some js → is ≡ without_type t js
      is_kept js at = ground (arith, kept)

      from_cache :
          (o : Option (List Issue)) → lookup file f.cache ≡ o → All (λ i. P i × Excludes t i) is
      from_cache none at = cc (e, kept, at)
      from_cache (some js) at =
          All-both P (Excludes t) is (rw (is_kept js at) (All-without_type P t js (h file js at)))
            (rw e at (none_left))

-- Every folder's cache is filed, and its issues have the property.
abbrev pub Holds : (Issue → Type 0) → Workspace → Type 0
Holds P w = Caches (λ m. IsFiled m × Cached P m) w

clear_by_type-Holds :
    (x : Externals) (t : FilterableIssueType) (P : Issue → Type 0) (w : Workspace)
    → Holds P w
    → Holds (λ i. P i × Excludes t i) (clear_issues_by_type x t w).0
unfolding clear_issues_by_type
clear_by_type-Holds x t P w h =
    each_folder-Caches (λ m. IsFiled m × Cached P m)
      (λ m. IsFiled m × Cached (λ i. P i × Excludes t i) m) (clear_diagnostics_by_issue_type x t)
      (λ f p. (clear_by_type-IsFiled x t f p.0, clear_by_type-Cached x t P f p.0 p.1)) w
      (clear_issues_by_type x t w).0 refl h

empty-IsFiled : IsFiled []
unfolding lookup
empty-IsFiled = record { unique = tt; at_key = λ k is e. cc e }

empty-Cached : (P : Issue → Type 0) → Cached P []
unfolding lookup
empty-Cached P file is e = cc e

pub clear_issues-Holds :
    (x : Externals) (P : Issue → Type 0) (w : Workspace) → Holds P w → Holds P (clear_issues x w).0
unfolding clear_issues
clear_issues-Holds x P w h k f e =
    let (g, at, result) = each_folder-found (clear_issues_of x) w.folders k f e in
    let empty : f.cache ≡ [] = ground (arith, clear_issues-lookup x w k g) in
    rw empty (empty-IsFiled, empty-Cached P)

pub Holds-map :
    (P Q : Issue → Type 0) (w : Workspace) → ((i : Issue) → P i → Q i) → Holds P w → Holds Q w
Holds-map P Q w imp h k f e =
    ((h k f e).0, λ file is at. All-map P Q is imp ((h k f e).1 file is at))

-- What the loop ensures of the issues that stay, for the types that it has gone through.
abbrev pub Dropped :
    (FilterableIssueType → Bool)
    → (FilterableIssueType → Bool)
    → List FilterableIssueType
    → Issue
    → Type 0
Dropped was now [] i = Unit {0}
Dropped was now (t ∷ ts) i =
    (was t ≡ true → now t ≡ false → get_filterable_issue_type i ≢ t) × Dropped was now ts i

module _ (x : Externals) (was : FilterableIssueType → Bool) where
  clear_if_removed-config :
      (t : FilterableIssueType) (s : Server) → (clear_if_removed x was t s).0.config ≡ s.config
  unfolding clear_if_removed
  clear_if_removed-config t s = ground arith

  clear_if_removed-Holds :
      (t : FilterableIssueType) (P : Issue → Type 0) (s : Server)
      → Holds P s.workspace
      → Holds
          (λ i. P i × Dropped was (displayable_issue_types s.config.shown) (t ∷ []) i)
          (clear_if_removed x was t s).0.workspace
  unfolding clear_if_removed
  clear_if_removed-Holds t P s h =
      elim (Bool-cases (was t && not (displayable_issue_types s.config.shown t))) [
        | inl gone ↦ rw gone (
            Holds-map _ _ (clear_issues_by_type x t s.workspace).0
              (λ i p. (p.0, ((λ a b. p.1), tt))) (clear_by_type-Holds x t P s.workspace h))
        | inr stays ↦
            rw stays (Holds-map P _ s.workspace (λ i p. (p, ((λ a b. ground arith), tt))) h)
      ]

  -- What is known of the issues that stay after one round, and after the others too.
  abbrev StaysOnce : ServerConfig → FilterableIssueType → (Issue → Type 0) → Issue → Type 0
  StaysOnce c t P i = P i × Dropped was (displayable_issue_types c.shown) (t ∷ []) i

  abbrev Stays :
      ServerConfig
      → FilterableIssueType
      → List FilterableIssueType
      → (Issue → Type 0)
      → Issue
      → Type 0
  Stays c t ts P i = StaysOnce c t P i × Dropped was (displayable_issue_types c.shown) ts i

  pub clear_removed-Holds :
      (ts : List FilterableIssueType) (P : Issue → Type 0) (s : Server)
      → Holds P s.workspace
      → Holds
          (λ i. P i × Dropped was (displayable_issue_types s.config.shown) ts i)
          (clear_removed x was ts s).0.workspace
  unfolding clear_removed
  clear_removed-Holds [] P s h = Holds-map P _ s.workspace (λ i p. (p, tt)) h
  clear_removed-Holds (t ∷ ts) P s h =
      let s' : Server = (clear_if_removed x was t s).0 in
      Holds-map (Stays s.config t ts P)
        (λ i. P i × Dropped was (displayable_issue_types s.config.shown) (t ∷ ts) i)
        (clear_removed x was ts s').0.workspace (λ i p. (p.0.0, (p.0.1.0, p.1)))
        (subst
          (λ c.
            Holds
              (λ i. StaysOnce s.config t P i × Dropped was (displayable_issue_types c.shown) ts i)
              (clear_removed x was ts s').0.workspace)
          (clear_if_removed-config t s)
          (clear_removed-Holds ts (StaysOnce s.config t P) s' (clear_if_removed-Holds t P s h)))

  pub clear_removed-config :
      (ts : List FilterableIssueType) (s : Server) → (clear_removed x was ts s).0.config ≡ s.config
  unfolding clear_removed
  clear_removed-config [] s = refl
  clear_removed-config (t ∷ ts) s =
      clear_removed-config ts (clear_if_removed x was t s).0 ∙ clear_if_removed-config t s
