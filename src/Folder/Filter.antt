-- ===== src/Folder/Filter.antt =====
-- `FilterIssues` against the settings as a user reads them.
use khulnasoft_lab_vulnmap_l.Prelude.{
  ◌≡◌, refl, ◌⊎◌, ◌↔◌, inl, inr, Bool, true, false, List, [], ◌∷◌, arith, Any, Bool-cases,
  if◌then◌else◌,
}
use khulnasoft_lab_vulnmap_l.Vulnmap.Product.{
  Product, open_source, code, infrastructure_as_code, container, unknown, named,
}
use khulnasoft_lab_vulnmap_l.Vulnmap.Issue.{
  Issue, Severity, critical, high, medium, low, beyond_low, IssueType, package_health,
  code_quality_issue, filterable_type, get_filterable_issue_type,
}
use khulnasoft_lab_vulnmap_l.Config.{Config, displayable_issue_types}
use khulnasoft_lab_vulnmap_l.Folder.Publish.{visible, is_visible_severity, is_shown, filter_issues}

-- The severity is switched on.
abbrev pub SeverityIsOn : Config → Severity → Type 0
SeverityIsOn c critical = c.filter_severity.critical ≡ true
SeverityIsOn c high = c.filter_severity.high ≡ true
SeverityIsOn c medium = c.filter_severity.medium ≡ true
SeverityIsOn c low = c.filter_severity.low ≡ true
SeverityIsOn c (beyond_low n) = ⊥

-- The product is switched on; for Vulnmap Code by its own switch or by that of the issue's kind.
-- A Code issue that is no quality issue counts as a security issue.
abbrev pub ProductIsOn : Config → Product → IssueType → Type 0
ProductIsOn c open_source t = c.oss_enabled ≡ true
ProductIsOn c infrastructure_as_code t = c.iac_enabled ≡ true
ProductIsOn c code code_quality_issue = (c.code_enabled ≡ true) ⊎ (c.code_quality_enabled ≡ true)
ProductIsOn c code t = (c.code_enabled ≡ true) ⊎ (c.code_security_enabled ≡ true)
ProductIsOn c container t = ⊥
ProductIsOn c unknown t = ⊥
ProductIsOn c (named s) t = ⊥

visible_iff : (c : Config) (s : Severity) → (visible c.filter_severity s ≡ true) ↔ SeverityIsOn c s
unfolding visible
visible_iff c critical = ground arith
visible_iff c s = ground arith

displayable_iff :
    (c : Config) (p : Product) (t : IssueType)
    → (displayable_issue_types c (filterable_type p t) ≡ true) ↔ ProductIsOn c p t
unfolding displayable_issue_types filterable_type
displayable_iff c open_source t = ground arith
displayable_iff c infrastructure_as_code t = ground arith
displayable_iff c code package_health = ground arith
displayable_iff c code t = ground arith
displayable_iff c container t = ground arith
displayable_iff c unknown t = ground arith
displayable_iff c (named s) t = ground arith

is_shown_iff :
    (c : Config) (i : Issue)
    → (is_shown c i ≡ true) ↔ (SeverityIsOn c i.severity × ProductIsOn c i.product i.issue_type)
unfolding is_shown is_visible_severity get_filterable_issue_type
is_shown_iff c i = (
  (λ h. (
    (visible_iff c i.severity).0 (ground arith),
    (displayable_iff c i.product i.issue_type).0 (ground arith),
  )),
  (λ h.
      ground (
        arith,
        (visible_iff c i.severity).1 h.0,
        (displayable_iff c i.product i.issue_type).1 h.1,
      )),
)

-- `i` is one of the issues.
abbrev pub Occurs : Issue → List Issue → Type 0
Occurs i is = Any (λ j. j ≡ i) is

filter_step :
    (b : Bool) (i j : Issue) (rest : List Issue)
    → Occurs i (if b then j ∷ rest else rest)
    → ((b ≡ true) × (j ≡ i)) ⊎ Occurs i rest
filter_step true i j rest (inl p) = inl (refl, p)
filter_step true i j rest (inr a) = inr a
filter_step false i j rest a = inr a

mem_of_filtered :
    (c : Config) (i : Issue) (is : List Issue)
    → Occurs i (filter_issues c is)
    → Occurs i is × (is_shown c i ≡ true)
unfolding filter_issues
mem_of_filtered c i [] h = elim h [ ]
mem_of_filtered c i (j ∷ is) h = elim (filter_step (is_shown c j) i j (filter_issues c is) h) [
  | inl p ↦ (inl p.1, rw (← p.1) p.0)
  | inr a ↦ (inr (mem_of_filtered c i is a).0, (mem_of_filtered c i is a).1)
]

filtered_of_mem :
    (c : Config) (i : Issue) (is : List Issue)
    → Occurs i is
    → is_shown c i ≡ true
    → Occurs i (filter_issues c is)
unfolding filter_issues
filtered_of_mem c i [] h e = elim h [ ]
filtered_of_mem c i (j ∷ is) (inl p) e = rw (p, e) (inl refl)
filtered_of_mem c i (j ∷ is) (inr a) e = elim (Bool-cases (is_shown c j)) [
  | inl b ↦ rw b (inr (filtered_of_mem c i is a e))
  | inr b ↦ rw b (filtered_of_mem c i is a e)
]

-- `FilterIssues` keeps an issue exactly when it was given, its severity is switched on and its
-- product is.
pub filter_issues_iff :
    (c : Config) (i : Issue) (is : List Issue)
    → Occurs i (filter_issues c is)
      ↔ (Occurs i is × SeverityIsOn c i.severity × ProductIsOn c i.product i.issue_type)
filter_issues_iff c i is = (
  (λ h.
      let found = mem_of_filtered c i is h in
      let on = (is_shown_iff c i).0 found.1 in (found.0, on.0, on.1)),
  (λ h. filtered_of_mem c i is h.0 ((is_shown_iff c i).1 (h.1, h.2))),
)
