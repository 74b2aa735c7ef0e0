-- ===== src/VulnerabilityCount.antt =====
-- infrastructure/oss/vulnerability_count.go and inline_value.go: the counts of vulnerabilities that
-- the editor shows in a line. The range of a count is a whole line, so the inner map of the counts is
-- keyed by the line.
pub mod Totals
pub mod MostSevere
pub mod Tests
use khulnasoft_lab_vulnmap_l.Prelude.Decimal.{decimal}
use khulnasoft_lab_vulnmap_l.Prelude.Maps.{TextMap, lookup, store}
use khulnasoft_lab_vulnmap_l.Prelude.{
  ℕ, suc, ◌==◌, ltb, Text, codes, text_eq, Bool, true, false, ◌||◌, List, [], ◌∷◌, ◌++◌, Option,
  none, some, if◌then◌else◌,
}
use khulnasoft_lab_vulnmap_l.Vulnmap.Range.{Range, overlaps}
use khulnasoft_lab_vulnmap_l.Vulnmap.Issue.{Issue, Severity, low, severity_rank}

-- `VulnerabilityCountInformation`; `severity_counts` goes from the number of a severity.
pub record CountInformation : Type 0 where
  pub path : Text
  pub my_range : Range
  pub total : ℕ
  pub severity_counts : ℕ → ℕ
  pub most_severe_vulnerability_id : Text

abbrev pub LineMap : Type 0
LineMap = List (ℕ × CountInformation)

unfoldable pub lookup_line : ℕ → LineMap → Option CountInformation
lookup_line l [] = none
lookup_line l ((j, v) ∷ m) = if j == l then some v else lookup_line l m

unfoldable pub store_line : ℕ → CountInformation → LineMap → LineMap
store_line l v [] = (l, v) ∷ []
store_line l v ((j, w) ∷ m) = if j == l then (l, v) ∷ m else (j, w) ∷ store_line l v m

-- The range of the count: the whole line of the issue, up to the character `math.MaxInt32`.
abbrev line_range : ℕ → Range
line_range l = record {
  start = record { line = l; character = 0 };
  end = record { line = l; character = 2147483647 };
}

abbrev new_information : Text → ℕ → CountInformation
new_information path l = record {
  path = path;
  my_range = line_range l;
  total = 0;
  severity_counts = λ s. 0;
  most_severe_vulnerability_id = [];
}

abbrev pub lines_at : Text → TextMap LineMap → LineMap
lines_at path m = elim (lookup path m) [ none ↦ [] | some lines ↦ lines ]

abbrev pub or_new : Text → ℕ → Option CountInformation → CountInformation
or_new path l none = new_information path l
or_new path l (some vc) = vc

-- `highestIssueSeverity > issue.Severity || vc.mostSevereVulnerabilityId == ""`
abbrev pub replaces : Severity → Issue → CountInformation → Bool
replaces highest i vc =
    ltb (severity_rank i.severity) (severity_rank highest)
    || text_eq vc.most_severe_vulnerability_id (codes "")

abbrev pub counted : Severity → Issue → CountInformation → CountInformation
counted highest i vc = record vc {
  total = suc vc.total;
  severity_counts = λ s.
      if severity_rank i.severity == s then suc (vc.severity_counts s) else vc.severity_counts s;
  most_severe_vulnerability_id =
      if replaces highest i vc then i.id else vc.most_severe_vulnerability_id;
}

-- The count that stands at the line of the issue before the issue is counted.
abbrev pub information_for : Issue → TextMap LineMap → CountInformation
information_for i m =
    or_new i.affected_file_path i.range.start.line
      (lookup_line i.range.start.line (lines_at i.affected_file_path m))

-- The body of the loop, over the counts and `highestIssueSeverity`, which all lines share.
unfoldable pub count_issue : Issue → TextMap LineMap × Severity → TextMap LineMap × Severity
unfolding store_line lookup_line store lookup
count_issue i (m, highest) = (
  store i.affected_file_path
      (store_line i.range.start.line (counted highest i (information_for i m))
        (lines_at i.affected_file_path m))
      m,
  if replaces highest i (information_for i m) then i.severity else highest,
)

unfoldable pub count_issues : List Issue → TextMap LineMap × Severity → TextMap LineMap × Severity
unfolding count_issue
count_issues [] s = s
count_issues (i ∷ is) s = count_issues is (count_issue i s)

-- `DetermineVulnerabilityCounts`
unfoldable pub determine_vulnerability_counts : List Issue → TextMap LineMap
unfolding count_issues
determine_vulnerability_counts issues = (count_issues issues ([], low)).0

-- `addToCache`
unfoldable pub add_to_cache :
    CountInformation → TextMap (List CountInformation) → TextMap (List CountInformation)
unfolding lookup store
add_to_cache iv cache =
    store iv.path (elim (lookup iv.path cache) [ none ↦ [] | some ivs ↦ ivs ] ++ (iv ∷ [])) cache

-- `filterInlineValuesForRange`
unfoldable pub filter_inline_values_for_range :
    List CountInformation → Range → List CountInformation
unfolding overlaps
filter_inline_values_for_range [] my_range = []
filter_inline_values_for_range (iv ∷ ivs) my_range =
    let rest = filter_inline_values_for_range ivs my_range in
    if overlaps my_range iv.my_range then iv ∷ rest else rest

-- `addVulnerabilityCountsToCache`: every line of every file
unfoldable pub add_counts :
    List CountInformation → TextMap (List CountInformation) → TextMap (List CountInformation)
unfolding add_to_cache
add_counts [] cache = cache
add_counts (iv ∷ ivs) cache = add_counts ivs (add_to_cache iv cache)

abbrev pub line_counts : LineMap → List CountInformation
line_counts [] = []
line_counts ((l, iv) ∷ lines) = iv ∷ line_counts lines

abbrev pub all_counts : TextMap LineMap → List CountInformation
all_counts [] = []
all_counts ((path, lines) ∷ m) = line_counts lines ++ all_counts m

unfoldable pub add_vulnerability_counts :
    List Issue → TextMap (List CountInformation) → TextMap (List CountInformation)
unfolding add_counts determine_vulnerability_counts
add_vulnerability_counts issues cache =
    add_counts (all_counts (determine_vulnerability_counts issues)) cache

-- `cache[path]`
abbrev pub values_at : Text → TextMap (List CountInformation) → List CountInformation
values_at path cache = elim (lookup path cache) [ none ↦ [] | some ivs ↦ ivs ]

-- The counts whose most severe vulnerability is another one.
unfoldable pub without_id : Text → List CountInformation → List CountInformation
unfolding text_eq
without_id id [] = []
without_id id (iv ∷ ivs) =
    let rest = without_id id ivs in
    if text_eq iv.most_severe_vulnerability_id id then rest else iv ∷ rest

-- `removeVulnerabilityCountsFromCache`
unfoldable pub remove_vulnerability_counts :
    List Issue → TextMap (List CountInformation) → TextMap (List CountInformation)
unfolding without_id lookup store
remove_vulnerability_counts [] cache = cache
remove_vulnerability_counts (i ∷ issues) cache =
    remove_vulnerability_counts issues
      (store i.affected_file_path (without_id i.id (values_at i.affected_file_path cache)) cache)

-- `GetInlineValues` and `ClearInlineValues` of the scanner
unfoldable pub get_count_values :
    Text → Range → TextMap (List CountInformation) → List CountInformation
unfolding filter_inline_values_for_range lookup
get_count_values path my_range cache =
    filter_inline_values_for_range (values_at path cache) my_range

unfoldable pub clear_count_values :
    Text → TextMap (List CountInformation) → TextMap (List CountInformation)
unfolding store
clear_count_values path cache = store path [] cache

-- `Text` of a count
unfoldable pub count_text : CountInformation → Text
unfolding decimal
count_text v =
    codes "Vulnerabilities: "
    ++ decimal v.total
    ++ codes " | Critical: "
    ++ decimal (v.severity_counts 0)
    ++ codes ", High: "
    ++ decimal (v.severity_counts 1)
    ++ codes ", Medium: "
    ++ decimal (v.severity_counts 2)
    ++ codes ", Low: "
    ++ decimal (v.severity_counts 3)
    ++ codes " | Most Severe: "
    ++ v.most_severe_vulnerability_id
