-- ===== src/VulnerabilityCount/Totals.antt =====
-- What the counts count, and where the most severe vulnerability is missed.
use khulnasoft_lab_vulnmap_l.Prelude.Maps.{TextMap, lookup, lookup-store}
use khulnasoft_lab_vulnmap_l.Prelude.{
  ℕ, suc, ◌+◌, ◌==◌, Text, text_eq, text_eq_iff, ◌≡◌, refl, inl, inr, ◌&&◌, List, [], ◌∷◌, none,
  some, arith, if◌then◌else◌, Bool-cases,
}
use khulnasoft_lab_vulnmap_l.Vulnmap.Issue.{Issue, Severity, low}
use khulnasoft_lab_vulnmap_l.VulnerabilityCount.{
  CountInformation, LineMap, lookup_line, store_line, lines_at, counted, information_for,
  count_issue, count_issues, determine_vulnerability_counts,
}

-- The count at a line of a file, and 0 where none stands.
abbrev pub total_at : Text → ℕ → TextMap LineMap → ℕ
total_at path l m = elim (lookup_line l (lines_at path m)) [ none ↦ 0 | some vc ↦ vc.total ]

-- How many of the issues begin at the line of the file.
abbrev pub issues_at : Text → ℕ → List Issue → ℕ
issues_at path l [] = 0
issues_at path l (i ∷ is) =
    let rest = issues_at path l is in
    if text_eq i.affected_file_path path && i.range.start.line == l then suc rest else rest

pub lookup_line-store_line :
    (k l : ℕ) (v : CountInformation) (m : LineMap)
    → lookup_line l (store_line k v m) ≡ (if k == l then some v else lookup_line l m)
unfolding lookup_line store_line
lookup_line-store_line k l v [] = refl
lookup_line-store_line k l v ((j, w) ∷ m) = ground (arith, lookup_line-store_line k l v m)

total_at-count_issue :
    (path : Text) (l : ℕ) (i : Issue) (m : TextMap LineMap) (h : Severity)
    → total_at path l (count_issue i (m, h)).0 ≡ (
        if text_eq i.affected_file_path path && i.range.start.line == l
        then suc (total_at path l m)
        else total_at path l m)
unfolding count_issue
total_at-count_issue path l i m h = elim (Bool-cases (text_eq i.affected_file_path path)) [
  | inl same ↦ ground (
    arith,
    (text_eq_iff i.affected_file_path path).0 same,
    lookup-store i.affected_file_path path
        (store_line i.range.start.line (counted h i (information_for i m))
          (lines_at i.affected_file_path m))
        m,
    lookup_line-store_line i.range.start.line l (counted h i (information_for i m))
        (lines_at i.affected_file_path m),
  )
  | inr other ↦ ground (
    arith,
    lookup-store i.affected_file_path path
        (store_line i.range.start.line (counted h i (information_for i m))
          (lines_at i.affected_file_path m))
        m,
  )
]

total_at-count_issues :
    (path : Text) (l : ℕ) (is : List Issue) (m : TextMap LineMap) (h : Severity)
    → total_at path l (count_issues is (m, h)).0 ≡ issues_at path l is + total_at path l m
unfolding count_issues
total_at-count_issues path l [] m h = omega arith
total_at-count_issues path l (i ∷ is) m h = ground (
  arith,
  total_at-count_issues path l is (count_issue i (m, h)).0 (count_issue i (m, h)).1,
  total_at-count_issue path l i m h,
)

-- The total at a line of a file is the number of issues that begin at that line of that file.
pub determine-total :
    (path : Text) (l : ℕ) (is : List Issue)
    → total_at path l (determine_vulnerability_counts is) ≡ issues_at path l is
unfolding determine_vulnerability_counts lookup lookup_line
determine-total path l is = omega (arith, total_at-count_issues path l is [] low)
