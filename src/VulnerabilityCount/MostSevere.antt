-- ===== src/VulnerabilityCount/MostSevere.antt =====
-- `highestIssueSeverity` is shared by all lines: where that misses the most severe vulnerability.
use khulnasoft_lab_vulnmap_l.Prelude.Maps.{TextMap, lookup, lookup-store}
use khulnasoft_lab_vulnmap_l.Prelude.{
  ℕ, ◌≤◌, ltb, Text, codes, text_eq, text_eq_iff, text_eq_refl, ◌≡◌, ◌≢◌, refl, sym, ap, ◌∙◌,
  ltb→lt, ◌||◌, [], ◌∷◌, Option, none, some, arith, if◌then◌else◌,
}
use khulnasoft_lab_vulnmap_l.Vulnmap.Issue.{Issue, Severity, low, severity_rank}
use khulnasoft_lab_vulnmap_l.VulnerabilityCount.{
  CountInformation, LineMap, lookup_line, store_line, lines_at, or_new, counted, information_for,
  count_issue, count_issues, determine_vulnerability_counts,
}
use khulnasoft_lab_vulnmap_l.VulnerabilityCount.Totals.{lookup_line-store_line}

-- The identifier that a line of a file shows as the most severe, empty where no count stands.
abbrev pub most_severe_at : Text → ℕ → TextMap LineMap → Text
most_severe_at path l m = elim (lookup_line l (lines_at path m)) [
  | none ↦ []
  | some vc ↦ vc.most_severe_vulnerability_id
]

abbrev chosen_id : Severity → Issue → Text → Text
chosen_id h i id =
    if ltb (severity_rank i.severity) (severity_rank h) || text_eq id (codes "") then i.id else id

information_for-id :
    (i : Issue) (m : TextMap LineMap)
    → (information_for i m).most_severe_vulnerability_id
      ≡ most_severe_at i.affected_file_path i.range.start.line m
information_for-id i m =
    by_option (lookup_line i.range.start.line (lines_at i.affected_file_path m))
  where
    by_option :
        (o : Option CountInformation)
        → (or_new i.affected_file_path i.range.start.line o).most_severe_vulnerability_id
          ≡ (elim o [ none ↦ [] | some vc ↦ vc.most_severe_vulnerability_id ])
    by_option none = refl
    by_option (some vc) = refl

most_severe_at-own :
    (i : Issue) (m : TextMap LineMap) (h : Severity)
    → most_severe_at i.affected_file_path i.range.start.line (count_issue i (m, h)).0
      ≡ chosen_id h i (most_severe_at i.affected_file_path i.range.start.line m)
unfolding count_issue
most_severe_at-own i m h = ground (
  arith,
  information_for-id i m,
  text_eq_refl i.affected_file_path,
  lookup-store i.affected_file_path i.affected_file_path
      (store_line i.range.start.line (counted h i (information_for i m))
        (lines_at i.affected_file_path m))
      m,
  lookup_line-store_line i.range.start.line i.range.start.line (counted h i (information_for i m))
      (lines_at i.affected_file_path m),
)

most_severe_at-other :
    (path : Text) (l : ℕ) (i : Issue) (m : TextMap LineMap) (h : Severity)
    → i.affected_file_path ≢ path
    → most_severe_at path l (count_issue i (m, h)).0 ≡ most_severe_at path l m
unfolding count_issue
most_severe_at-other path l i m h ne = ground (
  arith,
  text_eq_iff i.affected_file_path path,
  lookup-store i.affected_file_path path
      (store_line i.range.start.line (counted h i (information_for i m))
        (lines_at i.affected_file_path m))
      m,
)

highest-count_issue :
    (i : Issue) (m : TextMap LineMap) (h : Severity)
    → most_severe_at i.affected_file_path i.range.start.line m ≡ []
    → (count_issue i (m, h)).1 ≡ i.severity
unfolding count_issue
highest-count_issue i m h e = ground (
  arith,
  (text_eq_iff (information_for i m).most_severe_vulnerability_id (codes "")).1
      (information_for-id i m ∙ e),
)

nothing : (path : Text) (l : ℕ) → most_severe_at path l [] ≡ []
unfolding lookup lookup_line
nothing path l = refl

chosen_id-none : (h : Severity) (i : Issue) → chosen_id h i [] ≡ i.id
chosen_id-none h i = ground (arith, text_eq_refl [])

chosen_id-kept :
    (h : Severity) (i : Issue) (id : Text)
    → severity_rank h ≤ severity_rank i.severity
    → id ≢ []
    → chosen_id h i id ≡ id
chosen_id-kept h i id le ne =
    ground (arith, text_eq_iff id (codes ""), ltb→lt (severity_rank i.severity) (severity_rank h))

-- A line of one file whose issues are `a` and later `c`, with an issue `b` of another file between
-- them: if `b` is at least as severe as `c`, the line keeps `a` as its most severe vulnerability, even
-- if `c` is more severe than `a`.
pub shared_highest_misses :
    (a b c : Issue)
    → a.affected_file_path ≡ c.affected_file_path
    → a.range.start.line ≡ c.range.start.line
    → a.affected_file_path ≢ b.affected_file_path
    → a.id ≢ []
    → severity_rank b.severity ≤ severity_rank c.severity
    → most_severe_at a.affected_file_path a.range.start.line
        (determine_vulnerability_counts (a ∷ b ∷ c ∷ []))
      ≡ a.id
unfolding determine_vulnerability_counts count_issues
shared_highest_misses a b c path line apart named sev =
    at_c (count_issue c after_b).0
    ∙ most_severe_at-own c after_b.0 after_b.1
    ∙ ap (chosen_id after_b.1 c) (sym (at_c after_b.0) ∙ at_b)
    ∙ chosen_id-kept after_b.1 c a.id (rw highest sev) named
  where
    after_a : TextMap LineMap × Severity
    after_a = count_issue a ([], low)

    after_b : TextMap LineMap × Severity
    after_b = count_issue b after_a

    at_a : most_severe_at a.affected_file_path a.range.start.line after_a.0 ≡ a.id
    at_a =
        most_severe_at-own a [] low
        ∙ ap (chosen_id low a) (nothing a.affected_file_path a.range.start.line)
        ∙ chosen_id-none low a

    at_b : most_severe_at a.affected_file_path a.range.start.line after_b.0 ≡ a.id
    at_b =
        most_severe_at-other a.affected_file_path a.range.start.line b after_a.0 after_a.1
          (λ e. apart (sym e))
        ∙ at_a

    highest : after_b.1 ≡ b.severity
    highest = highest-count_issue b after_a.0 after_a.1 (
        most_severe_at-other b.affected_file_path b.range.start.line a [] low apart
        ∙ nothing b.affected_file_path b.range.start.line)

    at_c :
        (m : TextMap LineMap)
        → most_severe_at a.affected_file_path a.range.start.line m
          ≡ most_severe_at c.affected_file_path c.range.start.line m
    at_c m =
        ap (λ p. most_severe_at p a.range.start.line m) path
        ∙ ap (λ l. most_severe_at c.affected_file_path l m) line
