-- ===== src/VulnerabilityCount/Tests.antt =====
-- Three vulnerabilities in two files, and instances of the theorems about the counts.
use khulnasoft_lab_vulnmap_l.Prelude.{
  Text, codes, text_eq, length, ◌≡◌, refl, List, [], ◌∷◌, none, arith,
}
use khulnasoft_lab_vulnmap_l.Vulnmap.Range.{contains}
use khulnasoft_lab_vulnmap_l.Vulnmap.Product.{open_source}
use khulnasoft_lab_vulnmap_l.Vulnmap.Issue.{
  Issue, Severity, high, medium, dependency_vulnerability, no_data, severity_rank,
}
use khulnasoft_lab_vulnmap_l.VulnerabilityCount.{
  determine_vulnerability_counts, add_vulnerability_counts, remove_vulnerability_counts,
  get_count_values,
}
use khulnasoft_lab_vulnmap_l.VulnerabilityCount.MostSevere.{most_severe_at, shared_highest_misses}

abbrev found_in : Text → Text → Severity → Issue
found_in path id severity = record {
  id = id;
  severity = severity;
  issue_type = dependency_vulnerability;
  range = record {
    start = record { line = 3; character = 0 };
    end = record { line = 3; character = 9 };
  };
  message = codes "";
  formatted_message = codes "";
  affected_file_path = path;
  product = open_source;
  references = [];
  issue_description_url = none;
  code_actions = [];
  codelens_commands = [];
  ecosystem = codes "maven";
  cwes = [];
  cves = [];
  additional_data = no_data;
}

abbrev first : Issue
first = found_in (codes "/w") (codes "A") medium

abbrev elsewhere : Issue
elsewhere = found_in (codes "/w/b") (codes "B") high

abbrev last : Issue
last = found_in (codes "/w") (codes "C") high

abbrev vulnerabilities : List Issue
vulnerabilities = first ∷ elsewhere ∷ last ∷ []

shared_highest_misses_example :
    most_severe_at (codes "/w") 3 (determine_vulnerability_counts (first ∷ elsewhere ∷ last ∷ []))
    ≡ codes "A"
unfolding severity_rank
shared_highest_misses_example =
    shared_highest_misses first elsewhere last refl refl (λ e. cc e) (λ e. cc e) (omega arith)

-- A count goes with the vulnerability that it names, and only with that one.
removed_with_its_id :
    get_count_values (codes "/w") first.range (
      remove_vulnerability_counts
        (first ∷ [])
        (add_vulnerability_counts (first ∷ elsewhere ∷ []) []))
    ≡ []
unfolding remove_vulnerability_counts add_vulnerability_counts get_count_values severity_rank
    text_eq
removed_with_its_id = refl

kept_with_another_id :
    length (
      get_count_values
        (codes "/w")
        first.range
        (remove_vulnerability_counts (last ∷ []) (add_vulnerability_counts (first ∷ []) [])))
    ≡ 1
unfolding remove_vulnerability_counts add_vulnerability_counts get_count_values severity_rank
    text_eq contains
kept_with_another_id = refl
