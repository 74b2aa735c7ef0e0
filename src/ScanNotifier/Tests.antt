-- ===== src/ScanNotifier/Tests.antt =====
-- A run of the scan notifier, and an instance of the theorem about it.
use khulnasoft_lab_vulnmap_l.Prelude.{codes, ◌≡◌, refl, List, [], ◌∷◌, none}
use khulnasoft_lab_vulnmap_l.Vulnmap.Product.{Product, open_source, infrastructure_as_code}
use khulnasoft_lab_vulnmap_l.Vulnmap.Issue.{
  Issue, AdditionalData, IacIssueData, high, infrastructure_issue, no_data, iac_data,
}
use khulnasoft_lab_vulnmap_l.ScanNotifier.Laws.{reported_files}

abbrev iac_issue_data : IacIssueData
iac_issue_data = record {
  key = codes "k";
  title = codes "open port";
  public_id = codes "IAC-1";
  documentation = codes "";
  line_number = 4;
  issue = codes "";
  impact = codes "";
  resolve = codes "";
  path = [];
  references = [];
}

abbrev issue_of : Product → AdditionalData → Issue
issue_of p d = record {
  id = codes "IAC-1";
  severity = high;
  issue_type = infrastructure_issue;
  range = record {
    start = record { line = 4; character = 0 };
    end = record { line = 4; character = 80 };
  };
  message = codes "open port";
  formatted_message = codes "";
  affected_file_path = codes "/w/main.tf";
  product = p;
  references = [];
  issue_description_url = none;
  code_actions = [];
  codelens_commands = [];
  ecosystem = codes "";
  cwes = [];
  cves = [];
  additional_data = d;
}

abbrev iac_issues : List Issue
iac_issues =
    issue_of infrastructure_as_code (iac_data iac_issue_data) ∷ issue_of open_source no_data ∷ []

one_file_reported : reported_files infrastructure_as_code iac_issues ≡ codes "/w/main.tf" ∷ []
one_file_reported = refl
