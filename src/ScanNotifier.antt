-- ===== src/ScanNotifier.antt =====
-- application/server/notification/scan_notifier.go: the `$/vulnmap.scan` messages. Each function
-- returns the messages that it sends, in order. `SendSuccessForAllProducts` and `SendInProgress`
-- range over a Go map, in the order of `enabled_products` here.
pub mod Laws
pub mod Tests
use khulnasoft_lab_vulnmap_l.Prelude.{
  Text, codes, Bool, true, false, not, ◌||◌, List, [], ◌∷◌, ◌++◌, map, Option, none, some,
  if◌then◌else◌,
}
use khulnasoft_lab_vulnmap_l.Externals.{Externals}
use khulnasoft_lab_vulnmap_l.Vulnmap.Product.{
  Product, open_source, code, infrastructure_as_code, product_eq, to_product_codename,
}
use khulnasoft_lab_vulnmap_l.Vulnmap.Issue.{
  Issue, AdditionalData, code_data, oss_data, iac_data, severity_string, OssIssueData, IacIssueData,
  CodeIssueData, CommitChangeLine, ExampleCommitFix, Marker, MarkerPosition,
}
use khulnasoft_lab_vulnmap_l.Lsp.{
  VulnmapScanParams, ScanStatus, in_progress, success, error_status, ScanIssue, lsp_oss, lsp_iac,
  lsp_code, LspOssIssueData, LspCommitChangeLine, LspExampleCommitFix, LspMarkerPosition, LspMarker,
}

abbrev pub enabled_products : List (Product × Bool)
enabled_products = (code, true) ∷ (infrastructure_as_code, true) ∷ (open_source, true) ∷ []

lookup_enabled : Product → List (Product × Bool) → Option Bool
unfolding product_eq
lookup_enabled p [] = none
lookup_enabled p ((q, enabled) ∷ m) = if product_eq q p then some enabled else lookup_enabled p m

-- `enabled, ok := enabledProducts[p]`, and `!enabled || !ok` negated
unfoldable pub is_enabled_product : Product → Bool
unfolding lookup_enabled
is_enabled_product p = elim (lookup_enabled p enabled_products) [ none ↦ false | some b ↦ b ]

unfoldable pub send_error : Product → Text → List VulnmapScanParams
unfolding to_product_codename
send_error p folder_path =
    record {
      status = error_status;
      product = to_product_codename p;
      folder_path = folder_path;
      issues = [];
    }
    ∷ []

-- The products for which the loop body runs.
enabled_only : List (Product × Bool) → List Product
enabled_only [] = []
enabled_only ((p, enabled) ∷ m) = if enabled then p ∷ enabled_only m else enabled_only m

in_progress_message : Text → Product → VulnmapScanParams
unfolding to_product_codename
in_progress_message folder_path p = record {
  status = in_progress;
  product = to_product_codename p;
  folder_path = folder_path;
  issues = [];
}

unfoldable pub send_in_progress : Text → List VulnmapScanParams
unfolding in_progress_message enabled_only
send_in_progress folder_path = map (in_progress_message folder_path) (enabled_only enabled_products)

convert_iac : Issue → IacIssueData → ScanIssue
unfolding severity_string
convert_iac issue d = record {
  id = d.key;
  title = d.title;
  severity = severity_string issue.severity;
  file_path = issue.affected_file_path;
  additional_data = lsp_iac (record {
    public_id = d.public_id;
    documentation = d.documentation;
    line_number = d.line_number;
    issue = d.issue;
    impact = d.impact;
    resolve = d.resolve;
    path = d.path;
    references = d.references;
  });
}

convert_line : CommitChangeLine → LspCommitChangeLine
convert_line l = record { line = l.line; line_number = l.line_number; line_change = l.line_change }

convert_fix : ExampleCommitFix → LspExampleCommitFix
unfolding convert_line
convert_fix f = record { commit_url = f.commit_url; lines = map convert_line f.lines }

convert_position : MarkerPosition → LspMarkerPosition
convert_position p = record { rows = p.rows; cols = p.cols; file = p.file }

convert_marker : Marker → LspMarker
unfolding convert_position
convert_marker m = record { msg = m.msg; pos = map convert_position m.pos }

convert_code : Issue → CodeIssueData → ScanIssue
unfolding severity_string convert_fix convert_marker
convert_code issue d = record {
  id = d.key;
  title = issue.message;
  severity = severity_string issue.severity;
  file_path = issue.affected_file_path;
  additional_data = lsp_code (record {
    message = d.message;
    rule = d.rule;
    rule_id = d.rule_id;
    repo_dataset_size = d.repo_dataset_size;
    example_commit_fixes = map convert_fix d.example_commit_fixes;
    cwe = d.cwe;
    is_security_type = d.is_security_type;
    text = d.text;
    cols = d.cols;
    rows = d.rows;
    markers = map convert_marker d.markers;
    lead_url = codes "";
  });
}

module _ (x : Externals) where
  convert_oss : Issue → OssIssueData → ScanIssue
  unfolding severity_string
  convert_oss issue d = record {
    id = d.key;
    title = d.title;
    severity = severity_string issue.severity;
    file_path = issue.affected_file_path;
    additional_data = lsp_oss (record {
      license = d.license;
      identifiers_cwe = issue.cwes;
      identifiers_cve = issue.cves;
      description = d.description;
      language = d.language;
      package_manager = d.package_manager;
      package_name = d.package_name;
      name = d.name;
      version = d.version;
      exploit = d.exploit;
      cvssv3 = d.cvssv3;
      cvss_score = x.format_float d.cvss_score;
      fixed_in = d.fixed_in;
      from = d.from;
      upgrade_path = d.upgrade_path;
      is_patchable = d.is_patchable;
      is_upgradable = d.is_upgradable;
      project_name = d.project_name;
      display_target_file = d.display_target_file;
      details = d.details;
    });
  }

  -- The body of each loop: the issue converted, or `none` for `continue`.
  oss_scan_issue : Issue → AdditionalData → Option ScanIssue
  unfolding convert_oss
  oss_scan_issue issue (oss_data d) = some (convert_oss issue d)
  oss_scan_issue issue _ = none

iac_scan_issue : Issue → AdditionalData → Option ScanIssue
unfolding convert_iac
iac_scan_issue issue (iac_data d) = some (convert_iac issue d)
iac_scan_issue issue _ = none

code_scan_issue : Issue → AdditionalData → Option ScanIssue
unfolding convert_code
code_scan_issue issue (code_data d) = some (convert_code issue d)
code_scan_issue issue _ = none

abbrev keep_some : Option ScanIssue → List ScanIssue → List ScanIssue
keep_some none rest = rest
keep_some (some s) rest = s ∷ rest

append_iac_issues : List Issue → List ScanIssue
unfolding iac_scan_issue
append_iac_issues [] = []
append_iac_issues (i ∷ is) = keep_some (iac_scan_issue i i.additional_data) (append_iac_issues is)

append_code_issues : List Issue → List ScanIssue
unfolding code_scan_issue
append_code_issues [] = []
append_code_issues (i ∷ is) =
    keep_some (code_scan_issue i i.additional_data) (append_code_issues is)

-- the filter loop of `SendSuccess`
unfoldable pub enabled_product_issues : List Issue → List Issue
unfolding is_enabled_product
enabled_product_issues [] = []
enabled_product_issues (i ∷ is) =
    let rest = enabled_product_issues is in if is_enabled_product i.product then i ∷ rest else rest

module _ (x : Externals) where
  append_oss_issues : List Issue → List ScanIssue
  unfolding oss_scan_issue
  append_oss_issues [] = []
  append_oss_issues (i ∷ is) =
      keep_some (oss_scan_issue x i i.additional_data) (append_oss_issues is)

  scan_issues_for : Product → List Issue → List ScanIssue
  unfolding append_oss_issues append_iac_issues append_code_issues product_eq
  scan_issues_for p issues =
      if product_eq p infrastructure_as_code
      then append_iac_issues issues
      else if product_eq p code
      then append_code_issues issues
      else if product_eq p open_source
      then append_oss_issues issues
      else []

  -- `sendSuccess`
  send_success_message : Product → Text → List Issue → List VulnmapScanParams
  unfolding is_enabled_product scan_issues_for to_product_codename
  send_success_message p folder_path issues =
      if is_enabled_product p
      then record {
        status = success;
        product = to_product_codename p;
        folder_path = folder_path;
        issues = scan_issues_for p issues;
      }
        ∷ []
      else []

  -- `SendSuccess`
  unfoldable pub send_success : Product → Text → List Issue → List VulnmapScanParams
  unfolding send_success_message enabled_product_issues
  send_success p folder_path issues =
      send_success_message p folder_path (enabled_product_issues issues)

  send_success_to : Text → List Issue → List Product → List VulnmapScanParams
  unfolding send_success_message
  send_success_to folder_path issues [] = []
  send_success_to folder_path issues (p ∷ ps) =
      send_success_message p folder_path issues ++ send_success_to folder_path issues ps

  -- `SendSuccessForAllProducts`
  unfoldable pub send_success_for_all_products : Text → List Issue → List VulnmapScanParams
  unfolding send_success_to enabled_only
  send_success_for_all_products folder_path issues =
      send_success_to folder_path issues (enabled_only enabled_products)
