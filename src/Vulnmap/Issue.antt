-- ===== src/Vulnmap/Issue.antt =====
-- domain/vulnmap/issues.go, codeaction.go, command.go and edit.go: an issue with all that it
-- carries. A `*url.URL` is the text that its `String` method gives, a float64 its bit pattern.
use khulnasoft_lab_vulnmap_l.Prelude.{ℕ, ◌+◌, Text, codes, Bool, List, Option}
use khulnasoft_lab_vulnmap_l.Vulnmap.Range.{Range}
use khulnasoft_lab_vulnmap_l.Vulnmap.Product.{
  Product, open_source, code, infrastructure_as_code, FilterableIssueType, open_source_type,
  code_quality_type, code_security_type, infrastructure_as_code_type, none_type,
}

-- `Severity int8`: the four constants, and any number above them.
pub data Severity : Type 0 where
  critical high medium low : Severity
  beyond_low : ℕ → Severity

-- The number of a severity: smaller is more severe.
unfoldable pub severity_rank : Severity → ℕ
severity_rank critical = 0
severity_rank high = 1
severity_rank medium = 2
severity_rank low = 3
severity_rank (beyond_low n) = n + 4

-- `Severity.String`
unfoldable pub severity_string : Severity → Text
severity_string critical = codes "critical"
severity_string high = codes "high"
severity_string medium = codes "medium"
severity_string low = codes "low"
severity_string (beyond_low n) = codes "unknown"

-- `Type int8`
pub data IssueType : Type 0 where
  package_health code_quality_issue code_security_vulnerability licence_issue : IssueType
  dependency_vulnerability infrastructure_issue container_vulnerability : IssueType

pub record Reference : Type 0 where
  pub title : Text
  pub url : Option Text

-- An argument of a command, of the types that the code puts into its `[]any`.
pub data Argument : Type 0 where
  text_argument : Text → Argument
  bool_argument : Bool → Argument
  range_argument : Range → Argument

pub record CommandData : Type 0 where
  pub title : Text
  pub command_id : Text
  pub arguments : List Argument

pub record TextEdit : Type 0 where
  pub range : Range
  pub new_text : Text

pub record WorkspaceEdit : Type 0 where
  pub changes : List (Text × List TextEdit)

-- A deferred edit or command is a function without arguments: here, the value that it returns.
pub record CodeAction : Type 0 where
  pub title : Text
  pub is_preferred : Option Bool
  pub edit : Option WorkspaceEdit
  pub deferred_edit : Option (Option WorkspaceEdit)
  pub command : Option CommandData
  pub deferred_command : Option (Option CommandData)
  pub uuid : Option Text

pub record CommitChangeLine : Type 0 where
  pub line : Text
  pub line_number : ℕ
  pub line_change : Text

pub record ExampleCommitFix : Type 0 where
  pub commit_url : Text
  pub lines : List CommitChangeLine

abbrev pub CodePoint : Type 0
CodePoint = ℕ × ℕ

pub record MarkerPosition : Type 0 where
  pub cols : CodePoint
  pub rows : CodePoint
  pub file : Text

pub record Marker : Type 0 where
  pub msg : CodePoint
  pub pos : List MarkerPosition

pub record CodeIssueData : Type 0 where
  pub key : Text
  pub title : Text
  pub message : Text
  pub rule : Text
  pub rule_id : Text
  pub repo_dataset_size : ℕ
  pub example_commit_fixes : List ExampleCommitFix
  pub cwe : List Text
  pub text : Text
  pub markers : List Marker
  pub cols : CodePoint
  pub rows : CodePoint
  pub is_security_type : Bool
  pub is_autofixable : Bool

pub record OssIssueData : Type 0 where
  pub key : Text
  pub title : Text
  pub name : Text
  pub line_number : ℕ
  pub description : Text
  pub references : List Reference
  pub version : Text
  pub license : Text
  pub package_manager : Text
  pub package_name : Text
  pub from : List Text
  pub fixed_in : List Text
  pub upgrade_path : List Argument
  pub is_upgradable : Bool
  pub cvssv3 : Text
  pub cvss_score : ℕ
  pub exploit : Text
  pub is_patchable : Bool
  pub project_name : Text
  pub display_target_file : Text
  pub language : Text
  pub details : Text

pub record IacIssueData : Type 0 where
  pub key : Text
  pub title : Text
  pub public_id : Text
  pub documentation : Text
  pub line_number : ℕ
  pub issue : Text
  pub impact : Text
  pub resolve : Text
  pub path : List Text
  pub references : List Text

-- `AdditionalData any`, with the types that the products put there.
pub data AdditionalData : Type 0 where
  no_data : AdditionalData
  code_data : CodeIssueData → AdditionalData
  oss_data : OssIssueData → AdditionalData
  iac_data : IacIssueData → AdditionalData

pub record Issue : Type 0 where
  pub id : Text
  pub severity : Severity
  pub issue_type : IssueType
  pub range : Range
  pub message : Text
  pub formatted_message : Text
  pub affected_file_path : Text
  pub product : Product
  pub references : List Reference
  pub issue_description_url : Option Text
  pub code_actions : List CodeAction
  pub codelens_commands : List CommandData
  pub ecosystem : Text
  pub cwes : List Text
  pub cves : List Text
  pub additional_data : AdditionalData

code_filterable_type : IssueType → FilterableIssueType
code_filterable_type code_quality_issue = code_quality_type
code_filterable_type code_security_vulnerability = code_security_type
code_filterable_type _ = code_security_type

unfoldable pub filterable_type : Product → IssueType → FilterableIssueType
unfolding code_filterable_type
filterable_type open_source t = open_source_type
filterable_type infrastructure_as_code t = infrastructure_as_code_type
filterable_type code t = code_filterable_type t
filterable_type _ t = none_type

-- `GetFilterableIssueType`
unfoldable pub get_filterable_issue_type : Issue → FilterableIssueType
unfolding filterable_type
get_filterable_issue_type i = filterable_type i.product i.issue_type
