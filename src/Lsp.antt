-- ===== src/Lsp.antt =====
-- internal/lsp/message_types.go: the messages that the modelled parts send to the client, with
-- the fields that they fill.
use khulnasoft_lab_vulnmap_l.Prelude.{ℕ, Text, Bool, List, Option}
use khulnasoft_lab_vulnmap_l.Vulnmap.Range.{Range}
use khulnasoft_lab_vulnmap_l.Vulnmap.Issue.{Argument, CodePoint}

pub data DiagnosticSeverity : Type 0 where
  error_severity warning_severity information_severity hint_severity : DiagnosticSeverity

pub record Diagnostic : Type 0 where
  pub range : Range
  pub severity : DiagnosticSeverity
  pub code : Text
  pub source : Text
  pub message : Text
  pub code_description : Text

-- go-lsp's `Command`, `TextEdit` and `WorkspaceEdit`
pub record Command : Type 0 where
  pub title : Text
  pub command : Text
  pub arguments : List Argument

pub record LspTextEdit : Type 0 where
  pub range : Range
  pub new_text : Text

pub record LspWorkspaceEdit : Type 0 where
  pub changes : List (Text × List LspTextEdit)

-- `Kind` is always `QuickFix`, and `Disabled` is never set.
pub record LspCodeAction : Type 0 where
  pub title : Text
  pub diagnostics : List Diagnostic
  pub is_preferred : Option Bool
  pub edit : Option LspWorkspaceEdit
  pub command : Option Command
  pub action_data : Option Text

pub data ScanStatus : Type 0 where
  in_progress success error_status : ScanStatus

pub record LspOssIssueData : Type 0 where
  pub license : Text
  pub identifiers_cwe : List Text
  pub identifiers_cve : List Text
  pub description : Text
  pub language : Text
  pub package_manager : Text
  pub package_name : Text
  pub name : Text
  pub version : Text
  pub exploit : Text
  pub cvssv3 : Text
  pub cvss_score : Text
  pub fixed_in : List Text
  pub from : List Text
  pub upgrade_path : List Argument
  pub is_patchable : Bool
  pub is_upgradable : Bool
  pub project_name : Text
  pub display_target_file : Text
  pub details : Text

pub record LspIacIssueData : Type 0 where
  pub public_id : Text
  pub documentation : Text
  pub line_number : ℕ
  pub issue : Text
  pub impact : Text
  pub resolve : Text
  pub path : List Text
  pub references : List Text

pub record LspCommitChangeLine : Type 0 where
  pub line : Text
  pub line_number : ℕ
  pub line_change : Text

pub record LspExampleCommitFix : Type 0 where
  pub commit_url : Text
  pub lines : List LspCommitChangeLine

pub record LspMarkerPosition : Type 0 where
  pub rows : CodePoint
  pub cols : CodePoint
  pub file : Text

pub record LspMarker : Type 0 where
  pub msg : CodePoint
  pub pos : List LspMarkerPosition

pub record LspCodeIssueData : Type 0 where
  pub message : Text
  pub rule : Text
  pub rule_id : Text
  pub repo_dataset_size : ℕ
  pub example_commit_fixes : List LspExampleCommitFix
  pub cwe : List Text
  pub is_security_type : Bool
  pub text : Text
  pub cols : CodePoint
  pub rows : CodePoint
  pub markers : List LspMarker
  pub lead_url : Text

pub data LspAdditionalData : Type 0 where
  lsp_oss : LspOssIssueData → LspAdditionalData
  lsp_iac : LspIacIssueData → LspAdditionalData
  lsp_code : LspCodeIssueData → LspAdditionalData

pub record ScanIssue : Type 0 where
  pub id : Text
  pub title : Text
  pub severity : Text
  pub file_path : Text
  pub additional_data : LspAdditionalData

pub record VulnmapScanParams : Type 0 where
  pub status : ScanStatus
  pub product : Text
  pub folder_path : Text
  pub issues : List ScanIssue
