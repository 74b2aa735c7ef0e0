-- ===== src/CodeLens.antt =====
-- domain/ide/codelens/codelens.go: the code lenses of a file, one for each command of its issues.
pub mod Actions
use khulnasoft_lab_vulnmap_l.Prelude.{Text, List, [], ◌∷◌, ◌++◌, Option, none, some}
use khulnasoft_lab_vulnmap_l.Vulnmap.Range.{Range}
use khulnasoft_lab_vulnmap_l.Vulnmap.Issue.{Issue, CommandData}
use khulnasoft_lab_vulnmap_l.Lsp.{Command}
use khulnasoft_lab_vulnmap_l.Converter.{to_range}
use khulnasoft_lab_vulnmap_l.Folder.{Folder, document_diagnostics_from_cache}
use khulnasoft_lab_vulnmap_l.Workspace.{Workspace, get_folder_containing}

-- go-lsp's `CodeLens`
pub record CodeLens : Type 0 where
  pub range : Range
  pub command : Command

-- `getCodeLensFromCommand`
unfoldable pub get_code_lens_from_command : Issue → CommandData → CodeLens
unfolding to_range
get_code_lens_from_command issue c = record {
  range = to_range issue.range;
  command = record { title = c.title; command = c.command_id; arguments = c.arguments };
}

-- The two nested loops of `GetFor`.
unfoldable pub issue_lenses : Issue → List CommandData → List CodeLens
unfolding get_code_lens_from_command
issue_lenses issue [] = []
issue_lenses issue (c ∷ cs) = get_code_lens_from_command issue c ∷ issue_lenses issue cs

unfoldable pub lenses_of : List Issue → List CodeLens
unfolding issue_lenses
lenses_of [] = []
lenses_of (issue ∷ issues) = issue_lenses issue issue.codelens_commands ++ lenses_of issues

abbrev pub or_no_issues : Option (List Issue) → List Issue
or_no_issues none = []
or_no_issues (some issues) = issues

abbrev pub cached_issues : Text → Option Folder → List Issue
cached_issues file_path none = []
cached_issues file_path (some f) = or_no_issues (document_diagnostics_from_cache f file_path)

-- `GetFor`
unfoldable pub get_lenses_for : Text → Workspace → List CodeLens
unfolding lenses_of get_folder_containing document_diagnostics_from_cache
get_lenses_for file_path w = lenses_of (cached_issues file_path (get_folder_containing file_path w))
