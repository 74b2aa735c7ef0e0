-- ===== src/CodeActions/Tests.antt =====
-- A deferred action of an issue, and instances of the theorems about resolving it.
use mathlib.Core.Path.{subst, sym}
use khulnasoft_lab_vulnmap_l.Prelude.Maps.{lookup, store, delete, UniqueKeys}
use khulnasoft_lab_vulnmap_l.Prelude.Strings.{has_prefix, has_suffix}
use khulnasoft_lab_vulnmap_l.Prelude.{
  Text, codes, text_eq, Bool, true, false, ◌≡◌, refl, inl, [], ◌∷◌, none, some, Any,
}
use khulnasoft_lab_vulnmap_l.Externals.{sample}
use khulnasoft_lab_vulnmap_l.Vulnmap.Range.{Range, contains, overlaps}
use khulnasoft_lab_vulnmap_l.Vulnmap.Product.{open_source}
use khulnasoft_lab_vulnmap_l.Vulnmap.Issue.{
  Issue, CodeAction, WorkspaceEdit, high, dependency_vulnerability, no_data,
}
use khulnasoft_lab_vulnmap_l.Lsp.{LspCodeAction}
use khulnasoft_lab_vulnmap_l.Converter.{from_range, from_position, to_code_action}
use khulnasoft_lab_vulnmap_l.Folder.{scanned, issues_for, document_diagnostics_from_cache}
use khulnasoft_lab_vulnmap_l.Uri.{clean, below, with_separator, folder_contains}
use khulnasoft_lab_vulnmap_l.Workspace.{
  Workspace, first_containing, get_folder_containing, workspace_issues_for,
}
use khulnasoft_lab_vulnmap_l.FileWatcher.{is_dirty, set_file_as_changed, set_file_as_saved}
use khulnasoft_lab_vulnmap_l.CodeActions.{
  CodeActionsService, CodeActionParams, resolved, missing_key, not_found, requested_issues,
  get_code_actions, resolve_code_action,
}
use khulnasoft_lab_vulnmap_l.CodeActions.Cached.{entries}
use khulnasoft_lab_vulnmap_l.CodeActions.Resolved.{
  Unknown, resolve_code_action-get_code_actions, resolve_code_action-errors,
}

abbrev line : Range
line = record {
  start = record { line = 3; character = 0 };
  end = record { line = 3; character = 9 };
}

abbrev upgrade : WorkspaceEdit
upgrade = record {
  changes = (codes "/w/pom.xml", record { range = line; new_text = codes "1.2.3" } ∷ []) ∷ [];
}

abbrev fix : CodeAction
fix = record {
  title = codes "Upgrade";
  is_preferred = some true;
  edit = none;
  deferred_edit = some (some upgrade);
  command = none;
  deferred_command = none;
  uuid = some (codes "u1");
}

abbrev issue : Issue
issue = record {
  id = codes "VULN-1";
  severity = high;
  issue_type = dependency_vulnerability;
  range = line;
  message = codes "bad";
  formatted_message = codes "";
  affected_file_path = codes "/w/pom.xml";
  product = open_source;
  references = [];
  issue_description_url = none;
  code_actions = fix ∷ [];
  codelens_commands = [];
  ecosystem = codes "maven";
  cwes = [];
  cves = [];
  additional_data = no_data;
}

abbrev workspace : Workspace
workspace = record {
  folders =
      (
        codes "/w",
        record {
          path = codes "/w";
          name = codes "w";
          status = scanned;
          cache = (codes "/w/pom.xml", issue ∷ []) ∷ [];
        },
      )
      ∷ [];
  trust_request_ongoing = false;
}

abbrev request : CodeActionParams
request = record { uri = codes "/w/pom.xml"; range = line }

-- The file was changed and saved.
abbrev saved : Text → Bool
saved =
    is_dirty (set_file_as_saved (codes "/w/pom.xml") (set_file_as_changed (codes "/w/pom.xml") []))

not_dirty : saved request.uri ≡ false
unfolding is_dirty set_file_as_saved set_file_as_changed lookup store delete text_eq
not_dirty = refl

abbrev empty_service : CodeActionsService
empty_service = record { actions_cache = [] }

only_issue : requested_issues sample request workspace ≡ issue ∷ []
unfolding requested_issues workspace_issues_for get_folder_containing first_containing
    folder_contains below with_separator clean has_prefix has_suffix text_eq issues_for
    document_diagnostics_from_cache lookup overlaps contains from_range from_position
only_issue = refl

unique : UniqueKeys (entries (requested_issues sample request workspace))
unfolding lookup
unique = subst (λ is. UniqueKeys (entries is)) (sym only_issue) (refl, tt)

requested : Any (λ j. j ≡ issue) (requested_issues sample request workspace)
requested = subst (λ is. Any (λ j. j ≡ issue) is) (sym only_issue) (inl refl)

resolve_code_action-get_code_actions_example :
    resolve_code_action sample
      (λ command. none)
      (to_code_action sample issue fix)
      (get_code_actions sample saved workspace request empty_service).0
    ≡ resolved (to_code_action sample issue (record fix { edit = some upgrade }))
resolve_code_action-get_code_actions_example =
    resolve_code_action-get_code_actions sample saved workspace request empty_service
      (λ command. none) issue fix (codes "u1") (some upgrade) not_dirty unique requested (inl refl)
      refl refl refl

abbrev stale : LspCodeAction
stale = record {
  title = codes "Upgrade";
  diagnostics = [];
  is_preferred = none;
  edit = none;
  command = none;
  action_data = some (codes "u2");
}

resolve_code_action-errors_example :
    (stale.action_data ≡ none
      → resolve_code_action sample
          (λ command. none)
          stale
          (get_code_actions sample saved workspace request empty_service).0
        ≡ missing_key)
    × ((key : Text)
        → stale.action_data ≡ some key
        → Unknown key (requested_issues sample request workspace)
        → resolve_code_action sample
            (λ command. none)
            stale
            (get_code_actions sample saved workspace request empty_service).0
          ≡ not_found key)
resolve_code_action-errors_example =
    resolve_code_action-errors sample saved workspace request empty_service (λ command. none) stale
      not_dirty refl
