-- ===== src/CodeActions.antt =====
-- application/codeaction/codeaction.go: the code actions of a range, and the actions that are resolved
-- when the user picks one. The issues come from the workspace.
pub mod Cached
pub mod Resolved
pub mod Tests
use khulnasoft_lab_vulnmap_l.Prelude.Maps.{TextMap, lookup, store}
use khulnasoft_lab_vulnmap_l.Prelude.{
  Text, Bool, true, false, List, [], ◌∷◌, Option, none, some, if◌then◌else◌,
}
use khulnasoft_lab_vulnmap_l.Externals.{Externals}
use khulnasoft_lab_vulnmap_l.Vulnmap.Range.{Range}
use khulnasoft_lab_vulnmap_l.Vulnmap.Issue.{Issue, CodeAction, CommandData, WorkspaceEdit}
use khulnasoft_lab_vulnmap_l.Lsp.{LspCodeAction, Command}
use khulnasoft_lab_vulnmap_l.Converter.{from_range, to_code_action, to_code_actions}
use khulnasoft_lab_vulnmap_l.Workspace.{Workspace, workspace_issues_for}

-- `cachedAction`
pub record CachedAction : Type 0 where
  pub issue : Issue
  pub action : CodeAction

-- `CodeActionsService`, of which only the cache changes
pub record CodeActionsService : Type 0 where
  pub actions_cache : TextMap CachedAction

-- `lsp.CodeActionParams`
pub record CodeActionParams : Type 0 where
  pub uri : Text
  pub range : Range

-- What `ResolveCodeAction` returns; a missing deferred edit is a nil pointer that is called.
pub data ResolveResult : Type 0 where
  resolved : LspCodeAction → ResolveResult
  -- a command was run: an empty action, or the command's error
  command_run : ResolveResult
  command_failed : Text → ResolveResult
  missing_key : ResolveResult
  not_found : Text → ResolveResult
  nil_dereference : ResolveResult

unfoldable pub cache_action : Issue → CodeAction → TextMap CachedAction → TextMap CachedAction
unfolding store
cache_action issue action cache = elim action.uuid [
  | none ↦ cache
  | some uuid ↦ store uuid (record { issue = issue; action = action }) cache
]

unfoldable pub cache_actions : Issue → List CodeAction → TextMap CachedAction → TextMap CachedAction
unfolding cache_action
cache_actions issue [] cache = cache
cache_actions issue (action ∷ actions) cache =
    cache_actions issue actions (cache_action issue action cache)

-- The two nested loops of `GetCodeActions`.
unfoldable pub cache_issues : List Issue → TextMap CachedAction → TextMap CachedAction
unfolding cache_actions
cache_issues [] cache = cache
cache_issues (issue ∷ issues) cache =
    cache_issues issues (cache_actions issue issue.code_actions cache)

module _ (x : Externals) where
  -- The issues that a request is about.
  unfoldable pub requested_issues : CodeActionParams → Workspace → List Issue
  requested_issues params w =
      workspace_issues_for (x.path_from_uri params.uri) (from_range params.range) w

  -- `GetCodeActions`; `none` is the nil slice for a file with unsaved changes.
  unfoldable pub get_code_actions :
      (Text → Bool)
      → Workspace
      → CodeActionParams
      → CodeActionsService
      → CodeActionsService × Option (List LspCodeAction)
  unfolding cache_issues requested_issues
  get_code_actions is_dirty w params service = if is_dirty params.uri then (service, none) else (
    record service { actions_cache = cache_issues (requested_issues params w) [] },
    some (to_code_actions x (requested_issues params w)),
  )

  unfoldable pub resolved_edit : Issue → CodeAction → Option (Option WorkspaceEdit) → ResolveResult
  resolved_edit issue action none = nil_dereference
  resolved_edit issue action (some edit) =
      resolved (to_code_action x issue (record action { edit = edit }))

  unfoldable pub resolve_cached : Text → Option CachedAction → ResolveResult
  unfolding resolved_edit
  resolve_cached key none = not_found key
  resolve_cached key (some cached) =
      resolved_edit cached.issue cached.action cached.action.deferred_edit

  unfoldable pub resolve_key : CodeActionsService → Option Text → ResolveResult
  unfolding lookup resolve_cached
  resolve_key service none = missing_key
  resolve_key service (some key) = resolve_cached key (lookup key service.actions_cache)

  unfoldable pub command_result : Option Text → ResolveResult
  command_result none = command_run
  command_result (some err) = command_failed err

  -- `ResolveCodeAction`, with the error that the command service returns for a command.
  unfoldable pub resolve_code_action :
      (Command → Option Text) → LspCodeAction → CodeActionsService → ResolveResult
  unfolding resolve_key command_result
  resolve_code_action execute action service = elim action.command [
    | some command ↦ command_result (execute command)
    | none ↦ resolve_key service action.action_data
  ]
