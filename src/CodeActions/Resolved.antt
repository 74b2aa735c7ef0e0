-- ===== src/CodeActions/Resolved.antt =====
-- Which code actions resolve after a request, and to what.
use mathlib.Core.Path.{subst}
use mathlib.Core.List.{append_assoc}
use khulnasoft_lab_vulnmap_l.Prelude.Maps.{TextMap, lookup, UniqueKeys}
use khulnasoft_lab_vulnmap_l.Prelude.{
  Text, text_eq, text_eq_iff, text_eq_refl, Bool, false, ◌≡◌, ◌≢◌, refl, sym, ap, ◌∙◌, inl, inr,
  List, [], ◌∷◌, ◌++◌, Option, none, some, All, Any, Any-append_left, Any-append_right, arith,
  Bool-cases,
}
use khulnasoft_lab_vulnmap_l.Externals.{Externals}
use khulnasoft_lab_vulnmap_l.Vulnmap.Issue.{Issue, CodeAction, WorkspaceEdit}
use khulnasoft_lab_vulnmap_l.Lsp.{LspCodeAction, Command}
use khulnasoft_lab_vulnmap_l.Converter.{to_code_action, to_command}
use khulnasoft_lab_vulnmap_l.Workspace.{Workspace}
use khulnasoft_lab_vulnmap_l.CodeActions.{
  CachedAction, CodeActionsService, CodeActionParams, resolved, missing_key, not_found,
  cache_issues, requested_issues, get_code_actions, resolved_edit, resolve_cached, resolve_key,
  resolve_code_action,
}
use khulnasoft_lab_vulnmap_l.CodeActions.Cached.{
  cached, keyed, entries_of, entries, cache_issues-entries, store_all, store_all-lookup_new,
  store_all-lookup,
}

abbrev Holds : Text → CachedAction → TextMap CachedAction → Type 0
Holds k c es = Any (λ e. e ≡ (k, c)) es

keyed-Holds : (o : Option Text) (k : Text) (c : CachedAction) → o ≡ some k → Holds k c (keyed o c)
keyed-Holds none k c e = cc e
keyed-Holds (some uuid) k c e = inl (ap (λ t. (t, c)) (ground (arith, e)))

entries_of-Holds :
    (i : Issue) (a : CodeAction) (k : Text) (rest : List CodeAction)
    → a.uuid ≡ some k
    → Any (λ b. b ≡ a) rest
    → Holds k (cached i a) (entries_of i rest)
entries_of-Holds i a k [] e h = absurd h
entries_of-Holds i a k (b ∷ rest) e (inl same) =
    subst
      (λ (b : CodeAction). Holds k (cached i a) (keyed b.uuid (cached i b) ++ entries_of i rest))
      (sym same)
      (Any-append_left _ (keyed a.uuid (cached i a)) (entries_of i rest)
        (keyed-Holds a.uuid k (cached i a) e))
entries_of-Holds i a k (b ∷ rest) e (inr h) =
    Any-append_right _ (keyed b.uuid (cached i b)) (entries_of i rest)
      (entries_of-Holds i a k rest e h)

entries-Holds :
    (i : Issue) (a : CodeAction) (k : Text) (is : List Issue)
    → a.uuid ≡ some k
    → Any (λ b. b ≡ a) i.code_actions
    → Any (λ j. j ≡ i) is
    → Holds k (cached i a) (entries is)
entries-Holds i a k [] e h x = absurd x
entries-Holds i a k (j ∷ is) e h (inl same) =
    subst (λ (j : Issue). Holds k (cached i a) (entries_of j j.code_actions ++ entries is))
      (sym same)
      (Any-append_left _ (entries_of i i.code_actions) (entries is)
        (entries_of-Holds i a k i.code_actions e h))
entries-Holds i a k (j ∷ is) e h (inr later) =
    Any-append_right _ (entries_of j j.code_actions) (entries is) (entries-Holds i a k is e h later)

lookup-Holds :
    (k : Text) (c : CachedAction) (es : TextMap CachedAction)
    → UniqueKeys es
    → Holds k c es
    → lookup k es ≡ some c
unfolding lookup
lookup-Holds k c [] u h = absurd h
lookup-Holds k c ((j, d) ∷ es) u (inl same) =
    rw (ap (λ (e : Text × CachedAction). e.0) same)
      (rw (text_eq_refl k) (ap some (ap (λ (e : Text × CachedAction). e.1) same)))
lookup-Holds k c ((j, d) ∷ es) u (inr h) =
    ground (arith, lookup-Holds k c es u.1 h, text_eq_iff j k, u.0)

-- No action of the issues has the UUID.
abbrev pub Unknown : Text → List Issue → Type 0
Unknown k is = All (λ (i : Issue). All (λ (a : CodeAction). a.uuid ≢ some k) i.code_actions) is

keyed-Unknown :
    (k : Text) (o : Option Text) (c : CachedAction) (es : TextMap CachedAction)
    → o ≢ some k
    → lookup k es ≡ none
    → lookup k (keyed o c ++ es) ≡ none
unfolding lookup
keyed-Unknown k none c es new h = h
keyed-Unknown k (some uuid) c es new h = elim (Bool-cases (text_eq uuid k)) [
  | inl same ↦ absurd (new (ap some ((text_eq_iff uuid k).0 same)))
  | inr other ↦ rw other h
]

entries_of-Unknown :
    (k : Text) (i : Issue) (rest : List CodeAction) (es : TextMap CachedAction)
    → All (λ (a : CodeAction). a.uuid ≢ some k) rest
    → lookup k es ≡ none
    → lookup k (entries_of i rest ++ es) ≡ none
entries_of-Unknown k i [] es new h = h
entries_of-Unknown k i (a ∷ rest) es new h =
    rw (append_assoc (keyed a.uuid (cached i a)) (entries_of i rest) es) (
      keyed-Unknown k a.uuid (cached i a) (entries_of i rest ++ es) new.0
        (entries_of-Unknown k i rest es new.1 h))

entries-Unknown : (k : Text) (is : List Issue) → Unknown k is → lookup k (entries is) ≡ none
unfolding lookup
entries-Unknown k [] new = refl
entries-Unknown k (i ∷ is) new =
    entries_of-Unknown k i i.code_actions (entries is) new.0 (entries-Unknown k is new.1)

edited :
    (x : Externals) (i : Issue) (a : CodeAction) (edit : Option WorkspaceEdit)
    → resolved_edit x i a (some edit) ≡ resolved (to_code_action x i (record a { edit = edit }))
unfolding resolved_edit
edited x i a edit = refl

module _ (x : Externals) (is_dirty : Text → Bool) (w : Workspace) (params : CodeActionParams)
    (service : CodeActionsService) (execute : Command → Option Text) where
  cache_after :
      is_dirty params.uri ≡ false
      → (get_code_actions x is_dirty w params service).0.actions_cache
        ≡ cache_issues (requested_issues x params w) []
  unfolding get_code_actions
  cache_after clean = rw clean refl

  abbrev after : CodeActionsService
  after = (get_code_actions x is_dirty w params service).0

  without_command :
      (action : LspCodeAction) (s : CodeActionsService)
      → action.command ≡ none
      → resolve_code_action x execute action s ≡ resolve_key x s action.action_data
  unfolding resolve_code_action
  without_command action s e = ground arith

  command-none :
      (i : Issue) (a : CodeAction) → a.command ≡ none → (to_code_action x i a).command ≡ none
  unfolding to_code_action to_command
  command-none i a e = ap to_command e

  data-uuid : (i : Issue) (a : CodeAction) → (to_code_action x i a).action_data ≡ a.uuid
  unfolding to_code_action
  data-uuid i a = refl

  lookup-after :
      (key : Text)
      → is_dirty params.uri ≡ false
      → lookup key after.actions_cache
        ≡ lookup key (store_all (entries (requested_issues x params w)) [])
  lookup-after key clean =
      ap (lookup key) (cache_after clean ∙ cache_issues-entries (requested_issues x params w) [])

  resolve_found :
      (key : Text) (i : Issue) (a : CodeAction) (s : CodeActionsService)
      (edit : Option WorkspaceEdit)
      → lookup key s.actions_cache ≡ some (cached i a)
      → a.deferred_edit ≡ some edit
      → resolve_key x s (some key) ≡ resolved (to_code_action x i (record a { edit = edit }))
  unfolding resolve_key resolve_cached
  resolve_found key i a s edit found deferred =
      ap (resolve_cached x key) found ∙ ap (resolved_edit x i a) deferred ∙ edited x i a edit

  -- The user picks an action that the request has returned, and it comes back with its edit: the file
  -- has no unsaved changes, no two actions of the requested issues share a UUID, and the action is one
  -- of theirs, deferred, and without a command. Actions of earlier requests make no difference.
  pub resolve_code_action-get_code_actions :
      (i : Issue) (a : CodeAction) (key : Text) (edit : Option WorkspaceEdit)
      → is_dirty params.uri ≡ false
      → UniqueKeys (entries (requested_issues x params w))
      → Any (λ j. j ≡ i) (requested_issues x params w)
      → Any (λ b. b ≡ a) i.code_actions
      → a.uuid ≡ some key
      → a.deferred_edit ≡ some edit
      → a.command ≡ none
      → resolve_code_action x execute (to_code_action x i a) after
        ≡ resolved (to_code_action x i (record a { edit = edit }))
  resolve_code_action-get_code_actions i a key edit clean unique requested offered e deferred
        no_command =
      let found : lookup key after.actions_cache ≡ some (cached i a) =
        lookup-after key clean
        ∙ store_all-lookup key (cached i a) (entries (requested_issues x params w)) [] unique (
            lookup-Holds key (cached i a) (entries (requested_issues x params w)) unique
              (entries-Holds i a key (requested_issues x params w) e offered requested)) in
      without_command (to_code_action x i a) after (command-none i a no_command)
      ∙ ap (resolve_key x after) (data-uuid i a ∙ e)
      ∙ resolve_found key i a after edit found deferred

  -- After a request, an action without a command is refused if it has no key or if its UUID is that of
  -- no action of the requested issues, such as one of an earlier request.
  pub resolve_code_action-errors :
      (action : LspCodeAction)
      → is_dirty params.uri ≡ false
      → action.command ≡ none
      → (action.action_data ≡ none → resolve_code_action x execute action after ≡ missing_key)
        × ((key : Text)
            → action.action_data ≡ some key
            → Unknown key (requested_issues x params w)
            → resolve_code_action x execute action after ≡ not_found key)
  unfolding resolve_key resolve_cached
  resolve_code_action-errors action clean no_command = (
    λ no_key. without_command action after no_command ∙ ap (resolve_key x after) no_key,
    λ key e unknown.
        let gone : lookup key after.actions_cache ≡ none =
          lookup-after key clean
          ∙ store_all-lookup_new key (entries (requested_issues x params w)) []
              (entries-Unknown key (requested_issues x params w) unknown) in
        without_command action after no_command
        ∙ ap (resolve_key x after) e
        ∙ ap (resolve_cached x key) gone,
  )
