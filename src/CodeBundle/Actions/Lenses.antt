-- ===== src/CodeBundle/Actions/Lenses.antt =====
-- Each lens that an analysis puts on an issue runs a deferred action of that issue.
use khulnasoft_lab_vulnmap_l.Prelude.{
  ℕ, suc, Text, ◌&&◌, not, ◌≡◌, refl, List, [], ◌∷◌, ◌++◌, Option, none, some, All, All-append, Any,
  Any-append_left, Any-append_right, inl, inr, Bool-cases,
}
use khulnasoft_lab_vulnmap_l.Vulnmap.Issue.{
  Issue, CodeAction, CommandData, Argument, CodeIssueData, AdditionalData, no_data, code_data,
  oss_data, iac_data, text_argument, range_argument, bool_argument, WorkspaceEdit,
}
use khulnasoft_lab_vulnmap_l.CodeBundle.Actions.{
  ActionSource, create_deferred_autofix_code_action, create_open_learn_code_action, fix_lens,
  add_autofix, with_action, add_lesson, add_action_by_data, add_actions_from, add_issue_actions,
}

-- The action is known by the UUID, and picking it computes an edit.
abbrev pub Resolves : Text → CodeAction → Type 0
Resolves uuid action =
    (action.uuid ≡ some uuid) × (edit : Option WorkspaceEdit) × (action.deferred_edit ≡ some edit)

-- The first argument of the command is the UUID of one of the actions.
abbrev pub RunsOneOf : List CodeAction → List Argument → Type 0
RunsOneOf actions [] = ⊥
RunsOneOf actions (text_argument uuid ∷ _) = Any (λ action. Resolves uuid action) actions
RunsOneOf actions (bool_argument b ∷ _) = ⊥
RunsOneOf actions (range_argument r ∷ _) = ⊥

-- Each lens of the issue runs one of its actions.
abbrev pub HasLiveLenses : Issue → Type 0
HasLiveLenses issue = All (λ c. RunsOneOf issue.code_actions c.arguments) issue.codelens_commands

RunsOneOf-append :
    (actions more : List CodeAction) (args : List Argument)
    → RunsOneOf actions args
    → RunsOneOf (actions ++ more) args
RunsOneOf-append actions more [] r = r
RunsOneOf-append actions more (text_argument uuid ∷ args) r =
    Any-append_left (λ action. Resolves uuid action) actions more r
RunsOneOf-append actions more (bool_argument b ∷ args) r = r
RunsOneOf-append actions more (range_argument b ∷ args) r = r

lenses-append :
    (actions more : List CodeAction) (cs : List CommandData)
    → All (λ c. RunsOneOf actions c.arguments) cs
    → All (λ c. RunsOneOf (actions ++ more) c.arguments) cs
lenses-append actions more [] h = tt
lenses-append actions more (c ∷ cs) h =
    (RunsOneOf-append actions more c.arguments h.0, lenses-append actions more cs h.1)

module _ (src : ActionSource) where
  add_autofix-HasLiveLenses :
      (n : ℕ) (d : CodeIssueData) (issue : Issue)
      → HasLiveLenses issue
      → HasLiveLenses (add_autofix src n d issue)
  unfolding add_autofix fix_lens create_deferred_autofix_code_action
  add_autofix-HasLiveLenses n d issue h =
      elim (Bool-cases (src.autofix_enabled && d.is_autofixable)) [
        | inr c ↦ rw c h
        | inl c ↦ rw c (
            All-append _ issue.codelens_commands _
              (lenses-append issue.code_actions _ issue.codelens_commands h)
              (
                Any-append_right (λ action. Resolves (src.new_uuid n) action) issue.code_actions
                    (create_deferred_autofix_code_action src n d issue ∷ [])
                    (inl (refl, src.autofix_edit issue, refl)),
                tt,
              ))
      ]

  with_action-HasLiveLenses :
      (action : Option CodeAction) (issue : Issue)
      → HasLiveLenses issue
      → HasLiveLenses (with_action src action issue)
  unfolding with_action
  with_action-HasLiveLenses none issue h = h
  with_action-HasLiveLenses (some action) issue h =
      lenses-append issue.code_actions (action ∷ []) issue.codelens_commands h

  add_lesson-HasLiveLenses :
      (d : CodeIssueData) (issue : Issue)
      → HasLiveLenses issue
      → HasLiveLenses (add_lesson src d issue)
  unfolding add_lesson
  add_lesson-HasLiveLenses d issue h = elim (Bool-cases src.learn_enabled) [
    | inl c ↦ rw c (with_action-HasLiveLenses (create_open_learn_code_action src d issue) issue h)
    | inr c ↦ rw c h
  ]

  add_action_by_data-HasLiveLenses :
      (n : ℕ) (d : AdditionalData) (issue : Issue)
      → HasLiveLenses issue
      → HasLiveLenses (add_action_by_data src n d issue)
  unfolding add_action_by_data
  add_action_by_data-HasLiveLenses n no_data issue h = h
  add_action_by_data-HasLiveLenses n (oss_data d) issue h = h
  add_action_by_data-HasLiveLenses n (iac_data d) issue h = h
  add_action_by_data-HasLiveLenses n (code_data d) issue h =
      add_lesson-HasLiveLenses d (add_autofix src n d issue) (add_autofix-HasLiveLenses n d issue h)

  add_actions_from-HasLiveLenses :
      (n : ℕ) (issues : List Issue)
      → All HasLiveLenses issues
      → All HasLiveLenses (add_actions_from src n issues)
  unfolding add_actions_from
  add_actions_from-HasLiveLenses n [] h = tt
  add_actions_from-HasLiveLenses n (issue ∷ issues) h = (
    add_action_by_data-HasLiveLenses n issue.additional_data issue h.0,
    add_actions_from-HasLiveLenses (suc n) issues h.1,
  )

  -- If the lenses of the issues each name, by its UUID, a deferred action of their issue, then so do
  -- the lenses after `addIssueActions`, those that it adds included.
  pub add_issue_actions-HasLiveLenses :
      (issues : List Issue)
      → All HasLiveLenses issues
      → All HasLiveLenses (add_issue_actions src issues)
  unfolding add_issue_actions
  add_issue_actions-HasLiveLenses issues h =
      elim (Bool-cases (not src.autofix_enabled && not src.learn_enabled)) [
        | inl c ↦ rw c h
        | inr c ↦ rw c (add_actions_from-HasLiveLenses 0 issues h)
      ]
