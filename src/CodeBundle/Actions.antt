-- ===== src/CodeBundle/Actions.antt =====
-- infrastructure/code/bundle.go, `addIssueActions`: the code actions and code lenses of the issues that
-- an analysis found. The edit of a deferred action is the value that its function returns, and the
-- UUIDs are numbered in the order in which they are made.
pub mod Lenses
use khulnasoft_lab_vulnmap_l.Prelude.{
  ℕ, suc, Text, codes, Bool, true, false, ◌&&◌, ◌||◌, not, List, [], ◌∷◌, ◌++◌, Option, none, some,
  if◌then◌else◌,
}
use khulnasoft_lab_vulnmap_l.Vulnmap.Issue.{
  Issue, CodeAction, CommandData, CodeIssueData, AdditionalData, no_data, code_data, oss_data,
  iac_data, text_argument, range_argument, WorkspaceEdit,
}
use khulnasoft_lab_vulnmap_l.CodeBundle.{Answer, failed, answered}

-- What the issues' actions are made from.
pub record ActionSource : Type 0 where
  -- `getCodeSettings().isAutofixEnabled` and `IsVulnmapLearnCodeActionsEnabled`
  pub autofix_enabled : Bool
  pub learn_enabled : Bool
  -- what the function that `autofixFunc` makes returns
  pub autofix_edit : Issue → Option WorkspaceEdit
  pub new_uuid : ℕ → Text
  -- the `Url` of the lesson that `GetLesson` of the learn service finds
  pub get_lesson : Issue → Answer (Option Text)

-- The sign of the titles, U+26A1 and a space.
abbrev lightning : Text
lightning = 226 ∷ 154 ∷ 161 ∷ 32 ∷ []

-- `issueTitle` of an issue that holds data of a code analysis; it is called for no other.
unfoldable pub issue_title : CodeIssueData → Issue → Text
issue_title d issue = elim d.title [ [] ↦ issue.id | c ∷ title ↦ c ∷ title ]

module _ (src : ActionSource) where
  -- `createDeferredAutofixCodeAction`, with `NewDeferredCodeAction`
  unfoldable pub create_deferred_autofix_code_action : ℕ → CodeIssueData → Issue → CodeAction
  unfolding issue_title
  create_deferred_autofix_code_action n d issue = record {
    title = lightning ++ codes "Fix this issue: " ++ issue_title d issue ++ codes " (Vulnmap)";
    is_preferred = none;
    edit = none;
    deferred_edit = some (src.autofix_edit issue);
    command = none;
    deferred_command = none;
    uuid = some (src.new_uuid n);
  }

  unfoldable pub learn_action : Text → Answer (Option Text) → Option CodeAction
  learn_action title (failed e) = none
  learn_action title (answered none) = none
  learn_action title (answered (some [])) = none
  learn_action title (answered (some (c ∷ url))) = some (record {
    title = title;
    is_preferred = none;
    edit = none;
    deferred_edit = none;
    command = some (record {
      title = title;
      command_id = codes "vulnmap.openBrowser";
      arguments = text_argument (c ∷ url) ∷ [];
    });
    deferred_command = none;
    uuid = none;
  })

  -- `createOpenVulnmapLearnCodeAction`
  unfoldable pub create_open_learn_code_action : CodeIssueData → Issue → Option CodeAction
  unfolding learn_action issue_title
  create_open_learn_code_action d issue =
      learn_action (codes "Learn more about " ++ issue_title d issue ++ codes " (Vulnmap)")
        (src.get_lesson issue)

  -- The lens that runs the action with this UUID.
  unfoldable pub fix_lens : Text → CodeIssueData → Issue → CommandData
  unfolding issue_title
  fix_lens uuid d issue = record {
    title = lightning ++ codes "Fix this issue: " ++ issue_title d issue;
    command_id = codes "vulnmap.code.fix";
    arguments =
        text_argument uuid
        ∷ text_argument issue.affected_file_path
        ∷ range_argument issue.range
        ∷ [];
  }

  -- The first conditional of the loop's body.
  unfoldable pub add_autofix : ℕ → CodeIssueData → Issue → Issue
  unfolding create_deferred_autofix_code_action fix_lens
  add_autofix n d issue =
      if src.autofix_enabled && d.is_autofixable
      then record issue {
        code_actions = issue.code_actions ++ (create_deferred_autofix_code_action n d issue ∷ []);
        codelens_commands = issue.codelens_commands ++ (fix_lens (src.new_uuid n) d issue ∷ []);
      }
      else issue

  unfoldable pub with_action : Option CodeAction → Issue → Issue
  with_action none issue = issue
  with_action (some action) issue = record issue {
    code_actions = issue.code_actions ++ (action ∷ []);
  }

  -- The second conditional.
  unfoldable pub add_lesson : CodeIssueData → Issue → Issue
  unfolding create_open_learn_code_action with_action
  add_lesson d issue =
      if src.learn_enabled then with_action (create_open_learn_code_action d issue) issue else issue

  -- The loop's body: issues without data of a code analysis stay as they are.
  unfoldable pub add_action_by_data : ℕ → AdditionalData → Issue → Issue
  unfolding add_autofix add_lesson
  add_action_by_data n no_data issue = issue
  add_action_by_data n (oss_data d) issue = issue
  add_action_by_data n (iac_data d) issue = issue
  add_action_by_data n (code_data d) issue = add_lesson d (add_autofix n d issue)

  unfoldable pub add_actions_from : ℕ → List Issue → List Issue
  unfolding add_action_by_data
  add_actions_from n [] = []
  add_actions_from n (issue ∷ issues) =
      add_action_by_data n issue.additional_data issue ∷ add_actions_from (suc n) issues

  -- `addIssueActions`, on the slice that it writes to
  unfoldable pub add_issue_actions : List Issue → List Issue
  unfolding add_actions_from
  add_issue_actions issues =
      if not src.autofix_enabled && not src.learn_enabled then issues else add_actions_from 0 issues
