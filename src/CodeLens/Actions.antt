-- ===== src/CodeLens/Actions.antt =====
-- The lenses that the editor shows run actions of the file's issues.
use khulnasoft_lab_vulnmap_l.Prelude.{Text, inl, inr, List, [], ◌∷◌, All, All-append, Any}
use khulnasoft_lab_vulnmap_l.Vulnmap.Issue.{Issue, CommandData}
use khulnasoft_lab_vulnmap_l.Workspace.{Workspace, get_folder_containing}
use khulnasoft_lab_vulnmap_l.CodeBundle.Actions.Lenses.{RunsOneOf, HasLiveLenses}
use khulnasoft_lab_vulnmap_l.CodeLens.{
  CodeLens, get_code_lens_from_command, issue_lenses, lenses_of, cached_issues, get_lenses_for,
}

-- The lens runs an action of one of the issues.
abbrev pub RunsAction : List Issue → CodeLens → Type 0
RunsAction issues lens = Any (λ issue. RunsOneOf issue.code_actions lens.command.arguments) issues

issue_lenses-RunsAction :
    (issue : Issue) (issues : List Issue) (cs : List CommandData)
    → All (λ c. RunsOneOf issue.code_actions c.arguments) cs
    → All (RunsAction (issue ∷ issues)) (issue_lenses issue cs)
unfolding issue_lenses get_code_lens_from_command
issue_lenses-RunsAction issue issues [] h = tt
issue_lenses-RunsAction issue issues (c ∷ cs) h =
    (inl h.0, issue_lenses-RunsAction issue issues cs h.1)

one_more-RunsAction :
    (issue : Issue) (issues : List Issue) (lenses : List CodeLens)
    → All (RunsAction issues) lenses
    → All (RunsAction (issue ∷ issues)) lenses
one_more-RunsAction issue issues [] h = tt
one_more-RunsAction issue issues (lens ∷ lenses) h =
    (inr h.0, one_more-RunsAction issue issues lenses h.1)

lenses_of-RunsAction :
    (issues : List Issue) → All HasLiveLenses issues → All (RunsAction issues) (lenses_of issues)
unfolding lenses_of
lenses_of-RunsAction [] h = tt
lenses_of-RunsAction (issue ∷ issues) h =
    All-append (RunsAction (issue ∷ issues)) (issue_lenses issue issue.codelens_commands)
      (lenses_of issues) (issue_lenses-RunsAction issue issues issue.codelens_commands h.0)
      (one_more-RunsAction issue issues (lenses_of issues) (lenses_of-RunsAction issues h.1))

-- If the lens commands of the cached issues of a file each run a deferred action of their issue, then
-- so does each lens that the editor is shown for the file.
pub get_lenses_for-RunsAction :
    (file_path : Text) (w : Workspace)
    → All HasLiveLenses (cached_issues file_path (get_folder_containing file_path w))
    → All
        (RunsAction (cached_issues file_path (get_folder_containing file_path w)))
        (get_lenses_for file_path w)
unfolding get_lenses_for
get_lenses_for-RunsAction file_path w h = lenses_of-RunsAction _ h
