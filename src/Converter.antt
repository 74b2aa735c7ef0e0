-- ===== src/Converter.antt =====
-- domain/ide/converter/converter.go. LSP ranges and positions are the internal ones field by field
-- (`FromRange` and `ToRange` copy both numbers), so one type stands for both.
use khulnasoft_lab_vulnmap_l.Prelude.{
  ℕ, Text, codes, Bool, List, [], ◌∷◌, ◌++◌, map, Option, none, some, ◌==◌, ◌||◌, if◌then◌else◌,
  zero, suc,
}
use khulnasoft_lab_vulnmap_l.Externals.{Externals}
use khulnasoft_lab_vulnmap_l.Vulnmap.Range.{Position, Range}
use khulnasoft_lab_vulnmap_l.Vulnmap.Product.{product_text}
use khulnasoft_lab_vulnmap_l.Vulnmap.Issue.{
  Issue, Severity, critical, high, medium, low, beyond_low, Reference, CodeAction, CommandData,
  TextEdit, WorkspaceEdit,
}
use khulnasoft_lab_vulnmap_l.Lsp.{
  Diagnostic, DiagnosticSeverity, error_severity, warning_severity, information_severity,
  hint_severity, Command, LspTextEdit, LspWorkspaceEdit, LspCodeAction,
}
use khulnasoft_lab_vulnmap_l.Hover.Model.{Hover, DocumentHovers}

unfoldable pub from_position : Position → Position
from_position p = record { line = p.line; character = p.character }

unfoldable pub from_range : Range → Range
unfolding from_position
from_range r = record { start = from_position r.start; end = from_position r.end }

unfoldable pub to_position : Position → Position
to_position p = record { line = p.line; character = p.character }

unfoldable pub to_range : Range → Range
unfolding to_position
to_range r = record { start = to_position r.start; end = to_position r.end }

unfoldable pub to_severity : Severity → DiagnosticSeverity
to_severity critical = error_severity
to_severity high = error_severity
to_severity medium = warning_severity
to_severity low = information_severity
to_severity (beyond_low n) = hint_severity

-- the `s` of the loop of `ToDiagnostics`
description_href : Option Text → Text
description_href none = codes ""
description_href (some u) = u

unfoldable pub to_diagnostic : Issue → Diagnostic
unfolding to_severity to_range description_href
to_diagnostic i = record {
  range = to_range i.range;
  severity = to_severity i.severity;
  code = i.id;
  source = product_text i.product;
  message = i.message;
  code_description = description_href i.issue_description_url;
}

unfoldable pub to_diagnostics : List Issue → List Diagnostic
unfolding to_diagnostic
to_diagnostics issues = map to_diagnostic issues

unfoldable pub to_command : Option CommandData → Option Command
to_command none = none
to_command (some c) =
    some (record { title = c.title; command = c.command_id; arguments = c.arguments })

unfoldable pub to_text_edit : TextEdit → LspTextEdit
unfolding to_range
to_text_edit e = record { range = to_range e.range; new_text = e.new_text }

module _ (x : Externals) where
  to_changes : List (Text × List TextEdit) → List (Text × List LspTextEdit)
  unfolding to_text_edit
  to_changes [] = []
  to_changes ((path, edits) ∷ rest) = (x.path_to_uri path, map to_text_edit edits) ∷ to_changes rest

  unfoldable pub to_workspace_edit : Option WorkspaceEdit → Option LspWorkspaceEdit
  unfolding to_changes
  to_workspace_edit none = none
  to_workspace_edit (some e) = some (record { changes = to_changes e.changes })

  unfoldable pub to_code_action : Issue → CodeAction → LspCodeAction
  unfolding to_diagnostics to_command to_workspace_edit
  to_code_action issue action = record {
    title = action.title;
    diagnostics = to_diagnostics (issue ∷ []);
    is_preferred = action.is_preferred;
    edit = to_workspace_edit action.edit;
    command = to_command action.command;
    action_data = action.uuid;
  }

  unfoldable pub to_code_actions : List Issue → List LspCodeAction
  unfolding to_code_action
  to_code_actions [] = []
  to_code_actions (issue ∷ rest) =
      map (to_code_action issue) issue.code_actions ++ to_code_actions rest

-- The optional white space of the expression `<br\s?/?>`.
is_space : ℕ → Bool
is_space c = c == 32 || c == 9 || c == 10 || c == 12 || c == 13

-- How many bytes a `>`, or a `/>`, at the head takes.
match_close : Text → Option ℕ
match_close [] = none
match_close (c ∷ []) = if c == b'>' then some 1 else none
match_close (c ∷ d ∷ s) =
    if c == b'>' then some 1 else if c == b'/' then (if d == b'>' then some 2 else none) else none

match_space : Text → Option ℕ
unfolding match_close is_space
match_space [] = none
match_space (c ∷ s) =
    if is_space c
    then elim (match_close s) [ none ↦ none | some n ↦ some (suc n) ]
    else match_close (c ∷ s)

-- A match of `<br\s?/?>` at the head: the number of bytes behind the `<br`.
match_br : Text → Option ℕ
unfolding match_space
match_br (a ∷ b ∷ c ∷ s) =
    if a == b'<'
    then (if b == b'b' then (if c == b'r' then match_space s else none) else none)
    else none
match_br _ = none

-- `re.ReplaceAllString(message, "\n\n")`: the first number counts the matched bytes yet to drop.
replace_br_from : ℕ → Text → Text
unfolding match_br
replace_br_from n [] = []
replace_br_from (suc n) (c ∷ s) = replace_br_from n s
replace_br_from zero (c ∷ s) = elim (match_br (c ∷ s)) [
  | none ↦ c ∷ replace_br_from zero s
  | some n ↦ 10 ∷ 10 ∷ replace_br_from (suc (suc n)) s
]

unfoldable pub replace_br : Text → Text
unfolding replace_br_from
replace_br s = replace_br_from zero s

-- `fmt.Sprintf("[%s](%s)\n\n", …)`; a nil URL prints as `<nil>`.
url_text : Option Text → Text
url_text none = codes "<nil>"
url_text (some u) = u

reference_lines : List Reference → Text
unfolding url_text
reference_lines [] = codes ""
reference_lines (r ∷ rs) =
    codes "["
    ++ (r.title ++ (codes "](" ++ (url_text r.url ++ (codes ")\n\n" ++ reference_lines rs))))

references_text : List Reference → Text
unfolding reference_lines
references_text [] = codes ""
references_text (r ∷ rs) = codes "\n\nReferences:\n\n" ++ reference_lines (r ∷ rs)

base_message : Text → Text → Text
base_message [] message = message
base_message (c ∷ s) message = c ∷ s

unfoldable pub to_hover : Issue → Hover
unfolding replace_br references_text base_message
to_hover i = record {
  id = i.id;
  range = i.range;
  message = replace_br (base_message i.formatted_message i.message ++ references_text i.references);
  context = some i;
}

unfoldable pub to_hovers_document : Text → List Issue → DocumentHovers
unfolding to_hover
to_hovers_document path issues = record { path = path; hovers = map to_hover issues }
