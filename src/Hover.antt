-- ===== src/Hover.antt =====
-- domain/ide/hover/service.go: the hovers of every file, with an index of what is registered. The
-- listener takes one document after another from the channel, so a run is a sequence of calls.
pub mod Model
pub mod Laws
pub mod Tests
use khulnasoft_lab_vulnmap_l.Prelude.Decimal.{decimal}
use khulnasoft_lab_vulnmap_l.Prelude.Strings.{contains}
use khulnasoft_lab_vulnmap_l.Prelude.Maps.{TextMap, lookup, store, delete}
use khulnasoft_lab_vulnmap_l.Prelude.{
  Text, codes, text_eq, Bool, true, false, ◌||◌, List, [], ◌∷◌, ◌++◌, Option, none, some,
  if◌then◌else◌,
}
use khulnasoft_lab_vulnmap_l.Vulnmap.Range.{Position, Range, overlaps}
use khulnasoft_lab_vulnmap_l.Vulnmap.Issue.{Issue}
use Model.{Hover, DocumentHovers}

-- `hoverIndexes` maps to true the texts of this list, and nothing else.
pub record HoverService : Type 0 where
  pub hovers : TextMap (List Hover)
  pub hover_indexes : List Text

abbrev pub new_service : HoverService
new_service = record { hovers = []; hover_indexes = [] }

-- `Position.String`, `Range.String`
position_string : Position → Text
position_string p = decimal p.line ++ (codes ":" ++ decimal p.character)

unfoldable pub range_string : Range → Text
unfolding position_string decimal
range_string r = position_string r.start ++ (codes "-" ++ position_string r.end)

-- `key + fmt.Sprintf("%v%v", newHover.Range, newHover.Id)`
unfoldable pub hover_index : Text → Hover → Text
hover_index key h = key ++ (range_string h.range ++ h.id)

unfoldable pub is_registered : Text → List Text → Bool
is_registered a [] = false
is_registered a (b ∷ bs) = text_eq b a || is_registered a bs

unfoldable pub hovers_at : Text → TextMap (List Hover) → List Hover
hovers_at key m = elim (lookup key m) [ none ↦ [] | some hs ↦ hs ]

unfoldable pub register_hover : Text → Hover → HoverService → HoverService
register_hover key h s = if is_registered (hover_index key h) s.hover_indexes then s else record s {
  hovers = store key (hovers_at key s.hovers ++ (h ∷ [])) s.hovers;
  hover_indexes = hover_index key h ∷ s.hover_indexes;
}

unfoldable pub register_each : Text → List Hover → HoverService → HoverService
register_each key [] s = s
register_each key (h ∷ hs) s = register_each key hs (register_hover key h s)

-- `registerHovers`
unfoldable pub register_hovers : DocumentHovers → HoverService → HoverService
register_hovers d s = register_each d.path d.hovers s

unfoldable pub drop_containing : Text → List Text → List Text
drop_containing document [] = []
drop_containing document (key ∷ keys) =
    let rest = drop_containing document keys in if contains key document then rest else key ∷ rest

-- `DeleteHover`
unfoldable pub delete_hover : Text → HoverService → HoverService
delete_hover path s = record s {
  hovers = delete path s.hovers;
  hover_indexes = drop_containing path s.hover_indexes;
}

-- `ClearAllHovers`
unfoldable pub clear_all_hovers : HoverService → HoverService
clear_all_hovers s = record s { hovers = []; hover_indexes = [] }

-- `isHoverForPosition`
unfoldable pub is_hover_for_position : Hover → Position → Bool
is_hover_for_position h pos = overlaps h.range (record { start = pos; end = pos })

-- `trackHoverDetails`: the issue that is reported, if the context is one.
tracked : Option Issue → List Issue → List Issue
tracked none rest = rest
tracked (some i) rest = i ∷ rest

unfoldable pub get_hover_from : List Hover → Position → Text × List Issue
unfolding tracked
get_hover_from [] pos = ([], [])
get_hover_from (h ∷ hs) pos =
    let (message, issues) = get_hover_from hs pos in
    if is_hover_for_position h pos
    then (h.message ++ message, tracked h.context issues)
    else (message, issues)

-- `GetHover`: the message, and the issues reported to the analytics.
unfoldable pub get_hover : Text → Position → HoverService → Text × List Issue
get_hover path pos s = get_hover_from (hovers_at path s.hovers) pos
