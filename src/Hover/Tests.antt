-- ===== src/Hover/Tests.antt =====
-- Runs of the hover service, and instances of the theorems about it.
use khulnasoft_lab_vulnmap_l.Prelude.Strings.{contains}
use khulnasoft_lab_vulnmap_l.Prelude.{codes, ◌≡◌, refl, [], ◌∷◌, ◌++◌, none}
use khulnasoft_lab_vulnmap_l.Vulnmap.Range.{Range}
use khulnasoft_lab_vulnmap_l.Hover.Model.{Hover, DocumentHovers}
use khulnasoft_lab_vulnmap_l.Hover.{
  new_service, range_string, hovers_at, register_hovers, delete_hover,
}
use khulnasoft_lab_vulnmap_l.Hover.Laws.{delete_hover_duplicates}

abbrev place : Range
place = record {
  start = record { line = 12; character = 0 };
  end = record { line = 12; character = 7 };
}

prints : range_string place ≡ codes "12:0-12:7"
unfolding range_string
prints = refl

abbrev hover : Hover
hover = record { id = codes "X"; range = place; message = codes "m"; context = none }

abbrev document : DocumentHovers
document = record { path = codes "/a/b"; hovers = hover ∷ [] }

delete_hover_duplicates_example :
    hovers_at
      (codes "/a/b")
      (register_hovers
        (record { path = codes "/a/b"; hovers = hover ∷ [] })
        (delete_hover (codes "/a") (
          register_hovers
            (record { path = codes "/a/b"; hovers = hover ∷ [] })
            new_service))).hovers
    ≡ hovers_at
        (codes "/a/b")
        (register_hovers (record { path = codes "/a/b"; hovers = hover ∷ [] }) new_service).hovers
      ++ (hover ∷ [])
unfolding contains
delete_hover_duplicates_example =
    delete_hover_duplicates (codes "/a") (codes "/a/b") hover new_service (λ e. cc e) refl
