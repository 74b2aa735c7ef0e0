-- ===== src/Hover/Laws.antt =====
-- Registering, deleting and reading hovers.
use khulnasoft_lab_vulnmap_l.Prelude.Strings.{contains, contains-append_left}
use khulnasoft_lab_vulnmap_l.Prelude.Maps.{delete, lookup-store_self, lookup-delete}
use khulnasoft_lab_vulnmap_l.Prelude.{
  Text, text_eq, text_eq_iff, text_eq_refl, ◌≡◌, ◌≢◌, refl, true, false, List, [], ◌∷◌, ◌++◌,
  if◌then◌else◌, arith, All,
}
use khulnasoft_lab_vulnmap_l.Hover.Model.{Hover, DocumentHovers}
use khulnasoft_lab_vulnmap_l.Hover.{
  HoverService, range_string, hover_index, is_registered, hovers_at, register_hover, register_each,
  register_hovers, drop_containing, delete_hover,
}

IsRegistered : HoverService → Text → Type 0
IsRegistered s a = is_registered a s.hover_indexes ≡ true

register_hover-keeps :
    (key : Text) (h : Hover) (s : HoverService) (a : Text)
    → is_registered a s.hover_indexes ≡ true
    → is_registered a (register_hover key h s).hover_indexes ≡ true
unfolding register_hover is_registered
register_hover-keeps key h s a r = ground arith

register_hover_self :
    (key : Text) (h : Hover) (s : HoverService)
    → is_registered (hover_index key h) (register_hover key h s).hover_indexes ≡ true
unfolding register_hover is_registered
register_hover_self key h s = ground (arith, text_eq_refl (hover_index key h))

register_each-keeps :
    (key : Text) (hs : List Hover) (s : HoverService) (a : Text)
    → is_registered a s.hover_indexes ≡ true
    → is_registered a (register_each key hs s).hover_indexes ≡ true
unfolding register_each
register_each-keeps key [] s a r = r
register_each-keeps key (h ∷ hs) s a r =
    register_each-keeps key hs (register_hover key h s) a (register_hover-keeps key h s a r)

register_each-All :
    (key : Text) (hs : List Hover) (s : HoverService)
    → All (λ h. is_registered (hover_index key h) (register_each key hs s).hover_indexes ≡ true) hs
unfolding register_each
register_each-All key [] s = tt
register_each-All key (h ∷ hs) s = (
  register_each-keeps key hs (register_hover key h s) (hover_index key h)
      (register_hover_self key h s),
  register_each-All key hs (register_hover key h s),
)

registered_again :
    (key : Text) (hs : List Hover) (s : HoverService)
    → All (λ h. is_registered (hover_index key h) s.hover_indexes ≡ true) hs
    → register_each key hs s ≡ s
unfolding register_each register_hover
registered_again key [] s r = refl
registered_again key (h ∷ hs) s r = rw r.0 (registered_again key hs s r.1)

-- Registering the same document again changes nothing, whatever was registered before.
pub register_hovers_idem :
    (d : DocumentHovers) (s : HoverService)
    → register_hovers d (register_hovers d s) ≡ register_hovers d s
unfolding register_hovers
register_hovers_idem d s =
    registered_again d.path d.hovers (register_each d.path d.hovers s)
      (register_each-All d.path d.hovers s)

-- Deleting a file's hovers leaves none for that file, and every other file's hovers as they were.
pub hovers_at-delete_hover :
    (path other : Text) (s : HoverService)
    → hovers_at other (delete_hover path s).hovers
      ≡ (if text_eq path other then [] else hovers_at other s.hovers)
unfolding hovers_at delete_hover
hovers_at-delete_hover path other s = ground (arith, lookup-delete path other s.hovers)

-- The index of what a file's text occurs in is dropped, so nothing with that text is registered.
drop_containing-is_registered :
    (document a : Text) (keys : List Text)
    → contains a document ≡ true
    → is_registered a (drop_containing document keys) ≡ false
unfolding drop_containing is_registered
drop_containing-is_registered document a [] h = refl
drop_containing-is_registered document a (key ∷ keys) h =
    ground (arith, text_eq_iff key a, drop_containing-is_registered document a keys h)

added_again :
    (path other : Text) (h : Hover) (s : HoverService)
    → path ≢ other
    → contains other path ≡ true
    → hovers_at other (register_hover other h (delete_hover path s)).hovers
      ≡ hovers_at other s.hovers ++ (h ∷ [])
unfolding register_hover delete_hover hovers_at hover_index
added_again path other h s ne c =
    rw (drop_containing-is_registered path (hover_index other h) s.hover_indexes (index_contains c))
      (ground (
        arith,
        text_eq_iff path other,
        lookup-delete path other s.hovers,
        lookup-store_self other (hovers_at other (delete path s.hovers) ++ (h ∷ []))
            (delete path s.hovers),
      ))
  where
    index_contains : contains other path ≡ true → contains (hover_index other h) path ≡ true
    index_contains e = contains-append_left other (range_string h.range ++ h.id) path e

-- Deleting one path forgets the index of every other file whose path contains it, but keeps the
-- hovers of that file: a hover of it that is registered again is added once more, although the
-- file has it already.
pub delete_hover_duplicates :
    (path other : Text) (h : Hover) (s : HoverService)
    → path ≢ other
    → contains other path ≡ true
    → hovers_at other
        (register_hovers
          (record { path = other; hovers = h ∷ [] })
          (delete_hover path (register_hovers (record { path = other; hovers = h ∷ [] }) s))).hovers
      ≡ hovers_at other (register_hovers (record { path = other; hovers = h ∷ [] }) s).hovers
        ++ (h ∷ [])
unfolding register_hovers register_each
delete_hover_duplicates path other h s ne c =
    added_again path other h (register_hover other h s) ne c
