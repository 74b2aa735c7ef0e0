-- ===== src/Settings/Parse.antt =====
-- How settings are read: `strconv.ParseBool`, `strings.Split` at one byte, `strings.Trim` of spaces.
use khulnasoft_lab_vulnmap_l.Prelude.{
  ℕ, ◌==◌, Text, codes, text_eq, Bool, true, false, ◌||◌, List, [], ◌∷◌, Option, none, some,
  if◌then◌else◌,
}
unfoldable pub use khulnasoft_lab_vulnmap_l.Prelude.Strings.{split_on}

unfoldable pub one_of : List Text → Text → Bool
unfolding text_eq
one_of [] s = false
one_of (t ∷ ts) s = text_eq t s || one_of ts s

abbrev true_texts : List Text
true_texts = codes "1" ∷ codes "t" ∷ codes "T" ∷ codes "TRUE" ∷ codes "true" ∷ codes "True" ∷ []

abbrev false_texts : List Text
false_texts = codes "0" ∷ codes "f" ∷ codes "F" ∷ codes "FALSE" ∷ codes "false" ∷ codes "False" ∷ []

-- `none` is the error.
unfoldable pub parse_bool : Text → Option Bool
unfolding one_of
parse_bool s =
    if one_of true_texts s then some true else if one_of false_texts s then some false else none

drop_leading : ℕ → Text → Text
drop_leading c [] = []
drop_leading c (d ∷ s) = let rest = drop_leading c s in if d == c then rest else d ∷ s

reverse_onto : Text → Text → Text
reverse_onto [] acc = acc
reverse_onto (c ∷ s) acc = reverse_onto s (c ∷ acc)

-- `strings.Trim(s, c)` for one byte
unfoldable pub trim : ℕ → Text → Text
unfolding drop_leading reverse_onto
trim c s = reverse_onto (drop_leading c (reverse_onto (drop_leading c s) [])) []
