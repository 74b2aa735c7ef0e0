-- ===== src/PathEncoding/Tests.antt =====
-- Paths with bytes that are escaped, and instances of the theorems.
use khulnasoft_lab_vulnmap_l.Prelude.Strings.{has_prefix}
use khulnasoft_lab_vulnmap_l.Prelude.{
  codes, text_eq, ◌≡◌, refl, false, [], ◌∷◌, ◌++◌, none, some, arith,
}
use khulnasoft_lab_vulnmap_l.Uri.Clean.{slashed}
use khulnasoft_lab_vulnmap_l.PathEncoding.{
  path_escape, path_unescape, escape_byte, hex_digit, hex_value, is_unescaped, encode_path,
  decode_path, to_absolute_path, rel, to_relative_unix_path,
}
use khulnasoft_lab_vulnmap_l.PathEncoding.Escaped.{IsSegment}
use khulnasoft_lab_vulnmap_l.PathEncoding.Relative.{decode_path-to_relative_unix_path}

escapes : path_escape (codes "a b%") ≡ codes "a%20b%25"
unfolding path_escape escape_byte hex_digit is_unescaped
escapes = refl

unescapes : path_unescape (codes "a%20b%2") ≡ none
unfolding path_unescape hex_value
unescapes = refl

-- A percent sign in the folder's path is read as an escape.
folder_with_percent : decode_path (codes "/w%41/a.js") ≡ some (codes "/wA/a.js")
unfolding decode_path path_unescape hex_value
folder_with_percent = refl

spaced-IsSegment : IsSegment (codes "a b")
unfolding text_eq
spaced-IsSegment = (
  (omega arith, (omega arith, (omega arith, tt))),
  record { no_slash = (refl, (refl, (refl, tt))); not_empty = refl; not_dot = refl; not_up = refl },
)

percent-IsSegment : IsSegment (codes "%2")
unfolding text_eq
percent-IsSegment = (
  (omega arith, (omega arith, tt)),
  record { no_slash = (refl, (refl, tt)); not_empty = refl; not_dot = refl; not_up = refl },
)

decode_path-to_relative_unix_path_example :
    decode_path (
      to_absolute_path (b'/' ∷ (codes "a b" ++ slashed [])) (
        encode_path
          (to_relative_unix_path
            (b'/' ∷ (codes "a b" ++ slashed []))
            ((b'/' ∷ (codes "a b" ++ slashed [])) ++ slashed (codes "%2" ∷ codes "a b" ∷ []))).0))
    ≡ some ((b'/' ∷ (codes "a b" ++ slashed [])) ++ slashed (codes "%2" ∷ codes "a b" ∷ []))
decode_path-to_relative_unix_path_example =
    decode_path-to_relative_unix_path (codes "a b") [] (codes "%2") (codes "a b" ∷ [])
      (spaced-IsSegment.1, tt) (refl, (refl, (refl, tt))) percent-IsSegment (spaced-IsSegment, tt)

-- Up and down again; and a folder that the file is not below in the first place.
goes_up : rel (codes "/w/a/b") (codes "/w/c.go") ≡ some (codes "../../c.go")
unfolding rel text_eq has_prefix
goes_up = refl

fails_for_relative_folder : to_relative_unix_path (codes "w") (codes "/w/c.go") ≡ ([], false)
unfolding to_relative_unix_path text_eq has_prefix
fails_for_relative_folder = refl
