-- ===== src/PathEncoding.antt =====
-- infrastructure/code/path.go: the paths in the messages to the code analysis, with
-- `url.PathEscape`, `url.PathUnescape`, `path.Join` and `filepath.Join` of the standard library for
-- the separator `/`.
pub mod Percent
pub mod Escaped
pub mod Roundtrip
pub mod Segments
pub mod Relative
pub mod Tests
use khulnasoft_lab_vulnmap_l.Prelude.Strings.{split_on}
use khulnasoft_lab_vulnmap_l.Prelude.{
  ℕ, ◌+◌, ◌-◌, ◌*◌, ◌/◌, ◌%◌, ◌==◌, ltb, leb, Text, codes, text_eq, Bool, true, false, ◌&&◌, ◌||◌,
  List, [], ◌∷◌, ◌++◌, Option, none, some, if◌then◌else◌,
}
use khulnasoft_lab_vulnmap_l.Uri.{clean}

abbrev pub between : ℕ → ℕ → ℕ → Bool
between low high c = leb low c && leb c high

-- The bytes that `url.PathEscape` leaves alone.
unfoldable pub is_unescaped : ℕ → Bool
is_unescaped c =
    between b'a' b'z' c
    || between b'A' b'Z' c
    || between b'0' b'9' c
    || c == b'-'
    || c == b'_'
    || c == b'.'
    || c == b'~'
    || c == b'$'
    || c == b'&'
    || c == b'+'
    || c == b':'
    || c == b'='
    || c == b'@'

unfoldable pub hex_digit : ℕ → ℕ
hex_digit d = if ltb d 10 then b'0' + d else b'A' + (d - 10)

-- `ishex` and `unhex` in one: `none` is no digit.
unfoldable pub hex_value : ℕ → Option ℕ
hex_value c =
    if between b'0' b'9' c
    then some (c - b'0')
    else if between b'a' b'f' c
    then some (c - b'a' + 10)
    else if between b'A' b'F' c
    then some (c - b'A' + 10)
    else none

unfoldable pub escape_byte : ℕ → Text
unfolding is_unescaped hex_digit
escape_byte c =
    if is_unescaped c then c ∷ [] else b'%' ∷ hex_digit (c / 16) ∷ hex_digit (c % 16) ∷ []

-- `url.PathEscape`
unfoldable pub path_escape : Text → Text
unfolding escape_byte
path_escape [] = []
path_escape (c ∷ s) = escape_byte c ++ path_escape s

abbrev pub prefixed : Text → Option Text → Option Text
prefixed t none = none
prefixed t (some s) = some (t ++ s)

abbrev pub decoded : Option ℕ → Option ℕ → Option Text → Option Text
decoded (some high) (some low) rest = prefixed ((16 * high + low) ∷ []) rest
decoded _ _ rest = none

-- `url.PathUnescape`
unfoldable pub path_unescape : Text → Option Text
unfolding hex_value
path_unescape [] = some []
path_unescape (c ∷ []) = if c == b'%' then none else some (c ∷ [])
path_unescape (c ∷ d ∷ []) =
    let rest = path_unescape (d ∷ []) in if c == b'%' then none else prefixed (c ∷ []) rest
path_unescape (c ∷ d ∷ e ∷ s) =
    let rest = path_unescape (d ∷ e ∷ s) in
    let after = path_unescape s in
    if c == b'%' then decoded (hex_value d) (hex_value e) after else prefixed (c ∷ []) rest

-- `path.Join` and `filepath.Join` of two elements
unfoldable pub join_two : Text → Text → Text
unfolding clean
join_two [] [] = []
join_two [] (d ∷ t) = clean (d ∷ t)
join_two (c ∷ s) t = clean ((c ∷ s) ++ (b'/' ∷ t))

-- The loop of `EncodePath`.
unfoldable pub encode_segments : Text → List Text → Text
unfolding join_two path_escape
encode_segments encoded_path [] = encoded_path
encode_segments encoded_path (segment ∷ segments) =
    encode_segments (join_two encoded_path (path_escape segment)) segments

-- `EncodePath`
unfoldable pub encode_path : Text → Text
unfolding split_on encode_segments
encode_path relative_path = encode_segments [] (split_on b'/' relative_path)

-- `DecodePath`
unfoldable pub decode_path : Text → Option Text
unfolding path_unescape
decode_path encoded_path = path_unescape encoded_path

-- `ToAbsolutePath`
unfoldable pub to_absolute_path : Text → Text → Text
unfolding join_two
to_absolute_path base_dir relative_path = join_two base_dir relative_path

-- The segments of a cleaned path after its root.
unfoldable pub segments_of : Text → List Text
unfolding split_on
segments_of [] = []
segments_of (c ∷ path) = split_on b'/' (c ∷ path)

unfoldable pub join_segments : List Text → Text
join_segments [] = []
join_segments (p ∷ []) = p
join_segments (p ∷ q ∷ ps) = p ++ (b'/' ∷ join_segments (q ∷ ps))

-- One step up for each segment of the base that is left.
unfoldable pub ups : List Text → List Text
ups [] = []
ups (b ∷ base) = codes ".." ∷ ups base

-- `filepath.Rel` on the segments, after the checks; `none` is its error.
unfoldable pub from_first_difference : List Text → List Text → Option Text
unfolding join_segments ups text_eq
from_first_difference [] target = some (join_segments target)
from_first_difference (b ∷ base) [] = some (join_segments (ups (b ∷ base)))
from_first_difference (b ∷ base) (t ∷ target) =
    let rest = from_first_difference base target in
    if text_eq t b
    then rest
    else if text_eq b (codes "..")
    then none
    else some (join_segments (ups (b ∷ base) ++ (t ∷ target)))

unfoldable pub rel_cleaned : Text → Text → Option Text
unfolding from_first_difference segments_of
rel_cleaned [] [] = some []
rel_cleaned [] (t ∷ target) =
    if t == b'/' then none else from_first_difference [] (segments_of (t ∷ target))
rel_cleaned (b ∷ base) [] =
    if b == b'/' then none else from_first_difference (segments_of (b ∷ base)) []
rel_cleaned (b ∷ base) (t ∷ target) =
    if b == b'/'
    then (if t == b'/' then from_first_difference (segments_of base) (segments_of target) else none)
    else if t == b'/'
    then none
    else from_first_difference (segments_of (b ∷ base)) (segments_of (t ∷ target))

-- `filepath.Rel`
unfoldable pub rel : Text → Text → Option Text
unfolding clean rel_cleaned text_eq
rel base target =
    if text_eq (clean target) (clean base)
    then some (codes ".")
    else rel_cleaned (if text_eq (clean base) (codes ".") then [] else clean base) (clean target)

-- What `ToRelativeUnixPath` makes of the answer of `filepath.Rel`.
unfoldable pub or_absolute : Text → Text → Option Text → Text × Bool
or_absolute base_dir absolute_file_path (some path) = (path, true)
or_absolute [] absolute_file_path none = (absolute_file_path, true)
or_absolute (c ∷ dir) absolute_file_path none = ([], false)

-- `ToRelativeUnixPath`: the path, and whether there is no error.
unfoldable pub to_relative_unix_path : Text → Text → Text × Bool
unfolding or_absolute rel
to_relative_unix_path base_dir absolute_file_path =
    or_absolute base_dir absolute_file_path (rel base_dir absolute_file_path)
