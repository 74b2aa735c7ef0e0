-- ===== src/Uri.antt =====
-- internal/uri/uri_util.go: `FolderContains`, with `filepath.Clean` of the standard library for the
-- separator `/`.
pub mod Laws
pub mod Clean
use khulnasoft_lab_vulnmap_l.Prelude.Strings.{has_prefix, has_suffix}
use khulnasoft_lab_vulnmap_l.Prelude.{
  ℕ, Text, codes, text_eq, Bool, true, false, ◌||◌, ◌==◌, not, List, [], ◌∷◌, ◌++◌, if◌then◌else◌,
}

-- The parts of a path between separators.
split_path : Text → Text → List Text
split_path part [] = part ∷ []
split_path part (c ∷ s) =
    let cut = part ∷ split_path [] s in
    let go_on = split_path (part ++ (c ∷ [])) s in if c == b'/' then cut else go_on

is_dot : Text → Bool
is_dot part = text_eq part (codes "") || text_eq part (codes ".")

-- The stack of parts, last first, after a `..`.
pop_part : Bool → List Text → List Text
pop_part rooted [] = if rooted then [] else codes ".." ∷ []
pop_part rooted (p ∷ ps) = if text_eq p (codes "..") then codes ".." ∷ p ∷ ps else ps

clean_parts : Bool → List Text → List Text → List Text
unfolding is_dot pop_part
clean_parts rooted stack [] = stack
clean_parts rooted stack (p ∷ ps) =
    clean_parts rooted
      (if is_dot p
        then stack
        else if text_eq p (codes "..")
        then pop_part rooted stack
        else p ∷ stack)
      ps

-- The parts in order, joined; the stack has the last part first.
join_parts : List Text → Text → Text
join_parts [] acc = acc
join_parts (p ∷ []) acc = p ++ acc
join_parts (p ∷ q ∷ ps) acc = join_parts (q ∷ ps) (codes "/" ++ (p ++ acc))

or_dot : Text → Text
or_dot [] = codes "."
or_dot (c ∷ s) = c ∷ s

-- `filepath.Clean`
unfoldable pub clean : Text → Text
unfolding split_path clean_parts join_parts or_dot
clean path =
    if has_prefix path (codes "/")
    then codes "/" ++ join_parts (clean_parts true [] (split_path [] path)) []
    else or_dot (join_parts (clean_parts false [] (split_path [] path)) [])

-- The prefix test of `FolderContains`, once the separator is appended.
unfoldable pub below : Text → Text → Bool
below clean_path folder_with_separator =
    has_prefix clean_path folder_with_separator
    || has_prefix (clean_path ++ codes "/") folder_with_separator

unfoldable pub with_separator : Text → Text
with_separator s = if has_suffix s (codes "/") then s else s ++ codes "/"

-- `FolderContains`
unfoldable pub folder_contains : Text → Text → Bool
unfolding below with_separator
folder_contains folder_path path = below (clean path) (with_separator (clean folder_path))
