-- ===== src/Settings/SearchPath.antt =====
-- application/server/configuration.go: the variable `PATH` over several updates of the settings.
use khulnasoft_lab_vulnmap_l.Prelude.Maps.{TextMap, lookup, lookup-store_self, delete}
use khulnasoft_lab_vulnmap_l.Prelude.{
  ℕ, Text, codes, text_eq, false, ◌≡◌, ◌≢◌, refl, ◌∙◌, List, [], ◌∷◌, ◌++◌, some, arith,
}
use khulnasoft_lab_vulnmap_l.Settings.{Settings, Server}
use khulnasoft_lab_vulnmap_l.Settings.Update.{
  has_byte, set_variable, extended_environment, original_path, update_path_from_settings,
}

-- A value that the environment accepts.
abbrev pub NoNul : Text → Type 0
NoNul s = has_byte 0 s ≡ false

abbrev pub in_front : Text → Text → Text
in_front [] original = original
in_front (c ∷ path) original = (c ∷ path) ++ (b':' ∷ original)

-- `updatePathFromSettings` with each of the settings in turn.
abbrev pub update_paths : List Settings → Server → Server
update_paths [] s = s
update_paths (t ∷ ts) s = update_paths ts (update_path_from_settings t s).0

has_byte_append :
    (b : ℕ) (s t : Text) → has_byte b s ≡ false → has_byte b t ≡ false → has_byte b (s ++ t) ≡ false
unfolding has_byte
has_byte_append b [] t hs ht = ht
has_byte_append b (c ∷ s) t hs ht = ground (arith, has_byte_append b s t)

set_path :
    (value : Text) (env : TextMap Text)
    → NoNul value
    → lookup (codes "PATH") (set_variable (codes "PATH") value env) ≡ some value
unfolding set_variable has_byte text_eq
set_path value env h = rw h (lookup-store_self (codes "PATH") value env)

in_front-NoNul :
    (path original : Text) → NoNul path → NoNul original → NoNul (in_front path original)
unfolding has_byte
in_front-NoNul [] original hp ho = ho
in_front-NoNul (c ∷ path) original hp ho = has_byte_append 0 (c ∷ path) (b':' ∷ original) hp ho

extended_environment-path :
    (path original : Text) (env : TextMap Text)
    → NoNul path
    → NoNul original
    → lookup (codes "PATH") (extended_environment path original env) ≡ some (in_front path original)
unfolding extended_environment
extended_environment-path [] original env hp ho = set_path original env ho
extended_environment-path (c ∷ path) original env hp ho =
    set_path (in_front (c ∷ path) original) (delete (codes "Path") env)
      (in_front-NoNul (c ∷ path) original hp ho)

cached : (path fallback : Text) → path ≢ [] → elim path [ [] ↦ fallback | c ∷ p ↦ c ∷ p ] ≡ path
cached [] fallback h = absurd (h refl)
cached (c ∷ path) fallback h = refl

original_path-cached :
    (t : Settings) (s : Server)
    → original_path s ≢ []
    → original_path (update_path_from_settings t s).0 ≡ original_path s
unfolding update_path_from_settings
original_path-cached t s h = cached (original_path s) _ h

-- The search path that is in use first stays known, however many settings follow.
original_path-update_paths :
    (ts : List Settings) (s : Server)
    → original_path s ≢ []
    → original_path (update_paths ts s) ≡ original_path s
original_path-update_paths [] s h = refl
original_path-update_paths (t ∷ ts) s h =
    let same = original_path-cached t s h in
    original_path-update_paths ts (update_path_from_settings t s).0 (rw same h) ∙ same

-- However often the settings are applied, the variable `PATH` holds the path of the last settings in
-- front of the value that `PATH` had at first, and just that value if the last settings have no
-- path: the paths of earlier settings leave no trace. `PATH` is not empty at first, and neither it
-- nor the last path holds a NUL byte.
pub update_paths-path :
    (ts : List Settings) (t : Settings) (s : Server)
    → original_path s ≢ []
    → NoNul (original_path s)
    → NoNul t.path
    → lookup (codes "PATH") (update_path_from_settings t (update_paths ts s)).0.environment
      ≡ some (in_front t.path (original_path s))
unfolding update_path_from_settings
update_paths-path ts t s h clean path_clean = rw (original_path-update_paths ts s h) (
    extended_environment-path t.path (original_path s) (update_paths ts s).environment path_clean
      clean)
