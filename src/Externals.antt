-- ===== src/Externals.antt =====
-- What the code calls outside the repository: the URI package, the hash of a bundle file, the
-- decimal print of a float64 and the check for a directory. Each is a parameter of the model.
use khulnasoft_lab_vulnmap_l.Prelude.{ℕ, Text, Bool, false, [], ◌∷◌}

pub record Externals : Type 0 where
  -- `uri.File(path)` and `uri.New(u).Filename()` of go.lsp.dev/uri
  pub path_to_uri : Text → Text
  pub path_from_uri : Text → Text
  -- `strconv.FormatFloat(f, 'f', 2, 64)` on the bits of f
  pub format_float : ℕ → Text
  -- `os.Stat(path)` succeeds and says directory
  pub is_directory : Text → Bool
  -- `util.Hash`, over SHA-256
  pub hash : Text → Text

-- A concrete value, for runs.
abbrev pub sample : Externals
sample = record {
  path_to_uri = λ p. p;
  path_from_uri = λ u. u;
  format_float = λ f. f ∷ [];
  is_directory = λ p. false;
  hash = λ s. s;
}
