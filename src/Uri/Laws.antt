-- ===== src/Uri/Laws.antt =====
-- `FolderContains` on cleaned paths.
use khulnasoft_lab_vulnmap_l.Prelude.Strings.{
  has_prefix, has_suffix, has_prefix-append, has_prefix_self, has_prefix-split,
}
use khulnasoft_lab_vulnmap_l.Prelude.{
  Text, codes, ◌≡◌, refl, ◌⊎◌, ◌↔◌, inl, inr, true, false, [], ◌∷◌, ◌++◌, arith, Bool-cases, ◌∙◌,
}
use mathlib.Core.List.{append_assoc}
use khulnasoft_lab_vulnmap_l.Uri.{clean, below, with_separator, folder_contains}

-- The path lies in the folder: it is the folder, or the folder, a `/`, and more.
abbrev pub LiesIn : Text → Text → Type 0
LiesIn path folder = (path ≡ folder) ⊎ ((rest : Text) × (path ≡ folder ++ (b'/' ∷ rest)))

-- If `p/` is `f/` with more behind it, then `p` is `f`, or `f/` with more behind it.
strip_separator : (p f rest : Text) → p ++ (b'/' ∷ []) ≡ f ++ (b'/' ∷ rest) → LiesIn p f
strip_separator [] [] rest h = inl refl
strip_separator (a ∷ p) [] rest h = inr (p, ground arith)
strip_separator [] (b ∷ []) rest h = ground arith
strip_separator [] (b ∷ c ∷ f) rest h = ground arith
strip_separator (a ∷ p) (b ∷ f) rest h = elim (strip_separator p f rest (ground arith)) [
  | inl e ↦ inl (ground arith)
  | inr (r, e) ↦ inr (r, ground arith)
]

below→LiesIn : (p f : Text) → below p (f ++ (b'/' ∷ [])) ≡ true → LiesIn p f
unfolding below
below→LiesIn p f h = elim (Bool-cases (has_prefix p (f ++ (b'/' ∷ [])))) [
  | inl e ↦
      let (rest, s) = has_prefix-split p (f ++ (b'/' ∷ [])) e in
      inr (rest, s ∙ append_assoc f (b'/' ∷ []) rest)
  | inr e ↦
      let (rest, s) = has_prefix-split (p ++ (b'/' ∷ [])) (f ++ (b'/' ∷ [])) (ground arith) in
      strip_separator p f rest (s ∙ append_assoc f (b'/' ∷ []) rest)
]

LiesIn→below : (p f : Text) → LiesIn p f → below p (f ++ (b'/' ∷ [])) ≡ true
unfolding below
LiesIn→below p f (inl e) = rw e (ground (arith, has_prefix_self (f ++ (b'/' ∷ []))))
LiesIn→below p f (inr (rest, e)) =
    rw (e, ← append_assoc f (b'/' ∷ []) rest)
      (ground (arith, has_prefix-append (f ++ (b'/' ∷ [])) rest))

-- For a cleaned path and a cleaned folder that does not end in a separator (any but the root), the
-- folder contains the path exactly when the path is the folder itself, or begins with the folder
-- followed by a separator. A sibling whose name only begins like the folder's is not contained.
pub folder_contains_iff :
    (f p : Text)
    → clean f ≡ f
    → clean p ≡ p
    → has_suffix f (codes "/") ≡ false
    → (folder_contains f p ≡ true) ↔ LiesIn p f
unfolding folder_contains with_separator
folder_contains_iff f p cf cp s = rw (cf, cp, s) (below→LiesIn p f, LiesIn→below p f)
