-- ===== src/Folder/Trust.antt =====
-- Which folders `IsTrusted` trusts.
use khulnasoft_lab_vulnmap_l.Prelude.Strings.{has_prefix, has_prefix-append, has_prefix-split}
use khulnasoft_lab_vulnmap_l.Prelude.{
  Text, ◌≡◌, ◌⊎◌, ◌↔◌, inl, inr, true, false, List, [], ◌∷◌, ◌++◌, arith, Any, Bool-cases,
}
use khulnasoft_lab_vulnmap_l.Config.{Config}
use khulnasoft_lab_vulnmap_l.Folder.{Folder, is_trusted, has_trusted_prefix}

-- `path` begins with the bytes of `p`.
abbrev pub BeginsWith : Text → Text → Type 0
BeginsWith path p = (rest : Text) × (path ≡ p ++ rest)

has_trusted_prefix→Any :
    (path : Text) (ts : List Text) → has_trusted_prefix path ts ≡ true → Any (BeginsWith path) ts
unfolding has_trusted_prefix
has_trusted_prefix→Any path [] h = cc
has_trusted_prefix→Any path (t ∷ ts) h = elim (Bool-cases (has_prefix path t)) [
  | inl e ↦ inl (has_prefix-split path t e)
  | inr e ↦ inr (has_trusted_prefix→Any path ts (rw e at h))
]

Any→has_trusted_prefix :
    (path : Text) (ts : List Text) → Any (BeginsWith path) ts → has_trusted_prefix path ts ≡ true
unfolding has_trusted_prefix
Any→has_trusted_prefix path [] h = elim h [ ]
Any→has_trusted_prefix path (t ∷ ts) (inl (rest, e)) = rw (e, has_prefix-append t rest)
Any→has_trusted_prefix path (t ∷ ts) (inr h) = ground (arith, Any→has_trusted_prefix path ts h)

-- A folder is trusted exactly when the feature is off, or its path begins with the bytes of one of
-- the trusted folders. Path separators play no part: trusting `/a/b` trusts `/a/bc` too.
pub is_trusted_iff :
    (c : Config) (f : Folder)
    → (is_trusted c f ≡ true)
      ↔ ((c.trusted_folders_feature_enabled ≡ false) ⊎ Any (BeginsWith f.path) c.trusted_folders)
unfolding is_trusted
is_trusted_iff c f = (there, back)
  where
    there :
        is_trusted c f ≡ true
        → (c.trusted_folders_feature_enabled ≡ false) ⊎ Any (BeginsWith f.path) c.trusted_folders
    there h = elim (Bool-cases c.trusted_folders_feature_enabled) [
      | inl e ↦ inr (has_trusted_prefix→Any f.path c.trusted_folders (ground arith))
      | inr e ↦ inl e
    ]

    back :
        (c.trusted_folders_feature_enabled ≡ false) ⊎ Any (BeginsWith f.path) c.trusted_folders
        → is_trusted c f ≡ true
    back (inl e) = ground arith
    back (inr a) = ground (arith, Any→has_trusted_prefix f.path c.trusted_folders a)
