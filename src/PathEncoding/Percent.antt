-- ===== src/PathEncoding/Percent.antt =====
-- Unescaping takes back what escaping did.
use mathlib.Core.List.{append_assoc}
use khulnasoft_lab_vulnmap_l.Prelude.{
  ℕ, ◌+◌, ◌*◌, ◌/◌, ◌%◌, ◌<◌, ◌==◌, Text, true, false, ◌≡◌, refl, sym, ap, ◌∙◌, [], ◌∷◌, ◌++◌,
  Option, none, some, All, arith, Bool-cases, inl, inr,
}
use khulnasoft_lab_vulnmap_l.PathEncoding.{
  is_unescaped, hex_digit, hex_value, escape_byte, path_escape, prefixed, decoded, path_unescape,
}

-- A text holds bytes.
abbrev pub IsBytes : Text → Type 0
IsBytes s = All (λ c. c < 256) s

hex_value-hex_digit : (d : ℕ) → d < 16 → hex_value (hex_digit d) ≡ some d
unfolding hex_value hex_digit
hex_value-hex_digit d h = ground arith

pub unescape-plain :
    (c : ℕ) (s : Text)
    → (c == b'%') ≡ false
    → path_unescape (c ∷ s) ≡ prefixed (c ∷ []) (path_unescape s)
unfolding path_unescape
unescape-plain c [] h = rw h refl
unescape-plain c (d ∷ []) h = rw h refl
unescape-plain c (d ∷ e ∷ s) h = rw h refl

unescaped_plain : (c : ℕ) → is_unescaped c ≡ true → (c == b'%') ≡ false
unfolding is_unescaped
unescaped_plain c h = ground arith

joined_hex : (c : ℕ) → 16 * (c / 16) + c % 16 ≡ c
joined_hex c = omega arith

unescape-percent :
    (d e : ℕ) (s : Text)
    → path_unescape (b'%' ∷ d ∷ e ∷ s) ≡ decoded (hex_value d) (hex_value e) (path_unescape s)
unfolding path_unescape
unescape-percent d e s = refl

nothing_prefixed : (o : Option Text) → o ≡ prefixed [] o
nothing_prefixed none = refl
nothing_prefixed (some s) = refl

unescape-byte :
    (c : ℕ) (s : Text)
    → c < 256
    → path_unescape (escape_byte c ++ s) ≡ prefixed (c ∷ []) (path_unescape s)
unfolding escape_byte
unescape-byte c s h = elim (Bool-cases (is_unescaped c)) [
  | inl e ↦ rw e (unescape-plain c s (unescaped_plain c e))
  | inr e ↦ rw e (
      rw (unescape-percent (hex_digit (c / 16)) (hex_digit (c % 16)) s) (
        rw (hex_value-hex_digit (c / 16) (omega arith)) (
          rw (hex_value-hex_digit (c % 16) (omega arith))
            (ap (λ b. prefixed (b ∷ []) (path_unescape s)) (joined_hex c)))))
]

prefixed_twice : (s t : Text) (o : Option Text) → prefixed s (prefixed t o) ≡ prefixed (s ++ t) o
prefixed_twice s t none = refl
prefixed_twice s t (some u) = ap some (sym (append_assoc s t u))

-- What is escaped at the front is unescaped, whatever follows.
pub unescape-escape :
    (p s : Text) → IsBytes p → path_unescape (path_escape p ++ s) ≡ prefixed p (path_unescape s)
unfolding path_escape
unescape-escape [] s h = nothing_prefixed (path_unescape s)
unescape-escape (c ∷ p) s h = rw (append_assoc (escape_byte c) (path_escape p) s) (
    unescape-byte c (path_escape p ++ s) h.0
    ∙ ap (λ o. prefixed (c ∷ []) o) (unescape-escape p s h.1)
    ∙ prefixed_twice (c ∷ []) p (path_unescape s))

-- Text without a percent sign stands for itself.
pub unescape-unescaped :
    (p s : Text)
    → All (λ c. (c == b'%') ≡ false) p
    → path_unescape (p ++ s) ≡ prefixed p (path_unescape s)
unescape-unescaped [] s h = nothing_prefixed (path_unescape s)
unescape-unescaped (c ∷ p) s h =
    unescape-plain c (p ++ s) h.0
    ∙ ap (λ o. prefixed (c ∷ []) o) (unescape-unescaped p s h.1)
    ∙ prefixed_twice (c ∷ []) p (path_unescape s)
