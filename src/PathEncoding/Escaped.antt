-- ===== src/PathEncoding/Escaped.antt =====
-- An escaped name is a name, and joining names puts separators between them.
use mathlib.Core.List.{append_assoc, append-nil}
use khulnasoft_lab_vulnmap_l.Prelude.{
  ℕ, ◌/◌, ◌%◌, ◌<◌, ◌==◌, Text, codes, text_eq, text_eq_iff, false, ◌≡◌, refl, sym, ap, ◌∙◌, List,
  [], ◌∷◌, ◌++◌, map, some, All, All-append, arith, Bool-cases, inl, inr,
}
use khulnasoft_lab_vulnmap_l.Uri.{clean}
use khulnasoft_lab_vulnmap_l.Uri.Clean.{NoSlash, IsName, slashed, clean-relative}
use khulnasoft_lab_vulnmap_l.PathEncoding.{
  is_unescaped, hex_digit, escape_byte, path_escape, path_unescape, join_two,
}
use khulnasoft_lab_vulnmap_l.PathEncoding.Percent.{IsBytes, unescape-escape}

hex_no_slash : (d : ℕ) → (hex_digit d == b'/') ≡ false
unfolding hex_digit
hex_no_slash d = ground arith

byte-NoSlash : (c : ℕ) → c < 256 → (c == b'/') ≡ false → NoSlash (escape_byte c)
unfolding escape_byte
byte-NoSlash c h e = elim (Bool-cases (is_unescaped c)) [
  | inl same ↦ rw same (e, tt)
  | inr new ↦ rw new (refl, (hex_no_slash (c / 16), (hex_no_slash (c % 16), tt)))
]

escape-NoSlash : (p : Text) → IsBytes p → NoSlash p → NoSlash (path_escape p)
unfolding path_escape
escape-NoSlash [] h e = tt
escape-NoSlash (c ∷ p) h e =
    All-append (λ d. (d == b'/') ≡ false) (escape_byte c) (path_escape p) (byte-NoSlash c h.0 e.0)
      (escape-NoSlash p h.1 e.1)

pub whole : (p : Text) → IsBytes p → path_unescape (path_escape p) ≡ some p
unfolding path_unescape
whole p h =
    ap path_unescape (sym (append-nil (path_escape p)))
    ∙ unescape-escape p [] h
    ∙ ap some (append-nil p)

-- Escaping makes no name equal to a text without a percent sign.
escape-new :
    (p t : Text)
    → IsBytes p
    → path_unescape t ≡ some t
    → text_eq p t ≡ false
    → text_eq (path_escape p) t ≡ false
escape-new p t h plain e = elim (Bool-cases (text_eq (path_escape p) t)) [
  | inl same ↦
      let back : some t ≡ some p =
        sym plain ∙ ap path_unescape (sym ((text_eq_iff (path_escape p) t).0 same)) ∙ whole p h in
      ground (arith, back, text_eq_iff p t)
  | inr new ↦ new
]

pub escape-IsName : (p : Text) → IsBytes p → IsName p → IsName (path_escape p)
unfolding path_unescape
escape-IsName p h n = record {
  no_slash = escape-NoSlash p h n.no_slash;
  not_empty = escape-new p [] h refl n.not_empty;
  not_dot = escape-new p (codes ".") h refl n.not_dot;
  not_up = escape-new p (codes "..") h refl n.not_up;
}

-- A segment of a relative path.
abbrev pub IsSegment : Text → Type 0
IsSegment p = IsBytes p × IsName p

pub All-IsName : (ps : List Text) → All IsSegment ps → All IsName (map path_escape ps)
All-IsName [] h = tt
All-IsName (p ∷ ps) h = (escape-IsName p h.0.0 h.0.1, All-IsName ps h.1)

pub slashed-append : (ps qs : List Text) → slashed (ps ++ qs) ≡ slashed ps ++ slashed qs
slashed-append [] qs = refl
slashed-append (p ∷ ps) qs =
    ap (λ t. b'/' ∷ t)
      (ap (λ t. p ++ t) (slashed-append ps qs) ∙ sym (append_assoc p (slashed ps) (slashed qs)))

pub join-names :
    (q : Text) (qs : List Text) (p : Text) (ps : List Text)
    → IsName q
    → All IsName qs
    → All IsName (p ∷ ps)
    → join_two (q ++ slashed qs) (p ++ slashed ps) ≡ q ++ slashed (qs ++ (p ∷ ps))
unfolding join_two text_eq
join-names [] qs p ps h hs hp = cc h.not_empty
join-names (c ∷ q) qs p ps h hs hp =
    ap clean (
      append_assoc (c ∷ q) (slashed qs) (slashed (p ∷ ps))
      ∙ ap (λ t. (c ∷ q) ++ t) (sym (slashed-append qs (p ∷ ps))))
    ∙ clean-relative (c ∷ q) (qs ++ (p ∷ ps)) h (All-append IsName qs (p ∷ ps) hs hp)
