-- ===== src/PathEncoding/Segments.antt =====
-- Splitting a path of names at its separators, and joining the names.
use mathlib.Core.List.{append-nil}
use khulnasoft_lab_vulnmap_l.Prelude.Strings.{split_on}
use khulnasoft_lab_vulnmap_l.Prelude.{
  Text, text_eq, ◌≡◌, refl, sym, ap, ◌∙◌, List, [], ◌∷◌, ◌++◌, All,
}
use khulnasoft_lab_vulnmap_l.Uri.Clean.{NoSlash, IsName, slashed}
use khulnasoft_lab_vulnmap_l.PathEncoding.{segments_of, join_segments}

split-last : (p : Text) → NoSlash p → split_on b'/' p ≡ p ∷ []
unfolding split_on
split-last [] h = refl
split-last (c ∷ p) h = rw h.0 (rw (split-last p h.1) refl)

split-cut : (p s : Text) → NoSlash p → split_on b'/' (p ++ (b'/' ∷ s)) ≡ p ∷ split_on b'/' s
unfolding split_on
split-cut [] s h = refl
split-cut (c ∷ p) s h = rw h.0 (rw (split-cut p s h.1) refl)

pub split-names :
    (p : Text) (ps : List Text)
    → IsName p
    → All IsName ps
    → split_on b'/' (p ++ slashed ps) ≡ p ∷ ps
split-names p [] h hs = rw (append-nil p) (split-last p h.no_slash)
split-names p (q ∷ qs) h hs =
    split-cut p (q ++ slashed qs) h.no_slash ∙ ap (λ t. p ∷ t) (split-names q qs hs.0 hs.1)

pub segments_of-names :
    (p : Text) (ps : List Text) → IsName p → All IsName ps → segments_of (p ++ slashed ps) ≡ p ∷ ps
unfolding segments_of text_eq
segments_of-names [] ps h hs = cc h.not_empty
segments_of-names (c ∷ p) ps h hs = split-names (c ∷ p) ps h hs

pub join_segments-slashed : (p : Text) (ps : List Text) → join_segments (p ∷ ps) ≡ p ++ slashed ps
unfolding join_segments
join_segments-slashed p [] = sym (append-nil p)
join_segments-slashed p (q ∷ qs) = ap (λ t. p ++ (b'/' ∷ t)) (join_segments-slashed q qs)
