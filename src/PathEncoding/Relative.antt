-- ===== src/PathEncoding/Relative.antt =====
-- The path of a file relative to a folder above it, and its whole way to the code analysis and back.
use mathlib.Core.List.{append_assoc}
use khulnasoft_lab_vulnmap_l.Prelude.{
  ◌==◌, ◌≤◌, Text, text_eq, text_eq_iff, text_eq_refl, codes, true, false, ◌≡◌, refl, sym, ap, ◌∙◌,
  List, [], ◌∷◌, ◌++◌, some, All, All-append, length, length-append, arith, inl, inr, Bool-cases,
}
use khulnasoft_lab_vulnmap_l.Uri.{clean}
use khulnasoft_lab_vulnmap_l.Uri.Clean.{IsName, slashed, clean-absolute}
use khulnasoft_lab_vulnmap_l.PathEncoding.{
  segments_of, join_segments, from_first_difference, rel_cleaned, rel, or_absolute,
  to_relative_unix_path, encode_path, decode_path, to_absolute_path,
}
use khulnasoft_lab_vulnmap_l.PathEncoding.Escaped.{IsSegment, slashed-append}
use khulnasoft_lab_vulnmap_l.PathEncoding.Segments.{segments_of-names, join_segments-slashed}
use khulnasoft_lab_vulnmap_l.PathEncoding.Roundtrip.{segment-IsName, decode_path-to_absolute_path}

common_prefix :
    (bs : List Text) (e : Text) (es : List Text)
    → from_first_difference bs (bs ++ (e ∷ es)) ≡ some (join_segments (e ∷ es))
unfolding from_first_difference
common_prefix [] e es = refl
common_prefix (b ∷ bs) e es = rw (text_eq_refl b) (common_prefix bs e es)

longer : (s t : Text) → 1 ≤ length t → text_eq (s ++ t) s ≡ false
longer s t some_more = elim (Bool-cases (text_eq (s ++ t) s)) [
  | inl e ↦
      absurd (omega (arith, some_more, length-append s t, ap length ((text_eq_iff (s ++ t) s).0 e)))
  | inr e ↦ e
]

-- The folder's path and the file's below it, after cleaning.
rel_below :
    (base target : Text)
    → clean base ≡ base
    → clean target ≡ target
    → text_eq target base ≡ false
    → text_eq base (codes ".") ≡ false
    → rel base target ≡ rel_cleaned base target
unfolding rel
rel_below base target eb et different not_dot = rw (eb, et, different, not_dot) refl

rooted :
    (s t : Text)
    → rel_cleaned (b'/' ∷ s) (b'/' ∷ t) ≡ from_first_difference (segments_of s) (segments_of t)
unfolding rel_cleaned
rooted s t = refl

same_path :
    (b : Text) (bs es : List Text)
    → (b'/' ∷ (b ++ slashed bs)) ++ slashed es ≡ b'/' ∷ (b ++ slashed (bs ++ es))
same_path b bs es =
    ap (λ t. b'/' ∷ t)
      (append_assoc b (slashed bs) (slashed es) ∙ ap (λ t. b ++ t) (sym (slashed-append bs es)))

rooted_not_dot : (s : Text) → text_eq (b'/' ∷ s) (codes ".") ≡ false
unfolding text_eq
rooted_not_dot s = refl

rel-same :
    (b : Text) (bs : List Text) (e : Text) (es : List Text)
    → All IsName (b ∷ bs)
    → All IsName (e ∷ es)
    → rel (b'/' ∷ (b ++ slashed bs)) (b'/' ∷ (b ++ slashed (bs ++ (e ∷ es))))
      ≡ some (e ++ slashed es)
rel-same b bs e es hb he =
    let joined : All IsName (bs ++ (e ∷ es)) = All-append IsName bs (e ∷ es) hb.1 he in
    rel_below (b'/' ∷ (b ++ slashed bs)) (b'/' ∷ (b ++ slashed (bs ++ (e ∷ es))))
      (clean-absolute b bs hb.0 hb.1) (clean-absolute b (bs ++ (e ∷ es)) hb.0 joined)
      (ap (λ t. text_eq t (b'/' ∷ (b ++ slashed bs))) (sym (same_path b bs (e ∷ es)))
        ∙ longer (b'/' ∷ (b ++ slashed bs)) (slashed (e ∷ es)) (omega arith))
      (rooted_not_dot (b ++ slashed bs))
    ∙ rooted (b ++ slashed bs) (b ++ slashed (bs ++ (e ∷ es)))
    ∙ ap (λ ss. from_first_difference ss (segments_of (b ++ slashed (bs ++ (e ∷ es)))))
        (segments_of-names b bs hb.0 hb.1)
    ∙ ap (from_first_difference (b ∷ bs)) (segments_of-names b (bs ++ (e ∷ es)) hb.0 joined)
    ∙ common_prefix (b ∷ bs) e es
    ∙ ap some (join_segments-slashed e es)

to_relative-some :
    (base target path : Text)
    → rel base target ≡ some path
    → to_relative_unix_path base target ≡ (path, true)
unfolding to_relative_unix_path or_absolute
to_relative-some base target path e = ap (or_absolute base target) e

pub to_relative_unix_path-below :
    (b : Text) (bs : List Text) (e : Text) (es : List Text)
    → All IsName (b ∷ bs)
    → All IsName (e ∷ es)
    → to_relative_unix_path
        (b'/' ∷ (b ++ slashed bs))
        ((b'/' ∷ (b ++ slashed bs)) ++ slashed (e ∷ es))
      ≡ (e ++ slashed es, true)
to_relative_unix_path-below b bs e es hb he =
    to_relative-some (b'/' ∷ (b ++ slashed bs)) _ (e ++ slashed es)
      (ap (rel (b'/' ∷ (b ++ slashed bs))) (same_path b bs (e ∷ es)) ∙ rel-same b bs e es hb he)

-- The path under which a file is uploaded leads back to the file: for an absolute folder of names
-- without a percent sign, and a file below it, the file's path made relative, encoded, made
-- absolute again and decoded is the file's path.
pub decode_path-to_relative_unix_path :
    (b : Text) (bs : List Text) (p : Text) (ps : List Text)
    → All IsName (b ∷ bs)
    → All (λ c. (c == b'%') ≡ false) (b ++ slashed bs)
    → IsSegment p
    → All IsSegment ps
    → decode_path (
        to_absolute_path (b'/' ∷ (b ++ slashed bs)) (
          encode_path
            (to_relative_unix_path
              (b'/' ∷ (b ++ slashed bs))
              ((b'/' ∷ (b ++ slashed bs)) ++ slashed (p ∷ ps))).0))
      ≡ some ((b'/' ∷ (b ++ slashed bs)) ++ slashed (p ∷ ps))
decode_path-to_relative_unix_path b bs p ps hb plain h hs =
    ap (λ r. decode_path (to_absolute_path (b'/' ∷ (b ++ slashed bs)) (encode_path r.0)))
      (to_relative_unix_path-below b bs p ps hb (h.1, segment-IsName ps hs))
    ∙ decode_path-to_absolute_path b bs p ps hb plain h hs
