-- ===== src/PathEncoding/Roundtrip.antt =====
-- A file's path on the way to the code analysis and back.
use mathlib.Core.List.{append_assoc, append-nil}
use khulnasoft_lab_vulnmap_l.Prelude.{
  ◌==◌, Text, text_eq, false, ◌≡◌, refl, sym, ap, ◌∙◌, List, [], ◌∷◌, ◌++◌, map, some, All,
  All-append,
}
use khulnasoft_lab_vulnmap_l.Uri.{clean}
use khulnasoft_lab_vulnmap_l.Uri.Clean.{IsName, slashed, clean-absolute, clean-relative}
use khulnasoft_lab_vulnmap_l.PathEncoding.{
  path_escape, prefixed, path_unescape, join_two, encode_segments, encode_path, decode_path,
  to_absolute_path,
}
use khulnasoft_lab_vulnmap_l.PathEncoding.Segments.{split-names}
use khulnasoft_lab_vulnmap_l.PathEncoding.Percent.{
  unescape-plain, unescape-escape, unescape-unescaped,
}
use khulnasoft_lab_vulnmap_l.PathEncoding.Escaped.{
  escape-IsName, IsSegment, All-IsName, slashed-append, join-names,
}

pub segment-IsName : (ps : List Text) → All IsSegment ps → All IsName ps
segment-IsName [] h = tt
segment-IsName (p ∷ ps) h = (h.0.1, segment-IsName ps h.1)

join-first : (p : Text) → IsName p → join_two [] p ≡ p ++ slashed []
unfolding join_two text_eq
join-first [] h = cc h.not_empty
join-first (c ∷ p) h = ap clean (sym (append-nil (c ∷ p))) ∙ clean-relative (c ∷ p) [] h tt

encode-rest :
    (q : Text) (qs ss : List Text)
    → IsName q
    → All IsName qs
    → All IsSegment ss
    → encode_segments (q ++ slashed qs) ss ≡ q ++ slashed (qs ++ map path_escape ss)
unfolding encode_segments
encode-rest q qs [] hq hqs hs = ap (λ ts. q ++ slashed ts) (sym (append-nil qs))
encode-rest q qs (s ∷ ss) hq hqs hs =
    let e : Text = path_escape s in
    let name : IsName e = escape-IsName s hs.0.0 hs.0.1 in
    ap (λ t. encode_segments (join_two (q ++ slashed qs) t) ss) (sym (append-nil e))
    ∙ ap (λ t. encode_segments t ss) (join-names q qs e [] hq hqs (name, tt))
    ∙ encode-rest q (qs ++ (e ∷ [])) ss hq (All-append IsName qs (e ∷ []) hqs (name, tt)) hs.1
    ∙ ap (λ ts. q ++ slashed ts) (append_assoc qs (e ∷ []) (map path_escape ss))

-- The escaped segments, with the separators as they were.
encode_path-segments :
    (p : Text) (ps : List Text)
    → IsSegment p
    → All IsSegment ps
    → encode_path (p ++ slashed ps) ≡ path_escape p ++ slashed (map path_escape ps)
unfolding encode_path encode_segments
encode_path-segments p ps h hs =
    ap (encode_segments []) (split-names p ps h.1 (segment-IsName ps hs))
    ∙ ap (λ t. encode_segments t ps) (join-first (path_escape p) (escape-IsName p h.0 h.1))
    ∙ encode-rest (path_escape p) [] ps (escape-IsName p h.0 h.1) tt hs

unescape-slashed :
    (ps : List Text)
    → All IsSegment ps
    → path_unescape (slashed (map path_escape ps)) ≡ some (slashed ps)
unfolding path_unescape
unescape-slashed [] h = refl
unescape-slashed (p ∷ ps) h =
    unescape-plain b'/' (path_escape p ++ slashed (map path_escape ps)) refl
    ∙ ap (λ o. prefixed (b'/' ∷ []) o)
        (unescape-escape p (slashed (map path_escape ps)) h.0.0
          ∙ ap (λ o. prefixed p o) (unescape-slashed ps h.1))

-- A relative path of segments that are names, none of them empty, `.` or `..`, is the same once it is
-- encoded and decoded, whatever bytes the names hold.
pub decode_path-encode_path :
    (p : Text) (ps : List Text)
    → IsSegment p
    → All IsSegment ps
    → decode_path (encode_path (p ++ slashed ps)) ≡ some (p ++ slashed ps)
unfolding decode_path
decode_path-encode_path p ps h hs =
    ap path_unescape (encode_path-segments p ps h hs)
    ∙ unescape-escape p (slashed (map path_escape ps)) h.0
    ∙ ap (λ o. prefixed p o) (unescape-slashed ps hs)

join-absolute :
    (b : Text) (bs : List Text) (e : Text) (es : List Text)
    → All IsName (b ∷ bs)
    → All IsName (e ∷ es)
    → join_two (b'/' ∷ (b ++ slashed bs)) (e ++ slashed es)
      ≡ (b'/' ∷ (b ++ slashed bs)) ++ slashed (e ∷ es)
unfolding join_two
join-absolute b bs e es hb he =
    let same : (b ++ slashed bs) ++ slashed (e ∷ es) ≡ b ++ slashed (bs ++ (e ∷ es)) =
      append_assoc b (slashed bs) (slashed (e ∷ es))
      ∙ ap (λ t. b ++ t) (sym (slashed-append bs (e ∷ es))) in
    ap (λ t. clean (b'/' ∷ t)) same
    ∙ clean-absolute b (bs ++ (e ∷ es)) hb.0 (All-append IsName bs (e ∷ es) hb.1 he)
    ∙ ap (λ t. b'/' ∷ t) (sym same)

-- What the conversion of the analysis does with the path that the upload has sent: under an absolute
-- folder of names without a percent sign, the encoded path of a file, made absolute and decoded,
-- is the file's path in the folder.
pub decode_path-to_absolute_path :
    (b : Text) (bs : List Text) (p : Text) (ps : List Text)
    → All IsName (b ∷ bs)
    → All (λ c. (c == b'%') ≡ false) (b ++ slashed bs)
    → IsSegment p
    → All IsSegment ps
    → decode_path (to_absolute_path (b'/' ∷ (b ++ slashed bs)) (encode_path (p ++ slashed ps)))
      ≡ some ((b'/' ∷ (b ++ slashed bs)) ++ (b'/' ∷ (p ++ slashed ps)))
unfolding decode_path to_absolute_path
decode_path-to_absolute_path b bs p ps hb plain h hs =
    ap (λ t. path_unescape (join_two (b'/' ∷ (b ++ slashed bs)) t)) (encode_path-segments p ps h hs)
    ∙ ap path_unescape
        (join-absolute b bs (path_escape p) (map path_escape ps) hb (All-IsName (p ∷ ps) (h, hs)))
    ∙ unescape-unescaped (b'/' ∷ (b ++ slashed bs)) (slashed (map path_escape (p ∷ ps)))
        (refl, plain)
    ∙ ap (λ o. prefixed (b'/' ∷ (b ++ slashed bs)) o) (unescape-slashed (p ∷ ps) (h, hs))
