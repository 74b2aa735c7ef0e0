-- ===== src/Uri/Clean.antt =====
-- `filepath.Clean` leaves alone a path whose parts are names.
use mathlib.Core.List.{append_assoc, append-nil}
use khulnasoft_lab_vulnmap_l.Prelude.Strings.{has_prefix}
use khulnasoft_lab_vulnmap_l.Prelude.{
  Text, codes, text_eq, Bool, true, false, ◌==◌, ◌≡◌, refl, sym, ap, ◌∙◌, List, [], ◌∷◌, ◌++◌, All,
}
use khulnasoft_lab_vulnmap_l.Uri.{split_path, is_dot, clean_parts, join_parts, or_dot, clean}

abbrev pub NoSlash : Text → Type 0
NoSlash p = All (λ c. (c == b'/') ≡ false) p

-- A name between separators: not empty, and neither `.` nor `..`.
pub record IsName (p : Text) : Type 0 where
  pub no_slash : NoSlash p
  pub not_empty : text_eq p [] ≡ false
  pub not_dot : text_eq p (codes ".") ≡ false
  pub not_up : text_eq p (codes "..") ≡ false

-- The parts after the first, each behind a separator.
abbrev pub slashed : List Text → Text
slashed [] = []
slashed (q ∷ qs) = b'/' ∷ (q ++ slashed qs)

split_one : (part p : Text) → NoSlash p → split_path part p ≡ (part ++ p) ∷ []
unfolding split_path
split_one part [] h = ap (λ t. t ∷ []) (sym (append-nil part))
split_one part (c ∷ p) h =
    rw h.0 (rw (split_one (part ++ (c ∷ [])) p h.1) (rw (append_assoc part (c ∷ []) p) refl))

split_cut :
    (part p s : Text)
    → NoSlash p
    → split_path part (p ++ (b'/' ∷ s)) ≡ (part ++ p) ∷ split_path [] s
unfolding split_path
split_cut part [] s h = ap (λ t. t ∷ split_path [] s) (sym (append-nil part))
split_cut part (c ∷ p) s h =
    rw h.0 (rw (split_cut (part ++ (c ∷ [])) p s h.1) (rw (append_assoc part (c ∷ []) p) refl))

split_names :
    (p : Text) (ps : List Text)
    → NoSlash p
    → All NoSlash ps
    → split_path [] (p ++ slashed ps) ≡ p ∷ ps
split_names p [] h hs = rw (append-nil p) (split_one [] p h)
split_names p (q ∷ qs) h hs =
    split_cut [] p (q ++ slashed qs) h ∙ ap (λ t. p ∷ t) (split_names q qs hs.0 hs.1)

-- The stack with the names on it.
abbrev onto : List Text → List Text → List Text
onto stack [] = stack
onto stack (p ∷ ps) = onto (p ∷ stack) ps

clean_names :
    (rooted : Bool) (stack ps : List Text)
    → All IsName ps
    → clean_parts rooted stack ps ≡ onto stack ps
unfolding clean_parts is_dot
clean_names rooted stack [] h = refl
clean_names rooted stack (p ∷ ps) h =
    rw h.0.not_empty (rw h.0.not_dot (rw h.0.not_up (clean_names rooted (p ∷ stack) ps h.1)))

join_names :
    (p : Text) (stack ps : List Text)
    → join_parts (onto (p ∷ stack) ps) [] ≡ join_parts (p ∷ stack) (slashed ps)
unfolding join_parts
join_names p stack [] = refl
join_names p stack (q ∷ qs) = join_names q (p ∷ stack) qs

name-NoSlash : (ps : List Text) → All IsName ps → All NoSlash ps
name-NoSlash [] h = tt
name-NoSlash (p ∷ ps) h = (h.0.no_slash, name-NoSlash ps h.1)

pub clean-absolute :
    (p : Text) (ps : List Text)
    → IsName p
    → All IsName ps
    → clean (b'/' ∷ (p ++ slashed ps)) ≡ b'/' ∷ (p ++ slashed ps)
unfolding clean has_prefix split_path clean_parts is_dot text_eq join_parts
clean-absolute p ps h hs =
    rw (split_names p ps h.no_slash (name-NoSlash ps hs))
      (rw (clean_names true [] (p ∷ ps) (h, hs)) (rw (join_names p [] ps) refl))

cleaned :
    (p : Text) (ps : List Text)
    → IsName p
    → All IsName ps
    → join_parts (clean_parts false [] (split_path [] (p ++ slashed ps))) [] ≡ p ++ slashed ps
unfolding clean_parts is_dot join_parts
cleaned p ps h hs =
    rw (split_names p ps h.no_slash (name-NoSlash ps hs))
      (rw (clean_names false [] (p ∷ ps) (h, hs)) (rw (join_names p [] ps) refl))

relative_form :
    (s : Text)
    → has_prefix s (codes "/") ≡ false
    → clean s ≡ or_dot (join_parts (clean_parts false [] (split_path [] s)) [])
unfolding clean
relative_form s e = rw e refl

pub clean-relative :
    (p : Text) (ps : List Text)
    → IsName p
    → All IsName ps
    → clean (p ++ slashed ps) ≡ p ++ slashed ps
unfolding has_prefix or_dot text_eq
clean-relative [] ps h hs = cc h.not_empty
clean-relative (c ∷ p) ps h hs =
    relative_form ((c ∷ p) ++ slashed ps) (rw h.no_slash.0 refl)
    ∙ ap or_dot (cleaned (c ∷ p) ps h hs)
