-- ===== src/Learn/Found.antt =====
-- What the filters leave of the lessons.
use mathlib.Core.Path.{subst}
use khulnasoft_lab_vulnmap_l.Prelude.{
  Text, text_eq, text_eq_iff, Bool, true, false, ◌≡◌, refl, sym, ◌⊎◌, inl, inr, List, [], ◌∷◌, All,
  All-append, Any, Bool-cases, if◌then◌else◌,
}
use khulnasoft_lab_vulnmap_l.Learn.{
  Lesson, LessonLookupParams, copies, matches_of, all_matches, filter_lessons_by, has_any,
  filter_cves, filter_lessons,
}

-- One of the wanted values is among the lesson's.
abbrev pub Shares : List Text → List Text → Type 0
Shares wanted values = Any (λ v. Any (λ value. value ≡ v) values) wanted

abbrev pub IsOneOf : List Lesson → Lesson → Type 0
IsOneOf lessons lesson = Any (λ l. l ≡ lesson) lessons

abbrev IsMatch : List Text → (Lesson → List Text) → Lesson → Type 0
IsMatch wanted field lesson = Shares wanted (field lesson)

-- A copy is taken for a value that is there.
copies-All :
    (v : Text) (lesson : Lesson) (P : Lesson → Type 0) (values : List Text)
    → (Any (λ value. value ≡ v) values → P lesson)
    → All P (copies v lesson values)
unfolding copies
copies-All v lesson P [] p = tt
copies-All v lesson P (value ∷ values) p =
    chosen (text_eq value v) refl (copies-All v lesson P values (λ a. p (inr a)))
  where
    chosen :
        (same : Bool)
        → text_eq value v ≡ same
        → All P (copies v lesson values)
        → All P (if same then lesson ∷ copies v lesson values else copies v lesson values)
    chosen true e rest = (p (inl ((text_eq_iff value v).0 e)), rest)
    chosen false e rest = rest

matches_of-All :
    (wanted : List Text) (lesson : Lesson) (P : Lesson → Type 0) (values : List Text)
    → (Shares wanted values → P lesson)
    → All P (matches_of wanted lesson values)
unfolding matches_of
matches_of-All [] lesson P values p = tt
matches_of-All (v ∷ vs) lesson P values p =
    All-append P (copies v lesson values) (matches_of vs lesson values)
      (copies-All v lesson P values (λ a. p (inl a)))
      (matches_of-All vs lesson P values (λ a. p (inr a)))

all_matches-All :
    (wanted : List Text) (field : Lesson → List Text) (P : Lesson → Type 0) (lessons : List Lesson)
    → All (λ l. Shares wanted (field l) → P l) lessons
    → All P (all_matches wanted field lessons)
unfolding all_matches
all_matches-All wanted field P [] h = tt
all_matches-All wanted field P (l ∷ ls) h =
    All-append P (matches_of wanted l (field l)) (all_matches wanted field ls)
      (matches_of-All wanted l P (field l) h.0) (all_matches-All wanted field P ls h.1)

All-map :
    (P Q : Lesson → Type 0) (ls : List Lesson) → ((l : Lesson) → P l → Q l) → All P ls → All Q ls
All-map P Q [] f h = tt
All-map P Q (l ∷ ls) f h = (f l h.0, All-map P Q ls f h.1)

self-IsOneOf :
    (all ls : List Lesson) → ((l : Lesson) → IsOneOf ls l → IsOneOf all l) → All (IsOneOf all) ls
self-IsOneOf all [] f = tt
self-IsOneOf all (l ∷ ls) f = (f l (inl refl), self-IsOneOf all ls (λ m o. f m (inr o)))

-- The lesson has one of the wanted CWEs or CVEs, or no CWE was wanted.
abbrev pub IsWanted : LessonLookupParams → Lesson → Type 0
IsWanted params l = (params.cwes ≡ []) ⊎ (Shares params.cwes l.cwes ⊎ Shares params.cves l.cves)

abbrev IsFound : LessonLookupParams → List Lesson → Lesson → Type 0
IsFound params lessons l = IsOneOf lessons l × IsWanted params l

module _ (params : LessonLookupParams) (lessons : List Lesson) where
  by_cwes :
      (cwes : List Text)
      → params.cwes ≡ cwes
      → All (IsFound params lessons) (filter_lessons_by cwes (λ l. l.cwes) lessons)
  unfolding filter_lessons_by
  by_cwes [] e =
      All-map (IsOneOf lessons) (IsFound params lessons) lessons (λ l o. (o, inl e))
        (self-IsOneOf lessons lessons (λ l o. o))
  by_cwes (v ∷ vs) e =
      all_matches-All (v ∷ vs) (λ l. l.cwes) (IsFound params lessons) lessons
        (All-map (IsOneOf lessons) _ lessons
          (λ l o shares. (o, inr (inl (subst (λ ws. Shares ws l.cwes) (sym e) shares))))
          (self-IsOneOf lessons lessons (λ l o. o)))

  by_cves :
      (cves : List Text) (from : List Lesson)
      → params.cves ≡ cves
      → has_any cves ≡ true
      → All (IsOneOf lessons) from
      → All (IsFound params lessons) (filter_lessons_by cves (λ l. l.cves) from)
  unfolding filter_lessons_by
  by_cves [] from e some_cve h = cc some_cve
  by_cves (v ∷ vs) from e some_cve h =
      all_matches-All (v ∷ vs) (λ l. l.cves) (IsFound params lessons) from
        (All-map (IsOneOf lessons) _ from
          (λ l o shares. (o, inr (inr (subst (λ ws. Shares ws l.cves) (sym e) shares)))) h)

  -- What the filters leave are lessons that they were given, and each of them has the CWE or the CVE
  -- that is looked for, unless no CWE is.
  pub filter_lessons-found :
      All (λ l. IsOneOf lessons l × IsWanted params l) (filter_lessons lessons params)
  unfolding filter_lessons filter_cves
  filter_lessons-found =
      chosen (filter_lessons_by params.cwes (λ l. l.cwes) lessons) (by_cwes params.cwes refl)
        (Bool-cases (has_any params.cves))
    where
      chosen :
          (filtered : List Lesson)
          → All (IsFound params lessons) filtered
          → (has_any params.cves ≡ true) ⊎ (has_any params.cves ≡ false)
          → All (IsFound params lessons) (filter_cves lessons params.cves filtered)
      chosen [] h (inr no_cve) = rw no_cve h
      chosen (l ∷ []) h (inr no_cve) = h
      chosen (l ∷ m ∷ ls) h (inr no_cve) = rw no_cve h
      chosen [] h (inl cve) =
          rw cve (by_cves params.cves lessons refl cve (self-IsOneOf lessons lessons (λ l o. o)))
      chosen (l ∷ []) h (inl cve) = h
      chosen (l ∷ m ∷ ls) h (inl cve) = rw cve (
          by_cves params.cves (l ∷ m ∷ ls) refl cve
            (All-map (IsFound params lessons) (IsOneOf lessons) (l ∷ m ∷ ls) (λ k f. f.0) h))
