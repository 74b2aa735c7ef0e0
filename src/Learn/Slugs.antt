-- ===== src/Learn/Slugs.antt =====
-- Under which keys the lessons of a rule are cached.
use khulnasoft_lab_vulnmap_l.Prelude.Maps.{TextMap, lookup, store, lookup-store}
use khulnasoft_lab_vulnmap_l.Prelude.{
  Text, text_eq, Bool, true, false, ◌≡◌, refl, ap, List, [], ◌∷◌, ◌++◌, none, All, arith,
  if◌then◌else◌,
}
use khulnasoft_lab_vulnmap_l.Learn.{
  Lesson, LearnService, or_no_lessons, lessons_at, cache_rules, cache_lesson, cache_lessons,
  update_caches,
}

cache_rules-misses :
    (rule : Text) (lesson : Lesson) (rules : List Text) (cache : TextMap (List Lesson))
    → text_eq lesson.slug rule ≡ false
    → lookup rule cache ≡ none
    → lookup rule (cache_rules lesson rules cache) ≡ none
unfolding cache_rules
cache_rules-misses rule lesson [] cache other e = e
cache_rules-misses rule lesson (r ∷ rules) cache other e =
    cache_rules-misses rule lesson rules _ other (
      ground (
        arith,
        lookup-store lesson.slug rule (lessons_at r cache ++ (lesson ∷ [])) cache,
        other,
        e,
      ))

cache_lesson-misses :
    (rule : Text) (lesson : Lesson) (s : LearnService)
    → text_eq lesson.slug rule ≡ false
    → lookup rule s.lessons_by_rule ≡ none
    → lookup rule (cache_lesson lesson s).lessons_by_rule ≡ none
unfolding cache_lesson
cache_lesson-misses rule lesson s other e = chosen lesson.published
  where
    chosen :
        (published : Bool)
        → lookup rule
            (if published
              then record {
                lessons_by_rule = cache_rules lesson lesson.rules s.lessons_by_rule;
                lessons_by_ecosystem =
                    store lesson.ecosystem
                      (lessons_at lesson.ecosystem s.lessons_by_ecosystem ++ (lesson ∷ []))
                      s.lessons_by_ecosystem;
              }
              else s).lessons_by_rule
          ≡ none
    chosen true = cache_rules-misses rule lesson lesson.rules s.lessons_by_rule other e
    chosen false = e

cache_lessons-misses :
    (rule : Text) (lessons : List Lesson) (s : LearnService)
    → All (λ lesson. text_eq lesson.slug rule ≡ false) lessons
    → lookup rule s.lessons_by_rule ≡ none
    → lookup rule (cache_lessons lessons s).lessons_by_rule ≡ none
unfolding cache_lessons
cache_lessons-misses rule [] s others e = e
cache_lessons-misses rule (lesson ∷ lessons) s others e =
    cache_lessons-misses rule lessons (cache_lesson lesson s) others.1
      (cache_lesson-misses rule lesson s others.0 e)

nothing_at :
    (rule : Text) (cache : TextMap (List Lesson))
    → lookup rule cache ≡ none
    → lessons_at rule cache ≡ []
unfolding lessons_at
nothing_at rule cache e = ap or_no_lessons e

empty_cache : (rule : Text) → lookup {V = List Lesson} rule [] ≡ none
unfolding lookup
empty_cache rule = refl

-- After the caches are filled, the cache of lessons by rule has no lesson under a rule that is not
-- the slug of a lesson, whatever lessons list the rule among theirs.
pub rule_cache_misses :
    (rule : Text) (lessons : List Lesson) (s : LearnService)
    → All (λ lesson. text_eq lesson.slug rule ≡ false) lessons
    → lessons_at rule (update_caches lessons s).lessons_by_rule ≡ []
unfolding update_caches
rule_cache_misses rule lessons s others = nothing_at rule _ (
    cache_lessons-misses rule lessons (record { lessons_by_rule = []; lessons_by_ecosystem = [] })
      others (empty_cache rule))
