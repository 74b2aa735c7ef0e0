-- ===== src/Learn/Repeated.antt =====
-- A lesson that is looked up twice.
use khulnasoft_lab_vulnmap_l.Prelude.Maps.{TextMap, store, lookup-store_self}
use khulnasoft_lab_vulnmap_l.Prelude.{Text, true, ◌≡◌, refl, sym, ap, ◌∙◌, List, [], ◌∷◌, some}
use khulnasoft_lab_vulnmap_l.Vulnmap.Issue.{dependency_vulnerability}
use khulnasoft_lab_vulnmap_l.Learn.{
  Lesson, LessonLookupParams, LearnService, or_no_lessons, lessons_at, filter_lessons_by,
  filter_cves, filter_lessons, lessons_lookup_params,
}
use khulnasoft_lab_vulnmap_l.Learn.Lookup.{
  LessonSource, rule_entry, ecosystem_entry, new_slice, alias_of, all_lessons, or_else,
  find_lessons, write_through, marked_for_ide, take_first, get_lesson_for, get_lesson,
}

-- Nothing to filter for.
abbrev pub plain_params : Text → Text → LessonLookupParams
plain_params ecosystem rule = record { rule = rule; ecosystem = ecosystem; cwes = []; cves = [] }

plain-lookup :
    (ecosystem rule : Text) (s : LearnService)
    → get_lesson ecosystem rule [] [] dependency_vulnerability s
      ≡ get_lesson_for (some (plain_params ecosystem rule)) s
unfolding get_lesson lessons_lookup_params
plain-lookup ecosystem rule s = refl

plain-filter :
    (ecosystem rule : Text) (l : Lesson) (ls : List Lesson)
    → filter_lessons (l ∷ ls) (plain_params ecosystem rule) ≡ l ∷ ls
unfolding filter_lessons filter_cves filter_lessons_by
plain-filter ecosystem rule l [] = refl
plain-filter ecosystem rule l (m ∷ ls) = refl

for_params :
    (params : LessonLookupParams) (s : LearnService)
    → get_lesson_for (some params) s
      ≡ take_first params
          (find_lessons params s)
          (filter_lessons (find_lessons params s).1 params)
          s
unfolding get_lesson_for
for_params params s = refl

plain-first :
    (ecosystem rule : Text) (s : LearnService) (source : LessonSource) (l : Lesson)
    (ls : List Lesson)
    → take_first (plain_params ecosystem rule) (source, l ∷ ls) (l ∷ ls) s
      ≡ (write_through source true (marked_for_ide l) (l ∷ ls) s, some (marked_for_ide l))
unfolding take_first
plain-first ecosystem rule s source l [] = refl
plain-first ecosystem rule s source l (m ∷ ls) = refl

-- What a lookup does that finds the lessons of an entry.
entry-lookup :
    (ecosystem rule : Text) (s : LearnService) (source : LessonSource) (l : Lesson)
    (ls : List Lesson)
    → find_lessons (plain_params ecosystem rule) s ≡ (source, l ∷ ls)
    → get_lesson ecosystem rule [] [] dependency_vulnerability s
      ≡ (write_through source true (marked_for_ide l) (l ∷ ls) s, some (marked_for_ide l))
entry-lookup ecosystem rule s source l ls e =
    let params : LessonLookupParams = plain_params ecosystem rule in
    plain-lookup ecosystem rule s
    ∙ for_params params s
    ∙ ap (λ f. take_first params f (filter_lessons f.1 params) s) e
    ∙ ap (λ fs. take_first params (source, l ∷ ls) fs s) (plain-filter ecosystem rule l ls)
    ∙ plain-first ecosystem rule s source l ls

-- The lessons under the rule, or those of the ecosystem if there are none.
abbrev pub IsEntry : Text → Text → LearnService → LessonSource → List Lesson → Type 0
IsEntry ecosystem rule s (rule_entry key) lessons =
    (key ≡ rule) × (lessons_at rule s.lessons_by_rule ≡ lessons)
IsEntry ecosystem rule s (ecosystem_entry key) lessons =
    (key ≡ alias_of ecosystem)
    × (lessons_at rule s.lessons_by_rule ≡ [])
    × (lessons_at (alias_of ecosystem) s.lessons_by_ecosystem ≡ lessons)
IsEntry ecosystem rule s new_slice lessons = ⊥

abbrev fallback : Text → LearnService → LessonSource × List Lesson
fallback ecosystem s =
    or_else (ecosystem_entry (alias_of ecosystem))
      (lessons_at (alias_of ecosystem) s.lessons_by_ecosystem)
      (new_slice, all_lessons s.lessons_by_ecosystem)

entry-found :
    (ecosystem rule : Text) (s : LearnService) (source : LessonSource) (l : Lesson)
    (ls : List Lesson)
    → IsEntry ecosystem rule s source (l ∷ ls)
    → find_lessons (plain_params ecosystem rule) s ≡ (source, l ∷ ls)
unfolding find_lessons
entry-found ecosystem rule s (rule_entry key) l ls (k, e) =
    ap (λ ms. or_else (rule_entry rule) ms (fallback ecosystem s)) e
    ∙ ap (λ r. (rule_entry r, l ∷ ls)) (sym k)
entry-found ecosystem rule s (ecosystem_entry key) l ls (k, e, f) =
    ap (λ ms. or_else (rule_entry rule) ms (fallback ecosystem s)) e
    ∙ ap
        (λ ms.
          or_else (ecosystem_entry (alias_of ecosystem)) ms
            (new_slice, all_lessons s.lessons_by_ecosystem))
        f
    ∙ ap (λ r. (ecosystem_entry r, l ∷ ls)) (sym k)
entry-found ecosystem rule s new_slice l ls e = absurd e

stored_at :
    (key : Text) (lessons : List Lesson) (cache : TextMap (List Lesson))
    → lessons_at key (store key lessons cache) ≡ lessons
unfolding lessons_at
stored_at key lessons cache = ap or_no_lessons (lookup-store_self key lessons cache)

still-IsEntry :
    (ecosystem rule : Text) (s : LearnService) (source : LessonSource) (l k : Lesson)
    (ls : List Lesson)
    → IsEntry ecosystem rule s source (l ∷ ls)
    → IsEntry ecosystem rule (write_through source true k (l ∷ ls) s) source (k ∷ ls)
unfolding write_through
still-IsEntry ecosystem rule s (rule_entry key) l k ls (same, e) = (
  same,
  ap (λ r. lessons_at r (store key (k ∷ ls) s.lessons_by_rule)) (sym same)
      ∙ stored_at key (k ∷ ls) s.lessons_by_rule,
)
still-IsEntry ecosystem rule s (ecosystem_entry key) l k ls (same, e, f) = (
  same,
  e,
  ap (λ r. lessons_at r (store key (k ∷ ls) s.lessons_by_ecosystem)) (sym same)
      ∙ stored_at key (k ∷ ls) s.lessons_by_ecosystem,
)
still-IsEntry ecosystem rule s new_slice l k ls e = absurd e

-- If the lessons for an issue without CWEs and CVEs are those of a cache's entry, then the second
-- lookup gives the lesson of the first, with the mark for the IDE at the end of its URL once more.
pub lesson_marked_twice :
    (ecosystem rule : Text) (s : LearnService) (source : LessonSource) (l : Lesson)
    (ls : List Lesson)
    → IsEntry ecosystem rule s source (l ∷ ls)
    → ((get_lesson ecosystem rule [] [] dependency_vulnerability s).1 ≡ some (marked_for_ide l))
      × ((get_lesson ecosystem rule [] [] dependency_vulnerability
            (get_lesson ecosystem rule [] [] dependency_vulnerability s).0).1
          ≡ some (marked_for_ide (marked_for_ide l)))
lesson_marked_twice ecosystem rule s source l ls entry =
    let first : get_lesson ecosystem rule [] [] dependency_vulnerability s
        ≡ (write_through source true (marked_for_ide l) (l ∷ ls) s, some (marked_for_ide l)) =
      entry-lookup ecosystem rule s source l ls (entry-found ecosystem rule s source l ls entry) in
    (
      ap (λ r. r.1) first,
      ap (λ r. (get_lesson ecosystem rule [] [] dependency_vulnerability r.0).1) first
          ∙ ap (λ r. r.1)
              (entry-lookup ecosystem rule (write_through source true (marked_for_ide l) (l ∷ ls) s)
                source (marked_for_ide l) ls
                (entry-found ecosystem rule _ source (marked_for_ide l) ls
                  (still-IsEntry ecosystem rule s source l (marked_for_ide l) ls entry))),
    )
