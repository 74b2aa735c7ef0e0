-- ===== src/Learn/Tests.antt =====
-- Lessons, and instances of the theorems about them.
use khulnasoft_lab_vulnmap_l.Prelude.Maps.{lookup}
use khulnasoft_lab_vulnmap_l.Prelude.{text_eq, codes, true, ◌≡◌, refl, [], ◌∷◌, some, All}
use khulnasoft_lab_vulnmap_l.Vulnmap.Issue.{dependency_vulnerability}
use khulnasoft_lab_vulnmap_l.Learn.{Lesson, LearnService, lessons_at, update_caches, filter_lessons}
use khulnasoft_lab_vulnmap_l.Learn.Lookup.{alias_of, ecosystem_entry, marked_for_ide, get_lesson}
use khulnasoft_lab_vulnmap_l.Learn.Found.{IsOneOf, IsWanted, filter_lessons-found}
use khulnasoft_lab_vulnmap_l.Learn.Repeated.{lesson_marked_twice}
use khulnasoft_lab_vulnmap_l.Learn.Slugs.{rule_cache_misses}

abbrev lesson : Lesson
lesson = record {
  lesson_id = codes "1";
  cves = [];
  cwes = codes "CWE-89" ∷ [];
  ecosystem = codes "javascript";
  rules = codes "Sqli" ∷ [];
  slug = codes "sql-injection";
  published = true;
  url = codes "https://learn/sql-injection";
}

abbrev service : LearnService
service = record {
  lessons_by_rule = [];
  lessons_by_ecosystem = (codes "javascript", lesson ∷ []) ∷ [];
}

filter_lessons-found_example :
    All
      (λ l.
        IsOneOf (lesson ∷ []) l
        × IsWanted (record { rule = []; ecosystem = []; cwes = codes "CWE-89" ∷ []; cves = [] }) l)
      (filter_lessons
        (lesson ∷ [])
        (record { rule = []; ecosystem = []; cwes = codes "CWE-89" ∷ []; cves = [] }))
filter_lessons-found_example =
    filter_lessons-found
      (record { rule = []; ecosystem = []; cwes = codes "CWE-89" ∷ []; cves = [] }) (lesson ∷ [])

one_is_left :
    filter_lessons
      (lesson ∷ [])
      (record { rule = []; ecosystem = []; cwes = codes "CWE-89" ∷ []; cves = [] })
    ≡ lesson ∷ []
unfolding filter_lessons text_eq
one_is_left = refl

lesson_marked_twice_example :
    ((get_lesson (codes "npm") (codes "Sqli") [] [] dependency_vulnerability service).1
      ≡ some (marked_for_ide lesson))
    × ((get_lesson
          (codes "npm")
          (codes "Sqli")
          []
          []
          dependency_vulnerability
          (get_lesson (codes "npm") (codes "Sqli") [] [] dependency_vulnerability service).0).1
        ≡ some (marked_for_ide (marked_for_ide lesson)))
unfolding alias_of lessons_at lookup text_eq
lesson_marked_twice_example =
    lesson_marked_twice (codes "npm") (codes "Sqli") service (ecosystem_entry (codes "javascript"))
      lesson [] (refl, refl, refl)

rule_cache_misses_example :
    lessons_at (codes "Sqli") (update_caches (lesson ∷ []) service).lessons_by_rule ≡ []
unfolding text_eq
rule_cache_misses_example = rule_cache_misses (codes "Sqli") (lesson ∷ []) service (refl, tt)
