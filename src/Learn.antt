-- ===== src/Learn.antt =====
-- infrastructure/learn/service.go: the cached lessons and the lesson for an issue. The caches are maps;
-- that an entry expires after a day is left out, and so is the HTTP request, whose answer is the list
-- of lessons. Two entries of a cache are taken not to share an array, as it is when no rule of a
-- lesson is the slug of an earlier one. Ecosystems are put into lower case byte by byte (ASCII).
pub mod Lookup
pub mod Found
pub mod Slugs
pub mod Repeated
pub mod Tests
use khulnasoft_lab_vulnmap_l.Prelude.Maps.{TextMap, lookup, store}
use khulnasoft_lab_vulnmap_l.Prelude.Strings.{split_on}
use khulnasoft_lab_vulnmap_l.Prelude.{
  ℕ, ◌+◌, leb, Text, text_eq, codes, Bool, true, false, not, ◌&&◌, ◌||◌, List, [], ◌∷◌, ◌++◌, map,
  Option, none, some, if◌then◌else◌,
}
use khulnasoft_lab_vulnmap_l.Vulnmap.Issue.{
  IssueType, dependency_vulnerability, code_security_vulnerability,
}

-- The fields of `Lesson` that the service reads, with the id.
pub record Lesson : Type 0 where
  pub lesson_id : Text
  pub cves : List Text
  pub cwes : List Text
  pub ecosystem : Text
  pub rules : List Text
  pub slug : Text
  pub published : Bool
  pub url : Text

-- `LessonLookupParams`
pub record LessonLookupParams : Type 0 where
  pub rule : Text
  pub ecosystem : Text
  pub cwes : List Text
  pub cves : List Text

-- The two caches of `serviceImpl`.
pub record LearnService : Type 0 where
  pub lessons_by_rule : TextMap (List Lesson)
  pub lessons_by_ecosystem : TextMap (List Lesson)

-- `ecosystemAliases`
abbrev ecosystem_aliases : TextMap Text
ecosystem_aliases =
    (codes "js", codes "javascript")
    ∷ (codes "ts", codes "javascript")
    ∷ (codes "npm", codes "javascript")
    ∷ (codes "yarn", codes "javascript")
    ∷ (codes "yarn-workspace", codes "javascript")
    ∷ (codes "typescript", codes "javascript")
    ∷ (codes "javascript", codes "javascript")
    ∷ (codes "maven", codes "java")
    ∷ (codes "gradle", codes "java")
    ∷ (codes "java", codes "java")
    ∷ (codes "pip", codes "python")
    ∷ (codes "poetry", codes "python")
    ∷ (codes "pipenv", codes "python")
    ∷ (codes "python", codes "python")
    ∷ (codes "nuget", codes "csharp")
    ∷ (codes "paket", codes "csharp")
    ∷ (codes "csharp", codes "csharp")
    ∷ (codes "golangdep", codes "golang")
    ∷ (codes "govendor", codes "golang")
    ∷ (codes "gomodules", codes "golang")
    ∷ (codes "golang", codes "golang")
    ∷ (codes "composer", codes "php")
    ∷ (codes "php", codes "php")
    ∷ (codes "rubygems", codes "ruby")
    ∷ (codes "ruby", codes "ruby")
    ∷ (codes "hex", codes "elixir")
    ∷ (codes "elixir", codes "elixir")
    ∷ []

abbrev pub or_no_lessons : Option (List Lesson) → List Lesson
or_no_lessons none = []
or_no_lessons (some lessons) = lessons

-- `lessons, _ := cache.Get(key)`
unfoldable pub lessons_at : Text → TextMap (List Lesson) → List Lesson
unfolding lookup
lessons_at key cache = or_no_lessons (lookup key cache)

-- The loop over the rules of a lesson: the key that is set is the slug.
unfoldable pub cache_rules : Lesson → List Text → TextMap (List Lesson) → TextMap (List Lesson)
unfolding lessons_at store
cache_rules lesson [] cache = cache
cache_rules lesson (rule ∷ rules) cache =
    cache_rules lesson rules (store lesson.slug (lessons_at rule cache ++ (lesson ∷ [])) cache)

unfoldable pub cache_lesson : Lesson → LearnService → LearnService
unfolding cache_rules
cache_lesson lesson s =
    if lesson.published
    then record {
      lessons_by_rule = cache_rules lesson lesson.rules s.lessons_by_rule;
      lessons_by_ecosystem =
          store lesson.ecosystem
            (lessons_at lesson.ecosystem s.lessons_by_ecosystem ++ (lesson ∷ []))
            s.lessons_by_ecosystem;
    }
    else s

unfoldable pub cache_lessons : List Lesson → LearnService → LearnService
unfolding cache_lesson
cache_lessons [] s = s
cache_lessons (lesson ∷ lessons) s = cache_lessons lessons (cache_lesson lesson s)

-- `updateCaches`: whatever was cached is dropped first.
unfoldable pub update_caches : List Lesson → LearnService → LearnService
unfolding cache_lessons
update_caches lessons s =
    cache_lessons lessons (record { lessons_by_rule = []; lessons_by_ecosystem = [] })

unfoldable pub copies : Text → Lesson → List Text → List Lesson
unfolding text_eq
copies v lesson [] = []
copies v lesson (value ∷ values) =
    let rest = copies v lesson values in if text_eq value v then lesson ∷ rest else rest

unfoldable pub matches_of : List Text → Lesson → List Text → List Lesson
unfolding copies
matches_of [] lesson values = []
matches_of (v ∷ vs) lesson values = copies v lesson values ++ matches_of vs lesson values

-- The loops of `filterLessonWithComparatorFunc`: a lesson once for each pair that matches.
unfoldable pub all_matches : List Text → (Lesson → List Text) → List Lesson → List Lesson
unfolding matches_of
all_matches to_compare field [] = []
all_matches to_compare field (lesson ∷ lessons) =
    matches_of to_compare lesson (field lesson) ++ all_matches to_compare field lessons

-- `filterLessonWithComparatorFunc`
unfoldable pub filter_lessons_by : List Text → (Lesson → List Text) → List Lesson → List Lesson
unfolding all_matches
filter_lessons_by [] field lessons = lessons
filter_lessons_by (v ∷ vs) field lessons = all_matches (v ∷ vs) field lessons

abbrev pub has_any {ℓ} : {A : Type ℓ} → List A → Bool
has_any [] = false
has_any (a ∷ as') = true

abbrev pub has_several {ℓ} : {A : Type ℓ} → List A → Bool
has_several [] = false
has_several (a ∷ []) = false
has_several (a ∷ b ∷ as') = true

-- `filterLessons`, after the filter for the CWEs.
unfoldable pub filter_cves : List Lesson → List Text → List Lesson → List Lesson
unfolding filter_lessons_by
filter_cves lessons wanted filtered =
    if not (has_any filtered) && has_any wanted
    then filter_lessons_by wanted (λ lesson. lesson.cves) lessons
    else if has_several filtered && has_any wanted
    then filter_lessons_by wanted (λ lesson. lesson.cves) filtered
    else filtered

unfoldable pub filter_lessons : List Lesson → LessonLookupParams → List Lesson
unfolding filter_cves
filter_lessons lessons params =
    filter_cves lessons params.cves (filter_lessons_by params.cwes (λ lesson. lesson.cwes) lessons)

-- Only the first CWE or CVE is looked for, if it is not empty.
abbrev pub first_only : List Text → List Text
first_only [] = []
first_only ([] ∷ ts) = []
first_only ((c ∷ t) ∷ ts) = (c ∷ t) ∷ []

abbrev last_or : Text → List Text → Text
last_or found [] = found
last_or found (p ∷ ps) = last_or p ps

abbrev first_or : Text → List Text → Text
first_or found [] = found
first_or found (p ∷ ps) = p

-- `lessonsLookupParams`
unfoldable pub lessons_lookup_params :
    Text → Text → List Text → List Text → IssueType → Option LessonLookupParams
unfolding split_on
lessons_lookup_params ecosystem rule cwes cves dependency_vulnerability =
    some (record {
      rule = rule;
      ecosystem = ecosystem;
      cwes = first_only cwes;
      cves = first_only cves;
    })
lessons_lookup_params ecosystem rule cwes cves code_security_vulnerability = some (record {
  rule = last_or [] (split_on b'/' rule);
  ecosystem = first_or [] (split_on b'/' rule);
  cwes = first_only cwes;
  cves = first_only cves;
})
lessons_lookup_params ecosystem rule cwes cves _ = none
