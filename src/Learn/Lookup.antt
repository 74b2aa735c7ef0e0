-- ===== src/Learn/Lookup.antt =====
-- infrastructure/learn/service.go, `GetLesson`: the URL is changed through a pointer into the slice that
-- the filters return, which is the cache's own when there was nothing to filter for.
use khulnasoft_lab_vulnmap_l.Prelude.Maps.{TextMap, lookup, store}
use khulnasoft_lab_vulnmap_l.Prelude.{
  ℕ, ◌+◌, leb, Text, codes, Bool, true, false, not, ◌&&◌, List, [], ◌∷◌, ◌++◌, map, Option, none,
  some, if◌then◌else◌,
}
use khulnasoft_lab_vulnmap_l.Vulnmap.Issue.{IssueType}
use khulnasoft_lab_vulnmap_l.Learn.{
  Lesson, LessonLookupParams, LearnService, ecosystem_aliases, lessons_at, has_any, has_several,
  filter_lessons, lessons_lookup_params,
}

abbrev lower_byte : ℕ → ℕ
lower_byte c = if leb b'A' c && leb c b'Z' then c + 32 else c

-- `ecosystemAliases[strings.ToLower(ecosystem)]`, empty for an unknown one
unfoldable pub alias_of : Text → Text
unfolding lookup
alias_of ecosystem = elim (lookup (map lower_byte ecosystem) ecosystem_aliases) [
  | none ↦ []
  | some alias ↦ alias
]

-- Where the lessons come from: an entry of a cache, or a new slice.
pub data LessonSource : Type 0 where
  rule_entry : Text → LessonSource
  ecosystem_entry : Text → LessonSource
  new_slice : LessonSource

unfoldable pub all_lessons : TextMap (List Lesson) → List Lesson
all_lessons [] = []
all_lessons ((k, lessons) ∷ cache) = lessons ++ all_lessons cache

abbrev pub or_else :
    LessonSource → List Lesson → LessonSource × List Lesson → LessonSource × List Lesson
or_else source [] other = other
or_else source (l ∷ ls) other = (source, l ∷ ls)

-- The fallbacks of `GetLesson`, and `getLessonsByEcosystem`.
unfoldable pub find_lessons : LessonLookupParams → LearnService → LessonSource × List Lesson
unfolding lessons_at alias_of all_lessons
find_lessons params s =
    or_else (rule_entry params.rule) (lessons_at params.rule s.lessons_by_rule) (
      or_else (ecosystem_entry (alias_of params.ecosystem))
        (lessons_at (alias_of params.ecosystem) s.lessons_by_ecosystem)
        (new_slice, all_lessons s.lessons_by_ecosystem))

-- Whether the filters return the slice that they are given.
abbrev pub is_same_slice : LessonLookupParams → List Lesson → Bool
is_same_slice params lessons =
    not (has_any params.cwes) && not (has_several lessons && has_any params.cves)

abbrev pub with_head : Lesson → List Lesson → List Lesson
with_head lesson [] = []
with_head lesson (l ∷ ls) = lesson ∷ ls

-- The write through the pointer.
unfoldable pub write_through :
    LessonSource → Bool → Lesson → List Lesson → LearnService → LearnService
unfolding store
write_through source false lesson lessons s = s
write_through new_slice true lesson lessons s = s
write_through (rule_entry key) true lesson lessons s = record s {
  lessons_by_rule = store key (with_head lesson lessons) s.lessons_by_rule;
}
write_through (ecosystem_entry key) true lesson lessons s = record s {
  lessons_by_ecosystem = store key (with_head lesson lessons) s.lessons_by_ecosystem;
}

abbrev pub marked_for_ide : Lesson → Lesson
marked_for_ide lesson = record lesson { url = lesson.url ++ codes "?loc=ide" }

unfoldable pub take_first :
    LessonLookupParams
    → LessonSource × List Lesson
    → List Lesson
    → LearnService
    → LearnService × Option Lesson
unfolding write_through
take_first params from [] s = (s, none)
take_first params (source, lessons) (lesson ∷ rest) s = (
  write_through source (is_same_slice params lessons) (marked_for_ide lesson) lessons s,
  some (marked_for_ide lesson),
)

unfoldable pub get_lesson_for :
    Option LessonLookupParams → LearnService → LearnService × Option Lesson
unfolding find_lessons filter_lessons take_first
get_lesson_for none s = (s, none)
get_lesson_for (some params) s =
    take_first params (find_lessons params s) (filter_lessons (find_lessons params s).1 params) s

-- `GetLesson`, which returns no error
unfoldable pub get_lesson :
    Text → Text → List Text → List Text → IssueType → LearnService → LearnService × Option Lesson
unfolding get_lesson_for lessons_lookup_params
get_lesson ecosystem rule cwes cves issue_type s =
    get_lesson_for (lessons_lookup_params ecosystem rule cwes cves issue_type) s
