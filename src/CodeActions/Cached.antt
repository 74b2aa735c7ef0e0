-- ===== src/CodeActions/Cached.antt =====
-- What the cache of code actions holds after a request.
use khulnasoft_lab_vulnmap_l.Prelude.Maps.{TextMap, lookup, store, lookup-store, UniqueKeys}
use khulnasoft_lab_vulnmap_l.Prelude.{
  Text, text_eq_iff, ◌≡◌, refl, sym, ap, ◌∙◌, List, [], ◌∷◌, ◌++◌, Option, none, some, arith,
}
use khulnasoft_lab_vulnmap_l.Vulnmap.Issue.{Issue, CodeAction}
use khulnasoft_lab_vulnmap_l.CodeActions.{CachedAction, cache_action, cache_actions, cache_issues}

abbrev pub cached : Issue → CodeAction → CachedAction
cached i a = record { issue = i; action = a }

-- The actions that have a UUID, under it, in order.
abbrev pub keyed : Option Text → CachedAction → TextMap CachedAction
keyed none c = []
keyed (some uuid) c = (uuid, c) ∷ []

abbrev pub entries_of : Issue → List CodeAction → TextMap CachedAction
entries_of i [] = []
entries_of i (a ∷ rest) = keyed a.uuid (cached i a) ++ entries_of i rest

abbrev pub entries : List Issue → TextMap CachedAction
entries [] = []
entries (i ∷ is) = entries_of i i.code_actions ++ entries is

abbrev pub store_all : TextMap CachedAction → TextMap CachedAction → TextMap CachedAction
store_all [] m = m
store_all ((k, v) ∷ es) m = store_all es (store k v m)

store_all-append :
    (es fs m : TextMap CachedAction) → store_all (es ++ fs) m ≡ store_all fs (store_all es m)
store_all-append [] fs m = refl
store_all-append ((k, v) ∷ es) fs m = store_all-append es fs (store k v m)

stored_under :
    (o : Option Text) (c : CachedAction) (m : TextMap CachedAction)
    → elim o [ none ↦ m | some uuid ↦ store uuid c m ] ≡ store_all (keyed o c) m
stored_under none c m = refl
stored_under (some uuid) c m = refl

cache_actions-entries :
    (i : Issue) (rest : List CodeAction) (m : TextMap CachedAction)
    → cache_actions i rest m ≡ store_all (entries_of i rest) m
unfolding cache_actions cache_action
cache_actions-entries i [] m = refl
cache_actions-entries i (a ∷ rest) m =
    cache_actions-entries i rest (cache_action i a m)
    ∙ ap (store_all (entries_of i rest)) (stored_under a.uuid (cached i a) m)
    ∙ sym (store_all-append (keyed a.uuid (cached i a)) (entries_of i rest) m)

pub cache_issues-entries :
    (is : List Issue) (m : TextMap CachedAction) → cache_issues is m ≡ store_all (entries is) m
unfolding cache_issues
cache_issues-entries [] m = refl
cache_issues-entries (i ∷ is) m =
    cache_issues-entries is (cache_actions i i.code_actions m)
    ∙ ap (store_all (entries is)) (cache_actions-entries i i.code_actions m)
    ∙ sym (store_all-append (entries_of i i.code_actions) (entries is) m)

pub store_all-lookup_new :
    (k : Text) (es m : TextMap CachedAction)
    → lookup k es ≡ none
    → lookup k (store_all es m) ≡ lookup k m
unfolding lookup
store_all-lookup_new k [] m h = refl
store_all-lookup_new k ((j, v) ∷ es) m h =
    ground (arith, store_all-lookup_new k es (store j v m), lookup-store j k v m)

pub store_all-lookup :
    (k : Text) (v : CachedAction) (es m : TextMap CachedAction)
    → UniqueKeys es
    → lookup k es ≡ some v
    → lookup k (store_all es m) ≡ some v
unfolding lookup
store_all-lookup k v [] m u h = cc h
store_all-lookup k v ((j, w) ∷ es) m u h = ground (
  arith,
  store_all-lookup k v es (store j w m) u.1,
  store_all-lookup_new k es (store j w m),
  lookup-store j k w m,
  text_eq_iff j k,
)
