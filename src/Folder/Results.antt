-- ===== src/Folder/Results.antt =====
-- folder.go, `processResults`: the cache update, the deduplication and the severity counts.
use khulnasoft_lab_vulnmap_l.Prelude.Maps.{TextMap, lookup, store}
use khulnasoft_lab_vulnmap_l.Prelude.{
  suc, Text, codes, text_eq, Bool, false, ◌||◌, List, [], ◌∷◌, ◌++◌, Option, none, some,
  if◌then◌else◌,
}
use khulnasoft_lab_vulnmap_l.Vulnmap.Product.{Product, unknown, named, product_eq}
use khulnasoft_lab_vulnmap_l.Vulnmap.Issue.{
  Issue, Severity, critical, high, medium, low, beyond_low,
}
use khulnasoft_lab_vulnmap_l.Folder.{SeverityCount, ScanData, Effect, scan_done_event}

-- `getUniqueIssueID`
unfoldable pub unique_issue_id : Issue → Text
unique_issue_id i = i.id ++ (codes "|" ++ i.affected_file_path)

unfoldable pub issue_ids : List Issue → List Text
unfolding unique_issue_id
issue_ids [] = []
issue_ids (i ∷ is) = unique_issue_id i ∷ issue_ids is

-- `createDedupMap`: the keys of the map, all with the value true.
unfoldable pub create_dedup_map : TextMap (List Issue) → List Text
unfolding issue_ids
create_dedup_map [] = []
create_dedup_map ((key, issues) ∷ m) = issue_ids issues ++ create_dedup_map m

-- `dedupMap[id]`
unfoldable pub member : Text → List Text → Bool
unfolding text_eq
member a [] = false
member a (b ∷ bs) = text_eq b a || member a bs

-- `map[Product]SeverityCount`
abbrev pub Counts : Type 0
Counts = List (Product × SeverityCount)

abbrev pub zero_count : SeverityCount
zero_count = record { critical_count = 0; high_count = 0; medium_count = 0; low_count = 0 }

unfoldable pub count_of : Product → Counts → Option SeverityCount
unfolding product_eq
count_of p [] = none
count_of p ((q, n) ∷ m) = if product_eq q p then some n else count_of p m

unfoldable pub set_count : Product → SeverityCount → Counts → Counts
unfolding product_eq
set_count p n [] = (p, n) ∷ []
set_count p n ((q, k) ∷ m) = if product_eq q p then (p, n) ∷ m else (q, k) ∷ set_count p n m

-- An empty product is counted under "unknown".
known_product : Product → Product
known_product unknown = named (codes "unknown")
known_product p = p

initialize_at : Option SeverityCount → Product → Counts → Counts
unfolding set_count
initialize_at none p m = set_count p zero_count m
initialize_at (some n) p m = m

-- `initializeSeverityCountForProduct`; a nil map and an empty one are the same here.
unfoldable pub initialize_severity_count_for_product : Product → Counts → Counts
unfolding initialize_at known_product count_of
initialize_severity_count_for_product p m =
    let q = known_product p in initialize_at (count_of q m) q m

or_zero : Option SeverityCount → SeverityCount
or_zero none = zero_count
or_zero (some n) = n

-- the `switch` of `incrementSeverityCount`
bump : Severity → SeverityCount → SeverityCount
bump critical n = record n { critical_count = suc n.critical_count }
bump high n = record n { high_count = suc n.high_count }
bump medium n = record n { medium_count = suc n.medium_count }
bump low n = record n { low_count = suc n.low_count }
bump (beyond_low k) n = n

-- `incrementSeverityCount`
unfoldable pub increment_severity_count : Issue → Counts → Counts
unfolding initialize_severity_count_for_product or_zero bump
increment_severity_count i m =
    let p = known_product i.product in
    let m' = initialize_severity_count_for_product p m in
    set_count p (bump i.severity (or_zero (count_of p m'))) m'

abbrev pub or_empty : Option (List Issue) → List Issue
or_empty none = []
or_empty (some is) = is

-- The body of the loop of `processResults`, over the cache and the counts.
unfoldable pub process_issue :
    List Text → Issue → TextMap (List Issue) × Counts → TextMap (List Issue) × Counts
process_issue dedup i (cache, counts) =
    let cached = or_empty (lookup i.affected_file_path cache) in
    if member (unique_issue_id i) dedup
    then (store i.affected_file_path cached cache, counts)
    else (store i.affected_file_path (cached ++ (i ∷ [])) cache, increment_severity_count i counts)

unfoldable pub process_issues :
    List Text → List Issue → TextMap (List Issue) × Counts → TextMap (List Issue) × Counts
unfolding process_issue
process_issues dedup [] s = s
process_issues dedup (i ∷ is) s = process_issues dedup is (process_issue dedup i s)

-- The cache and the counts after the loop.
unfoldable pub updated : List Issue → TextMap (List Issue) → TextMap (List Issue) × Counts
unfolding process_issues create_dedup_map
updated issues cache = process_issues (create_dedup_map cache) issues (cache, [])

event_of : ScanData → Counts → Product → List Effect
unfolding or_zero count_of
event_of d m unknown = []
event_of d m p = scan_done_event p (or_zero (count_of p m)) d.duration_ms d.timestamp_finished ∷ []

-- `sendAnalytics` for data without an error, which is how `processResults` calls it.
unfoldable pub send_analytics : ScanData → Counts → List Effect
unfolding event_of initialize_severity_count_for_product
send_analytics d m = event_of d (initialize_severity_count_for_product d.product m) d.product
