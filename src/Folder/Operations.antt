-- ===== src/Folder/Operations.antt =====
-- Everything that changes a folder, as one step function, and the invariant over its runs.
use khulnasoft_lab_vulnmap_l.Prelude.Maps.{TextMap, lookup, UniqueKeys}
use khulnasoft_lab_vulnmap_l.Prelude.{
  Text, text_eq_refl, text_eq_iff, ◌≡◌, List, [], ◌∷◌, some, arith, All,
}
use khulnasoft_lab_vulnmap_l.Externals.{Externals}
use khulnasoft_lab_vulnmap_l.Vulnmap.Product.{FilterableIssueType}
use khulnasoft_lab_vulnmap_l.Vulnmap.Issue.{Issue}
use khulnasoft_lab_vulnmap_l.Config.{Config}
use khulnasoft_lab_vulnmap_l.Folder.{Folder, FolderStatus, Effect, ScanData, set_status, new_folder}
use khulnasoft_lab_vulnmap_l.Folder.Scan.{process_results, scan, scan_folder}
use khulnasoft_lab_vulnmap_l.Folder.Clear.{
  clear_diagnostics_from_file, clear_diagnostics_from_path_recursively, clear_diagnostics,
  clear_diagnostics_by_issue_type,
}
use khulnasoft_lab_vulnmap_l.Folder.Invariant.{
  IsFiled, IsFiledUnder, IsFiled-delete, process_results-IsFiled, scan-IsFiled,
  clear_matching-IsFiled, clear_each-IsFiled, clear_type_in-IsFiled,
}

-- The methods of `Folder` that change it. A scan carries what the scanner delivers.
pub data Operation : Type 0 where
  deliver : ScanData → Operation
  scan_file : Text → List ScanData → Operation
  scan_whole : List ScanData → Operation
  clear_file : Text → Operation
  clear_path : Text → Operation
  clear_all : Operation
  clear_type : FilterableIssueType → Operation
  put_status : FolderStatus → Operation

-- Each operation runs under the configuration of its moment.
unfoldable pub apply : Externals → Config → Operation → Folder → Folder × List Effect
apply x c (deliver d) f = process_results x c d f
apply x c (scan_file path ds) f = scan x c path ds f
apply x c (scan_whole ds) f = scan_folder x c ds f
apply x c (clear_file file) f = clear_diagnostics_from_file x file f
apply x c (clear_path removed) f = clear_diagnostics_from_path_recursively x removed f
apply x c clear_all f = clear_diagnostics x f
apply x c (clear_type t) f = clear_diagnostics_by_issue_type x t f
apply x c (put_status s) f = (set_status s f, [])

unfoldable pub run : Externals → List (Config × Operation) → Folder → Folder
unfolding apply
run x [] f = f
run x ((c, op) ∷ ops) f = run x ops (apply x c op f).0

entries-IsFiledUnder :
    (m : TextMap (List Issue))
    → UniqueKeys m
    → ((k : Text) (is : List Issue) → lookup k m ≡ some is → IsFiledUnder k is)
    → All (λ entry. IsFiledUnder entry.0 entry.1) m
unfolding lookup
entries-IsFiledUnder [] u h = tt
entries-IsFiledUnder ((k, v) ∷ m) u h = (
  h k v (rw (text_eq_refl k)),
  entries-IsFiledUnder m u.1 (λ j is e. h j is (ground (arith, u.0, text_eq_iff k j))),
)

pub clear_by_type-IsFiled :
    (x : Externals) (t : FilterableIssueType) (f : Folder)
    → IsFiled f.cache
    → IsFiled (clear_diagnostics_by_issue_type x t f).0.cache
unfolding clear_diagnostics_by_issue_type
clear_by_type-IsFiled x t f h =
    clear_type_in-IsFiled x t f.cache f (entries-IsFiledUnder f.cache h.unique h.at_key) h

pub apply-IsFiled :
    (x : Externals) (c : Config) (op : Operation) (f : Folder)
    → IsFiled f.cache
    → IsFiled (apply x c op f).0.cache
unfolding apply
apply-IsFiled x c (deliver d) f h = process_results-IsFiled x c d f h
apply-IsFiled x c (scan_file path ds) f h = scan-IsFiled x c path ds f h
apply-IsFiled x c (scan_whole ds) f h = unfold scan_folder in scan-IsFiled x c f.path ds f h
apply-IsFiled x c (clear_file file) f h =
    unfold clear_diagnostics_from_file in IsFiled-delete f.cache h file
apply-IsFiled x c (clear_path removed) f h =
    unfold clear_diagnostics_from_path_recursively in clear_matching-IsFiled x removed f.cache f h
apply-IsFiled x c clear_all f h = unfold clear_diagnostics in clear_each-IsFiled x f.cache f h
apply-IsFiled x c (clear_type t) f h = clear_by_type-IsFiled x t f h
apply-IsFiled x c (put_status s) f h = unfold set_status in h

run-IsFiled :
    (x : Externals) (ops : List (Config × Operation)) (f : Folder)
    → IsFiled f.cache
    → IsFiled (run x ops f).cache
unfolding run
run-IsFiled x [] f h = h
run-IsFiled x ((c, op) ∷ ops) f h = run-IsFiled x ops (apply x c op f).0 (apply-IsFiled x c op f h)

new_folder-IsFiled : (path name : Text) → IsFiled (new_folder path name).cache
unfolding new_folder lookup
new_folder-IsFiled path name = record { unique = tt; at_key = λ k is e. cc }

-- However a new folder is scanned, given results and cleared, under whatever configurations: its
-- cache holds each file once, and every issue that it keeps for a file is an issue of that file.
pub reachable-IsFiled :
    (x : Externals) (path name : Text) (ops : List (Config × Operation))
    → IsFiled (run x ops (new_folder path name)).cache
reachable-IsFiled x path name ops =
    run-IsFiled x ops (new_folder path name) (new_folder-IsFiled path name)
