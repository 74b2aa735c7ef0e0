-- ===== src/Folder/Clear.antt =====
-- folder.go: the operations that take issues out of the cache.
use khulnasoft_lab_vulnmap_l.Prelude.Strings.{contains}
use khulnasoft_lab_vulnmap_l.Prelude.Maps.{TextMap, store, delete}
use khulnasoft_lab_vulnmap_l.Prelude.{
  Text, true, false, not, ◌==◌, List, [], ◌∷◌, ◌++◌, if◌then◌else◌, length,
}
use khulnasoft_lab_vulnmap_l.Externals.{Externals}
use khulnasoft_lab_vulnmap_l.Vulnmap.Product.{FilterableIssueType, filterable_eq}
use khulnasoft_lab_vulnmap_l.Vulnmap.Issue.{Issue, get_filterable_issue_type}
use khulnasoft_lab_vulnmap_l.Converter.{to_hovers_document}
use khulnasoft_lab_vulnmap_l.Folder.{
  Folder, Effect, unscanned, set_status, publish_diagnostics, publish_hovers, clear_inline_values,
}
use khulnasoft_lab_vulnmap_l.Folder.Publish.{send_diagnostics_for_file}

-- the inner loop of `ClearDiagnosticsByIssueType`
unfoldable pub without_type : FilterableIssueType → List Issue → List Issue
unfolding filterable_eq get_filterable_issue_type
without_type t [] = []
without_type t (i ∷ is) =
    let rest = without_type t is in
    if not (filterable_eq (get_filterable_issue_type i) t) then i ∷ rest else rest

-- Effects before those of a later call.
abbrev pub prepend : List Effect → Folder × List Effect → Folder × List Effect
prepend sent (f, later) = (f, sent ++ later)

module _ (x : Externals) where
  -- `ClearDiagnosticsFromFile`; the scanner provides inline values, so it is told to clear them.
  unfoldable pub clear_diagnostics_from_file : Text → Folder → Folder × List Effect
  unfolding delete set_status
  clear_diagnostics_from_file file f = (
    set_status unscanned (record f { cache = delete file f.cache }),
    clear_inline_values file ∷ publish_diagnostics (x.path_to_uri file) [] ∷ [],
  )

  -- The range over the cache as it stood, which deletes from the folder as it goes.
  unfoldable pub clear_matching : Text → TextMap (List Issue) → Folder → Folder × List Effect
  unfolding clear_diagnostics_from_file contains
  clear_matching removed [] f = (f, [])
  clear_matching removed ((key, issues) ∷ m) f = elim (contains key removed) [
    | true ↦
        prepend (clear_diagnostics_from_file key f).1
          (clear_matching removed m (clear_diagnostics_from_file key f).0)
    | false ↦ clear_matching removed m f
  ]

  -- `ClearDiagnosticsFromPathRecursively`
  unfoldable pub clear_diagnostics_from_path_recursively : Text → Folder → Folder × List Effect
  unfolding clear_matching
  clear_diagnostics_from_path_recursively removed f = clear_matching removed f.cache f

  unfoldable pub clear_each : TextMap (List Issue) → Folder → Folder × List Effect
  unfolding delete
  clear_each [] f = (f, [])
  clear_each ((key, issues) ∷ m) f =
      prepend (publish_diagnostics (x.path_to_uri key) [] ∷ [])
        (clear_each m (record f { cache = delete key f.cache }))

  -- `ClearDiagnostics`
  unfoldable pub clear_diagnostics : Folder → Folder × List Effect
  unfolding clear_each
  clear_diagnostics f = clear_each f.cache f

  unfoldable pub clear_type_in :
      FilterableIssueType → TextMap (List Issue) → Folder → Folder × List Effect
  unfolding without_type store
  clear_type_in t [] f = (f, [])
  clear_type_in t ((file, issues) ∷ m) f =
      let kept = without_type t issues in
      elim (length issues == length kept) [
        | true ↦ clear_type_in t m f
        | false ↦
            prepend
              (send_diagnostics_for_file x file kept
                ∷ publish_hovers (to_hovers_document file kept)
                ∷ [])
              (clear_type_in t m (record f { cache = store file kept f.cache }))
      ]

  -- `ClearDiagnosticsByIssueType`
  unfoldable pub clear_diagnostics_by_issue_type :
      FilterableIssueType → Folder → Folder × List Effect
  unfolding clear_type_in
  clear_diagnostics_by_issue_type t f = clear_type_in t f.cache f
