-- ===== src/Folder/Notices.antt =====
-- What `FilterAndPublishCachedDiagnostics` tells the client.
use khulnasoft_lab_vulnmap_l.Prelude.Maps.{TextMap}
use khulnasoft_lab_vulnmap_l.Prelude.{Text, ◌≡◌, refl, List, [], ◌∷◌, ◌++◌, map}
use mathlib.Core.List.{append-nil}
use khulnasoft_lab_vulnmap_l.Externals.{Externals}
use khulnasoft_lab_vulnmap_l.Vulnmap.Product.{
  Product, open_source, code, infrastructure_as_code, container, unknown, named,
}
use khulnasoft_lab_vulnmap_l.Vulnmap.Issue.{Issue}
use khulnasoft_lab_vulnmap_l.Config.{Config}
use khulnasoft_lab_vulnmap_l.Lsp.{Diagnostic, VulnmapScanParams}
use khulnasoft_lab_vulnmap_l.Converter.{to_diagnostics, to_hovers_document}
use khulnasoft_lab_vulnmap_l.Hover.Model.{DocumentHovers}
use khulnasoft_lab_vulnmap_l.Folder.{
  Folder, Effect, publish_diagnostics, publish_hovers, scan_message, clear_inline_values,
  scan_done_event, send_trusted_folders, reset_hovers,
}
use khulnasoft_lab_vulnmap_l.Folder.Publish.{
  filter_issues, filter_cached_diagnostics, send_hovers, send_diagnostics, send_scan_results,
  results_for, publish_all, filter_and_publish_cached_diagnostics,
}

-- The diagnostics and the hovers among the effects, in order.
unfoldable pub published : List Effect → List (Text × List Diagnostic)
published [] = []
published (publish_diagnostics uri ds ∷ es) = (uri, ds) ∷ published es
published (publish_hovers h ∷ es) = published es
published (scan_message m ∷ es) = published es
published (clear_inline_values p ∷ es) = published es
published (scan_done_event p n d t ∷ es) = published es
published (send_trusted_folders ps ∷ es) = published es
published (reset_hovers ∷ es) = published es

unfoldable pub hovered : List Effect → List DocumentHovers
hovered [] = []
hovered (publish_diagnostics uri ds ∷ es) = hovered es
hovered (publish_hovers h ∷ es) = h ∷ hovered es
hovered (scan_message m ∷ es) = hovered es
hovered (clear_inline_values p ∷ es) = hovered es
hovered (scan_done_event p n d t ∷ es) = hovered es
hovered (send_trusted_folders ps ∷ es) = hovered es
hovered (reset_hovers ∷ es) = hovered es

published-append :
    (es later : List Effect) → published (es ++ later) ≡ published es ++ published later
unfolding published
published-append [] later = refl
published-append (publish_diagnostics uri ds ∷ es) later = cc (published-append es later)
published-append (publish_hovers h ∷ es) later = published-append es later
published-append (scan_message m ∷ es) later = published-append es later
published-append (clear_inline_values p ∷ es) later = published-append es later
published-append (scan_done_event p n d t ∷ es) later = published-append es later
published-append (send_trusted_folders ps ∷ es) later = published-append es later
published-append (reset_hovers ∷ es) later = published-append es later

hovered-append : (es later : List Effect) → hovered (es ++ later) ≡ hovered es ++ hovered later
unfolding hovered
hovered-append [] later = refl
hovered-append (publish_diagnostics uri ds ∷ es) later = hovered-append es later
hovered-append (publish_hovers h ∷ es) later = cc (hovered-append es later)
hovered-append (scan_message m ∷ es) later = hovered-append es later
hovered-append (clear_inline_values p ∷ es) later = hovered-append es later
hovered-append (scan_done_event p n d t ∷ es) later = hovered-append es later
hovered-append (send_trusted_folders ps ∷ es) later = hovered-append es later
hovered-append (reset_hovers ∷ es) later = hovered-append es later

messages_only :
    (ms : List VulnmapScanParams)
    → (published (map scan_message ms) ≡ []) × (hovered (map scan_message ms) ≡ [])
unfolding published hovered
messages_only [] = (refl, refl)
messages_only (m ∷ ms) = messages_only ms

-- The diagnostics that a file should show, and its hovers.
abbrev pub shown_diagnostics :
    Externals → Config → TextMap (List Issue) → List (Text × List Diagnostic)
shown_diagnostics x c m =
    map (λ entry. (x.path_to_uri entry.0, to_diagnostics (filter_issues c entry.1))) m

abbrev pub shown_hovers : Config → TextMap (List Issue) → List DocumentHovers
shown_hovers c m = map (λ entry. to_hovers_document entry.0 (filter_issues c entry.1)) m

module _ (x : Externals) (c : Config) where
  diagnostics_part :
      (m : TextMap (List Issue))
      → (published (send_diagnostics x (filter_cached_diagnostics c m)) ≡ shown_diagnostics x c m)
        × (hovered (send_diagnostics x (filter_cached_diagnostics c m)) ≡ [])
  unfolding published hovered send_diagnostics filter_cached_diagnostics
  diagnostics_part [] = (refl, refl)
  diagnostics_part ((file, is) ∷ m) = (cc (diagnostics_part m).0, (diagnostics_part m).1)

  hovers_part :
      (m : TextMap (List Issue))
      → (published (send_hovers (filter_cached_diagnostics c m)) ≡ [])
        × (hovered (send_hovers (filter_cached_diagnostics c m)) ≡ shown_hovers c m)
  unfolding published hovered send_hovers filter_cached_diagnostics
  hovers_part [] = (refl, refl)
  hovers_part ((file, is) ∷ m) = ((hovers_part m).0, cc (hovers_part m).1)

  results_part :
      (p : Product) (path : Text) (m : TextMap (List Issue))
      → (published (send_scan_results x p path m) ≡ [])
        × (hovered (send_scan_results x p path m) ≡ [])
  unfolding send_scan_results results_for
  results_part open_source path m = messages_only _
  results_part code path m = messages_only _
  results_part infrastructure_as_code path m = messages_only _
  results_part container path m = messages_only _
  results_part unknown path m = messages_only _
  results_part (named s) path m = messages_only _

  -- Publishing sends, for every file of the cache and for no other, one list of diagnostics and one
  -- document of hovers, both made of the issues of that file that the filters let through: a file
  -- whose issues are all filtered out gets an empty list, which clears what the client shows.
  pub publish_every_file :
      (p : Product) (f : Folder)
      → (published (filter_and_publish_cached_diagnostics x c p f) ≡ shown_diagnostics x c f.cache)
        × (hovered (filter_and_publish_cached_diagnostics x c p f) ≡ shown_hovers c f.cache)
  unfolding filter_and_publish_cached_diagnostics publish_all
  publish_every_file p f = (
    simp (
      published-append,
      (diagnostics_part f.cache).0,
      (results_part p f.path (filter_cached_diagnostics c f.cache)).0,
      (hovers_part f.cache).0,
      append-nil,
    ),
    simp (
      hovered-append,
      (diagnostics_part f.cache).1,
      (results_part p f.path (filter_cached_diagnostics c f.cache)).1,
      (hovers_part f.cache).1,
    ),
  )
