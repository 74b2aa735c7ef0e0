-- ===== src/Settings/Hidden.antt =====
-- application/server/configuration.go: `UpdateSettings` leaves no issue of a type that the settings
-- hide.
use mathlib.Core.Path.{subst}
use khulnasoft_lab_vulnmap_l.Prelude.{
  Bool, true, false, ◌≡◌, refl, sym, ap, inl, inr, List, [], ◌∷◌, arith, Bool-cases, All,
}
use khulnasoft_lab_vulnmap_l.Prelude.Maps.{TextMap}
use khulnasoft_lab_vulnmap_l.Externals.{Externals}
use khulnasoft_lab_vulnmap_l.Vulnmap.Product.{
  FilterableIssueType, open_source_type, code_quality_type, code_security_type,
  infrastructure_as_code_type, container_type, none_type,
}
use khulnasoft_lab_vulnmap_l.Vulnmap.Issue.{Issue, get_filterable_issue_type}
use khulnasoft_lab_vulnmap_l.Config.{displayable_issue_types}
use khulnasoft_lab_vulnmap_l.Folder.Invariant.{IsFiled}
use khulnasoft_lab_vulnmap_l.Settings.{Settings, ServerConfig, Server, SettingsExternals}
use khulnasoft_lab_vulnmap_l.Settings.Apply.{
  is_empty, write_all, write_settings, clear_removed, displayable_keys, report_scan_mode,
  update_settings,
}
use khulnasoft_lab_vulnmap_l.Settings.Keeps.{View, view}
use khulnasoft_lab_vulnmap_l.Settings.Displayed.{write_all-view}
use khulnasoft_lab_vulnmap_l.Settings.Removed.{
  Caches, Cached, Holds, Dropped, clear_issues-Holds, clear_removed-Holds, clear_removed-config,
  Holds-map,
}

-- The type of an issue is still displayed if it was.
abbrev pub StillDisplayed : ServerConfig → ServerConfig → Issue → Type 0
StillDisplayed before after i =
    displayable_issue_types before.shown (get_filterable_issue_type i) ≡ true
    → displayable_issue_types after.shown (get_filterable_issue_type i) ≡ true

module _ (before after : ServerConfig) where
  abbrev Gone : Issue → Type 0
  Gone i =
      Dropped (displayable_issue_types before.shown) (displayable_issue_types after.shown)
        displayable_keys i

  -- An issue of any type: it was displayed, and it is not.
  Gone-absurd :
      (i : Issue) (t : FilterableIssueType)
      → Gone i
      → get_filterable_issue_type i ≡ t
      → displayable_issue_types before.shown t ≡ true
      → displayable_issue_types after.shown t ≡ false
      → ⊥
  unfolding displayable_issue_types
  Gone-absurd i open_source_type d e was now = d.0 was now e
  Gone-absurd i code_security_type d e was now = d.1.0 was now e
  Gone-absurd i code_quality_type d e was now = d.1.1.0 was now e
  Gone-absurd i infrastructure_as_code_type d e was now = d.1.1.1.0 was now e
  Gone-absurd i container_type d e was now = cc was
  Gone-absurd i none_type d e was now = cc was

  Gone-StillDisplayed : (i : Issue) → Gone i → StillDisplayed before after i
  Gone-StillDisplayed i d was =
      elim (Bool-cases (displayable_issue_types after.shown (get_filterable_issue_type i))) [
        | inl shown ↦ shown
        | inr hidden ↦ absurd (Gone-absurd i (get_filterable_issue_type i) d refl was hidden)
      ]

no_issue : (is : List Issue) → All (λ i. Unit {0}) is
no_issue [] = tt
no_issue (i ∷ is) = (tt, no_issue is)

no_claim : (m : TextMap (List Issue)) → Cached (λ i. Unit {0}) m
no_claim m file is e = no_issue is

module _ (x : Externals) (y : SettingsExternals) (t : Settings) where
  write_all-Holds :
      (P : Issue → Type 0) (s : Server)
      → Holds P s.workspace
      → Holds P (write_all x y t false s).0.workspace
  unfolding view
  write_all-Holds P s h = elim (write_all-view x y t false s) [
    | inl e ↦ subst (Holds P) (sym (ap (λ (v : View). v.workspace) e)) h
    | inr e ↦
        subst (Holds P) (sym (ap (λ (v : View). v.workspace) e))
          (clear_issues-Holds x P s.workspace h)
  ]

  write_settings-Holds :
      (P : Issue → Type 0) (s : Server)
      → Holds P s.workspace
      → Holds P (write_settings x y t false s).0.workspace
  unfolding write_settings
  write_settings-Holds P s h = elim (Bool-cases (is_empty t)) [
    | inl e ↦ rw e h
    | inr e ↦ rw e (write_all-Holds P s h)
  ]

  -- The state at the end of the loop that clears what was hidden.
  abbrev cleared : Server → Server
  cleared s =
      (clear_removed x (displayable_issue_types s.config.shown) displayable_keys
        (write_settings x y t false s).0).0

  report_scan_mode-state : (b : Bool) (s : Server) → (report_scan_mode t b s).0 ≡ s
  unfolding report_scan_mode
  report_scan_mode-state b s = ground arith

  update_settings-state : (s : Server) → (update_settings x y t s).0 ≡ cleared s
  unfolding update_settings
  update_settings-state s = report_scan_mode-state s.config.shown.automatic_scanning (cleared s)

  -- Whatever settings arrive, once they are applied every folder's cache is filed if it was before,
  -- and every issue that it holds is of a type that is displayed after the update if that type was
  -- displayed before it: a product that the settings switch off leaves no issue in any folder.
  pub update_settings-Hidden :
      (s : Server)
      → Caches IsFiled s.workspace
      → Holds
          (StillDisplayed s.config (update_settings x y t s).0.config)
          (update_settings x y t s).0.workspace
  update_settings-Hidden s filed =
      subst (λ s'. Holds (StillDisplayed s.config s'.config) s'.workspace)
        (sym (update_settings-state s))
        (subst (λ c. Holds (StillDisplayed s.config c) (cleared s).workspace)
          (sym (clear_removed-config x was displayable_keys written_server))
          (Holds-map (λ i. Unit × Gone s.config written_server.config i)
            (StillDisplayed s.config written_server.config) (cleared s).workspace
            (λ i p. Gone-StillDisplayed s.config written_server.config i p.1)
            (clear_removed-Holds x was displayable_keys (λ i. Unit) written_server
              (write_settings-Holds (λ i. Unit) s (λ k f e. (filed k f e, no_claim f.cache))))))
    where
      was : FilterableIssueType → Bool
      was = displayable_issue_types s.config.shown

      written_server : Server
      written_server = (write_settings x y t false s).0
