-- ===== src/Settings/Apply.antt =====
-- application/server/configuration.go: `writeSettings`, `UpdateSettings`, `InitializeSettings` and the
-- handler of `workspace/didChangeConfiguration`.
use khulnasoft_lab_vulnmap_l.Prelude.{
  Text, text_eq, Bool, true, false, not, ◌&&◌, List, [], ◌∷◌, Option, none, some, if◌then◌else◌,
}
use khulnasoft_lab_vulnmap_l.Externals.{Externals}
use khulnasoft_lab_vulnmap_l.Vulnmap.Product.{
  FilterableIssueType, open_source_type, code_quality_type, code_security_type,
  infrastructure_as_code_type,
}
use khulnasoft_lab_vulnmap_l.Config.{displayable_issue_types, filter_is_empty, bool_eq}
use khulnasoft_lab_vulnmap_l.Workspace.{clear_issues_by_type}
use khulnasoft_lab_vulnmap_l.Settings.{
  Settings, Server, ServerEffect, scan_mode_selected, SettingsExternals, Action, ◌>>◌,
}
use khulnasoft_lab_vulnmap_l.Settings.Token.{skip, configure, update_credentials}
use khulnasoft_lab_vulnmap_l.Settings.Update.{
  update_product_enablement, update_code_security, update_code_quality, update_manage_binaries,
  update_telemetry, update_trusted_folders, update_auto_authentication, update_auto_scan,
  update_learn_code_actions, update_runtime_info, update_authentication_method, update_environment,
  update_path_from_settings, update_device_information, update_organization, update_cli_config,
  update_severity_filter, update_api_endpoints, on_folders,
}

unfoldable pub all_empty : List Text → Bool
unfolding text_eq
all_empty [] = true
all_empty (t ∷ ts) = text_eq t [] && all_empty ts

-- `reflect.DeepEqual(settings, lsp.Settings{})`
unfoldable pub is_empty : Settings → Bool
unfolding all_empty filter_is_empty
is_empty s =
    all_empty (
      s.activate_open_source ∷ s.activate_code ∷ s.activate_iac ∷ s.insecure ∷ s.endpoint
      ∷ s.additional_params ∷ s.additional_env ∷ s.path ∷ s.send_error_reports ∷ s.organization
      ∷ s.enable_telemetry ∷ s.manage_binaries_automatically ∷ s.cli_path ∷ s.token
      ∷ s.integration_name ∷ s.integration_version ∷ s.automatic_authentication ∷ s.device_id
      ∷ s.enable_trusted_folders_feature ∷ s.activate_code_security ∷ s.activate_code_quality
      ∷ s.os_platform ∷ s.os_arch ∷ s.runtime_version ∷ s.runtime_name ∷ s.scanning_mode
      ∷ s.authentication_method ∷ s.code_api ∷ s.enable_learn_code_actions ∷ [])
    && filter_is_empty s.filter_severity
    && not s.enable_analytics
    && elim s.trusted_folders [ none ↦ true | some paths ↦ false ]

module _ (x : Externals) (y : SettingsExternals) where
  -- `updateToken`: the client has the token, so it is not told.
  abbrev pub update_token : Text → Action
  update_token token = update_credentials y token false

  -- The calls of `writeSettings`, in order.
  unfoldable pub write_all : Settings → Bool → Action
  write_all s initialize = do
    update_severity_filter x s.filter_severity
    update_product_enablement s
    update_cli_config y s
    update_authentication_method s.authentication_method
    update_api_endpoints x y s initialize
    update_token s.token
    update_environment s
    update_path_from_settings s
    update_telemetry s
    update_organization y s
    update_manage_binaries s
    update_trusted_folders s
    update_code_security s
    update_code_quality s
    update_runtime_info s
    update_auto_scan s
    update_learn_code_actions s
    if initialize
        then configure (λ c. record c { analytics_enabled = s.enable_analytics })
        else skip

  -- `writeSettings`
  unfoldable pub write_settings : Settings → Bool → Action
  write_settings s initialize = if is_empty s then skip else write_all s initialize

  -- `InitializeSettings`
  unfoldable pub initialize_settings : Settings → Action
  initialize_settings s = do
    write_settings s true
    update_auto_authentication s
    update_device_information y s
    update_auto_scan s

module _ (x : Externals) where
  -- One round of the loop over the issue types that were displayed.
  unfoldable pub clear_if_removed : (FilterableIssueType → Bool) → FilterableIssueType → Action
  clear_if_removed was_supported t s =
      if was_supported t && not (displayable_issue_types s.config.shown t)
      then (
        record s { workspace = (clear_issues_by_type x t s.workspace).0 },
        on_folders x (clear_issues_by_type x t s.workspace).1,
      )
      else (s, [])

  -- The loop over `previouslyEnabledProducts`, with the keys of that map in any order.
  unfoldable pub clear_removed : (FilterableIssueType → Bool) → List FilterableIssueType → Action
  clear_removed was_supported [] = skip
  clear_removed was_supported (t ∷ ts) =
      clear_if_removed was_supported t >> clear_removed was_supported ts

abbrev pub displayable_keys : List FilterableIssueType
displayable_keys =
    open_source_type ∷ code_security_type ∷ code_quality_type ∷ infrastructure_as_code_type ∷ []

unfoldable pub report_scan_mode : Settings → Bool → Action
unfolding bool_eq
report_scan_mode settings previous s =
    if bool_eq s.config.shown.automatic_scanning previous
    then (s, [])
    else (s, scan_mode_selected settings.scanning_mode ∷ [])

module _ (x : Externals) (y : SettingsExternals) where
  -- `UpdateSettings`
  unfoldable pub update_settings : Settings → Action
  update_settings settings s =
      (do
        write_settings x y settings false
        clear_removed x (displayable_issue_types s.config.shown) displayable_keys
        report_scan_mode settings s.config.shown.automatic_scanning)
        s

  -- `workspaceDidChangeConfiguration`. The settings that are fetched: `none` is an error of the
  -- callback or of the decoding. The answer is the Boolean of the handler, `none` its error.
  unfoldable pub fetched : Option Settings → Server → (Server × List ServerEffect) × Option Bool
  fetched none s = ((s, []), none)
  fetched (some settings) s =
      if is_empty settings then ((s, []), some false) else (update_settings settings s, some true)

  unfoldable pub did_change_configuration :
      Settings → Bool → Option Settings → Server → (Server × List ServerEffect) × Option Bool
  did_change_configuration pushed can_pull pulled s =
      if not (is_empty pushed)
      then (update_settings pushed s, some true)
      else if not can_pull
      then ((s, []), some false)
      else fetched pulled s
