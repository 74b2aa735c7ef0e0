-- ===== src/Settings/Keeps.antt =====
-- Which updates leave alone the enabled products and the workspace.
use khulnasoft_lab_vulnmap_l.Prelude.{
  Text, Bool, true, ◌≡◌, refl, ◌⊎◌, inl, inr, Bool-cases, [], ◌∷◌, arith, not, ◌&&◌, codes,
}
use khulnasoft_lab_vulnmap_l.Externals.{Externals}
use khulnasoft_lab_vulnmap_l.Config.{
  Config, SeverityFilter, set_severity_filter, set_trusted_folders,
}
use khulnasoft_lab_vulnmap_l.Workspace.{Workspace, clear_issues}
use khulnasoft_lab_vulnmap_l.Settings.{Settings, Server, ServerConfig, SettingsExternals, Action}
use khulnasoft_lab_vulnmap_l.Settings.Parse.{trim}
use khulnasoft_lab_vulnmap_l.Settings.Token.{set_token, update_credentials, logout}
use khulnasoft_lab_vulnmap_l.Settings.Update.{
  update_manage_binaries, set_telemetry_enabled, update_telemetry, update_trusted_folders,
  update_auto_scan, update_learn_code_actions, update_runtime_info, choose_provider,
  update_authentication_method, update_environment, update_path_from_settings, update_organization,
  update_cli_config, clear_workspace, update_severity_filter, code_api_from_endpoint, or_default,
  set_code_api, update_endpoints, overwrite_method, overwrite_code_api, update_api_endpoints,
}

-- The switches that decide which issue types are displayed.
pub record Products : Type 0 where
  pub oss : Bool
  pub code : Bool
  pub quality : Bool
  pub security : Bool
  pub iac : Bool

abbrev pub products_of : Config → Products
products_of c = record {
  oss = c.oss_enabled;
  code = c.code_enabled;
  quality = c.code_quality_enabled;
  security = c.code_security_enabled;
  iac = c.iac_enabled;
}

-- What the folders show: the products, and the workspace itself.
pub record View : Type 0 where
  pub products : Products
  pub workspace : Workspace

unfoldable pub view : Server → View
view s = record { products = products_of s.config.shown; workspace = s.workspace }

abbrev pub KeepsView : Action → Type 0
KeepsView m = (s : Server) → view (m s).0 ≡ view s

pub update_manage_binaries-KeepsView : (t : Settings) → KeepsView (update_manage_binaries t)
unfolding view update_manage_binaries
update_manage_binaries-KeepsView t s = ground arith

pub update_telemetry-KeepsView : (t : Settings) → KeepsView (update_telemetry t)
unfolding view update_telemetry set_telemetry_enabled
update_telemetry-KeepsView t s = ground arith

pub update_trusted_folders-KeepsView : (t : Settings) → KeepsView (update_trusted_folders t)
unfolding view update_trusted_folders set_trusted_folders
update_trusted_folders-KeepsView t s = ground arith

pub update_auto_scan-KeepsView : (t : Settings) → KeepsView (update_auto_scan t)
unfolding view update_auto_scan
update_auto_scan-KeepsView t s = refl

pub update_learn_code_actions-KeepsView : (t : Settings) → KeepsView (update_learn_code_actions t)
unfolding view update_learn_code_actions
update_learn_code_actions-KeepsView t s = refl

pub update_runtime_info-KeepsView : (t : Settings) → KeepsView (update_runtime_info t)
unfolding view update_runtime_info
update_runtime_info-KeepsView t s = refl

pub update_environment-KeepsView : (t : Settings) → KeepsView (update_environment t)
unfolding view update_environment
update_environment-KeepsView t s = refl

pub update_path_from_settings-KeepsView : (t : Settings) → KeepsView (update_path_from_settings t)
unfolding view update_path_from_settings
update_path_from_settings-KeepsView t s = refl

pub update_authentication_method-KeepsView :
    (method : Text) → KeepsView (update_authentication_method method)
unfolding view update_authentication_method choose_provider
update_authentication_method-KeepsView [] s = refl
update_authentication_method-KeepsView (c ∷ method) s = ground arith

module _ (x : SettingsExternals) where
  pub set_token-KeepsView : (token : Text) → KeepsView (set_token x token)
  unfolding view set_token
  set_token-KeepsView token s = ground arith

  pub update_credentials-KeepsView :
      (token : Text) (notify : Bool) → KeepsView (update_credentials x token notify)
  unfolding view update_credentials
  update_credentials-KeepsView token notify s = ground (arith, set_token-KeepsView token s)

  pub logout-KeepsView : KeepsView (logout x)
  unfolding view logout
  logout-KeepsView s = ground (arith, update_credentials-KeepsView [] true s)

  pub update_organization-KeepsView : (t : Settings) → KeepsView (update_organization x t)
  unfolding view update_organization
  update_organization-KeepsView t s = ground arith

  pub update_cli_config-KeepsView : (t : Settings) → KeepsView (update_cli_config x t)
  unfolding view update_cli_config
  update_cli_config-KeepsView t s = refl

  set_code_api-shown :
      (url : Text) (c : ServerConfig)
      → products_of (set_code_api x url c).shown ≡ products_of c.shown
  unfolding view set_code_api
  set_code_api-shown [] c = refl
  set_code_api-shown (d ∷ url) c = refl

  update_endpoints-view : (url : Text) (s : Server) → view (update_endpoints x url s).0 ≡ view s
  unfolding view update_endpoints
  update_endpoints-view url s = ground (
    arith,
    set_code_api-shown (code_api_from_endpoint x (or_default x url) s.environment)
        (record s.config { vulnmap_api_url = or_default x url }),
  )

  overwrite_method-KeepsView : KeepsView (overwrite_method x)
  unfolding view overwrite_method
  overwrite_method-KeepsView s =
      ground (arith, update_authentication_method-KeepsView (codes "oauth") s)

  overwrite_code_api-KeepsView : (url : Text) → KeepsView (overwrite_code_api x url)
  unfolding view overwrite_code_api
  overwrite_code_api-KeepsView [] s = refl
  overwrite_code_api-KeepsView (d ∷ url) s = ground (arith, set_code_api-shown (d ∷ url) s.config)

module _ (x : Externals) (y : SettingsExternals) where
  clear_workspace-view :
      (s : Server)
      → view (clear_workspace x s).0
        ≡ record (view s) { workspace = (clear_issues x (view s).workspace).0 }
  unfolding view clear_workspace
  clear_workspace-view s = refl

  pub update_severity_filter-KeepsView :
      (f : SeverityFilter) → KeepsView (update_severity_filter x f)
  unfolding view update_severity_filter set_severity_filter
  update_severity_filter-KeepsView f s = ground arith

  ruleset keeps_endpoints =
      (update_endpoints-view, overwrite_method-KeepsView, overwrite_code_api-KeepsView)

  -- The workspace is left alone, or all its issues are cleared.
  pub update_api_endpoints-view :
      (t : Settings) (initialization : Bool) (s : Server)
      → (view (update_api_endpoints x y t initialization s).0 ≡ view s)
        ⊎ (view (update_api_endpoints x y t initialization s).0
            ≡ record (view s) { workspace = (clear_issues x (view s).workspace).0 })
  unfolding update_api_endpoints
  update_api_endpoints-view t initialization s =
      elim (Bool-cases ((update_endpoints y (trim b' ' t.endpoint) s).1 && not initialization)) [
        | inl changed ↦
            inr (rw changed (simp (keeps_endpoints, clear_workspace-view, logout-KeepsView y)))
        | inr same ↦ inl (rw same (simp keeps_endpoints))
      ]
