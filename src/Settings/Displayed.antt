-- ===== src/Settings/Displayed.antt =====
-- Which issue types are displayed once the settings are written.
use khulnasoft_lab_vulnmap_l.Prelude.{
  Text, Bool, false, ◌≡◌, refl, ap, ◌∙◌, ◌⊎◌, ◌||◌, none, some, arith, inl, inr, Bool-cases,
  if◌then◌else◌,
}
use khulnasoft_lab_vulnmap_l.Externals.{Externals}
use khulnasoft_lab_vulnmap_l.Vulnmap.Product.{
  FilterableIssueType, open_source_type, code_quality_type, code_security_type,
  infrastructure_as_code_type,
}
use khulnasoft_lab_vulnmap_l.Workspace.{clear_issues}
use khulnasoft_lab_vulnmap_l.Settings.{Settings, Server, SettingsExternals, Action, ◌>>◌}
use khulnasoft_lab_vulnmap_l.Settings.Parse.{parse_bool}
use khulnasoft_lab_vulnmap_l.Settings.Token.{configure, skip}
use khulnasoft_lab_vulnmap_l.Settings.Update.{
  update_product_enablement, update_code_security, update_code_quality, update_manage_binaries,
  update_telemetry, update_trusted_folders, update_auto_scan, update_learn_code_actions,
  update_runtime_info, update_authentication_method, update_environment, update_path_from_settings,
  update_organization, update_cli_config, update_severity_filter, update_api_endpoints,
}
use khulnasoft_lab_vulnmap_l.Settings.Apply.{update_token, write_all}
use khulnasoft_lab_vulnmap_l.Settings.Keeps.{
  Products, view, KeepsView, update_manage_binaries-KeepsView, update_telemetry-KeepsView,
  update_trusted_folders-KeepsView, update_auto_scan-KeepsView, update_learn_code_actions-KeepsView,
  update_runtime_info-KeepsView, update_environment-KeepsView, update_path_from_settings-KeepsView,
  update_authentication_method-KeepsView, update_credentials-KeepsView,
  update_organization-KeepsView, update_cli_config-KeepsView, update_severity_filter-KeepsView,
  update_api_endpoints-view,
}

-- What a text switches to, where the old value stays if the text is no Boolean.
abbrev pub kept : Text → Bool → Bool
kept t old = elim (parse_bool t) [ none ↦ old | some b ↦ b ]

-- The switches after the settings.
abbrev pub written : Settings → Products → Products
written t p = record {
  oss = kept t.activate_open_source p.oss;
  code = kept t.activate_code p.code;
  quality = kept t.activate_code_quality (kept t.activate_code p.quality);
  security = kept t.activate_code_security (kept t.activate_code p.security);
  iac = kept t.activate_iac p.iac;
}

abbrev pub shows : Products → FilterableIssueType → Bool
shows p open_source_type = p.oss
shows p code_security_type = p.code || p.security
shows p code_quality_type = p.code || p.quality
shows p infrastructure_as_code_type = p.iac
shows p _ = false

enablement :
    (t : Settings) (s : Server)
    → view (update_product_enablement t s).0 ≡ record (view s) {
      products = record {
        oss = kept t.activate_open_source (view s).products.oss;
        code = kept t.activate_code (view s).products.code;
        quality = kept t.activate_code (view s).products.quality;
        security = kept t.activate_code (view s).products.security;
        iac = kept t.activate_iac (view s).products.iac;
      };
    }
unfolding view update_product_enablement
enablement t s = ground arith

security_lem :
    (t : Settings) (s : Server)
    → view (update_code_security t s).0 ≡ record (view s) {
      products = record (view s).products {
        security = kept t.activate_code_security (view s).products.security;
      };
    }
unfolding view update_code_security
security_lem t s = ground arith

quality_lem :
    (t : Settings) (s : Server)
    → view (update_code_quality t s).0 ≡ record (view s) {
      products = record (view s).products {
        quality = kept t.activate_code_quality (view s).products.quality;
      };
    }
unfolding view update_code_quality
quality_lem t s = ground arith

analytics-KeepsView : (b : Bool) → KeepsView (configure (λ c. record c { analytics_enabled = b }))
unfolding view
analytics-KeepsView b s = refl

ruleset keeps_last =
    (update_runtime_info-KeepsView, update_auto_scan-KeepsView, update_learn_code_actions-KeepsView)

module _ (x : Externals) (y : SettingsExternals) (t : Settings) (initialize : Bool) where
  -- The updates between the general switches and the endpoints.
  before_endpoints : Action
  before_endpoints = do update_cli_config y t; update_authentication_method t.authentication_method

  -- The updates between the endpoints and the two specific switches.
  after_endpoints : Action
  after_endpoints = do
    update_token x y t.token
    update_environment t
    update_path_from_settings t
    update_telemetry t
    update_organization y t
    update_manage_binaries t
    update_trusted_folders t

  -- The updates after the two specific switches.
  rest : Action
  rest = do
    update_runtime_info t
    update_auto_scan t
    update_learn_code_actions t
    if initialize
        then configure (λ c. record c { analytics_enabled = t.enable_analytics })
        else skip

  before_endpoints-KeepsView : KeepsView before_endpoints
  unfolding before_endpoints
  before_endpoints-KeepsView s =
      simp (update_authentication_method-KeepsView, update_cli_config-KeepsView)

  after_endpoints-KeepsView : KeepsView after_endpoints
  unfolding after_endpoints
  after_endpoints-KeepsView s = simp (
    update_trusted_folders-KeepsView, update_manage_binaries-KeepsView,
    update_organization-KeepsView, update_telemetry-KeepsView, update_path_from_settings-KeepsView,
    update_environment-KeepsView, update_credentials-KeepsView,
  )

  rest-KeepsView : KeepsView rest
  unfolding rest
  rest-KeepsView s = elim (Bool-cases initialize) [
    | inl e ↦ rw e (simp (keeps_last, analytics-KeepsView t.enable_analytics))
    | inr e ↦ rw e (simp keeps_last)
  ]

  -- The state in which the endpoints are updated.
  at_endpoints : Server → Server
  at_endpoints s =
      (before_endpoints
        (update_product_enablement t (update_severity_filter x t.filter_severity s).0).0).0

  write_all_parts :
      (s : Server)
      → (write_all x y t initialize s).0
        ≡ (rest
            (update_code_quality t
              (update_code_security t
                (after_endpoints
                  (update_api_endpoints x y t initialize (at_endpoints s)).0).0).0).0).0
  unfolding write_all before_endpoints after_endpoints rest at_endpoints
  write_all_parts s = refl

  ruleset parts = (
    rest-KeepsView, quality_lem, security_lem, after_endpoints-KeepsView,
    before_endpoints-KeepsView, enablement, update_severity_filter-KeepsView,
  )

  -- What the folders show after the settings: the switches, and the workspace or the workspace with
  -- its issues cleared.
  pub write_all-view :
      (s : Server)
      → (view (write_all x y t initialize s).0
          ≡ record (view s) { products = written t (view s).products })
        ⊎ (view (write_all x y t initialize s).0 ≡ record {
          products = written t (view s).products;
          workspace = (clear_issues x (view s).workspace).0;
        })
  unfolding at_endpoints
  write_all-view s = elim (update_api_endpoints-view x y t initialize (at_endpoints s)) [
    | inl same ↦ inl (ap view (write_all_parts s) ∙ simp (parts, same))
    | inr clears ↦ inr (ap view (write_all_parts s) ∙ simp (parts, clears))
  ]
