-- ===== src/Settings/Scrubbed.antt =====
-- The token of the server and the texts that are removed from its logs.
use khulnasoft_lab_vulnmap_l.Prelude.{
  Text, text_eq, codes, text_eq_refl, text_eq_iff, Bool, true, not, ◌&&◌, ◌≡◌, ◌≢◌, inl, inr, [],
  ◌∷◌, Option, none, some, arith, Bool-cases,
}
use khulnasoft_lab_vulnmap_l.Externals.{Externals}
use khulnasoft_lab_vulnmap_l.Config.{SeverityFilter}
use khulnasoft_lab_vulnmap_l.Settings.{Settings, Server, ServerConfig, SettingsExternals, Action}
use khulnasoft_lab_vulnmap_l.Settings.Parse.{one_of, trim}
use khulnasoft_lab_vulnmap_l.Settings.Token.{
  configure, set_token, scrub, update_credentials, logout, authenticate,
  credentials_update_callback,
}
use khulnasoft_lab_vulnmap_l.Settings.Update.{
  update_product_enablement, update_code_security, update_code_quality, update_manage_binaries,
  set_telemetry_enabled, update_telemetry, update_trusted_folders, update_auto_authentication,
  update_auto_scan, update_learn_code_actions, update_runtime_info, choose_provider,
  update_authentication_method, update_environment, update_path_from_settings,
  update_device_information, update_organization, update_cli_config, set_code_api, update_endpoints,
  or_default, code_api_from_endpoint, overwrite_method, overwrite_code_api, clear_workspace,
  update_severity_filter, update_api_endpoints,
}
use khulnasoft_lab_vulnmap_l.Settings.Apply.{write_all}

-- A token is scrubbed from the logs.
abbrev Scrubs : ServerConfig → Type 0
Scrubs c = c.token ≢ [] → one_of c.scrubbed c.token ≡ true

unfoldable pub IsScrubbed : Server → Type 0
IsScrubbed s = Scrubs s.config

abbrev pub Keeps : Action → Type 0
Keeps m = (s : Server) → IsScrubbed s → IsScrubbed (m s).0

module _ (t : Settings) where
  product-Keeps : Keeps (update_product_enablement t)
  unfolding IsScrubbed update_product_enablement
  product-Keeps s h = ground arith

  security-Keeps : Keeps (update_code_security t)
  unfolding IsScrubbed update_code_security
  security-Keeps s h = ground arith

  quality-Keeps : Keeps (update_code_quality t)
  unfolding IsScrubbed update_code_quality
  quality-Keeps s h = ground arith

  binaries-Keeps : Keeps (update_manage_binaries t)
  unfolding IsScrubbed update_manage_binaries
  binaries-Keeps s h = ground arith

  telemetry-Keeps : Keeps (update_telemetry t)
  unfolding IsScrubbed update_telemetry set_telemetry_enabled
  telemetry-Keeps s h = ground arith

  trusted-Keeps : Keeps (update_trusted_folders t)
  unfolding IsScrubbed update_trusted_folders
  trusted-Keeps s h = ground arith

  pub auto_authentication-Keeps : Keeps (update_auto_authentication t)
  unfolding IsScrubbed update_auto_authentication
  auto_authentication-Keeps s h = h

  pub auto_scan-Keeps : Keeps (update_auto_scan t)
  unfolding IsScrubbed update_auto_scan
  auto_scan-Keeps s h = h

  learn-Keeps : Keeps (update_learn_code_actions t)
  unfolding IsScrubbed update_learn_code_actions
  learn-Keeps s h = h

  runtime-Keeps : Keeps (update_runtime_info t)
  unfolding IsScrubbed update_runtime_info
  runtime-Keeps s h = h

  environment-Keeps : Keeps (update_environment t)
  unfolding IsScrubbed update_environment
  environment-Keeps s h = h

  path-Keeps : Keeps (update_path_from_settings t)
  unfolding IsScrubbed update_path_from_settings
  path-Keeps s h = h

method-Keeps : (method : Text) → Keeps (update_authentication_method method)
unfolding IsScrubbed update_authentication_method choose_provider
method-Keeps [] s h = h
method-Keeps (c ∷ method) s h = ground arith

analytics-Keeps : (b : Bool) → Keeps (configure (λ c. record c { analytics_enabled = b }))
unfolding IsScrubbed
analytics-Keeps b s h = h

module _ (y : SettingsExternals) where
  -- Whatever the token was, the new one is scrubbed.
  set_token-Keeps : (token : Text) → Keeps (set_token y token)
  unfolding IsScrubbed set_token one_of scrub
  set_token-Keeps token s h = elim (Bool-cases (text_eq s.config.token token)) [
    | inl same ↦ rw same h
    | inr new ↦ rw new (λ some_token. ground (arith, text_eq_refl token, text_eq_iff token []))
  ]

  credentials-Keeps : (token : Text) (notify : Bool) → Keeps (update_credentials y token notify)
  unfolding update_credentials
  credentials-Keeps token notify s h = ground (arith, set_token-Keeps token s h)

  pub logout-Keeps : Keeps (logout y)
  unfolding logout
  logout-Keeps s h = ground (arith, credentials-Keeps [] true s h)

  pub authenticate-Keeps : (answer : Option Text) → Keeps (authenticate y answer)
  unfolding authenticate
  authenticate-Keeps none s h = h
  authenticate-Keeps (some []) s h = h
  authenticate-Keeps (some (c ∷ token)) s h = credentials-Keeps (c ∷ token) true s h

  pub callback-Keeps : (value : Option Text) → Keeps (credentials_update_callback y value)
  unfolding credentials_update_callback
  callback-Keeps none s h = h
  callback-Keeps (some token) s h = credentials-Keeps token true s h

  pub device-Keeps : (t : Settings) → Keeps (update_device_information y t)
  unfolding IsScrubbed update_device_information
  device-Keeps t s h = ground arith

  organization-Keeps : (t : Settings) → Keeps (update_organization y t)
  unfolding IsScrubbed update_organization
  organization-Keeps t s h = ground arith

  cli-Keeps : (t : Settings) → Keeps (update_cli_config y t)
  unfolding IsScrubbed update_cli_config
  cli-Keeps t s h = h

  set_code_api-Scrubs : (url : Text) (c : ServerConfig) → Scrubs c → Scrubs (set_code_api y url c)
  unfolding set_code_api
  set_code_api-Scrubs [] c h = h
  set_code_api-Scrubs (d ∷ url) c h = h

  endpoints-Keeps :
      (url : Text) (s : Server) → IsScrubbed s → IsScrubbed (update_endpoints y url s).0
  unfolding IsScrubbed update_endpoints
  endpoints-Keeps url s h =
      elim (Bool-cases (text_eq (or_default y url) s.config.vulnmap_api_url)) [
        | inl same ↦ rw same h
        | inr new ↦ rw new (
            set_code_api-Scrubs (code_api_from_endpoint y (or_default y url) s.environment)
              (record s.config { vulnmap_api_url = or_default y url }) h)
      ]

  overwrite_method-Keeps : Keeps (overwrite_method y)
  unfolding overwrite_method
  overwrite_method-Keeps s h = ground (arith, method-Keeps (codes "oauth") s h)

  overwrite_code_api-Keeps : (url : Text) → Keeps (overwrite_code_api y url)
  unfolding IsScrubbed overwrite_code_api set_code_api
  overwrite_code_api-Keeps [] s h = h
  overwrite_code_api-Keeps (d ∷ url) s h = h

module _ (x : Externals) (y : SettingsExternals) where
  clear-Keeps : Keeps (clear_workspace x)
  unfolding IsScrubbed clear_workspace
  clear-Keeps s h = h

  filter-Keeps : (f : SeverityFilter) → Keeps (update_severity_filter x f)
  unfolding IsScrubbed update_severity_filter
  filter-Keeps f s h = h

  api_endpoints-Keeps : (t : Settings) (first : Bool) → Keeps (update_api_endpoints x y t first)
  unfolding update_api_endpoints
  api_endpoints-Keeps t first s h =
      elim (Bool-cases ((update_endpoints y (trim b' ' t.endpoint) s).1 && not first)) [
        | inl changed ↦ rw changed (
            search (
              overwrite_method-Keeps, overwrite_code_api-Keeps, clear-Keeps, logout-Keeps,
              endpoints-Keeps,
            ))
        | inr same ↦
            rw same (search (overwrite_method-Keeps, overwrite_code_api-Keeps, endpoints-Keeps))
      ]

  ruleset updates = (
    learn-Keeps, auto_scan-Keeps, runtime-Keeps, quality-Keeps, security-Keeps, trusted-Keeps,
    binaries-Keeps, organization-Keeps, telemetry-Keeps, path-Keeps, environment-Keeps,
    credentials-Keeps, api_endpoints-Keeps, method-Keeps, cli-Keeps, product-Keeps, filter-Keeps,
  )

  pub write_all-Keeps : (t : Settings) (first : Bool) → Keeps (write_all x y t first)
  unfolding write_all
  write_all-Keeps t first s h = elim (Bool-cases first) [
    | inl e ↦ rw e (search (updates, analytics-Keeps) depth 24)
    | inr e ↦ rw e (search updates depth 24)
  ]
