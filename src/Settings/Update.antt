-- ===== src/Settings/Update.antt =====
-- application/server/configuration.go: the functions that each update a part of the configuration,
-- with the setters of application/config/config.go that they call.
use khulnasoft_lab_vulnmap_l.Prelude.Maps.{TextMap, lookup, store, delete}
use khulnasoft_lab_vulnmap_l.Prelude.{
  ℕ, ◌==◌, Text, codes, text_eq, Bool, true, false, not, ◌&&◌, ◌||◌, List, [], ◌∷◌, ◌++◌, map,
  Option, none, some, if◌then◌else◌,
}
use khulnasoft_lab_vulnmap_l.Externals.{Externals}
use khulnasoft_lab_vulnmap_l.Vulnmap.Product.{unknown}
use khulnasoft_lab_vulnmap_l.Config.{
  Config, SeverityFilter, set_severity_filter, set_trusted_folders,
}
use khulnasoft_lab_vulnmap_l.Folder.{Folder, Effect}
use khulnasoft_lab_vulnmap_l.Folder.Publish.{filter_and_publish_cached_diagnostics}
use khulnasoft_lab_vulnmap_l.Workspace.{clear_issues}
use khulnasoft_lab_vulnmap_l.Settings.{
  Settings, CliSettings, ServerConfig, cli_provider, oauth_provider, ServerEffect, folder_effect,
  identify, Server, SettingsExternals, Action, ◌>>◌,
}
use khulnasoft_lab_vulnmap_l.Settings.Parse.{parse_bool, split_on, trim}
use khulnasoft_lab_vulnmap_l.Settings.Token.{emit, skip, configure, logout}

abbrev pub default_vulnmap_api_url : Text
default_vulnmap_api_url = codes "https://vulnmap.khulnasoft.com/api"

abbrev pub default_deeproxy_api_url : Text
default_deeproxy_api_url = codes "https://deeproxy.vulnmap.khulnasoft.com"

-- A setter of the part that the folders read.
abbrev pub configure_shown : (Config → Config) → Action
configure_shown f = configure (λ c. record c { shown = f c.shown })

-- The setter, where the text is a Boolean; otherwise the setting is kept.
abbrev pub if_parsed : Text → (Bool → Action) → Action
if_parsed s set_to = elim (parse_bool s) [ none ↦ skip | some b ↦ set_to b ]

-- `EnableVulnmapCodeQuality`, `EnableVulnmapCodeSecurity`
abbrev pub enable_code_quality : Bool → Action
enable_code_quality b = configure_shown (λ c. record c { code_quality_enabled = b })

abbrev pub enable_code_security : Bool → Action
enable_code_security b = configure_shown (λ c. record c { code_security_enabled = b })

-- `SetVulnmapCodeEnabled`: the general setting overrules the specific ones.
abbrev pub set_code_enabled : Bool → Action
set_code_enabled b =
    configure_shown (λ c. record c { code_enabled = b })
    >> enable_code_quality b
    >> enable_code_security b

-- `updateProductEnablement`
unfoldable pub update_product_enablement : Settings → Action
update_product_enablement s =
    if_parsed s.activate_code
      (λ b. set_code_enabled b >> enable_code_quality b >> enable_code_security b)
    >> if_parsed s.activate_open_source (λ b. configure_shown (λ c. record c { oss_enabled = b }))
    >> if_parsed s.activate_iac (λ b. configure_shown (λ c. record c { iac_enabled = b }))

-- `updateVulnmapCodeSecurity`, `updateVulnmapCodeQuality`
unfoldable pub update_code_security : Settings → Action
update_code_security s = if_parsed s.activate_code_security enable_code_security

unfoldable pub update_code_quality : Settings → Action
update_code_quality s = if_parsed s.activate_code_quality enable_code_quality

-- `manageBinariesAutomatically`
unfoldable pub update_manage_binaries : Settings → Action
update_manage_binaries s =
    if_parsed s.manage_binaries_automatically
      (λ b. configure (λ c. record c { manage_binaries_automatically = b }))

-- `SetTelemetryEnabled`
unfoldable pub set_telemetry_enabled : Bool → Action
set_telemetry_enabled b = configure (λ c. record c {
  telemetry_enabled = b;
  engine = record c.engine { analytics_disabled = not b };
})

-- `updateTelemetry`
unfoldable pub update_telemetry : Settings → Action
unfolding set_telemetry_enabled
update_telemetry s =
    if_parsed s.send_error_reports (λ b. configure (λ c. record c { error_reporting_enabled = b }))
    >> if_parsed s.enable_telemetry
        (λ b. set_telemetry_enabled b >> (if b then emit identify else skip))

-- The answer of `ParseBool`, where an error counts as true.
abbrev true_on_error : Option Bool → Bool
true_on_error none = true
true_on_error (some b) = b

-- `updateTrustedFolders`
unfoldable pub update_trusted_folders : Settings → Action
unfolding set_trusted_folders
update_trusted_folders s =
    configure_shown (λ c. record c {
      trusted_folders_feature_enabled = true_on_error (parse_bool s.enable_trusted_folders_feature);
    })
    >> elim s.trusted_folders [
      | none ↦ skip
      | some paths ↦ configure_shown (set_trusted_folders paths)
    ]

-- `updateAutoAuthentication`
unfoldable pub update_auto_authentication : Settings → Action
update_auto_authentication s = configure (λ c. record c {
  automatic_authentication = true_on_error (parse_bool s.automatic_authentication);
})

-- `updateAutoScan`
unfoldable pub update_auto_scan : Settings → Action
unfolding text_eq
update_auto_scan s =
    configure_shown
      (λ c. record c { automatic_scanning = not (text_eq s.scanning_mode (codes "manual")) })

-- `updateVulnmapLearnCodeActions`
unfoldable pub update_learn_code_actions : Settings → Action
unfolding text_eq
update_learn_code_actions s = configure (λ c. record c {
  learn_code_actions_enabled = not (text_eq s.enable_learn_code_actions (codes "false"));
})

-- `updateRuntimeInfo`
unfoldable pub update_runtime_info : Settings → Action
update_runtime_info s = configure (λ c. record c {
  os_arch = s.os_arch;
  os_platform = s.os_platform;
  runtime_version = s.runtime_version;
  runtime_name = s.runtime_name;
})

-- `configureOAuth` and the choice of the provider in `updateAuthenticationMethod`
unfoldable pub choose_provider : Text → Action
unfolding text_eq
choose_provider method s =
    if text_eq method (codes "oauth")
    then (
      record s {
        config = record s.config {
          authentication_method = method;
          engine = record s.config.engine { oauth_flow_enabled = true };
        };
        provider = oauth_provider;
      },
      [],
    )
    else (
      record s {
        config = record s.config { authentication_method = method };
        provider = cli_provider;
      },
      [],
    )

-- `updateAuthenticationMethod` of the method in the settings
unfoldable pub update_authentication_method : Text → Action
unfolding choose_provider
update_authentication_method [] s = (s, [])
update_authentication_method (c ∷ method) s = choose_provider (c ∷ method) s

-- `os.Setenv`, which refuses an empty key, a key with `=`, and NUL bytes.
unfoldable pub has_byte : ℕ → Text → Bool
has_byte b [] = false
has_byte b (c ∷ s) = c == b || has_byte b s

unfoldable pub set_variable : Text → Text → TextMap Text → TextMap Text
unfolding has_byte store text_eq
set_variable key value env =
    if text_eq key [] || has_byte b'=' key || has_byte 0 key || has_byte 0 value
    then env
    else store key value env

-- The loop of `updateEnvironment` over the parts between semicolons.
set_parts : List Text → TextMap Text → TextMap Text
unfolding set_variable
set_parts (key ∷ value ∷ []) env = set_variable key value env
set_parts _ env = env

set_variables : List Text → TextMap Text → TextMap Text
unfolding set_parts split_on
set_variables [] env = env
set_variables (variable ∷ variables) env =
    set_variables variables (set_parts (split_on b'=' variable) env)

-- `updateEnvironment`
unfoldable pub update_environment : Settings → Action
unfolding set_variables split_on
update_environment settings s = (
  record s { environment = set_variables (split_on b';' settings.additional_env) s.environment },
  [],
)

abbrev pub variable_or_empty : Text → TextMap Text → Text
variable_or_empty key env = elim (lookup key env) [ none ↦ [] | some value ↦ value ]

-- `cachedOriginalPath`, filled at the first call
abbrev pub original_path : Server → Text
original_path s = elim s.cached_original_path [
  | [] ↦ variable_or_empty (codes "PATH") s.environment
  | c ∷ path ↦ c ∷ path
]

unfoldable pub extended_environment : Text → Text → TextMap Text → TextMap Text
unfolding set_variable delete
extended_environment [] original env = set_variable (codes "PATH") original env
extended_environment (c ∷ path) original env =
    set_variable (codes "PATH") ((c ∷ path) ++ (b':' ∷ original)) (delete (codes "Path") env)

-- `updatePathFromSettings`
unfoldable pub update_path_from_settings : Settings → Action
unfolding extended_environment lookup
update_path_from_settings settings s = (
  record s {
    cached_original_path = original_path s;
    environment = extended_environment settings.path (original_path s) s.environment;
  },
  [],
)

module _ (x : SettingsExternals) where
  -- `updateDeviceInformation`
  unfoldable pub update_device_information : Settings → Action
  update_device_information s = elim (x.trim_space s.device_id) [
    | [] ↦ skip
    | c ∷ id ↦ configure (λ config. record config { device_id = c ∷ id })
  ]

  -- `updateOrganization`
  unfoldable pub update_organization : Settings → Action
  update_organization s = elim (x.trim_space s.organization) [
    | [] ↦ skip
    | c ∷ org ↦
        configure
          (λ config. record config { engine = record config.engine { organization = c ∷ org } })
  ]

  -- `SetPath`
  cli_path_or_default : Text → Text
  cli_path_or_default [] = x.default_cli_path
  cli_path_or_default (c ∷ path) = c ∷ path

  false_on_error : Option Bool → Bool
  false_on_error none = false
  false_on_error (some b) = b

  -- `updateCliConfig`
  unfoldable pub update_cli_config : Settings → Action
  unfolding split_on cli_path_or_default false_on_error
  update_cli_config s =
      let cli : CliSettings = record {
        insecure = false_on_error (parse_bool s.insecure);
        additional_oss_parameters = split_on b' ' s.additional_params;
        cli_path = cli_path_or_default (x.trim_space s.cli_path);
      } in
      configure (λ c. record c {
        engine = record c.engine { insecure_https = cli.insecure };
        cli_settings = cli;
      })

  -- `SetVulnmapCodeApi`
  unfoldable pub set_code_api : Text → ServerConfig → ServerConfig
  set_code_api [] c = record c { code_api_url = default_deeproxy_api_url }
  set_code_api (d ∷ url) c = record c {
    code_api_url = d ∷ url;
    engine = record c.engine {
      authentication_additional_urls = c.engine.authentication_additional_urls ++ ((d ∷ url) ∷ []);
    };
  }

  url_or_empty : Option Text → Text
  url_or_empty none = []
  url_or_empty (some url) = url

  -- `getCodeApiUrlFromCustomEndpoint`, empty on an error; the endpoint is not empty
  unfoldable pub code_api_from_endpoint : Text → TextMap Text → Text
  unfolding trim lookup url_or_empty
  code_api_from_endpoint endpoint env =
      elim (trim b'/' (variable_or_empty (codes "DEEPROXY_API_URL") env)) [
        | [] ↦ url_or_empty (x.deeproxy_url (trim b' ' endpoint))
        | c ∷ url ↦ c ∷ url
      ]

  unfoldable pub or_default : Text → Text
  or_default [] = default_vulnmap_api_url
  or_default (c ∷ url) = c ∷ url

  -- `UpdateApiEndpoints`: whether the endpoint has changed.
  unfoldable pub update_endpoints : Text → Server → Server × Bool
  update_endpoints url s =
      if text_eq (or_default url) s.config.vulnmap_api_url then (s, false) else (
        record s {
          config =
              let c =
                set_code_api (code_api_from_endpoint (or_default url) s.environment)
                  (record s.config { vulnmap_api_url = or_default url }) in
              record c { engine = record c.engine { api_url = or_default url } };
        },
        true,
      )

  -- The overwrites at the end of `updateApiEndpoints`.
  unfoldable pub overwrite_method : Action
  overwrite_method s =
      if x.is_fedramp s.config.engine
      then update_authentication_method (codes "oauth") s
      else skip s

  unfoldable pub overwrite_code_api : Text → Action
  overwrite_code_api [] = skip
  overwrite_code_api (d ∷ url) = configure (set_code_api (d ∷ url))

module _ (x : Externals) where
  abbrev pub on_folders : List Effect → List ServerEffect
  on_folders es = map folder_effect es

  -- `ClearIssues` of the workspace
  unfoldable pub clear_workspace : Action
  clear_workspace s =
      let (w, sent) = clear_issues x s.workspace in (record s { workspace = w }, on_folders sent)

  publish_each : Config → TextMap Folder → List Effect
  unfolding filter_and_publish_cached_diagnostics
  publish_each c [] = []
  publish_each c ((key, f) ∷ m) =
      filter_and_publish_cached_diagnostics x c unknown f ++ publish_each c m

  -- `updateSeverityFilter`: every folder is published again if the filter has changed.
  unfoldable pub update_severity_filter : SeverityFilter → Action
  unfolding publish_each
  update_severity_filter f s =
      let (c, modified) = set_severity_filter f s.config.shown in
      (
        record s { config = record s.config { shown = c } },
        if modified then on_folders (publish_each c s.workspace.folders) else [],
      )

module _ (x : Externals) (y : SettingsExternals) where
  -- `updateApiEndpoints`
  unfoldable pub update_api_endpoints : Settings → Bool → Action
  update_api_endpoints settings initialization s =
      let (s', updated) = update_endpoints y (trim b' ' settings.endpoint) s in
      ((if updated && not initialization then logout y >> clear_workspace x else skip)
          >> overwrite_method y
          >> overwrite_code_api y settings.code_api)
        s'
