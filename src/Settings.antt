-- ===== src/Settings.antt =====
-- application/server/configuration.go: the settings that the client sends, and what the server keeps
-- of them. The settings are those of internal/lsp/message_types.go; `Config` of
-- application/config/config.go is split into the part that the folders read (the module Config) and
-- the rest, which stands here with the engine's configuration and the environment of the process.
pub mod Parse
pub mod Token
pub mod Update
pub mod Apply
pub mod Keeps
pub mod Displayed
pub mod Removed
pub mod Hidden
pub mod Scrubbed
pub mod Session
pub mod SearchPath
pub mod Tests
use khulnasoft_lab_vulnmap_l.Prelude.Maps.{TextMap}
use khulnasoft_lab_vulnmap_l.Prelude.{ℕ, Text, Bool, List, Option, ◌++◌}
use khulnasoft_lab_vulnmap_l.Config.{Config, SeverityFilter}
use khulnasoft_lab_vulnmap_l.Folder.{Effect}
use khulnasoft_lab_vulnmap_l.Workspace.{Workspace}

-- `lsp.Settings`; `none` is the nil slice.
pub record Settings : Type 0 where
  pub activate_open_source : Text
  pub activate_code : Text
  pub activate_iac : Text
  pub insecure : Text
  pub endpoint : Text
  pub additional_params : Text
  pub additional_env : Text
  pub path : Text
  pub send_error_reports : Text
  pub organization : Text
  pub enable_telemetry : Text
  pub manage_binaries_automatically : Text
  pub cli_path : Text
  pub token : Text
  pub integration_name : Text
  pub integration_version : Text
  pub automatic_authentication : Text
  pub device_id : Text
  pub filter_severity : SeverityFilter
  pub enable_trusted_folders_feature : Text
  pub trusted_folders : Option (List Text)
  pub activate_code_security : Text
  pub activate_code_quality : Text
  pub os_platform : Text
  pub os_arch : Text
  pub runtime_version : Text
  pub runtime_name : Text
  pub scanning_mode : Text
  pub authentication_method : Text
  pub code_api : Text
  pub enable_learn_code_actions : Text
  pub enable_analytics : Bool

pub record CliSettings : Type 0 where
  pub insecure : Bool
  pub additional_oss_parameters : List Text
  pub cli_path : Text

-- What the code writes into the configuration of the workflow engine.
pub record EngineConfiguration : Type 0 where
  pub api_url : Text
  pub organization : Text
  pub insecure_https : Bool
  pub analytics_disabled : Bool
  pub oauth_flow_enabled : Bool
  pub authentication_token : Text
  pub oauth_token : Text
  pub authentication_additional_urls : List Text

pub record ServerConfig : Type 0 where
  pub shown : Config
  pub engine : EngineConfiguration
  pub cli_settings : CliSettings
  pub error_reporting_enabled : Bool
  pub telemetry_enabled : Bool
  pub manage_binaries_automatically : Bool
  pub vulnmap_api_url : Text
  pub code_api_url : Text
  pub token : Text
  pub token_change_channels : ℕ
  pub scrubbed : List Text
  pub device_id : Text
  pub automatic_authentication : Bool
  pub os_platform : Text
  pub os_arch : Text
  pub runtime_name : Text
  pub runtime_version : Text
  pub authentication_method : Text
  pub learn_code_actions_enabled : Bool
  pub analytics_enabled : Bool

-- The provider of the authentication service.
pub data Provider : Type 0 where
  cli_provider oauth_provider : Provider

pub data ServerEffect : Type 0 where
  -- what the workspace's folders do
  folder_effect : Effect → ServerEffect
  -- `lsp.AuthenticationParams`
  send_token : Text → ServerEffect
  -- the token sent to the channels of the scans that run
  token_changed : ℕ → Text → ServerEffect
  clear_authentication : ServerEffect
  capture_error : ServerEffect
  identify : ServerEffect
  scan_mode_selected : Text → ServerEffect

-- The process: the configuration, the workspace (set when the server is initialised, before any
-- settings arrive), the authentication provider, the environment variables, and the variable
-- `cachedOriginalPath`.
pub record Server : Type 0 where
  pub config : ServerConfig
  pub workspace : Workspace
  pub provider : Provider
  pub environment : TextMap Text
  pub cached_original_path : Text

-- What the code calls outside the repository.
pub record SettingsExternals : Type 0 where
  -- `strings.TrimSpace`, which knows all white space of Unicode
  pub trim_space : Text → Text
  -- `url.Parse` with the host replaced; `none` is a parse error
  pub deeproxy_url : Text → Option Text
  -- the engine's `IS_FEDRAMP`, which it reads off the API URL
  pub is_fedramp : EngineConfiguration → Bool
  -- a JSON OAuth token, and no UUID
  pub is_oauth_token : Text → Bool
  -- the default installation path with the name of the executable
  pub default_cli_path : Text
  -- `ClearAuthentication` of the provider succeeds
  pub clears : Provider → Bool
  -- `GetCheckAuthenticationFunction()()` with the token: the user, or an error
  pub check_authentication : Provider → Text → Option Text

-- A handler: the new state, and the effects in order.
abbrev pub Action : Type 0
Action = Server → Server × List ServerEffect

infixl 5 ◌>>◌
abbrev pub ◌>>◌ : Action → Action → Action
◌>>◌ m k s = ((k (m s).0).0, (m s).1 ++ (k (m s).0).1)
