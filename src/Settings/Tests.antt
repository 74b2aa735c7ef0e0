-- ===== src/Settings/Tests.antt =====
-- Settings that arrive at a server, and instances of the theorems about them.
use mathlib.Core.Path.{subst}
use khulnasoft_lab_vulnmap_l.Prelude.Maps.{lookup}
use khulnasoft_lab_vulnmap_l.Prelude.{
  Text, codes, text_eq, true, false, ◌≡◌, ◌≢◌, refl, List, [], ◌∷◌, none, some, arith,
}
use khulnasoft_lab_vulnmap_l.Externals.{sample}
use khulnasoft_lab_vulnmap_l.Vulnmap.Product.{open_source, code_security_type}
use khulnasoft_lab_vulnmap_l.Vulnmap.Issue.{Issue, high, dependency_vulnerability, no_data}
use khulnasoft_lab_vulnmap_l.Config.{Config, default_severity_filter}
use khulnasoft_lab_vulnmap_l.Folder.{Folder, new_folder}
use khulnasoft_lab_vulnmap_l.Folder.Invariant.{IsFiled}
use khulnasoft_lab_vulnmap_l.Folder.Operations.{Operation, deliver, run, reachable-IsFiled}
use khulnasoft_lab_vulnmap_l.Settings.{Settings, cli_provider, Server, SettingsExternals}
use khulnasoft_lab_vulnmap_l.Settings.Parse.{parse_bool, one_of}
use khulnasoft_lab_vulnmap_l.Settings.Update.{has_byte, original_path}
use khulnasoft_lab_vulnmap_l.Settings.Apply.{update_settings}
use khulnasoft_lab_vulnmap_l.Settings.Keeps.{view}
use khulnasoft_lab_vulnmap_l.Settings.Displayed.{shows, written}
use khulnasoft_lab_vulnmap_l.Settings.Removed.{Caches, Holds}
use khulnasoft_lab_vulnmap_l.Settings.Hidden.{StillDisplayed, update_settings-Hidden}
use khulnasoft_lab_vulnmap_l.Settings.SearchPath.{NoNul}
use khulnasoft_lab_vulnmap_l.Settings.Scrubbed.{IsScrubbed}
use khulnasoft_lab_vulnmap_l.Settings.Session.{
  initialized, configuration_changed, login, handle_all, handle_all-IsScrubbed,
}

abbrev nowhere : SettingsExternals
nowhere = record {
  trim_space = λ s. s;
  deeproxy_url = λ s. none;
  is_fedramp = λ e. false;
  is_oauth_token = λ s. false;
  default_cli_path = codes "/home/me/.vulnmap";
  clears = λ p. true;
  check_authentication = λ p t. some (codes "me");
}

abbrev no_settings : Settings
no_settings = record {
  activate_open_source = [];
  activate_code = [];
  activate_iac = [];
  insecure = [];
  endpoint = [];
  additional_params = [];
  additional_env = [];
  path = [];
  send_error_reports = [];
  organization = [];
  enable_telemetry = [];
  manage_binaries_automatically = [];
  cli_path = [];
  token = [];
  integration_name = [];
  integration_version = [];
  automatic_authentication = [];
  device_id = [];
  filter_severity = record { critical = false; high = false; medium = false; low = false };
  enable_trusted_folders_feature = [];
  trusted_folders = none;
  activate_code_security = [];
  activate_code_quality = [];
  os_platform = [];
  os_arch = [];
  runtime_version = [];
  runtime_name = [];
  scanning_mode = [];
  authentication_method = [];
  code_api = [];
  enable_learn_code_actions = [];
  enable_analytics = false;
}

abbrev without_oss : Settings
without_oss = record no_settings {
  activate_open_source = codes "false";
  activate_code = codes "true";
  activate_code_security = codes "false";
  token = codes "secret";
  path = codes "/opt/bin";
}

abbrev issue : Issue
issue = record {
  id = codes "VULN-1";
  severity = high;
  issue_type = dependency_vulnerability;
  range = record {
    start = record { line = 3; character = 0 };
    end = record { line = 3; character = 9 };
  };
  message = codes "bad";
  formatted_message = codes "";
  affected_file_path = codes "/w/pom.xml";
  product = open_source;
  references = [];
  issue_description_url = none;
  code_actions = [];
  codelens_commands = [];
  ecosystem = codes "maven";
  cwes = [];
  cves = [];
  additional_data = no_data;
}

abbrev config : Config
config = record {
  filter_severity = default_severity_filter;
  oss_enabled = true;
  code_enabled = false;
  code_quality_enabled = false;
  code_security_enabled = false;
  iac_enabled = true;
  trusted_folders_feature_enabled = false;
  trusted_folders = [];
  automatic_scanning = true;
}

abbrev delivery : List (Config × Operation)
delivery =
    (
      config,
      deliver (record {
        product = open_source;
        issues = issue ∷ [];
        err = none;
        duration_ms = 5;
        timestamp_finished = 7;
      }),
    )
    ∷ []

abbrev folder : Folder
folder = run sample delivery (new_folder (codes "/w") (codes "w"))

abbrev server : Server
server = record {
  config = record {
    shown = config;
    engine = record {
      api_url = [];
      organization = [];
      insecure_https = false;
      analytics_disabled = false;
      oauth_flow_enabled = false;
      authentication_token = [];
      oauth_token = [];
      authentication_additional_urls = [];
    };
    cli_settings = record { insecure = false; additional_oss_parameters = []; cli_path = [] };
    error_reporting_enabled = false;
    telemetry_enabled = true;
    manage_binaries_automatically = true;
    vulnmap_api_url = codes "https://vulnmap.khulnasoft.com/api";
    code_api_url = codes "https://deeproxy.vulnmap.khulnasoft.com";
    token = [];
    token_change_channels = 1;
    scrubbed = [];
    device_id = codes "d";
    automatic_authentication = true;
    os_platform = [];
    os_arch = [];
    runtime_name = [];
    runtime_version = [];
    authentication_method = [];
    learn_code_actions_enabled = true;
    analytics_enabled = false;
  };
  workspace = record { folders = (codes "/w", folder) ∷ []; trust_request_ongoing = false };
  provider = cli_provider;
  environment = (codes "PATH", codes "/bin") ∷ [];
  cached_original_path = [];
}

only_folder : (j k : Text) (g f : Folder) → lookup k ((j, g) ∷ []) ≡ some f → g ≡ f
unfolding lookup
only_folder j k g f e = ground arith

folder-IsFiled : Caches IsFiled server.workspace
folder-IsFiled k f e =
    subst (λ (g : Folder). IsFiled g.cache) (only_folder (codes "/w") k folder f e)
      (reachable-IsFiled sample (codes "/w") (codes "w") delivery)

-- The general switch for Vulnmap Code keeps the security issues, although their own switch is off.
security_stays : shows (written without_oss (view server).products) code_security_type ≡ true
unfolding view parse_bool one_of text_eq
security_stays = refl

update_settings-Hidden_example :
    Holds
      (StillDisplayed server.config (update_settings sample nowhere without_oss server).0.config)
      (update_settings sample nowhere without_oss server).0.workspace
update_settings-Hidden_example =
    update_settings-Hidden sample nowhere without_oss server folder-IsFiled

found_path : original_path server ≡ codes "/bin"
unfolding lookup text_eq
found_path = refl

some_path : original_path server ≢ []
some_path e = cc (e, found_path)

clean_path : NoNul (original_path server)
unfolding has_byte lookup text_eq
clean_path = refl

clean_addition : NoNul (codes "/opt/bin")
unfolding has_byte
clean_addition = refl

handle_all-IsScrubbed_example : IsScrubbed (
    handle_all sample nowhere
      (initialized without_oss
        ∷ login (some (codes "other"))
        ∷ configuration_changed no_settings true (some without_oss)
        ∷ [])
      server)
handle_all-IsScrubbed_example =
    handle_all-IsScrubbed sample nowhere
      (initialized without_oss
        ∷ login (some (codes "other"))
        ∷ configuration_changed no_settings true (some without_oss)
        ∷ [])
      server refl
