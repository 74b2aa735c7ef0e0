-- ===== src/Config.antt =====
-- application/config/config.go and internal/lsp/severity_filter.go: the settings that the modelled
-- parts read, with their setters. Locks and the stored configuration file are left out.
use khulnasoft_lab_vulnmap_l.Prelude.{Text, Bool, true, false, not, ◌&&◌, ◌||◌, List, if◌then◌else◌}
use khulnasoft_lab_vulnmap_l.Vulnmap.Product.{
  FilterableIssueType, open_source_type, code_quality_type, code_security_type,
  infrastructure_as_code_type,
}

pub record SeverityFilter : Type 0 where
  pub critical : Bool
  pub high : Bool
  pub medium : Bool
  pub low : Bool

abbrev pub default_severity_filter : SeverityFilter
default_severity_filter = record { critical = true; high = true; medium = true; low = true }

pub record Config : Type 0 where
  pub filter_severity : SeverityFilter
  pub oss_enabled : Bool
  pub code_enabled : Bool
  pub code_quality_enabled : Bool
  pub code_security_enabled : Bool
  pub iac_enabled : Bool
  pub trusted_folders_feature_enabled : Bool
  pub trusted_folders : List Text
  pub automatic_scanning : Bool

-- `DisplayableIssueTypes`: a key that the map does not hold reads as false.
unfoldable pub displayable_issue_types : Config → FilterableIssueType → Bool
displayable_issue_types c open_source_type = c.oss_enabled
displayable_issue_types c code_security_type = c.code_enabled || c.code_security_enabled
displayable_issue_types c code_quality_type = c.code_enabled || c.code_quality_enabled
displayable_issue_types c infrastructure_as_code_type = c.iac_enabled
displayable_issue_types c _ = false

-- `SetTrustedFolders`
unfoldable pub set_trusted_folders : List Text → Config → Config
set_trusted_folders paths c = record c { trusted_folders = paths }

unfoldable pub bool_eq : Bool → Bool → Bool
bool_eq true b = b
bool_eq false b = not b

filter_eq : SeverityFilter → SeverityFilter → Bool
unfolding bool_eq
filter_eq s t =
    bool_eq s.critical t.critical
    && bool_eq s.high t.high
    && bool_eq s.medium t.medium
    && bool_eq s.low t.low

unfoldable pub filter_is_empty : SeverityFilter → Bool
filter_is_empty s = not (s.critical || s.high || s.medium || s.low)

-- `SetSeverityFilter`: the new configuration, and whether the filter was modified.
unfoldable pub set_severity_filter : SeverityFilter → Config → Config × Bool
unfolding filter_eq filter_is_empty
set_severity_filter s c =
    if filter_is_empty s
    then (c, false)
    else (record c { filter_severity = s }, not (filter_eq c.filter_severity s))
