-- ===== src/Settings/Session.antt =====
-- application/server/configuration.go, domain/vulnmap/auth_service_impl.go: what changes the
-- settings and the token while the server runs, in any order.
use khulnasoft_lab_vulnmap_l.Prelude.{Text, Bool, ◌≡◌, List, [], ◌∷◌, Option, none, some, arith}
use khulnasoft_lab_vulnmap_l.Externals.{Externals}
use khulnasoft_lab_vulnmap_l.Vulnmap.Product.{FilterableIssueType}
use khulnasoft_lab_vulnmap_l.Settings.{Settings, Server, SettingsExternals}
use khulnasoft_lab_vulnmap_l.Settings.Token.{logout, authenticate, credentials_update_callback}
use khulnasoft_lab_vulnmap_l.Settings.Apply.{
  write_settings, initialize_settings, clear_if_removed, clear_removed, report_scan_mode,
  update_settings, fetched, did_change_configuration,
}
use khulnasoft_lab_vulnmap_l.Settings.Scrubbed.{
  IsScrubbed, Keeps, authenticate-Keeps, callback-Keeps, logout-Keeps, device-Keeps,
  auto_authentication-Keeps, auto_scan-Keeps, write_all-Keeps,
}

-- What happens to the server: the settings of the client's initialisation and of its later
-- notifications, with what the client answers when it is asked for them, a login with the answer of the
-- provider, a logout, and a token that the engine's storage reports.
pub data Event : Type 0 where
  initialized : Settings → Event
  configuration_changed : Settings → Bool → Option Settings → Event
  login : Option Text → Event
  logged_out : Event
  token_stored : Option Text → Event

module _ (x : Externals) (y : SettingsExternals) where
  abbrev pub handle : Event → Server → Server
  handle (initialized t) s = (initialize_settings x y t s).0
  handle (configuration_changed pushed can_pull pulled) s =
      (did_change_configuration x y pushed can_pull pulled s).0.0
  handle (login answer) s = (authenticate y answer s).0
  handle logged_out s = (logout y s).0
  handle (token_stored value) s = (credentials_update_callback y value s).0

  abbrev pub handle_all : List Event → Server → Server
  handle_all [] s = s
  handle_all (e ∷ es) s = handle_all es (handle e s)

  write-Keeps : (t : Settings) (first : Bool) → Keeps (write_settings x y t first)
  unfolding write_settings
  write-Keeps t first s h = ground (arith, write_all-Keeps x y t first s h)

  initialize-Keeps : (t : Settings) → Keeps (initialize_settings x y t)
  unfolding initialize_settings
  initialize-Keeps t s h =
      search (auto_scan-Keeps, device-Keeps, auto_authentication-Keeps, write-Keeps)

  removed-Keeps :
      (was : FilterableIssueType → Bool) (t : FilterableIssueType)
      → Keeps (clear_if_removed x was t)
  unfolding clear_if_removed IsScrubbed
  removed-Keeps was t s h = ground arith

  all_removed-Keeps :
      (was : FilterableIssueType → Bool) (ts : List FilterableIssueType)
      → Keeps (clear_removed x was ts)
  unfolding clear_removed
  all_removed-Keeps was [] s h = h
  all_removed-Keeps was (t ∷ ts) s h =
      all_removed-Keeps was ts (clear_if_removed x was t s).0 (removed-Keeps was t s h)

  report-Keeps : (t : Settings) (b : Bool) → Keeps (report_scan_mode t b)
  unfolding report_scan_mode
  report-Keeps t b s h = ground arith

  update-Keeps : (t : Settings) → Keeps (update_settings x y t)
  unfolding update_settings
  update-Keeps t s h = search (report-Keeps, all_removed-Keeps, write-Keeps)

  changed-Keeps :
      (pushed : Settings) (can_pull : Bool) (pulled : Option Settings) (s : Server)
      → IsScrubbed s
      → IsScrubbed (did_change_configuration x y pushed can_pull pulled s).0.0
  unfolding did_change_configuration fetched
  changed-Keeps pushed can_pull none s h = ground (arith, update-Keeps pushed s h)
  changed-Keeps pushed can_pull (some t) s h =
      ground (arith, update-Keeps pushed s h, update-Keeps t s h)

  handle-Keeps : (e : Event) (s : Server) → IsScrubbed s → IsScrubbed (handle e s)
  handle-Keeps (initialized t) s h = initialize-Keeps t s h
  handle-Keeps (configuration_changed pushed can_pull pulled) s h =
      changed-Keeps pushed can_pull pulled s h
  handle-Keeps (login answer) s h = authenticate-Keeps y answer s h
  handle-Keeps logged_out s h = logout-Keeps y s h
  handle-Keeps (token_stored value) s h = callback-Keeps y value s h

  handle_all-Keeps : (es : List Event) (s : Server) → IsScrubbed s → IsScrubbed (handle_all es s)
  handle_all-Keeps [] s h = h
  handle_all-Keeps (e ∷ es) s h = handle_all-Keeps es (handle e s) (handle-Keeps e s h)

  -- From a server without a token, whatever settings, logins, logouts and new tokens arrive and in
  -- whatever order: a token that the server holds is among the texts that are removed from its logs.
  pub handle_all-IsScrubbed :
      (es : List Event) (s : Server) → s.config.token ≡ [] → IsScrubbed (handle_all es s)
  unfolding IsScrubbed
  handle_all-IsScrubbed es s fresh = handle_all-Keeps es s (λ some_token. absurd (some_token fresh))
