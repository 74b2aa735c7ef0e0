-- ===== src/Settings/Token.antt =====
-- application/config/config.go, `SetToken`, and domain/vulnmap/auth_service_impl.go.
use khulnasoft_lab_vulnmap_l.Prelude.{
  Text, text_eq, Bool, true, false, List, [], ◌∷◌, Option, none, some, if◌then◌else◌,
}
use khulnasoft_lab_vulnmap_l.Settings.{
  ServerConfig, EngineConfiguration, ServerEffect, send_token, token_changed, clear_authentication,
  capture_error, Server, SettingsExternals, Action, ◌>>◌, identify,
}

-- `lsp.AuthenticationParams` and the like: one effect and no change of state.
abbrev pub emit : ServerEffect → Action
emit e s = (s, e ∷ [])

abbrev pub skip : Action
skip s = (s, [])

abbrev pub configure : (ServerConfig → ServerConfig) → Action
configure f s = (record s { config = f s.config }, [])

module _ (x : SettingsExternals) where
  -- The engine's copies of the token.
  engine_token : Text → EngineConfiguration → EngineConfiguration
  engine_token token e =
      if x.is_oauth_token token
      then record e { oauth_token = token }
      else record e { authentication_token = token }

  unfoldable pub scrub : Text → List Text → List Text
  unfolding text_eq
  scrub token dict = if text_eq token [] then dict else token ∷ dict

  -- `SetToken`: the channels of running scans are written to and dropped if the token is new.
  unfoldable pub set_token : Text → Action
  unfolding engine_token scrub text_eq
  set_token token s =
      if text_eq s.config.token token
      then (
        record s { config = record s.config { engine = engine_token token s.config.engine } },
        [],
      )
      else (
        record s {
          config = record s.config {
            token = token;
            engine = engine_token token s.config.engine;
            scrubbed = scrub token s.config.scrubbed;
            token_change_channels = 0;
          };
        },
        token_changed s.config.token_change_channels token ∷ [],
      )

  -- `UpdateCredentials`
  unfoldable pub update_credentials : Text → Bool → Action
  update_credentials token notify s =
      if text_eq s.config.token token
      then (s, [])
      else if notify
      then (set_token token >> emit (send_token token)) s
      else set_token token s

  -- `Logout`
  unfoldable pub logout : Action
  logout s =
      if x.clears s.provider
      then (emit clear_authentication >> update_credentials [] true) s
      else (emit clear_authentication >> emit capture_error) s

  -- `Authenticate`, given the token that the provider returns: `none` is its error.
  unfoldable pub authenticate : Option Text → Action
  authenticate none s = (s, [])
  authenticate (some []) s = (s, [])
  authenticate (some (c ∷ token)) s = (update_credentials (c ∷ token) true >> emit identify) s

  -- `credentialsUpdateCallback` with the value in the engine's storage: `none` is no string.
  unfoldable pub credentials_update_callback : Option Text → Action
  credentials_update_callback none = emit capture_error
  credentials_update_callback (some token) = update_credentials token true

  -- `IsAuthenticated`: the answer, and whether there was an error.
  unfoldable pub is_authenticated : Server → Bool × Bool
  unfolding text_eq
  is_authenticated s =
      if text_eq s.config.token []
      then (false, false)
      else elim (x.check_authentication s.provider s.config.token) [
        | none ↦ (false, true)
        | some user ↦ (true, false)
      ]
