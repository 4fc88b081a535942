-- ===== src/Agent/Oauth/Requests.antt =====
-- src/orbita_agent/oauth.py: the requests that the protocol library hands to the provider, one after
-- the other. For a grant the library loads the code or the refresh token, makes checks of its own
-- (the time, the redirect URI, the verifier: `passes`), and exchanges it.
use orbita_agent_research_se.Base.{
  ℕ, String, List, [], ◌∷◌, Bool, Option, none, some, Result, ok, err, if◌then◌else◌,
}
use orbita_agent_research_se.Base.Json.{Json, Fields}
use orbita_agent_research_se.Agent.Oauth.Settings.{Provider, OauthError}
use orbita_agent_research_se.Agent.Oauth.Protocol.{
  ClientInfo, AuthorizationParams, AuthorizationCode, RefreshToken, Callback, Draws,
}
use orbita_agent_research_se.Agent.Oauth.Tables.{Store}
use orbita_agent_research_se.Agent.Oauth.Flow.{register_client, authorize, github_callback}
use orbita_agent_research_se.Agent.Oauth.Tokens.{
  load_authorization_code, exchange_authorization_code, load_refresh_token, exchange_refresh_token,
  revoke_access_token, revoke_refresh_token,
}

pub data Request : Type 0 where
  register : ClientInfo → Request
  sign_in : (github_state client_id : String) → AuthorizationParams → Request
  come_back : (authorization_code : String) → Callback → (fetched : Option Fields) → Request
  redeem : Draws → (client_id raw_code : String) → (passes : AuthorizationCode → Bool) → Request
  refresh :
      Draws
      → (client_id raw_token : String) → (scopes : List String) → (passes : RefreshToken → Bool)
      → Request
  revoke_one : (access_token : String) → Request
  revoke_other : (refresh_token : String) → Request

-- the tables, and the subjects and logins that `_on_identity` was called with
pub record World : Type 0 where
  pub store : Store
  pub seen : List (String × String)

abbrev pub after {ℓ} : {A : Type ℓ} → Store → Result OauthError (A × Store) → Store
after s (ok (a, t)) = t
after s (err e) = s

abbrev pub after_store : Store → Result OauthError Store → Store
after_store s (ok t) = t
after_store s (err e) = s

abbrev pub note_identity :
    Option (String × String) → List (String × String) → List (String × String)
note_identity none seen = seen
note_identity (some x) seen = x ∷ seen

module _ (token_hash casefold : String → String) (str_of : Json → String)
    (provider : Provider) where
  abbrev pub redeemed :
      Draws
      → ℕ
      → (client_id : String) → (passes : AuthorizationCode → Bool) → Option AuthorizationCode
      → Store
      → Store
  redeemed draws now client_id passes none s = s
  redeemed draws now client_id passes (some code) s =
      if passes code
      then after s (exchange_authorization_code token_hash provider draws now client_id code s)
      else s

  abbrev pub refreshed :
      Draws
      → ℕ
      → (client_id : String) → (scopes : List String) → (passes : RefreshToken → Bool)
      → Option RefreshToken
      → Store
      → Store
  refreshed draws now client_id scopes passes none s = s
  refreshed draws now client_id scopes passes (some token) s =
      if passes token
      then after s (exchange_refresh_token token_hash provider draws now client_id token scopes s)
      else s

  unfoldable pub serve : ℕ → Request → World → World
  serve now (register info) w = record w {
    store = after_store w.store (register_client casefold now info w.store);
  }
  serve now (sign_in state client_id params) w = record w {
    store = after_store w.store (authorize token_hash provider now state client_id params w.store);
  }
  serve now (come_back code query fetched) w =
      let (reply, seen, s) =
        github_callback token_hash provider str_of casefold now code query fetched w.store in
      record { store = s; seen = note_identity seen w.seen }
  serve now (redeem draws client_id raw passes) w = record w {
    store =
        redeemed draws now client_id passes
          (load_authorization_code token_hash provider client_id raw w.store) w.store;
  }
  serve now (refresh draws client_id raw scopes passes) w = record w {
    store =
        refreshed draws now client_id scopes passes
          (load_refresh_token token_hash provider client_id raw w.store) w.store;
  }
  serve now (revoke_one token) w = record w {
    store = revoke_access_token token_hash provider token w.store;
  }
  serve now (revoke_other token) w = record w {
    store = revoke_refresh_token token_hash provider token w.store;
  }

  unfoldable pub serve_all : List (ℕ × Request) → World → World
  unfolding serve
  serve_all [] w = w
  serve_all ((now, q) ∷ rest) w = serve_all rest (serve now q w)
