-- ===== src/Agent/Oauth/Tests.antt =====
-- Runs of the OAuth provider on small inputs, and the theorems at them.
use orbita_agent_research_se.Base.{
  ℕ, String, List, [], ◌∷◌, true, false, none, some, ok, err, ◌≡◌, refl, any, filter, elem,
  distinct, All, arith, ◌≤◌,
}
use orbita_agent_research_se.Base.Texts.{strip, sorted, concat}
use orbita_agent_research_se.Base.Json.{Json, str, Fields, empty, field, get}
use orbita_agent_research_se.Base.{◌+◌, ◌==◌, ◌≢◌, eq_iff}
use orbita_agent_research_se.Agent.Oauth.Settings.{code_used, refresh_used}
use orbita_agent_research_se.Agent.Oauth.Protocol.{spaced}
use orbita_agent_research_se.Agent.Oauth.Tables.{revoke_access, revoke_refresh}
use orbita_agent_research_se.Agent.Oauth.Requests.{after, revoke_one}
use orbita_agent_research_se.Agent.Oauth.Keyed.{IsKeyed}
use orbita_agent_research_se.Agent.Oauth.Changes.{IsAllowed}
use orbita_agent_research_se.Agent.Oauth.Final.{
  exchange_authorization_code-once, exchange_refresh_token-rotates, revoke_access_token-stays,
  serve_all-IsKeyed,
}
use orbita_agent_research_se.Agent.Oauth.Identified.{
  IsIdentified, IsKnown, load_access_token-IsKnown,
}
use orbita_agent_research_se.Agent.Oauth.Lifetimes.{AreShortLived, load_access_token-le}
use orbita_agent_research_se.Agent.Oauth.Settings.{Arguments, Provider, new_provider, rstrip_slash}
use orbita_agent_research_se.Agent.Oauth.Protocol.{
  ClientInfo, AuthorizationParams, AuthorizationCode, RefreshToken, AccessToken, OauthToken, Draws,
}
use orbita_agent_research_se.Agent.Oauth.Tables.{
  prune, has_client, revoke_grant, find_code, find_refresh, find_access, find_pending, access_grant,
  refresh_grant,
}
use orbita_agent_research_se.Agent.Oauth.Flow.{register_client, authorize, github_callback}
use orbita_agent_research_se.Agent.Oauth.Tokens.{
  load_authorization_code, exchange_authorization_code, load_refresh_token, exchange_refresh_token,
  load_access_token, revoke_access_token,
}
use orbita_agent_research_se.Agent.Oauth.Requests.{
  Request, register, sign_in, come_back, redeem, World, serve_all,
}

abbrev same : String → String
same s = s

abbrev shown : Json → String
shown (str s) = s
shown _ = "7"

abbrev arguments : Arguments
arguments = record {
  public_url = "https://orbita/";
  github_client_id = "id";
  github_client_secret = "secret";
  allowed_github_users = " ann " ∷ [];
  access_token_ttl = 3600;
  refresh_token_ttl = 7200;
}

abbrev provider : Provider
provider = record {
  resource_url = "https://orbita/mcp";
  allowed_github_users = "ann" ∷ [];
  access_token_ttl = 3600;
  refresh_token_ttl = 7200;
}

provided : new_provider same arguments ≡ ok provider
unfolding new_provider strip filter concat
provided = refl

abbrev start : World
start = record {
  store = record {
    clients = [];
    pending = [];
    codes = [];
    access_tokens = [];
    refresh_tokens = [];
  };
  seen = [];
}

abbrev chat : ClientInfo
chat = record {
  client_id = "chat";
  redirect_uris = record { scheme = "https"; host = some "chat"; fragment = none } ∷ [];
  metadata_json = "{}";
}

abbrev params : AuthorizationParams
params = record {
  state = some "s";
  scopes = none;
  code_challenge = "x";
  redirect_uri = "https://chat";
  redirect_uri_provided_explicitly = true;
  resource = none;
}

abbrev ann : Fields
ann = field "login" (str "ann") (field "id" (str "7") empty)

abbrev draws_1 : Draws
draws_1 = record { access_token = "a1"; refresh_token = "r1"; grant_id = "g1" }

abbrev draws_2 : Draws
draws_2 = record { access_token = "a2"; refresh_token = "r2"; grant_id = "g2" }

abbrev signing_in : List (ℕ × Request)
signing_in =
    (1, register chat)
    ∷ (2, sign_in "gs" "chat" params)
    ∷ (3, come_back "c1" (record { state = "gs"; error = ""; code = "gc" }) (some ann))
    ∷ []

abbrev with_code : World
with_code = serve_all same same shown provider signing_in start

abbrev code_1 : AuthorizationCode
code_1 = record {
  code = "c1";
  scopes = "orbita:use" ∷ [];
  expires_at = 303;
  client_id = "chat";
  code_challenge = "x";
  redirect_uri = "https://chat";
  redirect_uri_provided_explicitly = true;
  resource = some "https://orbita/mcp";
  subject = some "github:7";
}

loaded_1 : load_authorization_code same provider "chat" "c1" with_code.store ≡ some code_1
unfolding load_authorization_code exchange_authorization_code load_refresh_token
    exchange_refresh_token load_access_token revoke_access_token serve_all register_client authorize
    github_callback prune has_client any filter find_pending find_code find_refresh find_access
    access_grant refresh_grant revoke_grant revoke_access revoke_refresh elem sorted distinct get
    concat rstrip_slash spaced
loaded_1 = refl

abbrev token_of : String → String → OauthToken
token_of first second = record {
  access_token = first;
  expires_in = 3600;
  scope = "orbita:use";
  refresh_token = second;
}

abbrev with_tokens : World
with_tokens = record with_code {
  store =
      after with_code.store
        (exchange_authorization_code same provider draws_1 10 "chat" code_1 with_code.store);
}

exchanged_1 :
    exchange_authorization_code same provider draws_1 10 "chat" code_1 with_code.store
    ≡ ok (token_of "a1" "r1", with_tokens.store)
unfolding load_authorization_code exchange_authorization_code load_refresh_token
    exchange_refresh_token load_access_token revoke_access_token serve_all register_client authorize
    github_callback prune has_client any filter find_pending find_code find_refresh find_access
    access_grant refresh_grant revoke_grant revoke_access revoke_refresh elem sorted distinct get
    concat rstrip_slash spaced
exchanged_1 = refl

differ : (s t : String) → (s == t) ≡ false → s ≢ t
differ s t h e = ground (arith, eq_iff s t)

-- a second sign-in, and a revocation of an unknown token
abbrev later : List (ℕ × Request)
later =
    (20, sign_in "gs2" "chat" params)
    ∷ (30, come_back "c2" (record { state = "gs2"; error = ""; code = "gc" }) (some ann))
    ∷ (40, revoke_one "zz")
    ∷ []

exchange_authorization_code-once_example :
    (load_authorization_code same provider "chat" "c1"
        (serve_all same same shown provider later with_tokens).store
      ≡ none)
    × (exchange_authorization_code same provider draws_2 50 "chat" code_1
          (serve_all same same shown provider later with_tokens).store
        ≡ err code_used)
exchange_authorization_code-once_example =
    exchange_authorization_code-once same same shown provider draws_1 draws_2 10 50 "chat" code_1
      (token_of "a1" "r1") with_code with_tokens later exchanged_1
      (tt, (differ "c2" "c1" refl, (tt, tt)))

abbrev refresh_1 : RefreshToken
refresh_1 = record {
  token = "r1";
  client_id = "chat";
  scopes = "orbita:use" ∷ [];
  expires_at = 7210;
  subject = some "github:7";
}

abbrev with_new_tokens : World
with_new_tokens = record with_tokens {
  store = after with_tokens.store (
      exchange_refresh_token same provider draws_2 100 "chat" refresh_1 ("orbita:use" ∷ [])
        with_tokens.store);
}

exchanged_2 :
    exchange_refresh_token same provider draws_2 100 "chat" refresh_1
      ("orbita:use" ∷ [])
      with_tokens.store
    ≡ ok (token_of "a2" "r2", with_new_tokens.store)
unfolding load_authorization_code exchange_authorization_code load_refresh_token
    exchange_refresh_token load_access_token revoke_access_token serve_all register_client authorize
    github_callback prune has_client any filter find_pending find_code find_refresh find_access
    access_grant refresh_grant revoke_grant revoke_access revoke_refresh elem sorted distinct get
    concat rstrip_slash spaced
exchanged_2 = refl

with_tokens-IsKeyed : IsKeyed with_tokens.store
unfolding load_authorization_code exchange_authorization_code load_refresh_token
    exchange_refresh_token load_access_token revoke_access_token serve_all register_client authorize
    github_callback prune has_client any filter find_pending find_code find_refresh find_access
    access_grant refresh_grant revoke_grant revoke_access revoke_refresh elem sorted distinct get
    concat rstrip_slash spaced
with_tokens-IsKeyed = record {
  clients = (refl, tt);
  pending = tt;
  codes = tt;
  access = (refl, tt);
  refresh = (refl, tt);
}

grant_1 :
    (refresh_grant "r1" with_tokens.store.refresh_tokens ≡ some "g1")
    × (access_grant "a1" with_tokens.store.access_tokens ≡ some "g1")
unfolding load_authorization_code exchange_authorization_code load_refresh_token
    exchange_refresh_token load_access_token revoke_access_token serve_all register_client authorize
    github_callback prune has_client any filter find_pending find_code find_refresh find_access
    access_grant refresh_grant revoke_grant revoke_access revoke_refresh elem sorted distinct get
    concat rstrip_slash spaced
grant_1 = (refl, refl)

exchange_refresh_token-rotates_example :
    (load_refresh_token same provider "chat" "r1"
        (serve_all same same shown provider later with_new_tokens).store
      ≡ none)
    × (exchange_refresh_token same provider draws_1 200 "chat" refresh_1 []
          (serve_all same same shown provider later with_new_tokens).store
        ≡ err refresh_used)
    × (load_access_token same provider 200 "a1"
          (serve_all same same shown provider later with_new_tokens).store
        ≡ none)
exchange_refresh_token-rotates_example =
    exchange_refresh_token-rotates same same shown provider draws_2 draws_1 100 200 "chat" refresh_1
      ("orbita:use" ∷ []) [] "a1" "g1" (token_of "a2" "r2") with_tokens with_new_tokens later
      with_tokens-IsKeyed exchanged_2 grant_1.0 grant_1.1 (tt, (differ "c2" "r1" refl, (tt, tt)))
      (tt, (differ "c2" "a1" refl, (tt, tt))) (differ "r2" "r1" refl) (differ "a2" "a1" refl)

abbrev without_tokens : World
without_tokens = record with_tokens {
  store = revoke_access_token same provider "a1" with_tokens.store;
}

revoke_access_token-stays_example :
    load_access_token same provider 60 "a1"
      (serve_all same same shown provider later without_tokens).store
    ≡ none
revoke_access_token-stays_example =
    revoke_access_token-stays same same shown provider "a1" 60 with_tokens without_tokens later
      with_tokens-IsKeyed refl (tt, (differ "c2" "a1" refl, (tt, tt)))

start-IsIdentified : IsIdentified same same shown provider start
start-IsIdentified = record { seen = tt; codes = tt; access = tt; refresh = tt }

abbrev whole : List (ℕ × Request)
whole =
    (1, register chat)
    ∷ (2, sign_in "gs" "chat" params)
    ∷ (3, come_back "c1" (record { state = "gs"; error = ""; code = "gc" }) (some ann))
    ∷ (10, redeem draws_1 "chat" "c1" (λ _. true))
    ∷ []

abbrev access_1 : AccessToken
access_1 = record {
  token = "a1";
  client_id = "chat";
  scopes = "orbita:use" ∷ [];
  expires_at = 3610;
  resource = "https://orbita/mcp";
  subject = "github:7";
}

loaded_2 :
    load_access_token same provider 3610 "a1" (serve_all same same shown provider whole start).store
    ≡ some access_1
unfolding load_authorization_code exchange_authorization_code load_refresh_token
    exchange_refresh_token load_access_token revoke_access_token serve_all register_client authorize
    github_callback prune has_client any filter find_pending find_code find_refresh find_access
    access_grant refresh_grant revoke_grant revoke_access revoke_refresh elem sorted distinct get
    concat rstrip_slash spaced
loaded_2 = refl

start-IsKeyed : IsKeyed start.store
start-IsKeyed = record { clients = tt; pending = tt; codes = tt; access = tt; refresh = tt }

serve_all-IsKeyed_example : IsKeyed (serve_all same same shown provider whole start).store
serve_all-IsKeyed_example = serve_all-IsKeyed same same shown provider whole start start-IsKeyed

load_access_token-IsKnown_example :
    IsKnown (serve_all same same shown provider whole start).seen "github:7"
    × All (IsAllowed same same shown provider) (serve_all same same shown provider whole start).seen
load_access_token-IsKnown_example =
    load_access_token-IsKnown same same shown provider whole start 3610 "a1" access_1
      start-IsIdentified loaded_2

start-AreShortLived : AreShortLived 10 start.store
start-AreShortLived = record { codes = tt; access = tt; refresh = tt }

load_access_token-le_example : 3610 ≤ 10 + 86400
load_access_token-le_example =
    load_access_token-le same same shown provider arguments 10 3610 whole start "a1" access_1
      provided (omega arith, (omega arith, (omega arith, (omega arith, tt)))) start-AreShortLived
      loaded_2
