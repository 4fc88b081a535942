-- ===== src/Agent/Oauth/Tokens.antt =====
-- src/orbita_agent/oauth.py: codes and tokens: they are loaded, exchanged and revoked.
use orbita_agent_research_se.Base.{
  ℕ, String, List, [], ◌∷◌, ◌++◌, filter, any, false, not, ◌&&◌, Option, none, some, Result, ok,
  err, ◌>>=◌, ◌>>◌, raise_if, guard, if◌then◌else◌, ◌==◌, is_some, ltb, ◌+◌,
}
use orbita_agent_research_se.Base.Texts.{is_nonempty}
use orbita_agent_research_se.Agent.Oauth.Settings.{
  Provider, OauthError, other_client, code_used, refresh_used, integrity,
}
use orbita_agent_research_se.Agent.Oauth.Protocol.{
  AuthorizationCode, RefreshToken, AccessToken, OauthToken, Draws, text_or_else, spaced,
  stored_scopes,
}
use orbita_agent_research_se.Agent.Oauth.Tables.{
  CodeRow, AccessRow, RefreshRow, Store, has_client, revoke_grant, find_code, find_refresh,
  find_access, access_grant, refresh_grant,
}

-- `DELETE FROM oauth_codes WHERE code_hash = ? AND client_id = ?`
abbrev pub without_code : (hash client_id : String) → Store → Store
without_code hash client_id s = record s {
  codes = filter (λ (c : CodeRow). not (c.code_hash == hash && c.client_id == client_id)) s.codes;
}

loaded_code : String → Option CodeRow → Option AuthorizationCode
loaded_code code none = none
loaded_code code (some row) = some (record {
  code = code;
  scopes = row.scopes;
  expires_at = row.expires_at;
  client_id = row.client_id;
  code_challenge = row.code_challenge;
  redirect_uri = row.redirect_uri;
  redirect_uri_provided_explicitly = row.redirect_uri_provided;
  resource = some row.resource;
  subject = some row.subject;
})

loaded_refresh : String → Option RefreshRow → Option RefreshToken
loaded_refresh token none = none
loaded_refresh token (some row) = some (record {
  token = token;
  client_id = row.client_id;
  scopes = row.scopes;
  expires_at = row.expires_at;
  subject = some row.subject;
})

-- `if row is None: raise`
abbrev pub or_used : Option RefreshRow → Result OauthError RefreshRow
or_used none = err refresh_used
or_used (some row) = ok row

-- the updates of `revoke_token`, if a row was found
abbrev pub revoke_found : Option String → Store → Store
revoke_found none s = s
revoke_found (some grant) s = revoke_grant grant s

-- `row is None or row["expires_at"] < int(time.time())`
unfoldable pub loaded_access : ℕ → String → Option AccessRow → Option AccessToken
loaded_access now token none = none
loaded_access now token (some row) =
    if ltb row.expires_at now
    then none
    else some (record {
      token = token;
      client_id = row.client_id;
      scopes = row.scopes;
      expires_at = row.expires_at;
      resource = row.resource;
      subject = row.subject;
    })

module _ (token_hash : String → String) (provider : Provider) where
  unfoldable pub load_authorization_code :
      (client_id authorization_code : String) → Store → Option AuthorizationCode
  unfolding loaded_code
  load_authorization_code client_id authorization_code s =
      if is_nonempty client_id
      then loaded_code authorization_code
          (find_code (token_hash authorization_code) client_id s.codes)
      else none

  abbrev pub access_row :
      Draws
      → (client_id : String) (scopes : List String) (resource subject : String) → ℕ
      → AccessRow
  access_row draws client_id scopes resource subject now = record {
    token_hash = token_hash draws.access_token;
    client_id = client_id;
    scopes = stored_scopes scopes;
    expires_at = now + provider.access_token_ttl;
    resource = resource;
    subject = subject;
    grant_id = draws.grant_id;
    revoked = false;
  }

  abbrev pub refresh_row :
      Draws → (client_id : String) (scopes : List String) (subject : String) → ℕ → RefreshRow
  refresh_row draws client_id scopes subject now = record {
    token_hash = token_hash draws.refresh_token;
    client_id = client_id;
    scopes = stored_scopes scopes;
    expires_at = now + provider.refresh_token_ttl;
    subject = subject;
    grant_id = draws.grant_id;
    revoked = false;
  }

  -- the two INSERTs of `_store_token_pair`
  abbrev pub with_pair :
      Draws
      → (client_id : String) (scopes : List String) (resource subject : String) → ℕ
      → Store
      → Store
  with_pair draws client_id scopes resource subject now s = record s {
    access_tokens = s.access_tokens ++ access_row draws client_id scopes resource subject now ∷ [];
    refresh_tokens = s.refresh_tokens ++ refresh_row draws client_id scopes subject now ∷ [];
  }

  unfoldable pub store_token_pair :
      Draws
      → (client_id : String) (scopes : List String) (resource subject : String) → ℕ
      → Store
      → Result OauthError Store
  unfolding has_client
  store_token_pair draws client_id scopes resource subject now s = do
    guard (has_client client_id s) integrity
    raise_if
        (any (λ (t : AccessRow). t.token_hash == token_hash draws.access_token) s.access_tokens)
        integrity
    raise_if
        (any (λ (t : RefreshRow). t.token_hash == token_hash draws.refresh_token) s.refresh_tokens)
        integrity
    ok (with_pair draws client_id scopes resource subject now s)

  answered_token : Draws → List String → OauthToken
  answered_token draws scopes = record {
    access_token = draws.access_token;
    expires_in = provider.access_token_ttl;
    scope = spaced scopes;
    refresh_token = draws.refresh_token;
  }

  unfoldable pub exchange_authorization_code :
      Draws
      → ℕ
      → (client_id : String) → AuthorizationCode
      → Store
      → Result OauthError (OauthToken × Store)
  unfolding store_token_pair answered_token
  exchange_authorization_code draws now client_id code s = do
    guard (is_nonempty client_id && code.client_id == client_id) other_client
    guard (is_some (find_code (token_hash code.code) client_id s.codes)) code_used
    let deleted = without_code (token_hash code.code) client_id s
    stored ←
        store_token_pair draws client_id code.scopes
          (text_or_else code.resource provider.resource_url)
          (text_or_else code.subject "github:unknown") now deleted
    ok (answered_token draws code.scopes, stored)

  unfoldable pub load_refresh_token :
      (client_id refresh_token : String) → Store → Option RefreshToken
  unfolding loaded_refresh
  load_refresh_token client_id refresh_token s =
      if is_nonempty client_id
      then loaded_refresh refresh_token
          (find_refresh (token_hash refresh_token) client_id s.refresh_tokens)
      else none

  unfoldable pub exchange_refresh_token :
      Draws
      → ℕ
      → (client_id : String) → RefreshToken
      → (scopes : List String) → Store
      → Result OauthError (OauthToken × Store)
  unfolding store_token_pair answered_token revoke_grant
  exchange_refresh_token draws now client_id token scopes s = do
    guard (is_nonempty client_id && token.client_id == client_id) other_client
    row ← or_used (find_refresh (token_hash token.token) client_id s.refresh_tokens)
    stored ←
        store_token_pair draws client_id scopes provider.resource_url
          (text_or_else token.subject "github:unknown") now (revoke_grant row.grant_id s)
    ok (answered_token draws scopes, stored)

  unfoldable pub load_access_token : ℕ → (token : String) → Store → Option AccessToken
  unfolding loaded_access
  load_access_token now token s =
      loaded_access now token (find_access (token_hash token) s.access_tokens)

  -- `revoke_token` of an access token, and of a refresh token
  unfoldable pub revoke_access_token : (token : String) → Store → Store
  unfolding revoke_grant
  revoke_access_token token s = revoke_found (access_grant (token_hash token) s.access_tokens) s

  unfoldable pub revoke_refresh_token : (token : String) → Store → Store
  unfolding revoke_grant
  revoke_refresh_token token s = revoke_found (refresh_grant (token_hash token) s.refresh_tokens) s
