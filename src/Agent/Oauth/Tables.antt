-- ===== src/Agent/Oauth/Tables.antt =====
-- src/orbita_agent/oauth.py: the rows of the five tables, `_prune`, and the updates. A column with a
-- JSON list holds the list; a column of digests holds what `_token_hash` answers.
use orbita_agent_research_se.Base.{
  ℕ, String, List, [], ◌∷◌, map, filter, any, Bool, true, not, ◌&&◌, Option, none, some,
  if◌then◌else◌, ◌==◌, leb,
}

pub record ClientRow : Type 0 where
  pub client_id : String
  pub metadata_json : String
  pub created_at : ℕ

pub record Pending : Type 0 where
  pub state_hash : String
  pub client_id : String
  pub client_state : Option String
  pub scopes : List String
  pub code_challenge : String
  pub redirect_uri : String
  pub redirect_uri_provided : Bool
  pub resource : String
  pub expires_at : ℕ

pub record CodeRow : Type 0 where
  pub code_hash : String
  pub client_id : String
  pub scopes : List String
  pub expires_at : ℕ
  pub code_challenge : String
  pub redirect_uri : String
  pub redirect_uri_provided : Bool
  pub resource : String
  pub subject : String

pub record AccessRow : Type 0 where
  pub token_hash : String
  pub client_id : String
  pub scopes : List String
  pub expires_at : ℕ
  pub resource : String
  pub subject : String
  pub grant_id : String
  pub revoked : Bool

pub record RefreshRow : Type 0 where
  pub token_hash : String
  pub client_id : String
  pub scopes : List String
  pub expires_at : ℕ
  pub subject : String
  pub grant_id : String
  pub revoked : Bool

pub record Store : Type 0 where
  pub clients : List ClientRow
  pub pending : List Pending
  pub codes : List CodeRow
  pub access_tokens : List AccessRow
  pub refresh_tokens : List RefreshRow

-- the primary keys
abbrev pub client_key : ClientRow → String
client_key c = c.client_id

abbrev pub state_key : Pending → String
state_key p = p.state_hash

abbrev pub code_key : CodeRow → String
code_key c = c.code_hash

abbrev pub access_key : AccessRow → String
access_key t = t.token_hash

abbrev pub refresh_key : RefreshRow → String
refresh_key t = t.token_hash

-- `_prune`
unfoldable pub prune : ℕ → Store → Store
prune now s = record s {
  pending = filter (λ (p : Pending). leb now p.expires_at) s.pending;
  codes = filter (λ (c : CodeRow). leb now c.expires_at) s.codes;
  access_tokens = filter (λ (t : AccessRow). leb now t.expires_at && not t.revoked) s.access_tokens;
  refresh_tokens =
      filter (λ (t : RefreshRow). leb now t.expires_at && not t.revoked) s.refresh_tokens;
}

-- the foreign key to `oauth_clients`
unfoldable pub has_client : String → Store → Bool
has_client id s = any (λ (c : ClientRow). c.client_id == id) s.clients

-- `UPDATE oauth_access_tokens SET revoked = 1 WHERE grant_id = ?`
unfoldable pub revoke_access : String → List AccessRow → List AccessRow
revoke_access grant =
    map (λ (t : AccessRow). if t.grant_id == grant then record t { revoked = true } else t)

-- `UPDATE oauth_refresh_tokens SET revoked = 1 WHERE grant_id = ?`
unfoldable pub revoke_refresh : String → List RefreshRow → List RefreshRow
revoke_refresh grant =
    map (λ (t : RefreshRow). if t.grant_id == grant then record t { revoked = true } else t)

-- both updates
unfoldable pub revoke_grant : String → Store → Store
revoke_grant grant s = record s {
  access_tokens = revoke_access grant s.access_tokens;
  refresh_tokens = revoke_refresh grant s.refresh_tokens;
}

-- `SELECT * FROM oauth_codes WHERE code_hash = ? AND client_id = ?`
unfoldable pub find_code : String → String → List CodeRow → Option CodeRow
find_code hash client [] = none
find_code hash client (c ∷ cs) =
    if c.code_hash == hash && c.client_id == client then some c else find_code hash client cs

-- `SELECT * FROM oauth_refresh_tokens WHERE token_hash = ? AND client_id = ? AND revoked = 0`
unfoldable pub find_refresh : String → String → List RefreshRow → Option RefreshRow
find_refresh hash client [] = none
find_refresh hash client (t ∷ ts) =
    if t.token_hash == hash && t.client_id == client && not t.revoked
    then some t
    else find_refresh hash client ts

-- `SELECT * FROM oauth_access_tokens WHERE token_hash = ? AND revoked = 0`
unfoldable pub find_access : String → List AccessRow → Option AccessRow
find_access hash [] = none
find_access hash (t ∷ ts) =
    if t.token_hash == hash && not t.revoked then some t else find_access hash ts

-- `SELECT * FROM oauth_pending WHERE state_hash = ?`
unfoldable pub find_pending : String → List Pending → Option Pending
find_pending hash [] = none
find_pending hash (p ∷ ps) = if p.state_hash == hash then some p else find_pending hash ps

-- `SELECT grant_id FROM ... WHERE token_hash = ?`, of either table
unfoldable pub access_grant : String → List AccessRow → Option String
access_grant hash [] = none
access_grant hash (t ∷ ts) = if t.token_hash == hash then some t.grant_id else access_grant hash ts

unfoldable pub refresh_grant : String → List RefreshRow → Option String
refresh_grant hash [] = none
refresh_grant hash (t ∷ ts) =
    if t.token_hash == hash then some t.grant_id else refresh_grant hash ts
