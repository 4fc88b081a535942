-- ===== src/Agent/Oauth/Protocol.antt =====
-- src/orbita_agent/oauth.py: the values of the protocol library that `GitHubOAuthProvider` takes and
-- answers, and the helpers on texts.
use orbita_agent_research_se.Base.Texts.{concat}
use orbita_agent_research_se.Base.{
  ℕ, String, List, [], ◌∷◌, Bool, Option, none, some, if◌then◌else◌, distinct,
}
use orbita_agent_research_se.Base.Texts.{is_nonempty, sorted}

-- an `AnyUrl`
pub record RedirectUri : Type 0 where
  pub scheme : String
  pub host : Option String
  pub fragment : Option String

-- `OAuthClientInformationFull`, with what its `model_dump_json` answers
pub record ClientInfo : Type 0 where
  pub client_id : String
  pub redirect_uris : List RedirectUri
  pub metadata_json : String

pub record AuthorizationParams : Type 0 where
  pub state : Option String
  pub scopes : Option (List String)
  pub code_challenge : String
  pub redirect_uri : String
  pub redirect_uri_provided_explicitly : Bool
  pub resource : Option String

pub record AuthorizationCode : Type 0 where
  pub code : String
  pub scopes : List String
  pub expires_at : ℕ
  pub client_id : String
  pub code_challenge : String
  pub redirect_uri : String
  pub redirect_uri_provided_explicitly : Bool
  pub resource : Option String
  pub subject : Option String

pub record RefreshToken : Type 0 where
  pub token : String
  pub client_id : String
  pub scopes : List String
  pub expires_at : ℕ
  pub subject : Option String

pub record AccessToken : Type 0 where
  pub token : String
  pub client_id : String
  pub scopes : List String
  pub expires_at : ℕ
  pub resource : String
  pub subject : String

pub record OauthToken : Type 0 where
  pub access_token : String
  pub expires_in : ℕ
  pub scope : String
  pub refresh_token : String

-- the query of the callback
pub record Callback : Type 0 where
  pub state : String
  pub error : String
  pub code : String

-- the response to the callback
pub data Reply : Type 0 where
  missing_state expired_state failed : Reply
  error_redirect : (redirect_uri error : String) (client_state : Option String) → Reply
  code_redirect : (redirect_uri code : String) (client_state : Option String) → Reply

-- the secrets that one exchange draws
pub record Draws : Type 0 where
  pub access_token : String
  pub refresh_token : String
  pub grant_id : String

abbrev pub orbita_scope : String
orbita_scope = "orbita:use"

-- `value or default`
abbrev pub text_or_else : Option String → String → String
text_or_else none d = d
text_or_else (some s) d = if is_nonempty s then s else d

abbrev pub scopes_or : Option (List String) → List String → List String
scopes_or (some (x ∷ xs)) d = x ∷ xs
scopes_or _ d = d

-- `" ".join(scopes)`
unfoldable pub spaced : List String → String
spaced [] = ""
spaced (s ∷ []) = s
spaced (s ∷ t ∷ rest) = concat s (concat " " (spaced (t ∷ rest)))

-- `_scopes_json`, as the list
abbrev pub stored_scopes : List String → List String
stored_scopes scopes = sorted (distinct scopes)
