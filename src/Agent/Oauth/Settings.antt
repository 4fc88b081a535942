-- ===== src/Agent/Oauth/Settings.antt =====
-- src/orbita_agent/oauth.py: what the constructor of `GitHubOAuthProvider` is given, and its checks.
-- `casefold` is `str.casefold`; a lifetime below zero is refused as zero is.
use orbita_agent_research_se.Base.Texts.{concat}
use Prim.Native.Char.{code}
use orbita_agent_research_se.Base.{nat_eq}
use orbita_agent_research_se.Base.{
  ℕ, String, List, map, filter, ◌&&◌, Result, ok, ◌>>◌, raise_if, guard, if◌then◌else◌, ◌==◌, leb,
  is_empty,
}
use orbita_agent_research_se.Base.Texts.{strip, is_nonempty}

pub data OauthError : Type 0 where
  bad_credentials no_allowed_user bad_access_ttl bad_refresh_ttl : OauthError
  no_client_id has_fragment not_https already_registered : OauthError
  bad_resource bad_scope other_client code_used refresh_used integrity : OauthError

-- the arguments of the constructor
pub record Arguments : Type 0 where
  pub public_url : String
  pub github_client_id : String
  pub github_client_secret : String
  pub allowed_github_users : List String
  pub access_token_ttl : ℕ
  pub refresh_token_ttl : ℕ

pub record Provider : Type 0 where
  pub resource_url : String
  pub allowed_github_users : List String
  pub access_token_ttl : ℕ
  pub refresh_token_ttl : ℕ

-- `s.rstrip("/")`
unfoldable pub rstrip_slash : String → String
rstrip_slash String.[] = String.[]
rstrip_slash (String.◌∷◌ c s) =
    let rest = rstrip_slash s in
    if nat_eq (code c) (code "/") && rest == "" then String.[] else String.◌∷◌ c rest

module _ (casefold : String → String) where
  allowed_users : List String → List String
  allowed_users users =
      map (λ (user : String). casefold (strip user))
        (filter (λ (user : String). is_nonempty (strip user)) users)

  -- `__init__`
  unfoldable pub new_provider : Arguments → Result OauthError Provider
  unfolding rstrip_slash allowed_users
  new_provider a = do
    let allowed = allowed_users a.allowed_github_users
    guard (is_nonempty a.github_client_id && is_nonempty a.github_client_secret) bad_credentials
    raise_if (is_empty allowed) no_allowed_user
    guard (leb 300 a.access_token_ttl && leb a.access_token_ttl 86400) bad_access_ttl
    guard (leb 3600 a.refresh_token_ttl && leb a.refresh_token_ttl 7776000) bad_refresh_ttl
    ok (record {
      resource_url = concat (rstrip_slash a.public_url) "/mcp";
      allowed_github_users = allowed;
      access_token_ttl = a.access_token_ttl;
      refresh_token_ttl = a.refresh_token_ttl;
    })
