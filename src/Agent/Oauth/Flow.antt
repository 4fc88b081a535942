-- ===== src/Agent/Oauth/Flow.antt =====
-- src/orbita_agent/oauth.py: registration, the sign-in and its callback. The secrets that a call
-- draws, the time and the answer of GitHub are its arguments; `token_hash` is `_token_hash`, `str_of`
-- is python's `str` of a JSON value. A method that raises leaves the tables as they were, since its
-- transaction is rolled back; `github_callback` has two, so it answers the tables in any case.
use orbita_agent_research_se.Base.Texts.{concat}
use orbita_agent_research_se.Base.{
  ℕ, String, List, [], ◌∷◌, ◌++◌, filter, any, Bool, true, false, not, ◌&&◌, ◌||◌, Option, none,
  some, Result, ok, ◌>>◌, raise_if, guard, if◌then◌else◌, ◌==◌, elem, is_some, ◌+◌,
}
use orbita_agent_research_se.Base.Texts.{is_nonempty}
use orbita_agent_research_se.Base.Json.{Json, null, Fields, get}
use orbita_agent_research_se.Agent.Oauth.Settings.{
  Provider, OauthError, rstrip_slash, no_client_id, has_fragment, not_https, already_registered,
  bad_resource, bad_scope, integrity,
}
use orbita_agent_research_se.Agent.Oauth.Protocol.{
  RedirectUri, ClientInfo, AuthorizationParams, Callback, Reply, missing_state, expired_state,
  failed, error_redirect, code_redirect, orbita_scope, text_or_else, scopes_or, stored_scopes,
}
use orbita_agent_research_se.Agent.Oauth.Tables.{
  ClientRow, Pending, CodeRow, Store, prune, has_client, find_pending,
}

abbrev is_null : Json → Bool
is_null null = true
is_null _ = false

abbrev has_fragment_text : Option String → Bool
has_fragment_text none = false
has_fragment_text (some s) = is_nonempty s

module _ (casefold : String → String) where
  is_loopback : RedirectUri → Bool
  is_loopback uri =
      casefold uri.scheme == "http"
      && elem (casefold (text_or_else uri.host "")) ("localhost" ∷ "127.0.0.1" ∷ "::1" ∷ [])

  -- the loop over the redirect URIs
  unfoldable pub check_redirect_uris : List RedirectUri → Result OauthError (Unit {0})
  unfolding is_loopback
  check_redirect_uris [] = ok tt
  check_redirect_uris (uri ∷ uris) = do
    raise_if (has_fragment_text uri.fragment) has_fragment
    guard (casefold uri.scheme == "https" || is_loopback uri) not_https
    check_redirect_uris uris

  unfoldable pub register_client : ℕ → ClientInfo → Store → Result OauthError Store
  unfolding check_redirect_uris has_client
  register_client now info s = do
    guard (is_nonempty info.client_id) no_client_id
    check_redirect_uris info.redirect_uris
    raise_if (has_client info.client_id s) already_registered
    let row : ClientRow = record {
      client_id = info.client_id;
      metadata_json = info.metadata_json;
      created_at = now;
    }
    ok (record s { clients = s.clients ++ row ∷ [] })

module _ (token_hash : String → String) (provider : Provider) where
  abbrev pub pending_row :
      ℕ → (github_state client_id resource : String) → List String → AuthorizationParams → Pending
  pending_row now github_state client_id resource scopes params = record {
    state_hash = token_hash github_state;
    client_id = client_id;
    client_state = params.state;
    scopes = stored_scopes scopes;
    code_challenge = params.code_challenge;
    redirect_uri = params.redirect_uri;
    redirect_uri_provided = params.redirect_uri_provided_explicitly;
    resource = resource;
    expires_at = now + 600;
  }

  -- `authorize`; the URL that it answers carries `github_state`
  unfoldable pub authorize :
      ℕ → (github_state client_id : String) → AuthorizationParams → Store → Result OauthError Store
  unfolding prune has_client
  authorize now github_state client_id params s = do
    guard (is_nonempty client_id) no_client_id
    let resource = rstrip_slash (text_or_else params.resource provider.resource_url)
    guard (resource == provider.resource_url) bad_resource
    let scopes = scopes_or params.scopes (orbita_scope ∷ [])
    guard (elem orbita_scope scopes) bad_scope
    let pruned = prune now s
    guard (has_client client_id pruned) integrity
    raise_if (is_some (find_pending (token_hash github_state) pruned.pending)) integrity
    let row = pending_row now github_state client_id resource scopes params
    ok (record pruned { pending = pruned.pending ++ row ∷ [] })

  abbrev pub code_row : ℕ → (authorization_code subject : String) → Pending → CodeRow
  code_row now authorization_code subject p = record {
    code_hash = token_hash authorization_code;
    client_id = p.client_id;
    scopes = p.scopes;
    expires_at = now + 300;
    code_challenge = p.code_challenge;
    redirect_uri = p.redirect_uri;
    redirect_uri_provided = p.redirect_uri_provided;
    resource = p.resource;
    subject = subject;
  }

  -- the INSERT violates a constraint: the primary key or the foreign key
  unfoldable pub code_refused : (authorization_code : String) → Pending → Store → Bool
  unfolding has_client
  code_refused authorization_code p s =
      any (λ (c : CodeRow). c.code_hash == token_hash authorization_code) s.codes
      || not (has_client p.client_id s)

  -- the transaction of `github_callback` that inserts the code
  unfoldable pub insert_code :
      ℕ → (authorization_code subject : String) → Pending → Store → Reply × Store
  unfolding code_refused
  insert_code now authorization_code subject p s =
      if code_refused authorization_code p s then (failed, s) else (
        code_redirect p.redirect_uri authorization_code p.client_state,
        record s { codes = s.codes ++ code_row now authorization_code subject p ∷ [] },
      )

  -- the first transaction of `github_callback`
  unfoldable pub take_pending : ℕ → (raw_state : String) → Store → Option Pending × Store
  unfolding prune
  take_pending now raw_state s =
      let pruned = prune now s in
      (
        find_pending (token_hash raw_state) pruned.pending,
        record pruned {
          pending =
              filter (λ (p : Pending). not (p.state_hash == token_hash raw_state)) pruned.pending;
        },
      )

  -- an allowed GitHub account: its subject and its login
  unfoldable pub github_identity :
      (str_of : Json → String) → (casefold : String → String) → Fields → Option (String × String)
  unfolding concat
  github_identity str_of casefold user =
      let login : String = elim (get user "login") [ none ↦ "" | some v ↦ str_of v ] in
      elim (get user "id") [
        | none ↦ none
        | some id ↦
            if is_nonempty login
              && not (is_null id)
              && elem (casefold login) provider.allowed_github_users
            then some (concat "github:" (str_of id), login)
            else none
      ]

  -- the rest of `github_callback`, with what `_on_identity` is called with; `fetched` is what
  -- `_fetch_github_user` answers, `none` where it raises
  unfoldable pub finish_callback :
      (str_of : Json → String) (casefold : String → String)
      → ℕ
      → (authorization_code : String) → Callback
      → (fetched : Option Fields) → Pending
      → Store
      → Reply × Option (String × String) × Store
  unfolding github_identity insert_code
  finish_callback str_of casefold now authorization_code query fetched p s =
      if is_nonempty query.error || not (is_nonempty query.code)
      then (error_redirect p.redirect_uri "access_denied" p.client_state, none, s)
      else elim fetched [
        | none ↦ (error_redirect p.redirect_uri "temporarily_unavailable" p.client_state, none, s)
        | some user ↦ elim (github_identity str_of casefold user) [
          | none ↦ (error_redirect p.redirect_uri "access_denied" p.client_state, none, s)
          | some (subject, login) ↦
              let (reply, t) = insert_code now authorization_code subject p s in
              (reply, some (subject, login), t)
        ]
      ]

  unfoldable pub github_callback :
      (str_of : Json → String) (casefold : String → String)
      → ℕ
      → (authorization_code : String) → Callback
      → (fetched : Option Fields) → Store
      → Reply × Option (String × String) × Store
  unfolding take_pending finish_callback
  github_callback str_of casefold now authorization_code query fetched s =
      if is_nonempty query.state
      then (let (found, t) = take_pending now query.state s in
          elim found [
            | none ↦ (expired_state, none, t)
            | some p ↦ finish_callback str_of casefold now authorization_code query fetched p t
          ])
      else (missing_state, none, s)
