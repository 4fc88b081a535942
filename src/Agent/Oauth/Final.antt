-- ===== src/Agent/Oauth/Final.antt =====
-- src/orbita_agent/oauth.py: a code is redeemed once, a refresh token is used once and takes the
-- access tokens of its grant with it, and what is revoked stays revoked, whatever requests follow.
use orbita_agent_research_se.Base.{
  ℕ, String, List, [], ◌∷◌, ◌&&◌, Option, none, some, ok, err, ◌≡◌, refl, ◌≢◌, All, All-append,
  All-imp, subst, arith, ◌==◌, eq_iff,
}
use orbita_agent_research_se.Base.Json.{Json}
use orbita_agent_research_se.Agent.Oauth.Settings.{Provider}
use orbita_agent_research_se.Agent.Oauth.Protocol.{
  AuthorizationCode, RefreshToken, OauthToken, Draws,
}
use orbita_agent_research_se.Agent.Oauth.Tables.{
  AccessRow, RefreshRow, Store, revoke_access, revoke_refresh, revoke_grant, access_grant,
}
use orbita_agent_research_se.Agent.Oauth.Requests.{Request, World, serve, serve_all}
use orbita_agent_research_se.Agent.Oauth.Changes.{Avoids, serve-Change}
use orbita_agent_research_se.Base.{guard-ok, sym}
use orbita_agent_research_se.Base.Texts.{is_nonempty}
use orbita_agent_research_se.Agent.Oauth.Changes.{
  exchange_authorization_code-ok, exchange_refresh_token-ok,
}
use orbita_agent_research_se.Agent.Oauth.Tokens.{revoke_found}
use orbita_agent_research_se.Agent.Oauth.Settings.{code_used, refresh_used, other_client}
use orbita_agent_research_se.Agent.Oauth.Tokens.{
  exchange_authorization_code, exchange_refresh_token, load_authorization_code, load_refresh_token,
  load_access_token, revoke_access_token,
}
use orbita_agent_research_se.Agent.Oauth.Tables.{refresh_grant}
use orbita_agent_research_se.Agent.Oauth.Keyed.{
  IsKeyed, Change-IsKeyed, find_refresh-only, access_grant-only, no_access_grant,
}
use orbita_agent_research_se.Agent.Oauth.Spent.{
  Spent, Dead, DeadRefresh, Change-Spent, Change-Dead, Change-DeadRefresh, delete-Spent,
  find_code-Spent, find_access-Dead, find_refresh-DeadRefresh,
}

revoke_access-Dead :
    (hash grant : String) (ts : List AccessRow)
    → All (λ (t : AccessRow). t.token_hash ≡ hash → t.grant_id ≡ grant) ts
    → All (Dead hash) (revoke_access grant ts)
unfolding revoke_access
revoke_access-Dead hash grant [] h = tt
revoke_access-Dead hash grant (t ∷ ts) h =
    (λ own. ground (arith, h.0, eq_iff t.grant_id grant), revoke_access-Dead hash grant ts h.1)

revoke_refresh-DeadRefresh :
    (hash grant : String) (ts : List RefreshRow)
    → All (λ (t : RefreshRow). t.token_hash ≡ hash → t.grant_id ≡ grant) ts
    → All (DeadRefresh hash) (revoke_refresh grant ts)
unfolding revoke_refresh
revoke_refresh-DeadRefresh hash grant [] h = tt
revoke_refresh-DeadRefresh hash grant (t ∷ ts) h = (
  λ own. ground (arith, h.0, eq_iff t.grant_id grant),
  revoke_refresh-DeadRefresh hash grant ts h.1,
)

refresh_grant-same :
    (hash g grant : String) (ts : List RefreshRow)
    → All (λ (t : RefreshRow). t.token_hash ≡ hash → t.grant_id ≡ g) ts
    → refresh_grant hash ts ≡ some grant
    → g ≡ grant
unfolding refresh_grant
refresh_grant-same hash g grant [] h e = cc
refresh_grant-same hash g grant (t ∷ ts) h e =
    ground (arith, h.0, eq_iff t.token_hash hash, refresh_grant-same hash g grant ts h.1)

revoke_found-Dead :
    (hash : String) (s : Store) (o : Option String)
    → IsKeyed s
    → access_grant hash s.access_tokens ≡ o
    → All (Dead hash) (revoke_found o s).access_tokens
unfolding revoke_grant
revoke_found-Dead hash s none keyed e =
    All-imp _ _ s.access_tokens (λ t other own. absurd (other own))
      (no_access_grant hash s.access_tokens e)
revoke_found-Dead hash s (some grant) keyed e =
    revoke_access-Dead hash grant s.access_tokens
      (access_grant-only hash grant s.access_tokens keyed.access e)

module _ (token_hash casefold : String → String) (str_of : Json → String)
    (provider : Provider) where
  abbrev after_requests : List (ℕ × Request) → World → World
  after_requests = serve_all token_hash casefold str_of provider

  -- what each request keeps, under a condition on it, every sequence of them keeps
  serve_all-keeps :
      (P : World → Type 0) (C : Request → Type 0)
      → ((now : ℕ) (q : Request) (w : World)
          → C q
          → P w
          → P (serve token_hash casefold str_of provider now q w))
      → (qs : List (ℕ × Request)) (w : World) → All (λ (e : ℕ × Request). C e.1) qs
      → P w
      → P (after_requests qs w)
  unfolding serve_all
  serve_all-keeps P C keep [] w c h = h
  serve_all-keeps P C keep ((now, q) ∷ qs) w c h =
      serve_all-keeps P C keep qs (serve token_hash casefold str_of provider now q w) c.1
        (keep now q w c.0 h)

  abbrev pub AllAvoid : String → List (ℕ × Request) → Type 0
  AllAvoid hash qs = All (λ (e : ℕ × Request). Avoids token_hash hash e.1) qs

  -- The primary keys of the five tables hold in every state that requests reach from one where they
  -- hold.
  pub serve_all-IsKeyed :
      (qs : List (ℕ × Request)) (w : World) → IsKeyed w.store → IsKeyed (after_requests qs w).store
  unfolding serve_all
  serve_all-IsKeyed [] w h = h
  serve_all-IsKeyed ((now, q) ∷ qs) w h =
      serve_all-IsKeyed qs (serve token_hash casefold str_of provider now q w) (
        Change-IsKeyed token_hash casefold str_of provider now q
          (serve-Change token_hash casefold str_of provider now q w) h)

  stays-Dead :
      (hash : String) (v : World) (qs : List (ℕ × Request))
      → AllAvoid hash qs
      → All (Dead hash) v.store.access_tokens
      → All (Dead hash) (after_requests qs v).store.access_tokens
  stays-Dead hash v qs avoid h =
      serve_all-keeps (λ (x : World). All (Dead hash) x.store.access_tokens)
        (Avoids token_hash hash)
        (λ t q x c p.
          Change-Dead token_hash casefold str_of provider t q hash c
            (serve-Change token_hash casefold str_of provider t q x) p)
        qs v avoid h

  stays-DeadRefresh :
      (hash : String) (v : World) (qs : List (ℕ × Request))
      → AllAvoid hash qs
      → All (DeadRefresh hash) v.store.refresh_tokens
      → All (DeadRefresh hash) (after_requests qs v).store.refresh_tokens
  stays-DeadRefresh hash v qs avoid h =
      serve_all-keeps (λ (x : World). All (DeadRefresh hash) x.store.refresh_tokens)
        (Avoids token_hash hash)
        (λ t q x c p.
          Change-DeadRefresh token_hash casefold str_of provider t q hash c
            (serve-Change token_hash casefold str_of provider t q x) p)
        qs v avoid h

  -- After a code was exchanged, and whatever requests follow that do not draw its digest anew, the
  -- client can neither load the code nor exchange it again.
  pub exchange_authorization_code-once :
      (draws draws' : Draws) (now now' : ℕ) (client : String) (code : AuthorizationCode)
      (token : OauthToken) (w v : World) (qs : List (ℕ × Request))
      → exchange_authorization_code token_hash provider draws now client code w.store
        ≡ ok (token, v.store)
      → AllAvoid (token_hash code.code) qs
      → (load_authorization_code token_hash provider client code.code (after_requests qs v).store
          ≡ none)
        × (exchange_authorization_code token_hash provider draws' now' client code
              (after_requests qs v).store
            ≡ err code_used)
  unfolding exchange_authorization_code load_authorization_code
  exchange_authorization_code-once draws draws' now now' client code token w v qs h avoid =
      let hash = token_hash code.code in
      let (allowed, _) =
        guard-ok (is_nonempty client && code.client_id == client) other_client _ h in
      let (_, same) =
        exchange_authorization_code-ok token_hash casefold str_of provider draws now client code
          w.store v.store token h in
      let gone = find_code-Spent hash client (after_requests qs v).store.codes (
        serve_all-keeps (λ (x : World). All (Spent hash client) x.store.codes)
          (Avoids token_hash hash)
          (λ t q x c p.
            Change-Spent token_hash casefold str_of provider t q hash client c
              (serve-Change token_hash casefold str_of provider t q x) p)
          qs v avoid
          (subst (λ (s : Store). All (Spent hash client) s.codes) (sym same)
            (delete-Spent hash client w.store.codes))) in
      (ground arith, rw (allowed, gone))

  -- After a refresh token was exchanged, and whatever requests follow that do not draw the digests
  -- anew, the token can neither be loaded nor exchanged, and no access token of its grant loads.
  pub exchange_refresh_token-rotates :
      (draws draws' : Draws) (now now' : ℕ) (client : String) (r : RefreshToken)
      (scopes scopes' : List String) (raw grant : String) (token : OauthToken) (w v : World)
      (qs : List (ℕ × Request))
      → IsKeyed w.store
      → exchange_refresh_token token_hash provider draws now client r scopes w.store
        ≡ ok (token, v.store)
      → refresh_grant (token_hash r.token) w.store.refresh_tokens ≡ some grant
      → access_grant (token_hash raw) w.store.access_tokens ≡ some grant
      → AllAvoid (token_hash r.token) qs
      → AllAvoid (token_hash raw) qs
      → token_hash draws.refresh_token ≢ token_hash r.token
      → token_hash draws.access_token ≢ token_hash raw
      → (load_refresh_token token_hash provider client r.token (after_requests qs v).store ≡ none)
        × (exchange_refresh_token token_hash provider draws' now' client r scopes'
              (after_requests qs v).store
            ≡ err refresh_used)
        × (load_access_token token_hash provider now' raw (after_requests qs v).store ≡ none)
  unfolding exchange_refresh_token load_refresh_token load_access_token
  exchange_refresh_token-rotates draws draws' now now' client r scopes scopes' raw grant token w v
        qs keyed h rg ag a b c d =
      let hash = token_hash r.token in
      let (allowed, _) = guard-ok (is_nonempty client && r.client_id == client) other_client _ h in
      let (row, found, _, same) =
        exchange_refresh_token-ok token_hash casefold str_of provider draws now client r scopes
          w.store v.store token h in
      let only = find_refresh-only hash client w.store.refresh_tokens row keyed.refresh found in
      let gone = find_refresh-DeadRefresh hash client (after_requests qs v).store.refresh_tokens (
        stays-DeadRefresh hash v qs a (
          subst (λ (s : Store). All (DeadRefresh hash) s.refresh_tokens) (sym same)
            (All-append (DeadRefresh hash) (revoke_refresh row.grant_id w.store.refresh_tokens) _
              (revoke_refresh-DeadRefresh hash row.grant_id w.store.refresh_tokens only)
              ((λ own. absurd (c own)), tt)))) in
      let same_grant : row.grant_id ≡ grant =
        refresh_grant-same hash row.grant_id grant w.store.refresh_tokens only rg in
      let lost = find_access-Dead (token_hash raw) (after_requests qs v).store.access_tokens (
        stays-Dead (token_hash raw) v qs b (
          subst (λ (s : Store). All (Dead (token_hash raw)) s.access_tokens) (sym same)
            (All-append (Dead (token_hash raw)) (revoke_access row.grant_id w.store.access_tokens) _
              (revoke_access-Dead (token_hash raw) row.grant_id w.store.access_tokens (
                rw same_grant
                  (access_grant-only (token_hash raw) grant w.store.access_tokens keyed.access ag)))
              ((λ own. absurd (d own)), tt)))) in
      (ground arith, rw (allowed, gone), rw lost)

  -- An access token that was revoked does not load again, whatever requests follow that do not draw
  -- its digest anew.
  pub revoke_access_token-stays :
      (raw : String) (now : ℕ) (w v : World) (qs : List (ℕ × Request))
      → IsKeyed w.store
      → revoke_access_token token_hash provider raw w.store ≡ v.store
      → AllAvoid (token_hash raw) qs
      → load_access_token token_hash provider now raw (after_requests qs v).store ≡ none
  unfolding revoke_access_token load_access_token
  revoke_access_token-stays raw now w v qs keyed h avoid = rw (
      find_access-Dead (token_hash raw) (after_requests qs v).store.access_tokens (
        stays-Dead (token_hash raw) v qs avoid (
          subst (λ (s : Store). All (Dead (token_hash raw)) s.access_tokens) h
            (revoke_found-Dead (token_hash raw) w.store
              (access_grant (token_hash raw) w.store.access_tokens) keyed refl))))
