-- ===== src/Agent/Oauth/Lifetimes.antt =====
-- src/orbita_agent/oauth.py: how long codes and tokens last.
use orbita_agent_research_se.Base.{◌≤◌, ◌+◌}
use orbita_agent_research_se.Agent.Oauth.Settings.{Arguments, new_provider}
use orbita_agent_research_se.Agent.Oauth.Protocol.{AccessToken}
use orbita_agent_research_se.Agent.Oauth.Tokens.{loaded_access, load_access_token}
use orbita_agent_research_se.Base.{
  ℕ, String, List, [], ◌∷◌, true, some, ok, ◌≡◌, All, All-filter, All-append, All-map, arith, ◌==◌,
  if◌then◌else◌,
}
use orbita_agent_research_se.Base.Json.{Json}
use orbita_agent_research_se.Agent.Oauth.Settings.{Provider}
use orbita_agent_research_se.Agent.Oauth.Protocol.{Draws}
use orbita_agent_research_se.Agent.Oauth.Tables.{
  CodeRow, AccessRow, RefreshRow, Store, prune, revoke_access, revoke_refresh, revoke_grant,
  find_access,
}
use orbita_agent_research_se.Agent.Oauth.Tokens.{with_pair, without_code}
use orbita_agent_research_se.Agent.Oauth.Requests.{Request, World, serve, serve_all}
use orbita_agent_research_se.Agent.Oauth.Changes.{
  Change, stays, both, client_added, signed_in, taken, observed, code_added, code_redeemed,
  token_refreshed, grant_revoked, serve-Change,
}

-- The lifetimes that the constructor lets in.
pub record AreBounded (p : Provider) : Type 0 where
  pub access : p.access_token_ttl ≤ 86400
  pub access_least : 300 ≤ p.access_token_ttl
  pub refresh : p.refresh_token_ttl ≤ 7776000
  pub refresh_least : 3600 ≤ p.refresh_token_ttl

new_provider-AreBounded :
    (casefold : String → String) (a : Arguments) (p : Provider)
    → new_provider casefold a ≡ ok p
    → AreBounded p
unfolding new_provider
new_provider-AreBounded casefold a p h = ground arith

-- No row outlives the time `latest` by more than its lifetime.
pub record AreShortLived (latest : ℕ) (s : Store) : Type 0 where
  pub codes : All (λ (c : CodeRow). c.expires_at ≤ latest + 300) s.codes
  pub access : All (λ (t : AccessRow). t.expires_at ≤ latest + 86400) s.access_tokens
  pub refresh : All (λ (t : RefreshRow). t.expires_at ≤ latest + 7776000) s.refresh_tokens

prune-AreShortLived :
    (now latest : ℕ) (s : Store) → AreShortLived latest s → AreShortLived latest (prune now s)
unfolding prune
prune-AreShortLived now latest s h = record {
  codes = All-filter _ _ s.codes h.codes;
  access = All-filter _ _ s.access_tokens h.access;
  refresh = All-filter _ _ s.refresh_tokens h.refresh;
}

revoked_access :
    (n : ℕ) (grant : String) (t : AccessRow)
    → t.expires_at ≤ n
    → (if t.grant_id == grant then record t { revoked = true } else t).expires_at ≤ n
revoked_access n grant t h = ground arith

revoked_refresh :
    (n : ℕ) (grant : String) (t : RefreshRow)
    → t.expires_at ≤ n
    → (if t.grant_id == grant then record t { revoked = true } else t).expires_at ≤ n
revoked_refresh n grant t h = ground arith

revoke_grant-AreShortLived :
    (grant : String) (latest : ℕ) (s : Store)
    → AreShortLived latest s
    → AreShortLived latest (revoke_grant grant s)
unfolding revoke_grant revoke_access revoke_refresh
revoke_grant-AreShortLived grant latest s h = record {
  codes = h.codes;
  access = All-map _ _ s.access_tokens (λ t k. revoked_access _ grant t k) h.access;
  refresh = All-map _ _ s.refresh_tokens (λ t k. revoked_refresh _ grant t k) h.refresh;
}

loaded_access-in_time :
    (now latest : ℕ) (hash raw : String) (ts : List AccessRow) (a : AccessToken)
    → All (λ (t : AccessRow). t.expires_at ≤ latest) ts
    → loaded_access now raw (find_access hash ts) ≡ some a
    → now ≤ latest
unfolding loaded_access find_access
loaded_access-in_time now latest hash raw [] a h e = cc
loaded_access-in_time now latest hash raw (t ∷ ts) a h e =
    ground (arith, loaded_access-in_time now latest hash raw ts a h.1)

module _ (token_hash casefold : String → String) (str_of : Json → String)
    (provider : Provider) where
  module _ (bounded : AreBounded provider) (latest : ℕ) where
    with_pair-AreShortLived :
        (now : ℕ) (draws : Draws) (client : String) (scopes : List String)
        (resource subject : String) (s : Store)
        → now ≤ latest
        → AreShortLived latest s
        → AreShortLived latest
            (with_pair token_hash provider draws client scopes resource subject now s)
    with_pair-AreShortLived now draws client scopes resource subject s early h = record {
      codes = h.codes;
      access = All-append _ s.access_tokens _ h.access (omega (arith, bounded.access), tt);
      refresh = All-append _ s.refresh_tokens _ h.refresh (omega (arith, bounded.refresh), tt);
    }

    Change-AreShortLived :
        (now : ℕ) (q : Request) {w v : World}
        → now ≤ latest
        → Change token_hash casefold str_of provider now q w v
        → AreShortLived latest w.store
        → AreShortLived latest v.store
    Change-AreShortLived now q early stays h = h
    Change-AreShortLived now q early (both first rest) h =
        Change-AreShortLived now q early rest (Change-AreShortLived now q early first h)
    Change-AreShortLived now q early (client_added w row new) h = record {
      codes = h.codes;
      access = h.access;
      refresh = h.refresh;
    }
    Change-AreShortLived now q early (signed_in w row new) h =
        let k = prune-AreShortLived now latest w.store h in
        record { codes = k.codes; access = k.access; refresh = k.refresh }
    Change-AreShortLived now q early (taken w keep) h =
        let k = prune-AreShortLived now latest w.store h in
        record { codes = k.codes; access = k.access; refresh = k.refresh }
    Change-AreShortLived now q early (observed w x allowed) h = h
    Change-AreShortLived now q early (code_added w code p x allowed new drawn) h = record {
      codes = All-append _ w.store.codes _ h.codes (omega arith, tt);
      access = h.access;
      refresh = h.refresh;
    }
    Change-AreShortLived now q early
          (code_redeemed w hash client resource draws row found fresh drawn) h =
        with_pair-AreShortLived now draws client _ _ _ (without_code hash client w.store) early
          (record {
            codes = All-filter _ _ w.store.codes h.codes;
            access = h.access;
            refresh = h.refresh;
          })
    Change-AreShortLived now q early
          (token_refreshed w hash client scopes draws row found fresh drawn) h =
        with_pair-AreShortLived now draws client scopes _ _ (revoke_grant row.grant_id w.store)
          early (revoke_grant-AreShortLived row.grant_id latest w.store h)
    Change-AreShortLived now q early (grant_revoked w grant) h =
        revoke_grant-AreShortLived grant latest w.store h

    serve_all-AreShortLived :
        (qs : List (ℕ × Request)) (w : World)
        → All (λ (e : ℕ × Request). e.0 ≤ latest) qs
        → AreShortLived latest w.store
        → AreShortLived latest (serve_all token_hash casefold str_of provider qs w).store
    unfolding serve_all
    serve_all-AreShortLived [] w early h = h
    serve_all-AreShortLived ((now, q) ∷ qs) w early h =
        serve_all-AreShortLived qs (serve token_hash casefold str_of provider now q w) early.1 (
          Change-AreShortLived now q early.0
            (serve-Change token_hash casefold str_of provider now q w) h)

  -- With a provider that the constructor lets in, an access token loads at most 86400 seconds after
  -- the latest request, if that held at the start.
  pub load_access_token-le :
      (a : Arguments) (latest now : ℕ) (qs : List (ℕ × Request)) (w : World) (raw : String)
      (token : AccessToken)
      → new_provider casefold a ≡ ok provider
      → All (λ (e : ℕ × Request). e.0 ≤ latest) qs
      → AreShortLived latest w.store
      → load_access_token token_hash provider now raw
          (serve_all token_hash casefold str_of provider qs w).store
        ≡ some token
      → now ≤ latest + 86400
  unfolding load_access_token
  load_access_token-le a latest now qs w raw token h early short loaded =
      loaded_access-in_time now (latest + 86400) (token_hash raw) raw
        (serve_all token_hash casefold str_of provider qs w).store.access_tokens token
        (serve_all-AreShortLived (new_provider-AreBounded casefold a provider h) latest qs w early
          short).access
        loaded
