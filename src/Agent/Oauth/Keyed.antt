-- ===== src/Agent/Oauth/Keyed.antt =====
-- src/orbita_agent/oauth.py: the primary keys of the tables hold, and what follows for lookups.
use orbita_agent_research_se.Base.{
  ℕ, String, List, [], ◌∷◌, true, false, none, some, ◌≡◌, refl, ◌≢◌, All, All-imp, subst,
  Bool-cases, inl, inr, arith, ◌==◌, eq_iff, if◌then◌else◌, Bool-cases, inl, inr, any,
}
use orbita_agent_research_se.Base.Keys.{
  AreKeyed, no_key, has_key, AreKeyed-filter, AreKeyed-append, AreKeyed-map,
}
use orbita_agent_research_se.Base.Json.{Json}
use orbita_agent_research_se.Agent.Oauth.Settings.{Provider}
use orbita_agent_research_se.Agent.Oauth.Protocol.{Draws}
use orbita_agent_research_se.Agent.Oauth.Tables.{
  AccessRow, RefreshRow, Store, prune, revoke_access, revoke_refresh, revoke_grant, find_refresh,
  access_grant, access_key, refresh_key, code_key, client_key, state_key,
}
use orbita_agent_research_se.Agent.Oauth.Tokens.{with_pair, without_code}
use orbita_agent_research_se.Agent.Oauth.Requests.{Request, World}
use orbita_agent_research_se.Agent.Oauth.Changes.{
  Change, stays, both, client_added, signed_in, taken, observed, code_added, code_redeemed,
  token_refreshed, grant_revoked, IsFresh,
}

pub record IsKeyed (s : Store) : Type 0 where
  pub clients : AreKeyed client_key s.clients
  pub pending : AreKeyed state_key s.pending
  pub codes : AreKeyed code_key s.codes
  pub access : AreKeyed access_key s.access_tokens
  pub refresh : AreKeyed refresh_key s.refresh_tokens

prune-IsKeyed : (now : ℕ) (s : Store) → IsKeyed s → IsKeyed (prune now s)
unfolding prune
prune-IsKeyed now s h = record {
  clients = h.clients;
  pending = AreKeyed-filter state_key _ s.pending h.pending;
  codes = AreKeyed-filter code_key _ s.codes h.codes;
  access = AreKeyed-filter access_key _ s.access_tokens h.access;
  refresh = AreKeyed-filter refresh_key _ s.refresh_tokens h.refresh;
}

access-same :
    (grant : String) (t : AccessRow)
    → access_key (if t.grant_id == grant then record t { revoked = true } else t) ≡ access_key t
access-same grant t = ground arith

refresh-same :
    (grant : String) (t : RefreshRow)
    → refresh_key (if t.grant_id == grant then record t { revoked = true } else t) ≡ refresh_key t
refresh-same grant t = ground arith

pub revoke_grant-IsKeyed : (grant : String) (s : Store) → IsKeyed s → IsKeyed (revoke_grant grant s)
unfolding revoke_grant revoke_access revoke_refresh
revoke_grant-IsKeyed grant s h = record {
  clients = h.clients;
  pending = h.pending;
  codes = h.codes;
  access = AreKeyed-map access_key _ (access-same grant) s.access_tokens h.access;
  refresh = AreKeyed-map refresh_key _ (refresh-same grant) s.refresh_tokens h.refresh;
}

module _ (token_hash casefold : String → String) (str_of : Json → String) (provider : Provider)
    (now : ℕ) (q : Request) where
  with_pair-IsKeyed :
      (draws : Draws) (client : String) (scopes : List String) (resource subject : String)
      (s : Store)
      → IsFresh token_hash draws s
      → IsKeyed s
      → IsKeyed (with_pair token_hash provider draws client scopes resource subject now s)
  with_pair-IsKeyed draws client scopes resource subject s fresh h = record {
    clients = h.clients;
    pending = h.pending;
    codes = h.codes;
    access = AreKeyed-append access_key s.access_tokens _ fresh.access h.access;
    refresh = AreKeyed-append refresh_key s.refresh_tokens _ fresh.refresh h.refresh;
  }

  pub Change-IsKeyed :
      {w v : World}
      → Change token_hash casefold str_of provider now q w v
      → IsKeyed w.store
      → IsKeyed v.store
  Change-IsKeyed stays h = h
  Change-IsKeyed (both first rest) h = Change-IsKeyed rest (Change-IsKeyed first h)
  Change-IsKeyed (client_added w row new) h = record {
    clients = AreKeyed-append client_key w.store.clients row new h.clients;
    pending = h.pending;
    codes = h.codes;
    access = h.access;
    refresh = h.refresh;
  }
  Change-IsKeyed (signed_in w row new) h =
      let k = prune-IsKeyed now w.store h in
      record {
        clients = k.clients;
        pending = AreKeyed-append state_key (prune now w.store).pending row new k.pending;
        codes = k.codes;
        access = k.access;
        refresh = k.refresh;
      }
  Change-IsKeyed (taken w keep) h =
      let k = prune-IsKeyed now w.store h in
      record {
        clients = k.clients;
        pending = AreKeyed-filter state_key keep (prune now w.store).pending k.pending;
        codes = k.codes;
        access = k.access;
        refresh = k.refresh;
      }
  Change-IsKeyed (observed w x allowed) h = h
  Change-IsKeyed (code_added w code p x allowed new drawn) h = record {
    clients = h.clients;
    pending = h.pending;
    codes = AreKeyed-append code_key w.store.codes _ new h.codes;
    access = h.access;
    refresh = h.refresh;
  }
  Change-IsKeyed (code_redeemed w hash client resource draws row found fresh drawn) h =
      with_pair-IsKeyed draws client _ _ _ (without_code hash client w.store)
        (record { access = fresh.access; refresh = fresh.refresh })
        (record {
          clients = h.clients;
          pending = h.pending;
          codes = AreKeyed-filter code_key _ w.store.codes h.codes;
          access = h.access;
          refresh = h.refresh;
        })
  Change-IsKeyed (token_refreshed w hash client scopes draws row found fresh drawn) h =
      with_pair-IsKeyed draws client scopes _ _ (revoke_grant row.grant_id w.store) fresh
        (revoke_grant-IsKeyed row.grant_id w.store h)
  Change-IsKeyed (grant_revoked w grant) h = revoke_grant-IsKeyed grant w.store h

no_refresh :
    (hash client : String) (ts : List RefreshRow)
    → has_key refresh_key hash ts ≡ false
    → find_refresh hash client ts ≡ none
unfolding any find_refresh
no_refresh hash client [] h = refl
no_refresh hash client (t ∷ ts) h = ground (arith, no_refresh hash client ts)

-- The row that a lookup of a refresh token finds is the only one with its digest.
pub find_refresh-only :
    (hash client : String) (ts : List RefreshRow) (row : RefreshRow)
    → AreKeyed refresh_key ts
    → find_refresh hash client ts ≡ some row
    → All (λ (t : RefreshRow). t.token_hash ≡ hash → t.grant_id ≡ row.grant_id) ts
unfolding find_refresh
find_refresh-only hash client [] row h e = tt
find_refresh-only hash client (t ∷ ts) row h e = elim (Bool-cases (t.token_hash == hash)) [
  | inl same ↦
      let keyed : has_key refresh_key hash ts ≡ false =
        subst (λ (k : String). has_key refresh_key k ts ≡ false) ((eq_iff _ _).0 same) h.0 in
      (
        λ _. ground (arith, no_refresh hash client ts keyed),
        All-imp _ _ ts (λ u other own. absurd (other own)) (no_key refresh_key hash ts keyed),
      )
  | inr other ↦ (
    λ own. ground (arith, eq_iff t.token_hash hash),
    find_refresh-only hash client ts row h.1 (ground arith),
  )
]

pub access_grant-only :
    (hash grant : String) (ts : List AccessRow)
    → AreKeyed access_key ts
    → access_grant hash ts ≡ some grant
    → All (λ (t : AccessRow). t.token_hash ≡ hash → t.grant_id ≡ grant) ts
unfolding access_grant
access_grant-only hash grant [] h e = tt
access_grant-only hash grant (t ∷ ts) h e = elim (Bool-cases (t.token_hash == hash)) [
  | inl same ↦
      let keyed : has_key access_key hash ts ≡ false =
        subst (λ (k : String). has_key access_key k ts ≡ false) ((eq_iff _ _).0 same) h.0 in
      (
        λ _. ground arith,
        All-imp _ _ ts (λ u other own. absurd (other own)) (no_key access_key hash ts keyed),
      )
  | inr other ↦ (
    λ own. ground (arith, eq_iff t.token_hash hash),
    access_grant-only hash grant ts h.1 (ground arith),
  )
]

pub no_access_grant :
    (hash : String) (ts : List AccessRow)
    → access_grant hash ts ≡ none
    → All (λ (t : AccessRow). t.token_hash ≢ hash) ts
unfolding access_grant
no_access_grant hash [] e = tt
no_access_grant hash (t ∷ ts) e =
    (λ own. ground (arith, eq_iff t.token_hash hash), no_access_grant hash ts (ground arith))
