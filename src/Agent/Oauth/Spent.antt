-- ===== src/Agent/Oauth/Spent.antt =====
-- src/orbita_agent/oauth.py: codes, refresh tokens and revoked tokens stay unusable.
use orbita_agent_research_se.Base.{
  ℕ, String, List, [], ◌∷◌, filter, true, not, ◌&&◌, none, ◌≡◌, refl, ◌≢◌, All, All-filter,
  All-append, All-map, arith, ◌==◌, eq_iff, if◌then◌else◌, Bool-cases, inl, inr,
}
use orbita_agent_research_se.Base.Json.{Json}
use orbita_agent_research_se.Agent.Oauth.Settings.{Provider}
use orbita_agent_research_se.Agent.Oauth.Tables.{
  CodeRow, AccessRow, RefreshRow, prune, revoke_access, revoke_refresh, revoke_grant, find_code,
  find_access, find_refresh,
}
use orbita_agent_research_se.Agent.Oauth.Flow.{code_row}
use orbita_agent_research_se.Agent.Oauth.Requests.{Request, World}
use orbita_agent_research_se.Agent.Oauth.Changes.{
  Avoids, Change, stays, both, client_added, signed_in, taken, observed, code_added, code_redeemed,
  token_refreshed, grant_revoked,
}

-- no code of this client with this digest is left
abbrev pub Spent : String → String → CodeRow → Type 0
Spent hash client c = c.code_hash ≡ hash → c.client_id ≢ client

-- a token with this digest is revoked
abbrev pub Dead : String → AccessRow → Type 0
Dead hash t = t.token_hash ≡ hash → t.revoked ≡ true

abbrev pub DeadRefresh : String → RefreshRow → Type 0
DeadRefresh hash t = t.token_hash ≡ hash → t.revoked ≡ true

pub find_code-Spent :
    (hash client : String) (cs : List CodeRow)
    → All (Spent hash client) cs
    → find_code hash client cs ≡ none
unfolding find_code
find_code-Spent hash client [] h = refl
find_code-Spent hash client (c ∷ cs) h = ground (
  arith,
  find_code-Spent hash client cs h.1,
  eq_iff c.code_hash hash,
  eq_iff c.client_id client,
  h.0,
)

pub find_access-Dead :
    (hash : String) (ts : List AccessRow) → All (Dead hash) ts → find_access hash ts ≡ none
unfolding find_access
find_access-Dead hash [] h = refl
find_access-Dead hash (t ∷ ts) h =
    ground (arith, find_access-Dead hash ts h.1, eq_iff t.token_hash hash, h.0)

pub find_refresh-DeadRefresh :
    (hash client : String) (ts : List RefreshRow)
    → All (DeadRefresh hash) ts
    → find_refresh hash client ts ≡ none
unfolding find_refresh
find_refresh-DeadRefresh hash client [] h = refl
find_refresh-DeadRefresh hash client (t ∷ ts) h =
    ground (arith, find_refresh-DeadRefresh hash client ts h.1, eq_iff t.token_hash hash, h.0)

pub delete-Spent :
    (hash client : String) (cs : List CodeRow)
    → All
        (Spent hash client)
        (filter (λ (c : CodeRow). not (c.code_hash == hash && c.client_id == client)) cs)
unfolding filter
delete-Spent hash client [] = tt
delete-Spent hash client (c ∷ cs) =
    elim (Bool-cases (c.code_hash == hash && c.client_id == client)) [
      | inl gone ↦ rw gone (delete-Spent hash client cs)
      | inr kept ↦ rw kept (
        λ e f. ground (arith, eq_iff c.code_hash hash, eq_iff c.client_id client),
        delete-Spent hash client cs,
      )
    ]

revoked-Dead :
    (hash grant : String) (t : AccessRow)
    → Dead hash t
    → Dead hash (if t.grant_id == grant then record t { revoked = true } else t)
revoked-Dead hash grant t h e = ground (arith, h)

revoked-DeadRefresh :
    (hash grant : String) (t : RefreshRow)
    → DeadRefresh hash t
    → DeadRefresh hash (if t.grant_id == grant then record t { revoked = true } else t)
revoked-DeadRefresh hash grant t h e = ground (arith, h)

module _ (token_hash casefold : String → String) (str_of : Json → String) (provider : Provider)
    (now : ℕ) (q : Request) where
  pub Change-Spent :
      (hash client : String) {w v : World}
      → Avoids token_hash hash q
      → Change token_hash casefold str_of provider now q w v
      → All (Spent hash client) w.store.codes
      → All (Spent hash client) v.store.codes
  unfolding prune revoke_grant
  Change-Spent hash client avoids stays h = h
  Change-Spent hash client avoids (both first rest) h =
      Change-Spent hash client avoids rest (Change-Spent hash client avoids first h)
  Change-Spent hash client avoids (client_added w row new) h = h
  Change-Spent hash client avoids (signed_in w row new) h =
      All-filter (Spent hash client) _ w.store.codes h
  Change-Spent hash client avoids (taken w keep) h =
      All-filter (Spent hash client) _ w.store.codes h
  Change-Spent hash client avoids (observed w x allowed) h = h
  Change-Spent hash client avoids (code_added w code p x allowed new drawn) h =
      All-append (Spent hash client) w.store.codes
        (code_row token_hash provider now code x.0 p ∷ []) h
        ((λ e. absurd (drawn hash avoids e)), tt)
  Change-Spent hash client avoids (code_redeemed w used owner resource draws row found fresh drawn)
        h =
      All-filter (Spent hash client) _ w.store.codes h
  Change-Spent hash client avoids (token_refreshed w used owner scopes draws row found fresh drawn)
        h =
      h
  Change-Spent hash client avoids (grant_revoked w grant) h = h

  pub Change-Dead :
      (hash : String) {w v : World}
      → Avoids token_hash hash q
      → Change token_hash casefold str_of provider now q w v
      → All (Dead hash) w.store.access_tokens
      → All (Dead hash) v.store.access_tokens
  unfolding prune revoke_grant revoke_access
  Change-Dead hash avoids stays h = h
  Change-Dead hash avoids (both first rest) h =
      Change-Dead hash avoids rest (Change-Dead hash avoids first h)
  Change-Dead hash avoids (client_added w row new) h = h
  Change-Dead hash avoids (signed_in w row new) h = All-filter (Dead hash) _ w.store.access_tokens h
  Change-Dead hash avoids (taken w keep) h = All-filter (Dead hash) _ w.store.access_tokens h
  Change-Dead hash avoids (observed w x allowed) h = h
  Change-Dead hash avoids (code_added w code p x allowed new drawn) h = h
  Change-Dead hash avoids (code_redeemed w used owner resource draws row found fresh drawn) h =
      All-append (Dead hash) w.store.access_tokens _ h ((λ e. absurd ((drawn hash avoids).0 e)), tt)
  Change-Dead hash avoids (token_refreshed w used owner scopes draws row found fresh drawn) h =
      All-append (Dead hash) (revoke_access row.grant_id w.store.access_tokens) _
        (All-map (Dead hash) _ w.store.access_tokens (revoked-Dead hash row.grant_id) h)
        ((λ e. absurd ((drawn hash avoids).0 e)), tt)
  Change-Dead hash avoids (grant_revoked w grant) h =
      All-map (Dead hash) _ w.store.access_tokens (revoked-Dead hash grant) h

  pub Change-DeadRefresh :
      (hash : String) {w v : World}
      → Avoids token_hash hash q
      → Change token_hash casefold str_of provider now q w v
      → All (DeadRefresh hash) w.store.refresh_tokens
      → All (DeadRefresh hash) v.store.refresh_tokens
  unfolding prune revoke_grant revoke_refresh
  Change-DeadRefresh hash avoids stays h = h
  Change-DeadRefresh hash avoids (both first rest) h =
      Change-DeadRefresh hash avoids rest (Change-DeadRefresh hash avoids first h)
  Change-DeadRefresh hash avoids (client_added w row new) h = h
  Change-DeadRefresh hash avoids (signed_in w row new) h =
      All-filter (DeadRefresh hash) _ w.store.refresh_tokens h
  Change-DeadRefresh hash avoids (taken w keep) h =
      All-filter (DeadRefresh hash) _ w.store.refresh_tokens h
  Change-DeadRefresh hash avoids (observed w x allowed) h = h
  Change-DeadRefresh hash avoids (code_added w code p x allowed new drawn) h = h
  Change-DeadRefresh hash avoids (code_redeemed w used owner resource draws row found fresh drawn)
        h =
      All-append (DeadRefresh hash) w.store.refresh_tokens _ h
        ((λ e. absurd ((drawn hash avoids).1 e)), tt)
  Change-DeadRefresh hash avoids (token_refreshed w used owner scopes draws row found fresh drawn)
        h =
      All-append (DeadRefresh hash) (revoke_refresh row.grant_id w.store.refresh_tokens) _
        (All-map (DeadRefresh hash) _ w.store.refresh_tokens (revoked-DeadRefresh hash row.grant_id)
          h)
        ((λ e. absurd ((drawn hash avoids).1 e)), tt)
  Change-DeadRefresh hash avoids (grant_revoked w grant) h =
      All-map (DeadRefresh hash) _ w.store.refresh_tokens (revoked-DeadRefresh hash grant) h
