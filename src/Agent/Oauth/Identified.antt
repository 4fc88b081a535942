-- ===== src/Agent/Oauth/Identified.antt =====
-- src/orbita_agent/oauth.py: whom a token speaks for.
use orbita_agent_research_se.Agent.Oauth.Tokens.{loaded_access, load_access_token}
use orbita_agent_research_se.Agent.Oauth.Tables.{Pending}
use orbita_agent_research_se.Agent.Oauth.Protocol.{AccessToken}
use orbita_agent_research_se.Base.Texts.{is_nonempty}
use orbita_agent_research_se.Agent.Oauth.Changes.{IsAllowed}
use orbita_agent_research_se.Base.{
  ℕ, String, List, [], ◌∷◌, map, true, not, ◌&&◌, Option, none, some, ◌≡◌, refl, All, All-filter,
  All-append, All-map, All-imp, elem, subst, sym, eq_refl, Bool-cases, inl, inr, arith, ◌==◌,
  if◌then◌else◌, Bool-cases, inl, inr,
}
use orbita_agent_research_se.Base.Json.{Json}
use orbita_agent_research_se.Agent.Oauth.Settings.{Provider}
use orbita_agent_research_se.Agent.Oauth.Protocol.{text_or_else}
use orbita_agent_research_se.Agent.Oauth.Tables.{
  CodeRow, AccessRow, RefreshRow, prune, revoke_access, revoke_refresh, revoke_grant, find_code,
  find_access, find_refresh,
}
use orbita_agent_research_se.Agent.Oauth.Requests.{Request, World, serve, serve_all}
use orbita_agent_research_se.Agent.Oauth.Changes.{
  Change, stays, both, client_added, signed_in, taken, observed, code_added, code_redeemed,
  token_refreshed, grant_revoked, serve-Change,
}

-- the subject is one of those that the callback let in
abbrev pub IsKnown : List (String × String) → String → Type 0
IsKnown seen subject =
    (elem subject (map (λ (x : String × String). x.0) seen) ≡ true) × (is_nonempty subject ≡ true)

IsKnown-cons :
    (x : String × String) (seen : List (String × String)) (subject : String)
    → IsKnown seen subject
    → IsKnown (x ∷ seen) subject
unfolding elem
IsKnown-cons x seen subject h = ground arith

IsKnown-or_else :
    (seen : List (String × String)) (subject : String)
    → IsKnown seen subject
    → IsKnown seen (text_or_else (some subject) "github:unknown")
IsKnown-or_else seen subject h = rw (h.1) h

IsKnown-head :
    (x : String × String) (seen : List (String × String))
    → is_nonempty x.0 ≡ true
    → IsKnown (x ∷ seen) x.0
unfolding elem
IsKnown-head x seen h = ground (arith, eq_refl x.0)

revoked_access :
    (seen : List (String × String)) (grant : String) (t : AccessRow)
    → IsKnown seen t.subject
    → IsKnown seen (if t.grant_id == grant then record t { revoked = true } else t).subject
revoked_access seen grant t h = ground arith

revoked_refresh :
    (seen : List (String × String)) (grant : String) (t : RefreshRow)
    → IsKnown seen t.subject
    → IsKnown seen (if t.grant_id == grant then record t { revoked = true } else t).subject
revoked_refresh seen grant t h = ground arith

loaded_access-row :
    (now : ℕ) (raw : String) (o : Option AccessRow) (a : AccessToken)
    → loaded_access now raw o ≡ some a
    → (row : AccessRow) × (o ≡ some row) × (a.subject ≡ row.subject)
unfolding loaded_access
loaded_access-row now raw none a e = cc
loaded_access-row now raw (some row) a e = (row, refl, ground arith)

module _ (token_hash casefold : String → String) (str_of : Json → String)
    (provider : Provider) where
  -- every subject in the tables was let in by the list of allowed users
  pub record IsIdentified (w : World) : Type 0 where
    pub seen : All (IsAllowed token_hash casefold str_of provider) w.seen
    pub codes : All (λ (c : CodeRow). IsKnown w.seen c.subject) w.store.codes
    pub access : All (λ (t : AccessRow). IsKnown w.seen t.subject) w.store.access_tokens
    pub refresh : All (λ (t : RefreshRow). IsKnown w.seen t.subject) w.store.refresh_tokens

  observe :
      (w : World) (x : String × String)
      → IsAllowed token_hash casefold str_of provider x
      → IsIdentified w
      → IsIdentified (record w { seen = x ∷ w.seen })
  observe w x allowed h = record {
    seen = (allowed, h.seen);
    codes = All-imp _ _ w.store.codes (λ c k. IsKnown-cons x w.seen c.subject k) h.codes;
    access = All-imp _ _ w.store.access_tokens (λ t k. IsKnown-cons x w.seen t.subject k) h.access;
    refresh =
        All-imp _ _ w.store.refresh_tokens (λ t k. IsKnown-cons x w.seen t.subject k) h.refresh;
  }

  find_code-IsKnown :
      (seen : List (String × String)) (hash client : String) (cs : List CodeRow) (row : CodeRow)
      → All (λ (c : CodeRow). IsKnown seen c.subject) cs
      → find_code hash client cs ≡ some row
      → IsKnown seen row.subject
  unfolding find_code
  find_code-IsKnown seen hash client [] row h e = cc
  find_code-IsKnown seen hash client (c ∷ cs) row h e =
      elim (Bool-cases (c.code_hash == hash && c.client_id == client)) [
        | inl this ↦
            let same : c ≡ row = ground arith in
            subst (λ (x : CodeRow). IsKnown seen x.subject) same h.0
        | inr other ↦ find_code-IsKnown seen hash client cs row h.1 (ground arith)
      ]

  find_refresh-IsKnown :
      (seen : List (String × String)) (hash client : String) (ts : List RefreshRow)
      (row : RefreshRow)
      → All (λ (t : RefreshRow). IsKnown seen t.subject) ts
      → find_refresh hash client ts ≡ some row
      → IsKnown seen row.subject
  unfolding find_refresh
  find_refresh-IsKnown seen hash client [] row h e = cc
  find_refresh-IsKnown seen hash client (t ∷ ts) row h e =
      elim (Bool-cases (t.token_hash == hash && t.client_id == client && not t.revoked)) [
        | inl this ↦
            let same : t ≡ row = ground arith in
            subst (λ (x : RefreshRow). IsKnown seen x.subject) same h.0
        | inr other ↦ find_refresh-IsKnown seen hash client ts row h.1 (ground arith)
      ]

  find_access-IsKnown :
      (seen : List (String × String)) (hash : String) (ts : List AccessRow) (row : AccessRow)
      → All (λ (t : AccessRow). IsKnown seen t.subject) ts
      → find_access hash ts ≡ some row
      → IsKnown seen row.subject
  unfolding find_access
  find_access-IsKnown seen hash [] row h e = cc
  find_access-IsKnown seen hash (t ∷ ts) row h e =
      elim (Bool-cases (t.token_hash == hash && not t.revoked)) [
        | inl this ↦
            let same : t ≡ row = ground arith in
            subst (λ (x : AccessRow). IsKnown seen x.subject) same h.0
        | inr other ↦ find_access-IsKnown seen hash ts row h.1 (ground arith)
      ]

  pruned :
      (now : ℕ) (w : World) {ps : List Pending}
      → IsIdentified w
      → IsIdentified (record w { store = record (prune now w.store) { pending = ps } })
  unfolding prune
  pruned now w h = record {
    seen = h.seen;
    codes = All-filter _ _ w.store.codes h.codes;
    access = All-filter _ _ w.store.access_tokens h.access;
    refresh = All-filter _ _ w.store.refresh_tokens h.refresh;
  }

  revoked :
      (w : World) (grant : String)
      → IsIdentified w
      → IsIdentified (record w { store = revoke_grant grant w.store })
  unfolding revoke_grant revoke_access revoke_refresh
  revoked w grant h = record {
    seen = h.seen;
    codes = h.codes;
    access = All-map _ _ w.store.access_tokens (λ t k. revoked_access w.seen grant t k) h.access;
    refresh =
        All-map _ _ w.store.refresh_tokens (λ t k. revoked_refresh w.seen grant t k) h.refresh;
  }

  -- one request keeps it
  Change-IsIdentified :
      (now : ℕ) (q : Request) {w v : World}
      → Change token_hash casefold str_of provider now q w v
      → IsIdentified w
      → IsIdentified v
  unfolding prune revoke_grant revoke_access revoke_refresh
  Change-IsIdentified now q stays h = h
  Change-IsIdentified now q (both first rest) h =
      Change-IsIdentified now q rest (Change-IsIdentified now q first h)
  Change-IsIdentified now q (client_added w row new) h = record {
    seen = h.seen;
    codes = h.codes;
    access = h.access;
    refresh = h.refresh;
  }
  Change-IsIdentified now q (signed_in w row new) h = pruned now w h
  Change-IsIdentified now q (taken w keep) h = pruned now w h
  Change-IsIdentified now q (observed w x allowed) h = observe w x allowed h
  Change-IsIdentified now q (code_added w code p x allowed new drawn) h =
      let o = observe w x allowed h in
      record {
        seen = o.seen;
        codes = All-append _ w.store.codes _ o.codes ((IsKnown-head x w.seen allowed.1), tt);
        access = o.access;
        refresh = o.refresh;
      }
  Change-IsIdentified now q (code_redeemed w hash client resource draws row found fresh drawn) h =
      let known =
        IsKnown-or_else w.seen row.subject
          (find_code-IsKnown w.seen hash client w.store.codes row h.codes found) in
      record {
        seen = h.seen;
        codes = All-filter _ _ w.store.codes h.codes;
        access = All-append _ w.store.access_tokens _ h.access (known, tt);
        refresh = All-append _ w.store.refresh_tokens _ h.refresh (known, tt);
      }
  Change-IsIdentified now q (token_refreshed w hash client scopes draws row found fresh drawn) h =
      let known =
        IsKnown-or_else w.seen row.subject
          (find_refresh-IsKnown w.seen hash client w.store.refresh_tokens row h.refresh found) in
      let r = revoked w row.grant_id h in
      record {
        seen = h.seen;
        codes = h.codes;
        access =
            All-append _ (revoke_access row.grant_id w.store.access_tokens) _ r.access (known, tt);
        refresh =
            All-append _ (revoke_refresh row.grant_id w.store.refresh_tokens) _ r.refresh
              (known, tt);
      }
  Change-IsIdentified now q (grant_revoked w grant) h = revoked w grant h

  serve_all-IsIdentified :
      (qs : List (ℕ × Request)) (w : World)
      → IsIdentified w
      → IsIdentified (serve_all token_hash casefold str_of provider qs w)
  unfolding serve_all
  serve_all-IsIdentified [] w h = h
  serve_all-IsIdentified ((now, q) ∷ qs) w h =
      serve_all-IsIdentified qs (serve token_hash casefold str_of provider now q w)
        (Change-IsIdentified now q (serve-Change token_hash casefold str_of provider now q w) h)

  -- Whatever requests were served, an access token that loads speaks for a subject that the callback
  -- let in, and each account that it let in has its login on the list of allowed users.
  pub load_access_token-IsKnown :
      (qs : List (ℕ × Request)) (w : World) (now : ℕ) (raw : String) (a : AccessToken)
      → IsIdentified w
      → load_access_token token_hash provider now raw
          (serve_all token_hash casefold str_of provider qs w).store
        ≡ some a
      → IsKnown (serve_all token_hash casefold str_of provider qs w).seen a.subject
        × All
            (IsAllowed token_hash casefold str_of provider)
            (serve_all token_hash casefold str_of provider qs w).seen
  unfolding load_access_token
  load_access_token-IsKnown qs w now raw a h e =
      let i = serve_all-IsIdentified qs w h in
      let (row, found, same) = loaded_access-row now raw _ a e in
      (
        subst (λ (s : String). IsKnown (serve_all token_hash casefold str_of provider qs w).seen s)
            (sym same) (find_access-IsKnown _ (token_hash raw) _ row i.access found),
        i.seen,
      )
