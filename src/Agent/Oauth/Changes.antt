-- ===== src/Agent/Oauth/Changes.antt =====
-- src/orbita_agent/oauth.py: what one request may do to the tables, as a relation.
use orbita_agent_research_se.Base.{
  any, is_some, ℕ, String, List, [], ◌∷◌, ◌++◌, filter, Bool, true, false, not, Option, none, some,
  Result, ok, err, ◌≡◌, refl, ◌≢◌, arith, ◌==◌, inl, inr, ◌||◌, Bool-cases, Option-cases, elem, ◌∙◌,
  sym, ap, subst,
}
use orbita_agent_research_se.Base.Texts.{is_nonempty, concat}
use orbita_agent_research_se.Base.Keys.{has_key}
use orbita_agent_research_se.Base.Json.{Json, Fields, get}
use orbita_agent_research_se.Agent.Oauth.Settings.{Provider, OauthError, rstrip_slash}
use orbita_agent_research_se.Agent.Oauth.Protocol.{
  ClientInfo, AuthorizationParams, AuthorizationCode, RefreshToken, OauthToken, Callback, Draws,
  text_or_else, scopes_or, orbita_scope,
}
use orbita_agent_research_se.Agent.Oauth.Tables.{
  ClientRow, Pending, CodeRow, RefreshRow, Store, prune, find_code, find_refresh, code_key,
  client_key, state_key, has_client, access_key, refresh_key, find_pending, revoke_grant,
  access_grant, refresh_grant,
}
use orbita_agent_research_se.Agent.Oauth.Flow.{
  register_client, authorize, github_callback, pending_row, code_row, take_pending, finish_callback,
  github_identity, insert_code, code_refused,
}
use orbita_agent_research_se.Agent.Oauth.Tokens.{
  load_authorization_code, exchange_authorization_code, load_refresh_token, exchange_refresh_token,
  revoke_access_token, revoke_refresh_token, with_pair, without_code, revoke_found,
}
use orbita_agent_research_se.Agent.Oauth.Requests.{
  Request, register, sign_in, come_back, redeem, refresh, revoke_one, revoke_other, World, serve,
  after, after_store, note_identity, redeemed, refreshed,
}

subject_nonempty : (id : String) → is_nonempty (concat "github:" id) ≡ true
unfolding concat
subject_nonempty id = refl

-- No row has the digest of a state that is not found.
no_pending :
    (hash : String) (ps : List Pending)
    → is_some (find_pending hash ps) ≡ false
    → has_key state_key hash ps ≡ false
unfolding find_pending any
no_pending hash [] h = refl
no_pending hash (p ∷ ps) h = elim (Bool-cases (p.state_hash == hash)) [
  | inl own ↦ absurd (ground arith)
  | inr other ↦ ground (arith, no_pending hash ps)
]

module _ (token_hash : String → String) where
  -- the digests of the secrets that a request draws
  abbrev pub Avoids : String → Request → Type 0
  Avoids hash (come_back code query fetched) = token_hash code ≢ hash
  Avoids hash (redeem draws client raw passes) =
      (token_hash draws.access_token ≢ hash) × (token_hash draws.refresh_token ≢ hash)
  Avoids hash (refresh draws client raw scopes passes) =
      (token_hash draws.access_token ≢ hash) × (token_hash draws.refresh_token ≢ hash)
  Avoids hash _ = Unit

  -- the drawn tokens are new
  pub record IsFresh (draws : Draws) (s : Store) : Type 0 where
    pub access : has_key access_key (token_hash draws.access_token) s.access_tokens ≡ false
    pub refresh : has_key refresh_key (token_hash draws.refresh_token) s.refresh_tokens ≡ false

module _ (token_hash casefold : String → String) (str_of : Json → String)
    (provider : Provider) where
  -- the account was let in by the list of allowed users
  abbrev pub IsAllowed : String × String → Type 0
  IsAllowed x =
      (elem (casefold x.1) provider.allowed_github_users ≡ true) × (is_nonempty x.0 ≡ true)

  pub data Change (now : ℕ) (q : Request) : World → World → Type 0 where
    stays : {w : World} → Change now q w w
    both : {w v u : World} → Change now q w v → Change now q v u → Change now q w u
    client_added :
        (w : World) (row : ClientRow)
        → has_key client_key row.client_id w.store.clients ≡ false
        → Change now q w
            (record w { store = record w.store { clients = w.store.clients ++ row ∷ [] } })
    signed_in :
        (w : World) (row : Pending)
        → has_key state_key row.state_hash (prune now w.store).pending ≡ false
        → Change now q w (record w {
          store =
              let pruned = prune now w.store in
              record pruned { pending = pruned.pending ++ row ∷ [] };
        })
    taken :
        (w : World) (keep : Pending → Bool)
        → Change now q w (record w {
          store =
              let pruned = prune now w.store in
              record pruned { pending = filter keep pruned.pending };
        })
    observed :
        (w : World) (x : String × String)
        → IsAllowed x
        → Change now q w (record w { seen = x ∷ w.seen })
    code_added :
        (w : World) (code : String) (p : Pending) (x : String × String)
        → IsAllowed x
        → has_key code_key (token_hash code) w.store.codes ≡ false
        → ((h : String) → Avoids token_hash h q → token_hash code ≢ h)
        → Change now q w (record {
          store = record w.store {
            codes = w.store.codes ++ code_row token_hash provider now code x.0 p ∷ [];
          };
          seen = x ∷ w.seen;
        })
    code_redeemed :
        (w : World) (hash client resource : String) (draws : Draws) (row : CodeRow)
        → find_code hash client w.store.codes ≡ some row
        → IsFresh token_hash draws w.store
        → ((h : String)
            → Avoids token_hash h q
            → (token_hash draws.access_token ≢ h) × (token_hash draws.refresh_token ≢ h))
        → Change now q w (record w {
          store =
              with_pair token_hash provider draws client row.scopes resource
                (text_or_else (some row.subject) "github:unknown")
                now
                (without_code hash client w.store);
        })
    token_refreshed :
        (w : World) (hash client : String) (scopes : List String) (draws : Draws) (row : RefreshRow)
        → find_refresh hash client w.store.refresh_tokens ≡ some row
        → IsFresh token_hash draws (revoke_grant row.grant_id w.store)
        → ((h : String)
            → Avoids token_hash h q
            → (token_hash draws.access_token ≢ h) × (token_hash draws.refresh_token ≢ h))
        → Change now q w (record w {
          store =
              with_pair token_hash provider draws client scopes provider.resource_url
                (text_or_else (some row.subject) "github:unknown")
                now
                (revoke_grant row.grant_id w.store);
        })
    grant_revoked :
        (w : World) (grant : String)
        → Change now q w (record w { store = revoke_grant grant w.store })

  register_client-ok :
      (now : ℕ) (info : ClientInfo) (s t : Store)
      → register_client casefold now info s ≡ ok t
      → (row : ClientRow) × (has_key client_key row.client_id s.clients ≡ false)
        × (t ≡ record s { clients = s.clients ++ row ∷ [] })
  unfolding register_client has_client
  register_client-ok now info s t h = (
    record { client_id = info.client_id; metadata_json = info.metadata_json; created_at = now },
    ground arith,
    ground arith,
  )

  authorize-ok :
      (now : ℕ) (state client : String) (params : AuthorizationParams) (s t : Store)
      → authorize token_hash provider now state client params s ≡ ok t
      → (row : Pending) × (has_key state_key row.state_hash (prune now s).pending ≡ false)
        × (t ≡ record (prune now s) { pending = (prune now s).pending ++ row ∷ [] })
  unfolding authorize
  authorize-ok now state client params s t h = (
    pending_row token_hash provider now state client
        (rstrip_slash (text_or_else params.resource provider.resource_url))
        (scopes_or params.scopes (orbita_scope ∷ [])) params,
    no_pending (token_hash state) (prune now s).pending (ground arith),
    ground arith,
  )

  pub exchange_authorization_code-ok :
      (draws : Draws) (now : ℕ) (client : String) (code : AuthorizationCode) (s t : Store)
      (token : OauthToken)
      → exchange_authorization_code token_hash provider draws now client code s ≡ ok (token, t)
      → IsFresh token_hash draws s
        × (t
            ≡ with_pair token_hash provider draws client code.scopes
                (text_or_else code.resource provider.resource_url)
                (text_or_else code.subject "github:unknown")
                now
                (without_code (token_hash code.code) client s))
  unfolding exchange_authorization_code
  exchange_authorization_code-ok draws now client code s t token h = (ground arith, ground arith)

  pub exchange_refresh_token-ok :
      (draws : Draws) (now : ℕ) (client : String) (r : RefreshToken) (scopes : List String)
      (s t : Store) (token : OauthToken)
      → exchange_refresh_token token_hash provider draws now client r scopes s ≡ ok (token, t)
      → (row : RefreshRow) × (find_refresh (token_hash r.token) client s.refresh_tokens ≡ some row)
        × IsFresh token_hash draws (revoke_grant row.grant_id s)
        × (t
            ≡ with_pair token_hash provider draws client scopes provider.resource_url
                (text_or_else r.subject "github:unknown")
                now
                (revoke_grant row.grant_id s))
  unfolding exchange_refresh_token
  exchange_refresh_token-ok draws now client r scopes s t token h =
      elim (Option-cases (find_refresh (token_hash r.token) client s.refresh_tokens)) [
        | inl e ↦ absurd (ground arith)
        | inr (row, e) ↦ (row, e, ground arith, ground arith)
      ]

  load_authorization_code-row :
      (client raw : String) (s : Store) (code : AuthorizationCode)
      → load_authorization_code token_hash provider client raw s ≡ some code
      → (row : CodeRow) × (find_code (token_hash raw) client s.codes ≡ some row)
        × (code.code ≡ raw)
        × (code.scopes ≡ row.scopes)
        × (code.resource ≡ some row.resource)
        × (code.subject ≡ some row.subject)
  unfolding load_authorization_code
  load_authorization_code-row client raw s code h =
      elim (Option-cases (find_code (token_hash raw) client s.codes)) [
        | inl e ↦ absurd (ground arith)
        | inr (row, e) ↦ (row, e, ground arith, ground arith, ground arith, ground arith)
      ]

  load_refresh_token-row :
      (client raw : String) (s : Store) (r : RefreshToken)
      → load_refresh_token token_hash provider client raw s ≡ some r
      → (row : RefreshRow) × (find_refresh (token_hash raw) client s.refresh_tokens ≡ some row)
        × (r.token ≡ raw)
        × (r.subject ≡ some row.subject)
  unfolding load_refresh_token
  load_refresh_token-row client raw s r h =
      elim (Option-cases (find_refresh (token_hash raw) client s.refresh_tokens)) [
        | inl e ↦ absurd (ground arith)
        | inr (row, e) ↦ (row, e, ground arith, ground arith)
      ]

  github_identity-IsAllowed :
      (user : Fields) (x : String × String)
      → github_identity token_hash provider str_of casefold user ≡ some x
      → IsAllowed x
  unfolding github_identity
  github_identity-IsAllowed user x h = elim (Option-cases (get user "id")) [
    | inl e ↦ absurd (ground arith)
    | inr (id, e) ↦
        let named : x.0 ≡ concat "github:" (str_of id) = ground arith in
        (ground arith, ap is_nonempty named ∙ subject_nonempty (str_of id))
  ]

  after-Change :
      (now : ℕ) (q : Request) (w : World) (m : Result OauthError Store)
      → ((t : Store) → m ≡ ok t → Change now q w (record w { store = t }))
      → Change now q w (record w { store = after_store w.store m })
  after-Change now q w (ok t) h = h t refl
  after-Change now q w (err e) h = stays

  after_token-Change :
      (now : ℕ) (q : Request) (w : World) (m : Result OauthError (OauthToken × Store))
      → ((a : OauthToken) (t : Store) → m ≡ ok (a, t) → Change now q w (record w { store = t }))
      → Change now q w (record w { store = after w.store m })
  after_token-Change now q w (ok (a, t)) h = h a t refl
  after_token-Change now q w (err e) h = stays

  redeem-Change :
      (now : ℕ) (draws : Draws) (client raw : String) (passes : AuthorizationCode → Bool)
      (w : World) (o : Option AuthorizationCode)
      → load_authorization_code token_hash provider client raw w.store ≡ o
      → Change now (redeem draws client raw passes) w (record w {
        store = redeemed token_hash casefold str_of provider draws now client passes o w.store;
      })
  redeem-Change now draws client raw passes w none loaded = stays
  redeem-Change now draws client raw passes w (some code) loaded = elim (Bool-cases (passes code)) [
    | inl passed ↦ rw passed (
        after_token-Change now _ w
          (exchange_authorization_code token_hash provider draws now client code w.store)
          λ a t h.
            let (row, found, same_code, same_scopes, same_resource, same_subject) =
              load_authorization_code-row client raw w.store code loaded in
            let same : t
                ≡ with_pair token_hash provider draws client row.scopes
                    (text_or_else (some row.resource) provider.resource_url)
                    (text_or_else (some row.subject) "github:unknown") now
                    (without_code (token_hash raw) client w.store) =
              (exchange_authorization_code-ok draws now client code w.store t a h).1
              ∙ rw (same_code, same_scopes, same_resource, same_subject) in
            subst
              (λ (x : Store).
                Change now (redeem draws client raw passes) w (record w { store = x }))
              (sym same)
              (code_redeemed w (token_hash raw) client _ draws row found
                (exchange_authorization_code-ok draws now client code w.store t a h).0
                (λ hash avoids. avoids)))
    | inr refused ↦ rw refused stays
  ]

  refresh-Change :
      (now : ℕ) (draws : Draws) (client raw : String) (scopes : List String)
      (passes : RefreshToken → Bool) (w : World) (o : Option RefreshToken)
      → load_refresh_token token_hash provider client raw w.store ≡ o
      → Change now (refresh draws client raw scopes passes) w (record w {
        store =
            refreshed token_hash casefold str_of provider draws now client scopes passes o w.store;
      })
  refresh-Change now draws client raw scopes passes w none loaded = stays
  refresh-Change now draws client raw scopes passes w (some r) loaded =
      elim (Bool-cases (passes r)) [
        | inl passed ↦ rw passed (
            after_token-Change now _ w
              (exchange_refresh_token token_hash provider draws now client r scopes w.store)
              λ a t h.
                let (row, found, same_token, same_subject) =
                  load_refresh_token-row client raw w.store r loaded in
                let (used, found_used, fresh, same) =
                  exchange_refresh_token-ok draws now client r scopes w.store t a h in
                let used_row : used ≡ row = cc in
                let stored : t
                    ≡ with_pair token_hash provider draws client scopes provider.resource_url
                        (text_or_else (some row.subject) "github:unknown") now
                        (revoke_grant row.grant_id w.store) =
                  same ∙ rw (same_subject, used_row) in
                subst
                  (λ (x : Store).
                    Change now (refresh draws client raw scopes passes) w (record w { store = x }))
                  (sym stored)
                  (token_refreshed w (token_hash raw) client scopes draws row found
                    (rw (sym used_row) fresh) (λ hash avoids. avoids)))
        | inr refused ↦ rw refused stays
      ]

  revoke-Change :
      (now : ℕ) (q : Request) (w : World) (o : Option String)
      → Change now q w (record w { store = revoke_found o w.store })
  revoke-Change now q w none = stays
  revoke-Change now q w (some grant) = grant_revoked w grant

  -- the second transaction of the callback
  insert_code-Change :
      (now : ℕ) (code : String) (query : Callback) (fetched : Option Fields) (x : String × String)
      (p : Pending) (w : World)
      → IsAllowed x
      → Change now (come_back code query fetched) w (record {
        store = (insert_code token_hash provider now code x.0 p w.store).1;
        seen = x ∷ w.seen;
      })
  unfolding insert_code
  insert_code-Change now code query fetched x p w allowed =
      elim (Bool-cases (code_refused token_hash provider code p w.store)) [
        | inl refused ↦ rw refused (observed w x allowed)
        | inr free ↦ rw free (code_added w code p x allowed (ground arith) (λ h avoids. avoids))
      ]

  finish_callback-Change :
      (now : ℕ) (code : String) (query : Callback) (fetched : Option Fields) (p : Pending)
      (w : World)
      → Change now (come_back code query fetched) w (record {
        store =
            (finish_callback token_hash provider str_of casefold now code query fetched p
              w.store).2;
        seen =
            note_identity
              (finish_callback token_hash provider str_of casefold now code query fetched p
                w.store).1
              w.seen;
      })
  unfolding finish_callback
  finish_callback-Change now code query none p w =
      elim (Bool-cases (is_nonempty query.error || not (is_nonempty query.code))) [
        | inl refused ↦ rw refused stays
        | inr asked ↦ rw asked stays
      ]
  finish_callback-Change now code query (some user) p w =
      elim (Bool-cases (is_nonempty query.error || not (is_nonempty query.code))) [
        | inl refused ↦ rw refused stays
        | inr asked ↦
            elim (Option-cases (github_identity token_hash provider str_of casefold user)) [
              | inl stranger ↦ rw (asked, stranger) stays
              | inr (x, known) ↦
                  rw (asked, known)
                    (insert_code-Change now code query (some user) x p w
                      (github_identity-IsAllowed user x known))
            ]
      ]

  callback-Change :
      (now : ℕ) (code : String) (query : Callback) (fetched : Option Fields) (w : World)
      → Change now (come_back code query fetched) w (record {
        store =
            (github_callback token_hash provider str_of casefold now code query fetched w.store).2;
        seen =
            note_identity
              (github_callback token_hash provider str_of casefold now code query fetched w.store).1
              w.seen;
      })
  unfolding github_callback take_pending
  callback-Change now code query fetched w = elim (Bool-cases (is_nonempty query.state)) [
    | inl given ↦
        elim (Option-cases (find_pending (token_hash query.state) (prune now w.store).pending)) [
          | inl gone ↦
              rw (given, gone)
                (taken w (λ (p : Pending). not (p.state_hash == token_hash query.state)))
          | inr (p, found) ↦
              rw (given, found)
                (both (taken w (λ (p : Pending). not (p.state_hash == token_hash query.state)))
                  (finish_callback-Change now code query fetched p _))
        ]
    | inr missing ↦ rw missing stays
  ]

  -- One request changes the tables by such steps only.
  pub serve-Change :
      (now : ℕ) (q : Request) (w : World)
      → Change now q w (serve token_hash casefold str_of provider now q w)
  unfolding serve revoke_access_token revoke_refresh_token
  serve-Change now (register info) w =
      after-Change now _ w (register_client casefold now info w.store) λ t h.
        let (row, new, same) = register_client-ok now info w.store t h in
        subst (λ (x : Store). Change now (register info) w (record w { store = x })) (sym same)
          (client_added w row new)
  serve-Change now (sign_in state client params) w =
      after-Change now _ w (authorize token_hash provider now state client params w.store) λ t h.
        let (row, new, same) = authorize-ok now state client params w.store t h in
        subst (λ (x : Store). Change now (sign_in state client params) w (record w { store = x }))
          (sym same) (signed_in w row new)
  serve-Change now (come_back code query fetched) w = callback-Change now code query fetched w
  serve-Change now (redeem draws client raw passes) w =
      redeem-Change now draws client raw passes w _ refl
  serve-Change now (refresh draws client raw scopes passes) w =
      refresh-Change now draws client raw scopes passes w _ refl
  serve-Change now (revoke_one token) w =
      revoke-Change now _ w (access_grant (token_hash token) w.store.access_tokens)
  serve-Change now (revoke_other token) w =
      revoke-Change now _ w (refresh_grant (token_hash token) w.store.refresh_tokens)
