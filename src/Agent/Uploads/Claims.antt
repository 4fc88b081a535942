-- ===== src/Agent/Uploads/Claims.antt =====
-- src/orbita_agent/uploads.py: a ticket is claimed once, and the claim answers what was minted.
use orbita_agent_research_se.Base.{
  Option-cases, none, ◌⊎◌, ℕ, String, List, [], ◌∷◌, ◌++◌, any, true, false, ◌&&◌, some, Result, ok,
  err, ◌≡◌, refl, ◌≢◌, sym, subst, ◌≤◌, ◌<◌, ◌+◌, ◌*◌, arith, All, All-filter, All-append, is_some,
  Bool-cases, inl, inr, eq_iff, ◌==◌, >>=-eq-ok,
}
use orbita_agent_research_se.Base.Keys.{AreKeyed, has_key}
use orbita_agent_research_se.Agent.Uploads.{
  UploadError, refused, TicketRow, UploadTicket, MintRequest, ticket_key, ticket_of, minted_row,
  mint, claim, consume, is_open, purge_expired, natural_part, disk_headroom_bytes,
}
use orbita_agent_research_se.Agent.Uploads.Calls.{
  Call, mints, claims, purges, after, perform, perform_all,
}

-- a row with this digest was consumed
abbrev pub IsUsed : String → TicketRow → Type 0
IsUsed hash t = t.ticket_hash ≡ hash → is_some t.consumed_at ≡ true

consume-IsUsed :
    (now : ℕ) (hash other : String) (ts : List TicketRow)
    → All (IsUsed hash) ts
    → All (IsUsed hash) (consume now other ts).1
unfolding consume
consume-IsUsed now hash other [] h = tt
consume-IsUsed now hash other (t ∷ ts) h =
    elim (Bool-cases (t.ticket_hash == other && is_open now t)) [
      | inl hit ↦ rw hit ((λ _. refl), consume-IsUsed now hash other ts h.1)
      | inr miss ↦ rw miss (h.0, consume-IsUsed now hash other ts h.1)
    ]

no_open_ticket :
    (now : ℕ) (hash : String) (ts : List TicketRow)
    → All (IsUsed hash) ts
    → (consume now hash ts).0 ≡ 0
unfolding consume
no_open_ticket now hash [] h = refl
no_open_ticket now hash (t ∷ ts) h =
    ground (arith, no_open_ticket now hash ts h.1, h.0, eq_iff t.ticket_hash hash)

no_ticket-IsUsed :
    (hash : String) (ts : List TicketRow)
    → has_key ticket_key hash ts ≡ false
    → All (IsUsed hash) ts
unfolding any
no_ticket-IsUsed hash [] h = tt
no_ticket-IsUsed hash (t ∷ ts) h =
    (λ own. ground (arith, eq_iff t.ticket_hash hash), no_ticket-IsUsed hash ts (ground arith))

-- The update of one open row leaves no other, since the digest is the primary key.
consume_one-IsUsed :
    (now : ℕ) (hash : String) (ts : List TicketRow)
    → AreKeyed ticket_key ts
    → (consume now hash ts).0 ≡ 1
    → All (IsUsed hash) (consume now hash ts).1
unfolding consume
consume_one-IsUsed now hash [] keyed h = cc
consume_one-IsUsed now hash (t ∷ ts) keyed h = elim (Bool-cases (t.ticket_hash == hash)) [
  | inl own ↦
      let none_left =
        no_ticket-IsUsed hash ts
          (subst (λ (k : String). has_key ticket_key k ts ≡ false) ((eq_iff _ _).0 own) keyed.0) in
      elim (Bool-cases (is_open now t)) [
        | inl open_row ↦ rw (own, open_row) ((λ _. refl), consume-IsUsed now hash hash ts none_left)
        | inr shut ↦ absurd (ground (arith, no_open_ticket now hash ts none_left))
      ]
  | inr other ↦ rw other (
    λ own. ground (arith, eq_iff t.ticket_hash hash),
    consume_one-IsUsed now hash ts keyed.1 (ground arith),
  )
]

module _ (hash_ticket : String → String) (safe_name : String → Result UploadError String) where
  -- the tickets that a call mints and those that it claims
  abbrev pub Avoids : String → Call → Type 0
  Avoids hash (mints ticket r) = hash_ticket ticket ≢ hash
  Avoids hash _ = Unit

  abbrev pub Ignores : String → Call → Type 0
  Ignores hash (mints ticket r) = hash_ticket ticket ≢ hash
  Ignores hash (claims ticket) = hash_ticket ticket ≢ hash
  Ignores hash (purges older) = Unit

  pub mint-row :
      (now : ℕ) (ticket : String) (r : MintRequest) (rows rows' : List TicketRow) (t : UploadTicket)
      → mint hash_ticket safe_name now ticket r rows ≡ ok (t, rows')
      → (filename : String) × (safe_name r.filename ≡ ok filename)
        × (has_key ticket_key (hash_ticket ticket) rows ≡ false)
        × (t ≡ ticket_of (minted_row hash_ticket safe_name now ticket filename r))
        × (rows' ≡ rows ++ minted_row hash_ticket safe_name now ticket filename r ∷ [])
  unfolding mint
  mint-row now ticket r rows rows' t h =
      let (filename, named, h1) = >>=-eq-ok (safe_name r.filename) _ h in
      (filename, named, ground arith, ground arith, ground arith)

  pub claim-rows :
      (now : ℕ) (ticket : String) (rows rows' : List TicketRow) (t : UploadTicket)
      → claim hash_ticket safe_name now ticket rows ≡ ok (t, rows')
      → ((consume now (hash_ticket ticket) rows).0 ≡ 1)
        × (rows' ≡ (consume now (hash_ticket ticket) rows).1)
  unfolding claim
  claim-rows now ticket rows rows' t h = (ground arith, ground arith)

  -- what a call does if it returns, and what holds anyhow
  pub after_cases :
      (P : List TicketRow → Type 0) (rows : List TicketRow)
      (m : Result UploadError (UploadTicket × List TicketRow))
      → P rows
      → ((t : UploadTicket) (rows' : List TicketRow) → m ≡ ok (t, rows') → P rows')
      → P (after rows m)
  after_cases P rows (ok (t, rows')) h k = k t rows' refl
  after_cases P rows (err e) h k = h

  perform-IsUsed :
      (now : ℕ) (hash : String) (c : Call) (rows : List TicketRow)
      → Avoids hash c
      → All (IsUsed hash) rows
      → All (IsUsed hash) (perform hash_ticket safe_name now c rows)
  unfolding perform purge_expired
  perform-IsUsed now hash (mints ticket r) rows avoid h =
      after_cases (All (IsUsed hash)) rows (mint hash_ticket safe_name now ticket r rows) h
        λ t rows' e.
          let (filename, _, _, _, same) = mint-row now ticket r rows rows' t e in
          subst (All (IsUsed hash)) (sym same)
            (All-append (IsUsed hash) rows _ h ((λ own. absurd (avoid own)), tt))
  perform-IsUsed now hash (claims ticket) rows avoid h =
      after_cases (All (IsUsed hash)) rows (claim hash_ticket safe_name now ticket rows) h
        λ t rows' e.
          subst (All (IsUsed hash)) (sym (claim-rows now ticket rows rows' t e).1)
            (consume-IsUsed now hash (hash_ticket ticket) rows h)
  perform-IsUsed now hash (purges older) rows avoid h = All-filter (IsUsed hash) _ rows h

  perform_all-IsUsed :
      (hash : String) (cs : List (ℕ × Call)) (rows : List TicketRow)
      → All (λ (e : ℕ × Call). Avoids hash e.1) cs
      → All (IsUsed hash) rows
      → All (IsUsed hash) (perform_all hash_ticket safe_name cs rows)
  unfolding perform_all
  perform_all-IsUsed hash [] rows avoid h = h
  perform_all-IsUsed hash ((now, c) ∷ cs) rows avoid h =
      perform_all-IsUsed hash cs (perform hash_ticket safe_name now c rows) avoid.1
        (perform-IsUsed now hash c rows avoid.0 h)

  -- After a claim, and whatever calls follow that do not mint the ticket anew, every further claim of
  -- the ticket is refused.
  pub claim-once :
      (now now' : ℕ) (ticket : String) (t : UploadTicket) (rows rows' : List TicketRow)
      (cs : List (ℕ × Call))
      → AreKeyed ticket_key rows
      → claim hash_ticket safe_name now ticket rows ≡ ok (t, rows')
      → All (λ (e : ℕ × Call). Avoids (hash_ticket ticket) e.1) cs
      → claim hash_ticket safe_name now' ticket (perform_all hash_ticket safe_name cs rows')
        ≡ err refused
  unfolding claim
  claim-once now now' ticket t rows rows' cs keyed h avoid =
      let (count, same) = claim-rows now ticket rows rows' t h in
      rw (
        no_open_ticket now' (hash_ticket ticket) (perform_all hash_ticket safe_name cs rows') (
          perform_all-IsUsed (hash_ticket ticket) cs rows' avoid (
            subst (All (IsUsed (hash_ticket ticket))) (sym same)
              (consume_one-IsUsed now (hash_ticket ticket) rows keyed count))))

  -- A ticket that is minted is for the bytes declared, and admits at most twice their number and at
  -- most the limit. If the free space of the volume is known, the bytes declared leave it its headroom,
  -- and an upload of the ticket's size leaves at most the bytes declared less than that.
  pub mint-bounds :
      (now : ℕ) (ticket : String) (r : MintRequest) (rows rows' : List TicketRow) (t : UploadTicket)
      → mint hash_ticket safe_name now ticket r rows ≡ ok (t, rows')
      → (0 < natural_part r.declared_bytes)
        × (natural_part r.declared_bytes ≤ t.max_bytes)
        × (t.max_bytes ≤ natural_part r.declared_bytes * 2)
        × (t.max_bytes ≤ r.max_bytes)
        × ((r.free ≡ none)
            ⊎ (free : ℕ) × (r.free ≡ some free)
              × (natural_part r.declared_bytes + disk_headroom_bytes ≤ free)
              × (t.max_bytes + disk_headroom_bytes ≤ free + natural_part r.declared_bytes))
  unfolding mint
  mint-bounds now ticket r rows rows' t h = (
    ground arith,
    ground arith,
    ground arith,
    ground arith,
    elim (Option-cases r.free) [
      | inl unknown ↦ inl unknown
      | inr (free, known) ↦ inr (free, known, ground arith, ground arith)
    ],
  )
