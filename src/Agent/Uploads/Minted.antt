-- ===== src/Agent/Uploads/Minted.antt =====
-- src/orbita_agent/uploads.py: a minted ticket waits for its claim.
use orbita_agent_research_se.Base.{
  ℕ, String, List, [], ◌∷◌, ◌++◌, filter, any, true, false, ◌&&◌, some, Result, ok, ◌≡◌, refl,
  eq_refl, ◌≢◌, sym, ap, subst, ◌∙◌, ◌<◌, arith, All, Bool-cases, inl, inr, eq_iff, ◌==◌,
}
use orbita_agent_research_se.Base.Keys.{AreKeyed, has_key, AreKeyed-filter, AreKeyed-append}
use orbita_agent_research_se.Agent.Uploads.{
  UploadError, TicketRow, UploadTicket, MintRequest, ticket_key, minted_row, mint, claim, consume,
  find_ticket, is_open, purge_expired,
}
use orbita_agent_research_se.Agent.Uploads.Calls.{Call, mints, claims, purges, perform, perform_all}
use orbita_agent_research_se.Agent.Uploads.Claims.{Ignores, mint-row, claim-rows, after_cases}

find_ticket-append :
    (hash : String) (ts us : List TicketRow) (row : TicketRow)
    → find_ticket hash ts ≡ some row
    → find_ticket hash (ts ++ us) ≡ some row
unfolding find_ticket
find_ticket-append hash [] us row h = cc
find_ticket-append hash (t ∷ ts) us row h = ground (arith, find_ticket-append hash ts us row)

find_ticket-last :
    (ts : List TicketRow) (row : TicketRow)
    → has_key ticket_key row.ticket_hash ts ≡ false
    → find_ticket row.ticket_hash (ts ++ row ∷ []) ≡ some row
unfolding find_ticket any
find_ticket-last [] row h = ground (arith, eq_refl row.ticket_hash)
find_ticket-last (t ∷ ts) row h = ground (arith, find_ticket-last ts row)

find_ticket-consume :
    (now : ℕ) (hash other : String) (ts : List TicketRow)
    → other ≢ hash
    → find_ticket hash (consume now other ts).1 ≡ find_ticket hash ts
unfolding find_ticket consume
find_ticket-consume now hash other [] ne = refl
find_ticket-consume now hash other (t ∷ ts) ne = ground (
  arith,
  find_ticket-consume now hash other ts ne,
  eq_iff t.ticket_hash other,
  eq_iff t.ticket_hash hash,
)

find_ticket-purge :
    (now older : ℕ) (hash : String) (ts : List TicketRow) (row : TicketRow)
    → now < row.expires_at
    → find_ticket hash ts ≡ some row
    → find_ticket hash (purge_expired now older ts) ≡ some row
unfolding find_ticket purge_expired filter
find_ticket-purge now older hash [] row fresh h = cc
find_ticket-purge now older hash (t ∷ ts) row fresh h =
    ground (arith, find_ticket-purge now older hash ts row fresh)

has_key-consume :
    (now : ℕ) (key other : String) (ts : List TicketRow)
    → has_key ticket_key key (consume now other ts).1 ≡ has_key ticket_key key ts
unfolding consume any
has_key-consume now key other [] = refl
has_key-consume now key other (t ∷ ts) = ground (arith, has_key-consume now key other ts)

AreKeyed-consume :
    (now : ℕ) (other : String) (ts : List TicketRow)
    → AreKeyed ticket_key ts
    → AreKeyed ticket_key (consume now other ts).1
unfolding consume
AreKeyed-consume now other [] h = tt
AreKeyed-consume now other (t ∷ ts) h =
    elim (Bool-cases (t.ticket_hash == other && is_open now t)) [
      | inl hit ↦
          rw hit
            (has_key-consume now t.ticket_hash other ts ∙ h.0, AreKeyed-consume now other ts h.1)
      | inr miss ↦
          rw miss
            (has_key-consume now t.ticket_hash other ts ∙ h.0, AreKeyed-consume now other ts h.1)
    ]

consume-absent :
    (now : ℕ) (hash : String) (ts : List TicketRow)
    → has_key ticket_key hash ts ≡ false
    → (consume now hash ts).0 ≡ 0
unfolding consume any
consume-absent now hash [] h = refl
consume-absent now hash (t ∷ ts) h = ground (arith, consume-absent now hash ts)

-- The update of a row that waits hits it, and it alone.
consume-found :
    (now : ℕ) (hash : String) (ts : List TicketRow) (row : TicketRow)
    → AreKeyed ticket_key ts
    → find_ticket hash ts ≡ some row
    → is_open now row ≡ true
    → ((consume now hash ts).0 ≡ 1)
      × (find_ticket hash (consume now hash ts).1 ≡ some (record row { consumed_at = some now }))
unfolding consume find_ticket
consume-found now hash [] row keyed h open_row = cc
consume-found now hash (t ∷ ts) row keyed h open_row = elim (Bool-cases (t.ticket_hash == hash)) [
  | inl own ↦
      let absent =
        consume-absent now hash ts
          (subst (λ (k : String). has_key ticket_key k ts ≡ false) ((eq_iff _ _).0 own) keyed.0) in
      let same : t ≡ row = ground arith in
      let waits : is_open now t ≡ true =
        subst (λ (x : TicketRow). is_open now x ≡ true) (sym same) open_row in
      rw (own, waits, absent, own)
        (refl, ap (λ (x : TicketRow). some (record x { consumed_at = some now })) same)
  | inr other ↦ rw (other, other) (consume-found now hash ts row keyed.1 (ground arith) open_row)
]

-- The row is found, and the digests are a primary key.
pub record Waits (row : TicketRow) (rows : List TicketRow) : Type 0 where
  pub found : find_ticket row.ticket_hash rows ≡ some row
  pub keyed : AreKeyed ticket_key rows

module _ (hash_ticket : String → String) (safe_name : String → Result UploadError String) where
  perform-Waits :
      (now : ℕ) (c : Call) (row : TicketRow) (rows : List TicketRow)
      → now < row.expires_at
      → Ignores hash_ticket safe_name row.ticket_hash c
      → Waits row rows
      → Waits row (perform hash_ticket safe_name now c rows)
  unfolding perform purge_expired
  perform-Waits now (mints ticket r) row rows fresh ignores w =
      after_cases hash_ticket safe_name (Waits row) rows
        (mint hash_ticket safe_name now ticket r rows) w
        λ t rows' e.
          let (filename, _, new, _, same) =
            mint-row hash_ticket safe_name now ticket r rows rows' t e in
          subst (Waits row) (sym same) (record {
            found = find_ticket-append row.ticket_hash rows _ row w.found;
            keyed = AreKeyed-append ticket_key rows _ new w.keyed;
          })
  perform-Waits now (claims ticket) row rows fresh ignores w =
      after_cases hash_ticket safe_name (Waits row) rows
        (claim hash_ticket safe_name now ticket rows) w
        λ t rows' e.
          subst (Waits row) (sym (claim-rows hash_ticket safe_name now ticket rows rows' t e).1)
            (record {
              found =
                  find_ticket-consume now row.ticket_hash (hash_ticket ticket) rows ignores
                  ∙ w.found;
              keyed = AreKeyed-consume now (hash_ticket ticket) rows w.keyed;
            })
  perform-Waits now (purges older) row rows fresh ignores w = record {
    found = find_ticket-purge now older row.ticket_hash rows row fresh w.found;
    keyed = AreKeyed-filter ticket_key _ rows w.keyed;
  }

  perform_all-Waits :
      (cs : List (ℕ × Call)) (row : TicketRow) (rows : List TicketRow)
      → All
          (λ (e : ℕ × Call).
            (e.0 < row.expires_at) × Ignores hash_ticket safe_name row.ticket_hash e.1)
          cs
      → Waits row rows
      → Waits row (perform_all hash_ticket safe_name cs rows)
  unfolding perform_all
  perform_all-Waits [] row rows ok_calls w = w
  perform_all-Waits ((now, c) ∷ cs) row rows ok_calls w =
      perform_all-Waits cs row (perform hash_ticket safe_name now c rows) ok_calls.1
        (perform-Waits now c row rows ok_calls.0.0 ok_calls.0.1 w)

  -- A ticket that was minted can be claimed until it expires, whatever calls that neither mint nor
  -- claim it come in between, and the claim answers what `mint` answered.
  pub claim-mint :
      (now now' : ℕ) (ticket : String) (r : MintRequest) (rows rows' : List TicketRow)
      (t : UploadTicket) (cs : List (ℕ × Call))
      → AreKeyed ticket_key rows
      → mint hash_ticket safe_name now ticket r rows ≡ ok (t, rows')
      → now' < t.expires_at
      → All
          (λ (e : ℕ × Call).
            (e.0 < t.expires_at) × Ignores hash_ticket safe_name (hash_ticket ticket) e.1)
          cs
      → (left : List TicketRow) × (claim hash_ticket safe_name now' ticket
            (perform_all hash_ticket safe_name cs rows')
          ≡ ok (t, left))
  unfolding claim
  claim-mint now now' ticket r rows rows' t cs keyed h in_time quiet =
      let (filename, _, new, answer, same) =
        mint-row hash_ticket safe_name now ticket r rows rows' t h in
      let row = minted_row hash_ticket safe_name now ticket filename r in
      let lasts : t.expires_at ≡ row.expires_at = ap (λ (x : UploadTicket). x.expires_at) answer in
      let waits =
        perform_all-Waits cs row rows'
          (subst
            (λ (n : ℕ).
              All
                (λ (e : ℕ × Call).
                  (e.0 < n) × Ignores hash_ticket safe_name (hash_ticket ticket) e.1)
                cs)
            lasts quiet)
          (subst (Waits row) (sym same) (record {
            found = find_ticket-last rows row new;
            keyed = AreKeyed-append ticket_key rows row new keyed;
          })) in
      let (count, found) =
        consume-found now' (hash_ticket ticket) (perform_all hash_ticket safe_name cs rows') row
          waits.keyed waits.found (ground arith) in
      let left =
        (consume now' (hash_ticket ticket) (perform_all hash_ticket safe_name cs rows')).1 in
      (left, rw (count, found) (ap (λ (x : UploadTicket). ok (x, left)) (sym answer)))
