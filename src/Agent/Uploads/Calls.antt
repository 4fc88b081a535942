-- ===== src/Agent/Uploads/Calls.antt =====
-- src/orbita_agent/uploads.py: sequences of calls on the table of tickets.
use orbita_agent_research_se.Base.{ℕ, String, List, [], ◌∷◌, Result, ok, err}
use orbita_agent_research_se.Agent.Uploads.{
  UploadError, UploadTicket, MintRequest, TicketRow, mint, claim, purge_expired,
}

pub data Call : Type 0 where
  mints : (ticket : String) → MintRequest → Call
  claims : (ticket : String) → Call
  purges : (older_than_seconds : ℕ) → Call

abbrev pub after :
    List TicketRow → Result UploadError (UploadTicket × List TicketRow) → List TicketRow
after rows (ok (t, rows')) = rows'
after rows (err e) = rows

module _ (hash_ticket : String → String) (safe_name : String → Result UploadError String) where
  unfoldable pub perform : ℕ → Call → List TicketRow → List TicketRow
  perform now (mints ticket r) rows = after rows (mint hash_ticket safe_name now ticket r rows)
  perform now (claims ticket) rows = after rows (claim hash_ticket safe_name now ticket rows)
  perform now (purges older) rows = purge_expired now older rows

  unfoldable pub perform_all : List (ℕ × Call) → List TicketRow → List TicketRow
  unfolding perform
  perform_all [] rows = rows
  perform_all ((now, c) ∷ rest) rows = perform_all rest (perform now c rows)
