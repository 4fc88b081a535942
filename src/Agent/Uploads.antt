-- ===== src/Agent/Uploads.antt =====
-- src/orbita_agent/uploads.py: the upload tickets. Times are whole seconds and sizes numbers of bytes;
-- the ticket that a call draws, the time and the free space of the volume are its arguments.
-- `hash_ticket` is `_hash_ticket`. A method that raises leaves the table as it was.
pub mod Names
pub mod Calls
pub mod Claims
pub mod Minted
mod Tests
use orbita_agent_research_se.Base.{
  ℕ, suc, String, List, [], ◌∷◌, ◌++◌, filter, Bool, true, false, not, ◌&&◌, Option, none, some,
  Result, ok, err, ◌>>=◌, ◌>>◌, raise_if, guard, if◌then◌else◌, ◌==◌, ltb, nat_eq, min, ◌*◌, ◌+◌,
}
use orbita_agent_research_se.Base.Keys.{has_key}
use orbita_agent_research_se.Base.Json.{ℤ, pos, negsuc}

pub data UploadError : Type 0 where
  no_safe_character bad_suffix size_not_positive size_over_limit no_headroom refused integrity :
      UploadError
  bad_setting : UploadError

pub record TicketRow : Type 0 where
  pub ticket_hash : String
  pub tenant : String
  pub case_id : String
  pub filename : String
  pub max_bytes : ℕ
  pub created_at : ℕ
  pub expires_at : ℕ
  pub consumed_at : Option ℕ

pub record UploadTicket : Type 0 where
  pub ticket_hash : String
  pub tenant : String
  pub case_id : String
  pub filename : String
  pub max_bytes : ℕ
  pub expires_at : ℕ

abbrev pub ticket_key : TicketRow → String
ticket_key t = t.ticket_hash

-- the keyword arguments of `mint`; `free` is what `shutil.disk_usage` answers for `volume_path`
pub record MintRequest : Type 0 where
  pub tenant : String
  pub case_id : String
  pub filename : String
  pub declared_bytes : ℤ
  pub max_bytes : ℕ
  pub ttl_seconds : ℕ
  pub free : Option ℕ

abbrev pub disk_headroom_bytes : ℕ
disk_headroom_bytes = 500000000

abbrev pub natural_part : ℤ → ℕ
natural_part (pos n) = n
natural_part (negsuc n) = 0

abbrev pub lacks_headroom : ℕ → Option ℕ → Bool
lacks_headroom declared none = false
lacks_headroom declared (some free) = ltb free (declared + disk_headroom_bytes)

-- `max_upload_bytes` of the text of the setting; `parse_int` is python's `int` of a text
abbrev pub positive_or : Option ℤ → Result UploadError ℕ
positive_or (some (pos (suc n))) = ok (suc n)
positive_or _ = err bad_setting

unfoldable pub max_upload_bytes :
    (parse_int : String → Option ℤ) (strip : String → String) → String → Result UploadError ℕ
max_upload_bytes parse_int strip raw = positive_or (parse_int (strip raw))

abbrev pub ticket_of : TicketRow → UploadTicket
ticket_of t = record {
  ticket_hash = t.ticket_hash;
  tenant = t.tenant;
  case_id = t.case_id;
  filename = t.filename;
  max_bytes = t.max_bytes;
  expires_at = t.expires_at;
}

-- `consumed_at IS NULL AND expires_at > now`
abbrev pub is_open : ℕ → TicketRow → Bool
is_open now t = elim t.consumed_at [ none ↦ ltb now t.expires_at | some _ ↦ false ]

-- the UPDATE of `claim`, with its row count
unfoldable pub consume : ℕ → String → List TicketRow → ℕ × List TicketRow
consume now hash [] = (0, [])
consume now hash (t ∷ ts) =
    let (count, rest) = consume now hash ts in
    if t.ticket_hash == hash && is_open now t
    then (suc count, record t { consumed_at = some now } ∷ rest)
    else (count, t ∷ rest)

unfoldable pub find_ticket : String → List TicketRow → Option TicketRow
find_ticket hash [] = none
find_ticket hash (t ∷ ts) = if t.ticket_hash == hash then some t else find_ticket hash ts

abbrev pub or_refused : Option TicketRow → Result UploadError TicketRow
or_refused none = err refused
or_refused (some t) = ok t

module _ (hash_ticket : String → String) (safe_name : String → Result UploadError String) where
  abbrev pub minted_row : ℕ → (ticket filename : String) → MintRequest → TicketRow
  minted_row now ticket filename r = record {
    ticket_hash = hash_ticket ticket;
    tenant = r.tenant;
    case_id = r.case_id;
    filename = filename;
    max_bytes = min (natural_part r.declared_bytes * 2) r.max_bytes;
    created_at = now;
    expires_at = now + r.ttl_seconds;
    consumed_at = none;
  }

  unfoldable pub mint :
      ℕ
      → (ticket : String) → MintRequest
      → List TicketRow
      → Result UploadError (UploadTicket × List TicketRow)
  mint now ticket r rows = do
    filename ← safe_name r.filename
    let declared = natural_part r.declared_bytes
    raise_if (nat_eq declared 0) size_not_positive
    raise_if (ltb r.max_bytes declared) size_over_limit
    raise_if (lacks_headroom declared r.free) no_headroom
    raise_if (has_key ticket_key (hash_ticket ticket) rows) integrity
    let row = minted_row now ticket filename r
    ok (ticket_of row, rows ++ row ∷ [])

  unfoldable pub claim :
      ℕ → (ticket : String) → List TicketRow → Result UploadError (UploadTicket × List TicketRow)
  unfolding consume find_ticket
  claim now ticket rows = do
    let (count, updated) = consume now (hash_ticket ticket) rows
    guard (nat_eq count 1) refused
    row ← or_refused (find_ticket (hash_ticket ticket) updated)
    ok (ticket_of row, updated)

-- `purge_expired`: the rows with `expires_at < now - older_than_seconds` go
unfoldable pub purge_expired : (now older_than_seconds : ℕ) → List TicketRow → List TicketRow
purge_expired now older rows = filter (λ (t : TicketRow). not (ltb (t.expires_at + older) now)) rows
