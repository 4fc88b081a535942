-- ===== src/Agent/Uploads/Tests.antt =====
-- Runs of the ticket store on small inputs, and the theorems at them.
use orbita_agent_research_se.Base.{
  ltb, ◌-◌, ◌⊎◌, none, ℕ, String, List, [], ◌∷◌, false, some, Result, ok, err, ◌≡◌, refl, ◌≢◌, any,
  elem, arith, ◌≤◌, ◌<◌, ◌+◌, ◌==◌, eq_iff, leb, ◌&&◌,
}
use orbita_agent_research_se.Base.Texts.{concat}
use orbita_agent_research_se.Base.Json.{pos}
use Prim.Native.Char.{code}
use orbita_agent_research_se.Agent.Uploads.{
  UploadError, refused, TicketRow, UploadTicket, MintRequest, mint, claim, consume, find_ticket,
  disk_headroom_bytes, true,
}
use orbita_agent_research_se.Base.Keys.{AreKeyed}
use orbita_agent_research_se.Agent.Uploads.{ticket_key}
use orbita_agent_research_se.Agent.Uploads.Names.{Platform, safe_upload_filename}
use orbita_agent_research_se.Agent.Uploads.Calls.{Call, mints, claims, purges, perform_all}
use orbita_agent_research_se.Agent.Uploads.Claims.{claim-once, mint-bounds}
use orbita_agent_research_se.Agent.Uploads.Minted.{claim-mint}

abbrev same : String → String
same s = s

-- ASCII letters, and names that end in ".zip"
abbrev platform : Platform
platform = record {
  name = same;
  stem = same;
  suffix = λ _. ".zip";
  lower = same;
  is_alnum = λ c. leb 97 (code c) && leb (code c) 122;
}

abbrev named : String → Result UploadError String
named = safe_upload_filename platform

abbrev request : MintRequest
request = record {
  tenant = "ann";
  case_id = "case";
  filename = "_a b.zip";
  declared_bytes = pos 400;
  max_bytes = 600;
  ttl_seconds = 1800;
  free = some 500000400;
}

abbrev rows_or :
    List TicketRow → Result UploadError (UploadTicket × List TicketRow) → List TicketRow
rows_or rows (ok (t, left)) = left
rows_or rows (err e) = rows

abbrev ticket : UploadTicket
ticket = record {
  ticket_hash = "t1";
  tenant = "ann";
  case_id = "case";
  filename = "ab.zip";
  max_bytes = 600;
  expires_at = 1810;
}

abbrev with_ticket : List TicketRow
with_ticket = rows_or [] (mint same named 10 "t1" request [])

minted : mint same named 10 "t1" request [] ≡ ok (ticket, with_ticket)
unfolding mint safe_upload_filename any elem concat
minted = refl

-- the ticket admits 600 bytes, and they leave the volume 200 bytes less than the headroom
headroom_missed : ltb (500000400 - ticket.max_bytes) disk_headroom_bytes ≡ true
headroom_missed = refl

mint-bounds_example :
    (0 < 400)
    × (400 ≤ 600)
    × (600 ≤ 800)
    × (600 ≤ 600)
    × ((request.free ≡ none)
        ⊎ (free : ℕ) × (request.free ≡ some free)
          × (400 + disk_headroom_bytes ≤ free)
          × (600 + disk_headroom_bytes ≤ free + 400))
mint-bounds_example = mint-bounds same named 10 "t1" request [] with_ticket ticket minted

differ : (s t : String) → (s == t) ≡ false → s ≢ t
differ s t h e = ground (arith, eq_iff s t)

-- another ticket is minted and claimed, and old rows are purged
abbrev between : List (ℕ × Call)
between = (20, mints "t2" request) ∷ (30, claims "t2") ∷ (1700, purges 0) ∷ []

claim-mint_example :
    (left : List TicketRow) × (claim same named 1809 "t1"
        (perform_all same named between with_ticket)
      ≡ ok (ticket, left))
claim-mint_example =
    claim-mint same named 10 1809 "t1" request [] with_ticket ticket between tt minted (omega arith)
      (
        (omega arith, differ "t2" "t1" refl),
        ((omega arith, differ "t2" "t1" refl), ((omega arith, tt), tt)),
      )

abbrev after_claim : List TicketRow
after_claim = rows_or with_ticket (claim same named 50 "t1" with_ticket)

claimed : claim same named 50 "t1" with_ticket ≡ ok (ticket, after_claim)
unfolding mint claim consume find_ticket safe_upload_filename any elem concat
claimed = refl

with_ticket-AreKeyed : AreKeyed ticket_key with_ticket
unfolding mint safe_upload_filename any elem concat
with_ticket-AreKeyed = (refl, tt)

claim-once_example :
    claim same named 60 "t1" (perform_all same named between after_claim) ≡ err refused
claim-once_example =
    claim-once same named 50 60 "t1" ticket with_ticket after_claim between with_ticket-AreKeyed
      claimed (differ "t2" "t1" refl, (tt, (tt, tt)))
