-- ===== src/Ingest/Handler.antt =====
-- ingest/handler.go: the service of one ingest request. What the client and the waiting do is given
-- by the request: the bytes that arrive, and how a wait for a decode slot ends. The decoder,
-- `proto.Unmarshal`, and `mime.ParseMediaType` are parameters; `none` is their error. The texts of
-- the answers and the log lines are left out.
pub mod Answers
use yukon_collector.Base.{
  ℕ, zero, suc, ◌+◌, ◌-◌, ◌*◌, ◌^◌, ◌≡◌, Bool, true, false, not, ◌&&◌, ◌||◌, Option, none, some,
  List, [], ◌∷◌, ◌++◌, Bytes, codes, bytes_eq, is_empty, length, ltb, leb, if◌then◌else◌, ℤ, pos,
  negsuc,
}
use yukon_collector.Text.Space.{trim_space}
use yukon_collector.Text.Fold.{equal_fold}
use yukon_collector.Text.Parts.{split, join}
use yukon_collector.Metrics.Counters.{
  PayloadKind, deltas, manifest, static_baseline, RejectReason, Count, ingest_accepted,
  ingest_rejected,
}
use yukon_collector.Metrics.Counters
use yukon_collector.Payload.{DeltaBatch, ProbeManifest, StaticBaseline}
use yukon_collector.Ingest.Sink.{Sink, Taken}
use yukon_collector.Ingest.Validate.{
  Invalid, validate_delta_batch, validate_manifest, validate_static_baseline,
}

abbrev pub max_body_bytes : ℕ
max_body_bytes = 16 * 2 ^ 20

-- How the wait of a request for a slot ends: one comes free, its context ends, or five seconds pass.
pub data Wait : Type 0 where
  freed ended expired : Wait

-- `arriving` are the bytes that come before the body ends, or breaks off.
pub record Request : Type 0 where
  pub content_encoding : List Bytes
  pub content_type : Bytes
  pub arriving : Bytes
  pub broken : Bool
  pub wait : Wait

-- An empty `retry_after` stands for no such header.
pub record Response : Type 0 where
  pub status : ℕ
  pub retry_after : Bytes

abbrev pub plain : ℕ → Response
plain status = record { status = status; retry_after = [] }

-- `WithMaxConcurrentDecodes`: a cap that is not positive is no cap.
unfoldable pub slots_of : ℤ → Option ℕ
slots_of (pos zero) = none
slots_of (pos (suc n)) = some (suc n)
slots_of (negsuc n) = none

unfoldable pub identity_only : List Bytes → Bool
identity_only [] = true
identity_only (enc ∷ encs) =
    if not (is_empty (trim_space enc)) && not (equal_fold (trim_space enc) (codes "identity"))
    then false
    else identity_only encs

unfoldable pub check_content_type : (Bytes → Option Bytes) → Request → Bool
check_content_type parse_media_type r =
    if identity_only (split b',' (join b',' r.content_encoding))
    then (elim (parse_media_type r.content_type) [
      | none ↦ false
      | some media_type ↦ bytes_eq media_type (codes "application/x-protobuf")
    ])
    else false

-- What reading a request gives: its body, or the reason why it is turned away.
pub data Reading : Type 0 where
  complete : Bytes → Reading
  rejected : RejectReason → ℕ → Reading

-- `http.MaxBytesReader` fails as soon as one byte too many has come.
unfoldable pub read_body : Request → Reading
read_body r =
    if ltb max_body_bytes (length r.arriving)
    then rejected Counters.too_large 413
    else if r.broken
    then rejected Counters.read 400
    else complete r.arriving

unfoldable pub read_request : (Bytes → Option Bytes) → Request → Reading
read_request parse_media_type r =
    if check_content_type parse_media_type r
    then read_body r
    else rejected Counters.content_type 415

-- The result of a request: the sink's state, the slots in use, the counts, and the response, if one
-- is written.
pub record Served (S : Type 0) : Type 0 where
  pub state : S
  pub in_use : ℕ
  pub counts : List Count
  pub response : Option Response

pub data Slot : Type 0 where
  taken : ℕ → Slot
  refused : RejectReason → Option Response → Slot

-- Without a cap there is no slot to take.
unfoldable pub acquire : Option ℕ → Wait → ℕ → Slot
acquire none w in_use = taken in_use
acquire (some cap) freed in_use = taken (suc in_use)
acquire (some cap) ended in_use = refused Counters.canceled none
acquire (some cap) expired in_use =
    refused Counters.busy (some (record { status = 503; retry_after = codes "1" }))

unfoldable pub release : Option ℕ → ℕ → ℕ
release none in_use = in_use
release (some cap) in_use = in_use - 1

module _ {S E Msg : Type 0} (slots : Option ℕ) (parse_media_type : Bytes → Option Bytes)
    (unmarshal : Bytes → Option Msg) (kind : PayloadKind) (validate : Msg → Option Invalid)
    (accept : Msg → S → Option (Taken S E)) where
  abbrev turned_away : S → ℕ → RejectReason → Option Response → Served S
  turned_away s in_use reason response = record {
    state = s;
    in_use = in_use;
    counts = ingest_rejected kind reason ∷ [];
    response = response;
  }

  abbrev answer : ℕ → Taken S E → Option E → Served S
  answer in_use t (some e) = record {
    state = t.state;
    in_use = in_use;
    counts = t.counts ++ ingest_rejected kind Counters.sink ∷ [];
    response = some (plain 503);
  }
  answer in_use t none = record {
    state = t.state;
    in_use = in_use;
    counts = t.counts ++ ingest_accepted kind ∷ [];
    response = some (plain 202);
  }

  abbrev pass_on : ℕ → Option (Taken S E) → Option (Served S)
  pass_on in_use none = none
  pass_on in_use (some t) = some (answer in_use t t.error)

  abbrev check : S → ℕ → Msg → Option Invalid → Option (Served S)
  check s in_use msg (some e) = some (turned_away s in_use Counters.invalid (some (plain 400)))
  check s in_use msg none = pass_on in_use (accept msg s)

  abbrev decode : S → ℕ → Option Msg → Option (Served S)
  decode s in_use none = some (turned_away s in_use Counters.malformed (some (plain 400)))
  decode s in_use (some msg) = check s in_use msg (validate msg)

  -- The slot is released on every way out, so the response's `in_use` is the one after it.
  abbrev with_slot : S → ℕ → Bytes → Slot → Option (Served S)
  with_slot s in_use body (refused reason response) = some (turned_away s in_use reason response)
  with_slot s in_use body (taken n) = decode s (release slots n) (unmarshal body)

  abbrev with_reading : Request → S → ℕ → Reading → Option (Served S)
  with_reading r s in_use (rejected reason status) =
      some (turned_away s in_use reason (some (plain status)))
  with_reading r s in_use (complete body) = with_slot s in_use body (acquire slots r.wait in_use)

  unfoldable pub handle : Request → S → ℕ → Option (Served S)
  handle r s in_use = with_reading r s in_use (read_request parse_media_type r)
