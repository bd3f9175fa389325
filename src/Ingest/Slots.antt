-- ===== src/Ingest/Slots.antt =====
-- ingest/handler.go: the decode slots under requests that interleave. A request reads its body, then
-- waits for a slot, then holds one until the sink returned; `live` has those that have not ended. The
-- channel `slots` is the number of its elements: a send waits until it is below the cap, and a
-- receive until it is not zero.
pub mod Waiting
use yukon_collector.Base.{
  ℕ, zero, suc, ◌+◌, ◌≡◌, refl, Bool, true, Option, none, some, List, [], ◌∷◌, ◌++◌, Bytes, ltb, ℤ,
}
use yukon_collector.Metrics.Counters.{RejectReason}
use yukon_collector.Ingest.Handler.{
  Request, Response, Wait, freed, Reading, complete, rejected, read_request, Slot, taken, refused,
  acquire, release,
}

-- A request whose body was read remains with it.
pub data Phase : Type 0 where
  reading : Request → Phase
  waiting : Bytes → Phase
  holding : Bytes → Phase

pub record Pool : Type 0 where
  pub in_use : ℕ
  pub live : List Phase
  pub ended : ℕ

abbrev pub no_requests : Pool
no_requests = record { in_use = 0; live = []; ended = 0 }

-- One step of one request; the cap is `suc n`.
pub data Step (parse_media_type : Bytes → Option Bytes) (cap : ℕ) (s t : Pool) : Type 0 where
  arrive :
      (r : Request) → t ≡ record s { live = reading r ∷ s.live } → Step parse_media_type cap s t
  read_whole :
      (before behind : List Phase) (r : Request) (body : Bytes)
      → s.live ≡ before ++ reading r ∷ behind
      → read_request parse_media_type r ≡ complete body
      → t ≡ record s { live = before ++ waiting body ∷ behind }
      → Step parse_media_type cap s t
  turn_away :
      (before behind : List Phase) (r : Request) (reason : RejectReason) (status : ℕ)
      → s.live ≡ before ++ reading r ∷ behind
      → read_request parse_media_type r ≡ rejected reason status
      → t ≡ record s { live = before ++ behind; ended = suc s.ended }
      → Step parse_media_type cap s t
  take_slot :
      (before behind : List Phase) (body : Bytes) (n : ℕ)
      → s.live ≡ before ++ waiting body ∷ behind
      → ltb s.in_use cap ≡ true
      → acquire (some cap) freed s.in_use ≡ taken n
      → t ≡ record s { in_use = n; live = before ++ holding body ∷ behind }
      → Step parse_media_type cap s t
  give_up :
      (before behind : List Phase) (body : Bytes) (w : Wait) (reason : RejectReason)
      (response : Option Response)
      → s.live ≡ before ++ waiting body ∷ behind
      → acquire (some cap) w s.in_use ≡ refused reason response
      → t ≡ record s { live = before ++ behind; ended = suc s.ended }
      → Step parse_media_type cap s t
  finish :
      (before behind : List Phase) (body : Bytes)
      → s.live ≡ before ++ holding body ∷ behind
      → ltb 0 s.in_use ≡ true
      → t ≡ record s {
        in_use = release (some cap) s.in_use;
        live = before ++ behind;
        ended = suc s.ended;
      }
      → Step parse_media_type cap s t

-- The states that a run from `s` comes to.
pub data Reach (parse_media_type : Bytes → Option Bytes) (cap : ℕ) (s : Pool) : Pool → Type 0 where
  here : Reach parse_media_type cap s s
  later :
      {t u : Pool}
      → Reach parse_media_type cap s t
      → Step parse_media_type cap t u
      → Reach parse_media_type cap s u
