-- ===== src/Command/Routes/Promised.antt =====
-- What an answer to an ingest request says of the queues of the relay, for one kind of payload.
use yukon_collector.Base.{
  ℕ, ◌≡◌, ◌≢◌, ◌⊎◌, inl, inr, ap, ◌∙◌, Option, none, some, [], ◌∷◌, ◌++◌, Bytes,
}
use yukon_collector.Metrics.Counters.{PayloadKind, forward_dropped, marshal}
use yukon_collector.Payload.{Resource}
use yukon_collector.Ingest.Paths.{payload_label}
use yukon_collector.Ingest.Sink.{Taken}
use yukon_collector.Ingest.Validate.{Invalid}
use yukon_collector.Ingest.Handler.{Request, plain, Served, handle}
use yukon_collector.Ingest.Handler.Answers.{TurnedAway, Asked, handle_lem}
use yukon_collector.Forward.Instance.{Instance, instance_of}
use yukon_collector.Forward.Sink.{ForwardingSink, SinkError}
use yukon_collector.Forward.Sink.Kept.{IsQueued, IsKept}
use yukon_collector.Command.Sinks.{BaseSink, forwarding}

-- What the answer of an ingest request says of the item that its payload became: 202 that it is last
-- in the queue of its shard, or that its payload could not be encoded and was counted as dropped;
-- 503 that no queue changed.
abbrev pub Says :
    ForwardingSink → ForwardingSink → Instance → Bytes → Option Bytes → Served BaseSink → Type 0
Says f f' owner path encoded v =
    ((v.response ≡ some (plain 202))
      × ((body : Bytes) × (encoded ≡ some body)
          × IsQueued f f' (record { owner = owner; path = path; body = body })))
    ⊎ (((v.response ≡ some (plain 202))
          × (encoded ≡ none)
          × (f'.shards ≡ f.shards)
          × (f'.counts ≡ f.counts ++ forward_dropped (payload_label path) marshal ∷ []))
        ⊎ ((v.response ≡ some (plain 503)) × (f'.shards ≡ f.shards)))

-- The status goes with the error of the sink.
says :
    (f f' : ForwardingSink) (owner : Instance) (path : Bytes) (encoded : Option Bytes)
    (v : Served BaseSink) (error : Option SinkError)
    → ((error ≡ none) × (v.response ≡ some (plain 202)))
      ⊎ ((error ≢ none) × (v.response ≡ some (plain 503)))
    → IsKept f f' owner path encoded error
    → Says f f' owner path encoded v
says f f' owner path encoded v error (inl (e, r)) (inl (body, b, _, q)) = inl (r, (body, b, q))
says f f' owner path encoded v error (inl (e, r)) (inr (inl (b, _, h, c))) = inr (inl (r, b, h, c))
says f f' owner path encoded v error (inl (e, r)) (inr (inr (n, _))) = absurd (n e)
says f f' owner path encoded v error (inr (n, r)) (inl (_, _, e, _)) = absurd (n e)
says f f' owner path encoded v error (inr (n, r)) (inr (inl (_, e, _, _))) = absurd (n e)
says f f' owner path encoded v error (inr (n, r)) (inr (inr (_, h))) = inr (inr (r, h))

module _ {Msg : Type 0} (slots : Option ℕ) (parse_media_type : Bytes → Option Bytes)
    (unmarshal : Bytes → Option Msg) (kind : PayloadKind) (validate : Msg → Option Invalid)
    (accept : Msg → BaseSink → Option (Taken BaseSink SinkError)) (sent : Msg → Msg)
    (resource_of : Msg → Option Resource) (path : Bytes) (encode : Msg → Option Bytes)
    (f : ForwardingSink) where
  -- The request is turned away with the queues as they were; or its body was decoded and passed the
  -- check, and the answer says what became of it behind the processors.
  abbrev pub Promise : Request → ℕ → Type 0
  Promise r in_use =
      (v : Served BaseSink) × (handle slots parse_media_type unmarshal kind validate accept r
          (forwarding f) in_use
        ≡ some v)
      × (TurnedAway slots parse_media_type unmarshal kind validate accept (forwarding f) in_use v
          ⊎ ((msg : Msg) × (f' : ForwardingSink) × (unmarshal r.arriving ≡ some msg)
              × (validate msg ≡ none)
              × (v.state ≡ forwarding f')
              × Says f f' (instance_of (resource_of (sent msg))) path (encode (sent msg)) v))

  -- What `accept` does with a payload.
  abbrev Accepts : Msg → Type 0
  Accepts m =
      (t : Taken BaseSink SinkError) × (accept m (forwarding f) ≡ some t)
      × ((f' : ForwardingSink) × (t.state ≡ forwarding f')
          × IsKept f f' (instance_of (resource_of (sent m))) path (encode (sent m)) t.error)

  abbrev StatusOf : Taken BaseSink SinkError → Served BaseSink → Type 0
  StatusOf t v =
      ((t.error ≡ none) × (v.response ≡ some (plain 202)))
      ⊎ ((t.error ≢ none) × (v.response ≡ some (plain 503)))

  abbrev Said : Request → Served BaseSink → Type 0
  Said r v =
      (msg : Msg) × (f' : ForwardingSink) × (unmarshal r.arriving ≡ some msg)
      × (validate msg ≡ none)
      × (v.state ≡ forwarding f')
      × Says f f' (instance_of (resource_of (sent msg))) path (encode (sent msg)) v

  said :
      (r : Request) (v : Served BaseSink) (msg : Msg) (t : Taken BaseSink SinkError)
      → unmarshal r.arriving ≡ some msg
      → validate msg ≡ none
      → accept msg (forwarding f) ≡ some t
      → v.state ≡ t.state
      → StatusOf t v
      → Accepts msg
      → Said r v
  said r v msg t u h a st status (t', a', (f', st', kept)) =
      let same : t ≡ t' = cc in
      (
        msg,
        f',
        u,
        h,
        st ∙ ap (λ x. x.state) same ∙ st',
        says f f' (instance_of (resource_of (sent msg))) path (encode (sent msg)) v t'.error
            (rw same at status) kept,
      )

  module _ (accepts : (m : Msg) → Accepts m) where
    promised :
        (r : Request) (in_use : ℕ) (v : Served BaseSink)
        → Asked slots parse_media_type unmarshal kind validate accept r (forwarding f) in_use v
        → Said r v
    promised r in_use v (msg, t, u, h, a, st, _, inl (e, _, p)) =
        said r v msg t u h a st (inl (e, p)) (accepts msg)
    promised r in_use v (msg, t, u, h, a, st, _, inr (e, _, p)) =
        said r v msg t u h a st (inr (e, p)) (accepts msg)

    pub kept-Promise : (r : Request) (in_use : ℕ) → Promise r in_use
    kept-Promise r in_use =
        let (v, e, answer) =
          handle_lem slots parse_media_type unmarshal kind validate accept (forwarding f)
            (λ m. ((accepts m).0, (accepts m).1)) r in_use in
        (v, e, elim answer [ inl x ↦ inl x | inr x ↦ inr (promised r in_use v x) ])
