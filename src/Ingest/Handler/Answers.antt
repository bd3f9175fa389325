-- ===== src/Ingest/Handler/Answers.antt =====
-- What the client is told and what is counted, for every request.
use yukon_collector.Base.{
  ℕ, suc, ◌-◌, ◌≡◌, ◌≢◌, ◌⊎◌, inl, inr, refl, sym, ◌∙◌, Option, none, some, Bool-cases, ltb, length,
  [], ◌∷◌, ◌++◌, Bytes, codes, arith,
}
use yukon_collector.Metrics.Counters.{
  PayloadKind, RejectReason, Count, ingest_accepted, ingest_rejected,
}
use yukon_collector.Metrics.Counters
use yukon_collector.Ingest.Sink.{Taken}
use yukon_collector.Ingest.Validate.{Invalid}
use yukon_collector.Ingest.Handler.{
  Request, Response, plain, Wait, freed, ended, expired, complete, rejected, read_body,
  read_request, check_content_type, Served, Slot, acquire, release, handle, max_body_bytes, answer,
  with_slot, check, decode,
}

none-ne-some {ℓ} : {A : Type ℓ} {a : A} → none ≡ some a → ⊥
none-ne-some e = cc

-- The response that goes with each reason.
abbrev pub response_for : RejectReason → Option Response
response_for Counters.content_type = some (plain 415)
response_for Counters.too_large = some (plain 413)
response_for Counters.read = some (plain 400)
response_for Counters.malformed = some (plain 400)
response_for Counters.invalid = some (plain 400)
response_for Counters.sink = some (plain 503)
response_for Counters.canceled = none
response_for Counters.busy = some (record { status = 503; retry_after = codes "1" })

-- Reading gives the bytes that arrived, or a reason with its status.
read_cases :
    (parse_media_type : Bytes → Option Bytes) (r : Request)
    → (read_request parse_media_type r ≡ complete r.arriving)
      ⊎ ((reason : RejectReason) × (status : ℕ) × (read_request parse_media_type r
            ≡ rejected reason status)
          × (reason ≢ Counters.sink)
          × (response_for reason ≡ some (plain status)))
unfolding read_request read_body
read_cases parse_media_type r = elim (Bool-cases (check_content_type parse_media_type r)) [
  | inr e ↦ inr (Counters.content_type, 415, rw e, (λ q. cc), refl)
  | inl e ↦ elim (Bool-cases (ltb max_body_bytes (length r.arriving))) [
    | inl f ↦ inr (Counters.too_large, 413, rw (e, f), (λ q. cc), refl)
    | inr f ↦ elim (Bool-cases r.broken) [
      | inl g ↦ inr (Counters.read, 400, rw (e, f, g), (λ q. cc), refl)
      | inr g ↦ inl (rw (e, f, g))
    ]
  ]
]

module _ {S E Msg : Type 0} (slots : Option ℕ) (parse_media_type : Bytes → Option Bytes)
    (unmarshal : Bytes → Option Msg) (kind : PayloadKind) (validate : Msg → Option Invalid)
    (accept : Msg → S → Option (Taken S E)) where
  -- The request was turned away before the sink was asked.
  abbrev pub TurnedAway : S → ℕ → Served S → Type 0
  TurnedAway s in_use v =
      (reason : RejectReason) × (reason ≢ Counters.sink)
      × (v ≡ record {
        state = s;
        in_use = in_use;
        counts = ingest_rejected kind reason ∷ [];
        response = response_for reason;
      })

  -- The sink was given the decoded and checked payload, and its answer was passed on.
  abbrev pub Asked : Request → S → ℕ → Served S → Type 0
  Asked r s in_use v =
      (msg : Msg) × (t : Taken S E) × (unmarshal r.arriving ≡ some msg)
      × (validate msg ≡ none)
      × (accept msg s ≡ some t)
      × (v.state ≡ t.state)
      × (v.in_use ≡ in_use)
      × (((t.error ≡ none)
            × (v.counts ≡ t.counts ++ ingest_accepted kind ∷ [])
            × (v.response ≡ some (plain 202)))
          ⊎ ((t.error ≢ none)
              × (v.counts ≡ t.counts ++ ingest_rejected kind Counters.sink ∷ [])
              × (v.response ≡ some (plain 503))))

  abbrev Answered : Request → S → ℕ → Option (Served S) → Type 0
  Answered r s in_use o =
      (v : Served S) × (o ≡ some v) × (TurnedAway s in_use v ⊎ Asked r s in_use v)

  abbrev h_answer : ℕ → Taken S E → Option E → Served S
  h_answer = answer slots parse_media_type unmarshal kind validate accept

  abbrev h_check : S → ℕ → Msg → Option Invalid → Option (Served S)
  h_check = check slots parse_media_type unmarshal kind validate accept

  abbrev h_decode : S → ℕ → Option Msg → Option (Served S)
  h_decode = decode slots parse_media_type unmarshal kind validate accept

  abbrev h_with_slot : S → ℕ → Bytes → Slot → Option (Served S)
  h_with_slot = with_slot slots parse_media_type unmarshal kind validate accept

  passed_on :
      (r : Request) (s : S) (in_use : ℕ) (msg : Msg) (t : Taken S E) (e : Option E)
      → unmarshal r.arriving ≡ some msg
      → validate msg ≡ none
      → accept msg s ≡ some t
      → t.error ≡ e
      → Asked r s in_use (h_answer in_use t e)
  passed_on r s in_use msg t none u v a e = (msg, t, u, v, a, refl, refl, inl (e, refl, refl))
  passed_on r s in_use msg t (some x) u v a e =
      (msg, t, u, v, a, refl, refl, inr ((λ q. none-ne-some (sym q ∙ e)), refl, refl))

  module _ (s : S) (accepts : (m : Msg) → (t : Taken S E) × (accept m s ≡ some t)) where
    checked :
        (r : Request) (in_use : ℕ) (msg : Msg) (o : Option Invalid)
        → unmarshal r.arriving ≡ some msg
        → validate msg ≡ o
        → Answered r s in_use (h_check s in_use msg o)
    checked r in_use msg (some e) u v = (_, refl, inl (Counters.invalid, (λ q. cc), refl))
    checked r in_use msg none u v =
        let (t, a) = accepts msg in
        rw a (h_answer in_use t t.error, refl, inr (passed_on r s in_use msg t t.error u v a refl))

    decoded :
        (r : Request) (in_use : ℕ) (o : Option Msg)
        → unmarshal r.arriving ≡ o
        → Answered r s in_use (h_decode s in_use o)
    decoded r in_use none u = (_, refl, inl (Counters.malformed, (λ q. cc), refl))
    decoded r in_use (some msg) u = checked r in_use msg (validate msg) u refl

    slotted :
        (r : Request) (in_use : ℕ) (cap : Option ℕ) (w : Wait)
        → slots ≡ cap
        → Answered r s in_use (h_with_slot s in_use r.arriving (acquire cap w in_use))
    unfolding acquire release
    slotted r in_use none w e = rw e (decoded r in_use (unmarshal r.arriving) refl)
    slotted r in_use (some cap) freed e =
        let back : suc in_use - 1 ≡ in_use = omega arith in
        rw (e, back) (decoded r in_use (unmarshal r.arriving) refl)
    slotted r in_use (some cap) ended e = (_, refl, inl (Counters.canceled, (λ q. cc), refl))
    slotted r in_use (some cap) expired e = (_, refl, inl (Counters.busy, (λ q. cc), refl))

    -- Whatever a request sends, if the sink's operation returns on every payload in the sink's state,
    -- the request returns and gives
    -- its slot back, and it is one of two: it is turned away with the sink untouched, one count of
    -- the reason and the response that goes with the reason; or its body was decoded and passed the
    -- check, the sink was given that payload, and the response is 202 and counted as accepted if
    -- the sink took it, and 503 and counted as rejected by the sink if not.
    pub handle_lem :
        (r : Request) (in_use : ℕ)
        → (v : Served S) × (handle slots parse_media_type unmarshal kind validate accept r s in_use
            ≡ some v)
          × (TurnedAway s in_use v ⊎ Asked r s in_use v)
    unfolding handle
    handle_lem r in_use = elim (read_cases parse_media_type r) [
      | inl e ↦ rw e (slotted r in_use slots r.wait refl)
      | inr (reason, status, e, h, f) ↦ rw (e, ← f) (_, refl, inl (reason, h, refl))
    ]
