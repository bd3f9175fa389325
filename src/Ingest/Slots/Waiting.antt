-- ===== src/Ingest/Slots/Waiting.antt =====
-- ingest/handler.go: the slots in use, and the requests that wait for one.
use yukon_collector.Base.{
  ℕ, suc, ◌+◌, ◌<◌, ◌≤◌, ◌≡◌, refl, sym, ap, ◌∙◌, inl, inr, Bool-cases, Option, some, List, [], ◌∷◌,
  ◌++◌, Bytes, ltb, ltb→lt, lt→ltb, append_assoc, arith,
}
use yukon_collector.Ingest.Handler.{taken, acquire, release}
use yukon_collector.Ingest.Slots.{
  Phase, reading, waiting, holding, Pool, no_requests, Step, arrive, read_whole, turn_away,
  take_slot, give_up, finish, Reach, here, later,
}

abbrev pub one_if_holding : Phase → ℕ
one_if_holding (reading r) = 0
one_if_holding (waiting body) = 0
one_if_holding (holding body) = 1

pub holders : List Phase → ℕ
holders [] = 0
holders (p ∷ ps) = one_if_holding p + holders ps

holders-append : (ps qs : List Phase) → holders (ps ++ qs) ≡ holders ps + holders qs
unfolding holders
holders-append [] qs = omega arith
holders-append (p ∷ ps) qs = omega (arith, holders-append ps qs)

-- The number of holders does not depend on where they stand.
holders-middle :
    (ps qs : List Phase) (p : Phase)
    → holders (ps ++ p ∷ qs) ≡ one_if_holding p + holders (ps ++ qs)
unfolding holders
holders-middle ps qs p = omega (arith, holders-append ps (p ∷ qs), holders-append ps qs)

taken-inj : {a b : ℕ} → taken a ≡ taken b → a ≡ b
taken-inj e = cc

find_holder :
    (ps : List Phase)
    → 0 < holders ps
    → (before behind : List Phase) × (body : Bytes) × (ps ≡ before ++ holding body ∷ behind)
unfolding holders
find_holder [] h = absurd (omega arith)
find_holder (holding body ∷ ps) h = ([], ps, body, refl)
find_holder (reading r ∷ ps) h =
    let (b, c, body, e) = find_holder ps (omega arith) in
    (reading r ∷ b, c, body, ap (λ qs. reading r ∷ qs) e)
find_holder (waiting w ∷ ps) h =
    let (b, c, body, e) = find_holder ps (omega arith) in
    (waiting w ∷ b, c, body, ap (λ qs. waiting w ∷ qs) e)

pub record IsCounted (cap : ℕ) (s : Pool) : Type 0 where
  pub counted : s.in_use ≡ holders s.live
  pub within : s.in_use ≤ cap

module _ (parse_media_type : Bytes → Option Bytes) (cap : ℕ) where
  Step-IsCounted : {s t : Pool} → Step parse_media_type cap s t → IsCounted cap s → IsCounted cap t
  unfolding holders acquire release
  Step-IsCounted (arrive r e) v =
      rw e (record { counted = omega (arith, v.counted); within = v.within })
  Step-IsCounted (read_whole ps qs r body l k e) v = rw e (record {
    counted = v.counted ∙ ap holders l ∙ holders-middle ps qs _ ∙ sym (holders-middle ps qs _);
    within = v.within;
  })
  Step-IsCounted (turn_away ps qs r reason status l k e) v = rw e (record {
    counted = v.counted ∙ ap holders l ∙ holders-middle ps qs _ ∙ omega arith;
    within = v.within;
  })
  Step-IsCounted {s} (take_slot ps qs body n l b k e) v =
      let m : n ≡ suc s.in_use = taken-inj (sym k) in
      rw e (record {
        counted = omega (
          arith,
          m,
          v.counted ∙ ap holders l,
          holders-middle ps qs (waiting body),
          holders-middle ps qs (holding body),
        );
        within = omega (arith, m, ltb→lt s.in_use cap b, v.within);
      })
  Step-IsCounted (give_up ps qs body w reason response l k e) v = rw e (record {
    counted = v.counted ∙ ap holders l ∙ holders-middle ps qs _ ∙ omega arith;
    within = v.within;
  })
  Step-IsCounted {s} (finish ps qs body l b e) v = rw e (record {
    counted =
        omega (
          arith,
          v.counted ∙ ap holders l,
          holders-middle ps qs (holding body),
          ltb→lt 0 s.in_use b,
        );
    within = omega (arith, v.within);
  })

  pub Reach-IsCounted : {s : Pool} → Reach parse_media_type cap no_requests s → IsCounted cap s
  unfolding holders
  Reach-IsCounted here = record { counted = refl; within = omega arith }
  Reach-IsCounted (later r st) = Step-IsCounted st (Reach-IsCounted r)

  -- The state after a request that holds a slot ended.
  abbrev ended_at : Pool → List Phase → List Phase → Pool
  ended_at s b c = record s {
    in_use = release (some cap) s.in_use;
    live = b ++ c;
    ended = suc s.ended;
  }

  -- A request that waits takes a slot that is free.
  take_free :
      (s : Pool) (before behind : List Phase) (body : Bytes)
      → s.in_use < cap
      → s.live ≡ before ++ waiting body ∷ behind
      → Step parse_media_type cap s
          (record s { in_use = suc s.in_use; live = before ++ holding body ∷ behind })
  take_free s before behind body h l =
      take_slot before behind body (suc s.in_use) l (lt→ltb s.in_use cap h) (unfold acquire in refl)
        refl

  -- A state in which the request holds a slot; at most one other request ended on the way.
  abbrev pub Holds : Pool → Bytes → Pool → Type 0
  Holds s body t =
      Reach parse_media_type cap s t
      × ((b c : List Phase) × (t.live ≡ b ++ holding body ∷ c))
      × (t.in_use ≡ holders t.live)
      × (t.in_use ≤ cap)
      × (t.ended ≤ suc s.ended)

  -- After another request ended, whose slot is free then.
  after_end :
      (s u : Pool) (before behind : List Phase) (body : Bytes)
      → IsCounted cap u
      → Step parse_media_type cap s u
      → u.ended ≡ suc s.ended
      → u.in_use < cap
      → u.live ≡ before ++ waiting body ∷ behind
      → (t : Pool) × Holds s body t
  after_end s u before behind body v st e h l =
      let next = take_free u before behind body h l in
      let w = Step-IsCounted next v in
      (
        _,
        (later (later here st) next, (before, behind, refl), w.counted, w.within, omega (arith, e)),
      )

  -- The place of a holder in front of or behind the request that waits, and what is left without it.
  other_holder :
      (before behind : List Phase) (body : Bytes)
      → 0 < holders (before ++ waiting body ∷ behind)
      → (b c : List Phase) × (h : Bytes) × (b' c' : List Phase) × (before ++ waiting body ∷ behind
          ≡ b ++ holding h ∷ c)
        × (b ++ c ≡ b' ++ waiting body ∷ c')
  other_holder before behind body h = elim (Bool-cases (ltb 0 (holders before))) [
    | inl e ↦
        let (b, c, w, q) = find_holder before (ltb→lt _ _ e) in
        (
          b,
          c ++ waiting body ∷ behind,
          w,
          b ++ c,
          behind,
          ap (λ ps. ps ++ waiting body ∷ behind) q
              ∙ append_assoc b (holding w ∷ c) (waiting body ∷ behind),
          sym (append_assoc b c (waiting body ∷ behind)),
        )
    | inr e ↦
        let (b, c, w, q) = find_holder behind (
          ground
            (arith, holders-middle before behind (waiting body), holders-append before behind)) in
        (
          before ++ waiting body ∷ b,
          c,
          w,
          before,
          b ++ c,
          ap (λ ps. before ++ waiting body ∷ ps) q
              ∙ sym (append_assoc before (waiting body ∷ b) (holding w ∷ c)),
          append_assoc before (waiting body ∷ b) c,
        )
  ]

  -- However requests interleave, with a cap that is not zero: a request that waits for a slot can come
  -- to hold one after at most one other request ended, and then, as before, as many slots are in
  -- use as requests hold one, and no more than the cap.
  pub slot_comes :
      (s : Pool) (before behind : List Phase) (body : Bytes)
      → 0 < cap
      → Reach parse_media_type cap no_requests s
      → s.live ≡ before ++ waiting body ∷ behind
      → (s.in_use ≡ holders s.live) × (s.in_use ≤ cap) × ((t : Pool) × Holds s body t)
  slot_comes s before behind body p r l =
      let v = Reach-IsCounted r in
      (
        v.counted,
        v.within,
        elim (Bool-cases (ltb s.in_use cap)) [
          | inl e ↦
              let next = take_free s before behind body (ltb→lt _ _ e) l in
              let w = Step-IsCounted next v in
              (_, (later here next, (before, behind, refl), w.counted, w.within, omega arith))
          | inr e ↦
              let full : 0 < s.in_use = ground arith in
              let (b, c, w, b', c', q, q') =
                other_holder before behind body (omega (arith, v.counted ∙ ap holders l)) in
              let step : Step parse_media_type cap s (ended_at s b c) =
                finish b c w (l ∙ q) (lt→ltb 0 s.in_use full) refl in
              after_end s (ended_at s b c) b' c' body (Step-IsCounted step v) step refl
                (unfold release in omega (arith, v.within)) q'
        ],
      )
