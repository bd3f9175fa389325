-- ===== src/RateLimit/Stale.antt =====
-- The eviction loop drops exactly the clients that were not seen for too long.
use mathlib.Core.Path.{subst}
use yukon_collector.Base.{
  ℕ, zero, suc, ◌-◌, ◌≡◌, ◌≤◌, refl, ap, sym, ◌∙◌, Bool-cases, none, some, List, [], ◌∷◌, ◌++◌,
  append-nil, length, ltb, leb, if◌then◌else◌, inl, inr, ◌⊎◌, arith,
}
use yukon_collector.RateLimit.{Visitor, Element, Limiter, remove, back, without, evict_stale}
use yukon_collector.RateLimit.Elements.{values, IsBack-total}
use yukon_collector.RateLimit.Invariant.{Inv, Inv-removed}

module _ {B : Type 0} where
  -- Each visitor was seen no later than the one before it, and the first no later than `now`.
  abbrev pub Ordered : ℕ → List (Visitor B) → Type 0
  Ordered now [] = Unit
  Ordered now (v ∷ vs) = (v.last_seen ≤ now) × Ordered v.last_seen vs

  -- The visitors that were seen at most `limit` before `now`.
  abbrev pub recent : ℕ → ℕ → List (Visitor B) → List (Visitor B)
  recent now limit [] = []
  recent now limit (v ∷ vs) =
      let rest = recent now limit vs in if leb (now - v.last_seen) limit then v ∷ rest else rest

  recent-append :
      (now limit : ℕ) (vs ws : List (Visitor B))
      → recent now limit (vs ++ ws) ≡ recent now limit vs ++ recent now limit ws
  recent-append now limit [] ws = refl
  recent-append now limit (v ∷ vs) ws = ground (arith, recent-append now limit vs ws)

  Ordered-front :
      (t : ℕ) (vs : List (Visitor B)) (v : Visitor B)
      → Ordered t (vs ++ v ∷ [])
      → Ordered t vs × (v.last_seen ≤ t)
  Ordered-front t [] v (h, _) = (_, h)
  Ordered-front t (w ∷ vs) v (h, k) =
      let (o, b) = Ordered-front w.last_seen vs v k in ((h, o), omega arith)

  all_recent :
      (now limit t : ℕ) (vs : List (Visitor B)) (v : Visitor B)
      → Ordered t (vs ++ v ∷ [])
      → now - v.last_seen ≤ limit
      → recent now limit (vs ++ v ∷ []) ≡ vs ++ v ∷ []
  all_recent now limit t [] v h k = ground arith
  all_recent now limit t (w ∷ vs) v (h, o) k =
      let (_, b) = Ordered-front w.last_seen vs v o in
      ground (arith, all_recent now limit w.last_seen vs v o k)

  nothing :
      (now limit : ℕ) (es : List (Element B))
      → length es ≤ 0
      → recent now limit (values es) ≡ values es
  nothing now limit [] h = refl
  nothing now limit (e ∷ es) h = absurd (omega arith)

  List-cases : (es : List (Element B)) → ((back es ≡ none) × (length es ≤ 0)) ⊎ (1 ≤ length es)
  unfolding back
  List-cases [] = inl (refl, omega arith)
  List-cases (e ∷ es) = inr (omega arith)

  -- On visitors in the order in which they were last seen, one tick leaves exactly those that were
  -- seen within the idle time, in their order; and the map and the list still agree.
  pub evict_stale_lem :
      (n now t : ℕ) (l : Limiter B)
      → Inv l
      → length l.order ≤ n
      → Ordered t (values l.order)
      → Inv (evict_stale n now l)
        × (values (evict_stale n now l).order ≡ recent now l.stale_after (values l.order))
  unfolding evict_stale
  evict_stale_lem zero now t l v h o = (v, sym (nothing now l.stale_after l.order (omega arith)))
  evict_stale_lem (suc n) now t l v h o = elim (List-cases l.order) [
    | inl (e, z) ↦ rw e (v, sym (nothing now l.stale_after l.order z))
    | inr some_left ↦
        let (e, b) = IsBack-total l.order v.distinct some_left in
        let kept = values (remove e.address l.order) in
        let sorted : Ordered t (kept ++ e.value ∷ []) = subst (λ vs. Ordered t vs) (sym b.ends) o in
        elim (Bool-cases (ltb l.stale_after (now - e.value.last_seen))) [
          | inl q ↦
              let (i, r) =
                evict_stale_lem n now t (without l (some e))
                  (Inv-removed l e.value.key e.address v b.known) (omega (arith, b.kept))
                  (Ordered-front t kept e.value sorted).0 in
              let lone : recent now l.stale_after (e.value ∷ []) ≡ [] = ground arith in
              let whole : recent now l.stale_after kept
                  ≡ recent now l.stale_after (values l.order) =
                sym (append-nil _)
                ∙ ap (λ vs. recent now l.stale_after kept ++ vs) (sym lone)
                ∙ sym (recent-append now l.stale_after kept (e.value ∷ []))
                ∙ ap (recent now l.stale_after) b.ends in
              rw (b.last, q) (i, r ∙ whole)
          | inr q ↦
              rw (b.last, q)
                (
                  v,
                  sym (
                      ap (recent now l.stale_after) (sym b.ends)
                      ∙ all_recent now l.stale_after t kept e.value sorted (ground arith)
                      ∙ b.ends),
                )
        ]
  ]
