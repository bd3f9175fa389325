-- ===== src/Metrics/Registry/Shown.antt =====
-- metrics/metrics.go: the text of the counters that a program registers. `NewCounter` reads no more
-- of a counter than its name, so the counters are registered here as they are when they are shown.
use mathlib.Core.List.{Permᴰ}
use mathlib.Core.List.Permᴰ
use yukon_collector.Base.{
  ◌≡◌, Bool, ◌||◌, ◌⊎◌, refl, sym, ap, ◌∙◌, inl, inr, Bool-cases, true, false, Option, none, some,
  List, [], ◌∷◌, ◌++◌, Bytes, bytes_eq_sym, All, arith,
}
use yukon_collector.Text.Order.{insert_sorted, sort}
use yukon_collector.Metrics.Series.{Counter, is_registered, register, new_counter}
use yukon_collector.Metrics.Series.Runs.{Addition, run_calls, Fits}
use yukon_collector.Metrics.Exposition.{by_name, render, render_each, render_all}
use yukon_collector.Metrics.Exposition.Total.{Returns, append_some-Returns, render-perm}
use yukon_collector.Metrics.Registry.{
  register_all, is_registered-append, first_taken, Agree, SameNames, register_all-perm,
}

-- Some name is there twice.
abbrev pub repeats : List Counter → Bool
repeats [] = false
repeats (c ∷ cs) = is_registered c.name cs || repeats cs

-- Some name is registered.
abbrev taken : List Counter → List Counter → Bool
taken [] registry = false
taken (c ∷ cs) registry = is_registered c.name registry || taken cs registry

taken-append :
    (c : Counter) (cs r : List Counter)
    → taken cs (r ++ c ∷ []) ≡ is_registered c.name cs || taken cs r
unfolding is_registered
taken-append c [] r = refl
taken-append c (d ∷ cs) r =
    rw (is_registered-append d.name c r, taken-append c cs r, bytes_eq_sym d.name c.name)
      (ground arith)

repeats_later :
    (c : Counter) (cs r : List Counter)
    → repeats cs || taken cs (r ++ c ∷ []) ≡ (is_registered c.name cs || repeats cs) || taken cs r
repeats_later c cs r = rw (taken-append c cs r) (ground arith)

-- The result of registering the counters on `r`.
Registers : List Counter → List Counter → Type 0
Registers cs r =
    ((repeats cs || taken cs r ≡ true) × (register_all cs r ≡ none))
    ⊎ ((repeats cs || taken cs r ≡ false) × (s : List Counter) × (register_all cs r ≡ some s))

register_all_lem : (cs r : List Counter) → Registers cs r
unfolding Registers register_all register
register_all_lem [] r = inr (refl, r, refl)
register_all_lem (c ∷ cs) r = elim (Bool-cases (is_registered c.name r)) [
  | inl e ↦ inl (rw e (ground arith), first_taken c cs r e)
  | inr e ↦ elim (register_all_lem cs (r ++ c ∷ [])) [
    | inl (f, g) ↦ inl (rw e (rw (repeats_later c cs r) at f), rw e g)
    | inr (f, s, g) ↦ inr (rw e (rw (repeats_later c cs r) at f), s, rw e g)
  ]
]

taken-nil : (cs : List Counter) → taken cs [] ≡ false
unfolding is_registered
taken-nil [] = refl
taken-nil (c ∷ cs) = taken-nil cs

or_false : (b : Bool) → b || false ≡ b
or_false b = ground arith

Agree-fails : (o : Option (List Counter)) → Agree none o → o ≡ none
Agree-fails none h = refl
Agree-fails (some s) h = absurd h

Agree-gives :
    (r : List Counter) (o : Option (List Counter))
    → Agree (some r) o
    → (s : List Counter) × (o ≡ some s) × SameNames r s
Agree-gives r none h = absurd h
Agree-gives r (some s) h = (s, refl, h)

-- A counter that was made by `NewCounter` and then added to.
abbrev pub IsUsed : Counter → Type 0
IsUsed c =
    (name help : Bytes) × (labels : List Bytes) × (calls : List Addition) × All (Fits labels) calls
    × (run_calls calls (new_counter name help labels) ≡ some c)

render-Returns : (c : Counter) → IsUsed c → Returns (render c)
render-Returns c (name, help, labels, calls, f, e) =
    let (b, d, text, g, h, k, l) = render-perm name help labels calls calls f (Permᴰ.refl calls) in
    let same : some b ≡ some c = sym g ∙ e in let it : b ≡ c = cc in (text, rw (← it) k)

All-insert_sorted :
    (c : Counter) (cs : List Counter)
    → IsUsed c
    → All IsUsed cs
    → All IsUsed (insert_sorted by_name c cs)
unfolding insert_sorted
All-insert_sorted c [] h hs = (h, hs)
All-insert_sorted c (d ∷ cs) h (g, hs) = elim (Bool-cases (by_name c d)) [
  | inl e ↦ rw e (h, (g, hs))
  | inr e ↦ rw e (g, All-insert_sorted c cs h hs)
]

All-sort : (cs : List Counter) → All IsUsed cs → All IsUsed (sort by_name cs)
unfolding sort
All-sort [] h = h
All-sort (c ∷ cs) (h, hs) = All-insert_sorted c _ h (All-sort cs hs)

All-append :
    (cs : List Counter) (c : Counter) → All IsUsed cs → IsUsed c → All IsUsed (cs ++ c ∷ [])
All-append [] c h g = (g, h)
All-append (d ∷ cs) c (h, hs) g = (h, All-append cs c hs g)

All-register_all :
    (cs r s : List Counter)
    → All IsUsed cs
    → All IsUsed r
    → register_all cs r ≡ some s
    → All IsUsed s
unfolding register_all register
All-register_all [] r s h g e = let same : r ≡ s = cc in rw (← same) g
All-register_all (c ∷ cs) r s (h, hs) g e = elim (Bool-cases (is_registered c.name r)) [
  | inl f ↦ absurd (ground (arith, first_taken c cs r f))
  | inr f ↦ All-register_all cs (r ++ c ∷ []) s hs (All-append r c g h) (rw f at e)
]

render_each-Returns : (cs : List Counter) → All IsUsed cs → Returns (render_each cs)
unfolding render_each
render_each-Returns [] h = ([], refl)
render_each-Returns (c ∷ cs) (h, hs) =
    append_some-Returns _ _ (render-Returns c h) (render_each-Returns cs hs)

-- The counters that a program registers and then adds to, with one value for each label, in any two
-- orders: if two names are equal, the program panics in both; otherwise it panics in neither, and
-- all counters are shown, without a panic, as the same text.
pub render_all-perm :
    (counters others : List Counter)
    → All IsUsed counters
    → Permᴰ counters others
    → ((repeats counters ≡ true)
        × (register_all counters [] ≡ none)
        × (register_all others [] ≡ none))
      ⊎ ((repeats counters ≡ false)
          × (r s : List Counter) × (text : Bytes) × (register_all counters [] ≡ some r)
          × (register_all others [] ≡ some s)
          × (render_all r ≡ some text)
          × (render_all s ≡ some text))
unfolding render_all Registers
render_all-perm counters others u p = elim (register_all_lem counters []) [
  | inl (e, f) ↦ inl (
    rw (taken-nil counters, or_false (repeats counters)) at e,
    f,
    Agree-fails _ (rw f at (register_all-perm [] p)),
  )
  | inr (e, r, f) ↦
      let (s, g, h) = Agree-gives r _ (rw f at (register_all-perm [] p)) in
      let (text, t) = render_each-Returns _ (All-sort r (All-register_all counters [] r u _ f)) in
      inr (
        rw (taken-nil counters, or_false (repeats counters)) at e,
        r,
        s,
        text,
        f,
        g,
        t,
        ap render_each (sym h.sorts) ∙ t,
      )
]
