-- ===== src/Auth/Accepts.antt =====
-- Which requests the check lets through.
use Prim.Native.Nat.{bit_or}
use mathlib.Core.List.{Memᴰ}
use mathlib.Core.List.Memᴰ
use yukon_collector.Base.{
  ◌≡◌, refl, sym, ap, ◌∙◌, ◌⊎◌, inl, inr, true, Bool-cases, Option-cases, codes, some, List, [],
  ◌∷◌, ◌++◌, map, Bytes, bytes_eq, bytes_eq_sound, bytes_eq_refl, length, length-append, take-drop,
  length-take, take-append, drop-append, ◌+◌, take, drop, if◌then◌else◌, arith,
}
use yukon_collector.Text.Fold.{equal_fold}
use yukon_collector.Metrics.Counters.{auth_rejected}
use yukon_collector.Auth.{
  bearer_prefix, bearer_token, match_all, store, matches, Guarded, unauthorized, served,
  require_bearer_token,
}

-- Once a hash matched the rest of the loop keeps it.
match_all_found : (got : Bytes) (hashes : List Bytes) → match_all 1 got hashes ≡ 1
unfolding match_all
match_all_found got [] = refl
match_all_found got (want ∷ hashes) = elim (Bool-cases (bytes_eq got want)) [
  | inl e ↦ rw e (match_all_found got hashes)
  | inr e ↦ rw e (match_all_found got hashes)
]

match_all_sound : (got : Bytes) (hashes : List Bytes) → match_all 0 got hashes ≡ 1 → Memᴰ got hashes
unfolding match_all
match_all_sound got [] h = absurd (omega arith)
match_all_sound got (want ∷ hashes) h = elim (Bool-cases (bytes_eq got want)) [
  | inl e ↦ Memᴰ.head (bytes_eq_sound got want e)
  | inr e ↦ Memᴰ.tail (
      match_all_sound got hashes
        (ap (λ b. match_all (bit_or 0 (if b then 1 else 0)) got hashes) (sym e) ∙ h))
]

match_all_complete :
    (got : Bytes) (hashes : List Bytes) → Memᴰ got hashes → match_all 0 got hashes ≡ 1
unfolding match_all
match_all_complete got [] h = elim h [ ]
match_all_complete got (want ∷ hashes) (Memᴰ.head e) =
    rw (← e, bytes_eq_refl got) (match_all_found got hashes)
match_all_complete got (want ∷ hashes) (Memᴰ.tail h) = elim (Bool-cases (bytes_eq got want)) [
  | inl e ↦ rw e (match_all_found got hashes)
  | inr e ↦ rw e (match_all_complete got hashes h)
]

-- The header is the scheme, in any case, a space, and the token.
pub record IsBearer (header token : Bytes) : Type 0 where
  pub scheme : Bytes
  pub split : header ≡ scheme ++ token
  pub seven : length scheme ≡ 7
  pub folds : equal_fold scheme bearer_prefix ≡ true

IsBearer-sound : (header token : Bytes) → bearer_token header ≡ some token → IsBearer header token
unfolding bearer_token
IsBearer-sound header token h = record {
  scheme = take 7 header;
  split = ground (arith, take-drop 7 header);
  seven = length-take 7 header (ground arith);
  folds = ground arith;
}

bearer_complete : (header token : Bytes) → IsBearer header token → bearer_token header ≡ some token
unfolding bearer_token
bearer_complete header token v =
    let t : take 7 header ≡ v.scheme =
      ap (take 7) v.split
      ∙ ap (λ n. take n (v.scheme ++ token)) (sym v.seven)
      ∙ take-append v.scheme token in
    let d : drop 7 header ≡ token =
      ap (drop 7) v.split
      ∙ ap (λ n. drop n (v.scheme ++ token)) (sym v.seven)
      ∙ drop-append v.scheme token in
    let l : length header ≡ 7 + length token =
      ap length v.split ∙ length-append v.scheme token ∙ ap (λ n. n + length token) v.seven in
    ground arith

hashed :
    (f : Bytes → Bytes) (x : Bytes) (ts : List Bytes)
    → Memᴰ x (map f ts)
    → (u : Bytes) × Memᴰ u ts × (x ≡ f u)
hashed f x [] m = elim m [ ]
hashed f x (t ∷ ts) (Memᴰ.head e) = (t, Memᴰ.head refl, e)
hashed f x (t ∷ ts) (Memᴰ.tail m) = let (u, n, e) = hashed f x ts m in (u, Memᴰ.tail n, e)

module _ (sha256 : Bytes → Bytes) where
  -- The header is a Bearer header whose token hashes as one of the tokens does.
  abbrev pub Allowed : List Bytes → Bytes → Type 0
  Allowed tokens header =
      (token : Bytes) × IsBearer header token
      × ((known : Bytes) × Memᴰ known tokens × (sha256 token ≡ sha256 known))

  abbrev pub refusal : {R : Type 0} → Guarded R
  refusal = unauthorized 401 (codes "Bearer realm=\"otherlode-collector\"") (auth_rejected ∷ [])

  matches_sound :
      (tokens : List Bytes) (token : Bytes)
      → matches sha256 (store sha256 tokens) token ≡ true
      → (known : Bytes) × Memᴰ known tokens × (sha256 token ≡ sha256 known)
  unfolding matches store
  matches_sound tokens token h =
      hashed sha256 _ tokens (match_all_sound (sha256 token) (map sha256 tokens) (ground arith))

  matches_complete :
      (tokens : List Bytes) (token known : Bytes)
      → Memᴰ known tokens
      → sha256 token ≡ sha256 known
      → matches sha256 (store sha256 tokens) token ≡ true
  unfolding matches store
  matches_complete tokens token known m e =
      rw (match_all_complete (sha256 token) (map sha256 tokens) (Memᴰ.cast e (Memᴰ.map sha256 m)))
        refl

  -- The next handler serves a request exactly when its header is a Bearer header whose token hashes
  -- as one of the stored tokens does, so always when it is one of them; any other request is
  -- counted once and answered 401.
  pub require_bearer_token_lem :
      {Q R : Type 0} (tokens : List Bytes) (next : Q → R) (header : Bytes) (r : Q)
      → (Allowed tokens header
          × (require_bearer_token sha256 (store sha256 tokens) next header r ≡ served (next r)))
        ⊎ (¬ Allowed tokens header
            × (require_bearer_token sha256 (store sha256 tokens) next header r ≡ refusal))
  unfolding require_bearer_token
  require_bearer_token_lem tokens next header r = elim (Option-cases (bearer_token header)) [
    | inl e ↦ inr (λ (t, v, _). absurd (ground (arith, bearer_complete header t v)), rw e refl)
    | inr (t, e) ↦ elim (Bool-cases (matches sha256 (store sha256 tokens) t)) [
      | inl m ↦ inl ((t, IsBearer-sound header t e, matches_sound tokens t m), rw (e, m) refl)
      | inr m ↦ inr (
        λ (u, v, (known, k, q)).
            absurd (cc (bearer_complete header u v, e, matches_complete tokens u known k q, m)),
        rw (e, m) refl,
      )
    ]
  ]
