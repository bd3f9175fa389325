-- ===== src/Command/Routes/Admission.antt =====
-- cmd/otherlode-collector/routes.go: which requests may reach the sink.
use yukon_collector.Base.{
  ℕ, ◌≡◌, ◌≢◌, refl, inl, inr, Bool-cases, Option-cases, false, Option, none, some, List, Bytes,
  codes, bytes_eq, bytes_eq_no, take,
}
use yukon_collector.Ingest.Paths.{delta_batch_path, manifest_path, static_baseline_path}
use yukon_collector.Ingest.Sink.{Sink}
use yukon_collector.Ingest.Handler.{slots_of, Served}
use yukon_collector.Auth.{store, require_bearer_token, presents, bearer_token}
use yukon_collector.Auth.Accepts.{Allowed, require_bearer_token_lem}
use yukon_collector.RateLimit.Allow.{Answer}
use yukon_collector.RateLimit.Middleware.{middleware}
use yukon_collector.Command.Routes.{
  WebRequest, RouteConfig, chain, Decoders, Server, Exchange, unmatched, ingest_mux, with_auth,
  with_limiter, after_auth, after_limiter, is_unclean, ingest_handler, open_routes, is_get, serve,
}

-- The sink's state and the decode slots are as they were.
abbrev pub IsKept : {S L : Type 0} → Server S L → Option (Exchange S L) → Type 0
IsKept v none = Unit
IsKept v (some e) = (e.server.state ≡ v.state) × (e.server.in_use ≡ v.in_use)

-- The two end alike, and leave the sink and the slots as they were.
abbrev pub Spares :
    {S L : Type 0} → Server S L → Option (Exchange S L) → Option (Exchange S L) → Type 0
Spares v x y = (x ≡ y) × IsKept v x

open_routes-IsKept :
    {S L : Type 0} (rendered : Option Bytes) (q : WebRequest) (v : Server S L)
    → IsKept v (open_routes rendered q v)
unfolding open_routes
open_routes-IsKept rendered q v = elim (Bool-cases (bytes_eq q.path (codes "/v1/otherlode"))) [
  | inl e ↦ rw e (refl, refl)
  | inr e ↦ elim (Bool-cases (bytes_eq q.path (codes "/healthz"))) [
    | inl f ↦ rw (e, f) (refl, refl)
    | inr f ↦ elim (Bool-cases (bytes_eq q.path (codes "/metrics"))) [
      | inr g ↦ rw (e, f, g) (refl, refl)
      | inl g ↦ elim (Bool-cases (is_get q)) [
        | inr k ↦ rw (e, f, g, k) (refl, refl)
        | inl k ↦ elim (Option-cases rendered) [
          | inl n ↦ rw (e, f, g, k, n) tt
          | inr (t, n) ↦ rw (e, f, g, k, n) (refl, refl)
        ]
      ]
    ]
  ]
]

module _ {S E : Type 0} (d : Decoders) (slots : Option ℕ) (a b : Sink S E) (q : WebRequest) (s : S)
    (n : ℕ) where
  -- The inner routes answer alike over both sinks, and touch neither.
  abbrev MuxSpares : Type 0
  MuxSpares =
      (status : ℕ) × (ingest_mux d slots a q s n ≡ some (unmatched status s n))
      × (ingest_mux d slots b q s n ≡ some (unmatched status s n))

  no_route_mux :
      q.path ≢ delta_batch_path → q.path ≢ manifest_path → q.path ≢ static_baseline_path → MuxSpares
  unfolding ingest_mux
  no_route_mux x y z =
      let e = bytes_eq_no _ _ x in
      let f = bytes_eq_no _ _ y in
      let g = bytes_eq_no _ _ z in (404, rw (e, f, g) refl, rw (e, f, g) refl)

  no_post_mux : q.method ≢ codes "POST" → MuxSpares
  unfolding ingest_mux
  no_post_mux h =
      let m = bytes_eq_no _ _ h in
      elim (Bool-cases (bytes_eq q.path delta_batch_path)) [
        | inl e ↦ (405, rw (e, m) refl, rw (e, m) refl)
        | inr e ↦ elim (Bool-cases (bytes_eq q.path manifest_path)) [
          | inl f ↦ (405, rw (e, f, m) refl, rw (e, f, m) refl)
          | inr f ↦ elim (Bool-cases (bytes_eq q.path static_baseline_path)) [
            | inl g ↦ (405, rw (e, f, g, m) refl, rw (e, f, g, m) refl)
            | inr g ↦ (404, rw (e, f, g) refl, rw (e, f, g) refl)
          ]
        ]
      ]

module _ {S L : Type 0} (d : Decoders) (sha256 clean_path : Bytes → Bytes)
    (cfg : RouteConfig L) where
  -- The request is not one that an agent may send: it is over the limit, or without a token of the
  -- set, or not a POST, or not to one of the three routes.
  pub data IsRefused (q : WebRequest) (v : Server S L) : Type 0 where
    over_limit :
        (allow : WebRequest → L → Option (L × Answer)) (l : L) (a : Answer)
        → cfg.allow ≡ some allow
        → allow q v.limiter ≡ some (l, a)
        → a.allowed ≡ false
        → IsRefused q v
    no_token :
        (tokens : List Bytes)
        → cfg.auth_tokens ≡ some (store sha256 tokens)
        → ¬ Allowed sha256 tokens q.authorization
        → IsRefused q v
    no_post : q.method ≢ codes "POST" → IsRefused q v
    no_route :
        q.path ≢ delta_batch_path
        → q.path ≢ manifest_path
        → q.path ≢ static_baseline_path
        → IsRefused q v

  abbrev behind_auth :
      WebRequest → Server S L → (WebRequest → Option (Served S)) → Option (Exchange S L)
  behind_auth q v next = after_auth v (with_auth sha256 cfg.auth_tokens next q)

  abbrev behind_limiter :
      WebRequest → Server S L → (WebRequest → Option (Served S)) → Option (Exchange S L)
  behind_limiter q v next =
      after_limiter v (with_limiter cfg.allow (with_auth sha256 cfg.auth_tokens next) q v.limiter)

  -- What the token check spares is spared behind the limiter.
  limiter-Spares :
      (q : WebRequest) (v : Server S L) (f g : WebRequest → Option (Served S))
      → ((l : L)
          → Spares v
              (behind_auth q (record v { limiter = l }) f)
              (behind_auth q (record v { limiter = l }) g))
      → Spares v (behind_limiter q v f) (behind_limiter q v g)
  unfolding middleware
  limiter-Spares q v f g k = elim (Option-cases cfg.allow) [
    | inl e ↦ rw e (k v.limiter)
    | inr (allow, e) ↦ elim (Option-cases (allow q v.limiter)) [
      | inl n ↦ rw (e, n) (refl, tt)
      | inr ((l, a), n) ↦ elim (Bool-cases a.allowed) [
        | inl t ↦ rw (e, n, t) (k l)
        | inr t ↦ rw (e, n, t) (refl, (refl, refl))
      ]
    ]
  ]

  -- An answer of the inner routes that leaves the sink alone is spared behind the token check.
  auth-Spares :
      (q : WebRequest) (v : Server S L) (f g : WebRequest → Option (Served S)) (status : ℕ)
      → f q ≡ some (unmatched status v.state v.in_use)
      → g q ≡ some (unmatched status v.state v.in_use)
      → (l : L)
      → Spares v
          (behind_auth q (record v { limiter = l }) f)
          (behind_auth q (record v { limiter = l }) g)
  unfolding require_bearer_token
  auth-Spares q v f g status hf hg l = elim (Option-cases cfg.auth_tokens) [
    | inl e ↦ rw (e, hf, hg) (refl, (refl, refl))
    | inr (ts, e) ↦ elim (Bool-cases (presents sha256 ts (bearer_token q.authorization))) [
      | inl p ↦ rw (e, p, hf, hg) (refl, (refl, refl))
      | inr p ↦ rw (e, p) (refl, (refl, refl))
    ]
  ]

  no_token-Spares :
      (tokens : List Bytes) (q : WebRequest) (v : Server S L) (f g : WebRequest → Option (Served S))
      → cfg.auth_tokens ≡ some (store sha256 tokens)
      → ¬ Allowed sha256 tokens q.authorization
      → (l : L)
      → Spares v
          (behind_auth q (record v { limiter = l }) f)
          (behind_auth q (record v { limiter = l }) g)
  no_token-Spares tokens q v f g e h l =
      elim (require_bearer_token_lem sha256 tokens f q.authorization q) [
        | inl (a, _) ↦ absurd (h a)
        | inr (_, x) ↦ elim (require_bearer_token_lem sha256 tokens g q.authorization q) [
          | inl (a, _) ↦ absurd (h a)
          | inr (_, y) ↦ rw (e, x, y) (refl, (refl, refl))
        ]
      ]

  handler-Spares :
      {E : Type 0} (a b : Sink S E) (q : WebRequest) (v : Server S L)
      → IsRefused q v
      → Spares v
          (ingest_handler d sha256 clean_path cfg a q v)
          (ingest_handler d sha256 clean_path cfg b q v)
  unfolding ingest_handler middleware
  handler-Spares a b q v (over_limit allow l x e n t) = rw (e, n, t) (refl, (refl, refl))
  handler-Spares a b q v (no_token tokens e h) =
      limiter-Spares q v _ _ (no_token-Spares tokens q v _ _ e h)
  handler-Spares a b q v (no_post h) =
      let (status, f, g) =
        no_post_mux d (slots_of cfg.max_decodes) (chain cfg a) (chain cfg b) q v.state v.in_use h in
      limiter-Spares q v _ _ (auth-Spares q v _ _ status f g)
  handler-Spares a b q v (no_route x y z) =
      let (status, f, g) =
        no_route_mux d (slots_of cfg.max_decodes) (chain cfg a) (chain cfg b) q v.state v.in_use x y
          z in
      limiter-Spares q v _ _ (auth-Spares q v _ _ status f g)

  -- Whatever the sink, a request is answered alike, and leaves the sink and the decode slots as they
  -- were, if the limiter refuses it, or tokens are required and its header shows no token with the
  -- hash of one of them, or it is not a POST, or its path is not one of the three ingest routes.
  pub serve-Spares :
      {E : Type 0} (a b : Sink S E) (rendered : Option Bytes) (q : WebRequest) (v : Server S L)
      → IsRefused q v
      → Spares v
          (serve d sha256 clean_path cfg a rendered q v)
          (serve d sha256 clean_path cfg b rendered q v)
  unfolding serve
  serve-Spares a b rendered q v h = elim (Bool-cases (is_unclean clean_path q)) [
    | inl e ↦ rw e (refl, (refl, refl))
    | inr e ↦ elim (Bool-cases (bytes_eq (take 14 q.path) (codes "/v1/otherlode/"))) [
      | inl f ↦ rw (e, f) (handler-Spares a b q v h)
      | inr f ↦ rw (e, f) (refl, open_routes-IsKept rendered q v)
    ]
  ]
