-- ===== src/Command/Start/Closed.antt =====
-- cmd/otherlode-collector: the token check of a collector that was not told to run open.
use mathlib.Core.Path.{subst}
use yukon_collector.Base.{
  ℕ, Bool, ◌<◌, ◌≡◌, refl, ap, ◌∙◌, ◌⊎◌, inl, inr, true, Option, some, List, [], ◌∷◌, map, Bytes,
  length, ℤ, arith,
}
use yukon_collector.Text.Space.{trim_space}
use yukon_collector.Text.Parts.{split}
use yukon_collector.Text.Parts.RoundTrip.{length-split}
use yukon_collector.Auth.{TokenSet, store}
use yukon_collector.Auth.Watched.{watched_tokens}
use yukon_collector.TokenFile.{Opened}
use yukon_collector.Auth.Accepts.{Allowed, require_bearer_token_lem}
use yukon_collector.RateLimit.{Limiter}
use yukon_collector.Ingest.Sink.{Sink}
use yukon_collector.Command.Settings.{SettingError, Result, ok, err, Getenv, parse_bool}
use yukon_collector.Command.Tokens.{
  AuthChoice, auth_token_variable, auth_token_file, insecure_no_auth, resolve_auth_tokens,
}
use yukon_collector.Command.Tokens.Choice.{
  Decides, contradiction, unusable_file, usable_file, blank_entry, listed, opted_out, closed,
  resolve_auth_tokens_lem,
}
use yukon_collector.Command.Limits.{Float}
use yukon_collector.Command.Routes.{WebRequest, Decoders, Server, serve}
use yukon_collector.Command.Routes.Admission.{Spares, no_token, serve-Spares}
use yukon_collector.Command.Sinks.{BaseSink, choose_sink}
use yukon_collector.Command.Start.{
  Outside, Settings, read_settings, required, route_config, start_up,
}

ok-inj : {A : Type 0} {a b : A} → ok a ≡ ok b → a ≡ b
ok-inj e = cc

Result-cases :
    {A : Type 0} (m : Result A) → ((a : A) × (m ≡ ok a)) ⊎ ((e : SettingError) × (m ≡ err e))
Result-cases (ok a) = inl (a, refl)
Result-cases (err e) = inr (e, refl)

-- The program was told to run without tokens.
abbrev pub IsOpened : Getenv → Type 0
IsOpened getenv =
    (getenv auth_token_variable ≡ [])
    × (getenv auth_token_file ≡ [])
    × (parse_bool (getenv insecure_no_auth) ≡ some true)

-- Tokens are required, and there is one.
abbrev pub IsClosed : (Bytes → Bytes) → Option TokenSet → Type 0
IsClosed sha256 required =
    (tokens : List Bytes) × (0 < length tokens) × (required ≡ some (store sha256 tokens))

length-map : (f : Bytes → Bytes) (xs : List Bytes) → length (map f xs) ≡ length xs
length-map f [] = refl
length-map f (x ∷ xs) = omega (arith, length-map f xs)

choice-IsClosed :
    (out : Outside) (getenv : Getenv) (reads : List (Option Opened)) (a : AuthChoice)
    → ¬ IsOpened getenv
    → Decides out.sha256 out.files
        (getenv auth_token_variable)
        (getenv auth_token_file)
        (getenv insecure_no_auth)
        (ok a)
    → IsClosed out.sha256 (required out.sha256 reads a)
choice-IsClosed out getenv reads a n (contradiction h k e) = absurd (cc e)
choice-IsClosed out getenv reads a n (unusable_file h k l e) = absurd (cc e)
choice-IsClosed out getenv reads a n (usable_file ts f h k l p q o e) =
    let (us, m, r, w) = watched_tokens out.sha256 (out.files (getenv auth_token_file)) f reads o in
    (_, r, ap (required out.sha256 reads) (ok-inj e) ∙ ap some w)
choice-IsClosed out getenv reads a n (blank_entry b h k e) = absurd (cc e)
choice-IsClosed out getenv reads a n (listed h k l e) = (
  map trim_space (split b',' (getenv auth_token_variable)),
  omega (
    arith,
    length-map trim_space (split b',' (getenv auth_token_variable)),
    length-split b',' (getenv auth_token_variable),
  ),
  ap (required out.sha256 reads) (ok-inj e),
)
choice-IsClosed out getenv reads a n (opted_out h k p e) = absurd (n (h, k, p))
choice-IsClosed out getenv reads a n (closed h k p e) = absurd (cc e)

read_settings-auth :
    (out : Outside) (getenv : Getenv) (s : Settings)
    → read_settings out getenv ≡ ok s
    → resolve_auth_tokens out.sha256 out.files getenv ≡ ok s.auth
unfolding read_settings
read_settings-auth out getenv s h = ground arith

start_up-read_settings :
    (out : Outside) (getenv : Getenv) (s : Settings) (sink : BaseSink)
    → start_up out getenv ≡ ok (s, sink)
    → read_settings out getenv ≡ ok s
unfolding start_up
start_up-read_settings out getenv s sink h = elim (Result-cases (read_settings out getenv)) [
  | inr (x, e) ↦ absurd (ground arith)
  | inl (t, e) ↦ elim (Result-cases (choose_sink out.parse_url t.forwarding.cfg)) [
    | inr (x, f) ↦ absurd (ground arith)
    | inl (b, f) ↦ e ∙ ap (λ p. ok p) (ap (λ p. p.0) (ok-inj (rw (e, f) at h)))
  ]
]

module _ {B R Addr : Type 0} (new_bucket : Float → ℤ → B) (reserve_n : ℕ → B → B × R)
    (is_ok : R → Bool) (delay_from : R → ℕ → ℤ) (cancel_at : R → ℕ → B → B)
    (split_host : Bytes → Option Bytes) (parse_addr : Bytes → Option Addr) (is4 : Addr → Bool)
    (addr_text : Addr → Bytes) (prefix_text : Addr → ℕ → Option Bytes) where
  -- A collector that started, where it is not so that neither token variable is set and the opt-out
  -- is true, requires tokens after any number of re-reads of its token file, of which there is at
  -- least one; and then a request shows a token with the hash of one of them in its header, or it is
  -- answered alike whatever the sink, and leaves the sink and the decode slots as they were.
  pub start_up-IsClosed :
      {S E : Type 0} (out : Outside) (getenv : Getenv) (reads : List (Option Opened)) (s : Settings)
      (sink : BaseSink) (d : Decoders) (clean_path : Bytes → Bytes) (a b : Sink S E)
      (rendered : Option Bytes) (q : WebRequest) (v : Server S (Limiter B))
      → start_up out getenv ≡ ok (s, sink)
      → ¬ IsOpened getenv
      → (let cfg =
            route_config new_bucket reserve_n is_ok delay_from cancel_at split_host parse_addr is4
              addr_text prefix_text out.sha256 reads s in
          (tokens : List Bytes) × (0 < length tokens)
          × (cfg.auth_tokens ≡ some (store out.sha256 tokens))
          × (Allowed out.sha256 tokens q.authorization
              ⊎ Spares v
                  (serve d out.sha256 clean_path cfg a rendered q v)
                  (serve d out.sha256 clean_path cfg b rendered q v)))
  unfolding route_config
  start_up-IsClosed out getenv reads s sink d clean_path a b rendered q v h n =
      let cfg =
        route_config new_bucket reserve_n is_ok delay_from cancel_at split_host parse_addr is4
          addr_text prefix_text out.sha256 reads s in
      let e = start_up-read_settings out getenv s sink h in
      let decided : Decides out.sha256 out.files (getenv auth_token_variable)
          (getenv auth_token_file) (getenv insecure_no_auth) (ok s.auth) =
        subst
          (Decides out.sha256 out.files (getenv auth_token_variable) (getenv auth_token_file)
            (getenv insecure_no_auth))
          (read_settings-auth out getenv s e)
          (resolve_auth_tokens_lem out.sha256 out.files getenv) in
      let (tokens, p, g) = choice-IsClosed out getenv reads s.auth n decided in
      let needed : cfg.auth_tokens ≡ some (store out.sha256 tokens) = g in
      (
        tokens,
        p,
        needed,
        elim (require_bearer_token_lem out.sha256 tokens (λ (u : Unit {0}). u) q.authorization tt) [
          | inl (known, _) ↦ inl known
          | inr (unknown, _) ↦ inr (
              serve-Spares d out.sha256 clean_path cfg a b rendered q v
                (no_token tokens needed unknown))
        ],
      )
