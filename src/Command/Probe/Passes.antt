-- ===== src/Command/Probe/Passes.antt =====
-- cmd/otherlode-collector: the healthcheck subcommand against the server of the same collector.
use yukon_collector.Base.{
  ℕ, Bool, true, false, if◌then◌else◌, ◌≢◌, ◌⊎◌, inl, inr, Bool-cases, is_empty, is_empty_sound,
  is_empty_complete, arith, ◌≡◌, refl, ap, sym, ◌==◌, ◌∙◌, Option, none, some, [], ◌∷◌, Bytes,
  codes, bytes_eq,
}
use yukon_collector.Text.Decimal.{itoa}
use yukon_collector.Ingest.Sink.{Sink}
use yukon_collector.Ingest.Handler.{plain}
use yukon_collector.Command.Settings.{Getenv}
use yukon_collector.Command.Routes.{
  WebRequest, RouteConfig, Decoders, Server, WebReply, responded, challenged, throttled, exposition,
  redirected, Exchange, untouched, open_routes, serve,
}
use yukon_collector.Command.Probe.{
  Net, probed_host, collector_addr, healthz_path, resolve_addr, healthz_url, run_healthcheck,
  is_healthy, healthcheck_command, run_subcommand,
}

-- The status that a client sees.
abbrev reply_status : WebReply → Option ℕ
reply_status (responded none) = none
reply_status (responded (some r)) = some r.status
reply_status (challenged status www) = some status
reply_status (throttled status after) = some status
reply_status (exposition text) = some 200
reply_status redirected = some 301

abbrev pub status_of : {S L : Type 0} → Option (Exchange S L) → Option ℕ
status_of none = none
status_of (some e) = reply_status e.reply

serve_healthz :
    {S L E : Type 0} (d : Decoders) (sha256 clean_path : Bytes → Bytes) (cfg : RouteConfig L)
    (sink : Sink S E) (rendered : Option Bytes) (q : WebRequest) (v : Server S L)
    → clean_path healthz_path ≡ healthz_path
    → q.method ≡ codes "GET"
    → q.path ≡ healthz_path
    → serve d sha256 clean_path cfg sink rendered q v
      ≡ some (untouched v (responded (some (plain 200))))
unfolding serve open_routes bytes_eq
serve_healthz d sha256 clean_path cfg sink rendered q v clean m p = simp (p, m, clean)

-- The address that the collector listens on.
abbrev pub Listens : Getenv → (addr : Bytes) → Type 0
Listens getenv addr =
    let value = getenv (codes "OTHERLODE_COLLECTOR_ADDR") in
    ((value ≡ []) × (addr ≡ codes ":4319")) ⊎ ((value ≢ []) × (addr ≡ value))

-- A connection to `dialled` meets a listener on `host`: on the loopback address where the listener
-- is on every address, and otherwise on its own host.
abbrev pub Meets : Net → (host dialled : Bytes) → Type 0
Meets net host dialled =
    (((host ≡ []) ⊎ (net.is_unspecified host ≡ true)) × (dialled ≡ codes "127.0.0.1"))
    ⊎ ((host ≢ []) × (net.is_unspecified host ≡ false) × (dialled ≡ host))

-- The address that is probed is the one that the collector listens on.
resolve_addr_lem :
    (getenv : Getenv) (addr : Bytes)
    → Listens getenv addr
    → resolve_addr (getenv collector_addr) ≡ addr
unfolding resolve_addr is_empty
resolve_addr_lem getenv addr h = elim h [
  | inl (e, f) ↦ ap resolve_addr e ∙ sym f
  | inr (set, f) ↦ elim (Bool-cases (is_empty (getenv collector_addr))) [
    | inl e ↦ absurd (set (is_empty_sound _ e))
    | inr e ↦ rw e (sym f)
  ]
]

-- The host that is probed meets the listener.
probed_host-Meets : (net : Net) (host : Bytes) → Meets net host (probed_host net host)
probed_host-Meets net host = elim (Bool-cases (is_empty host)) [
  | inl e ↦ inl (inl (is_empty_sound host e), rw e refl)
  | inr e ↦ elim (Bool-cases (net.is_unspecified host)) [
    | inl u ↦ inl (inr u, rw (e, u) refl)
    | inr u ↦ inr (is_empty_complete host e, u, rw (e, u) refl)
  ]
]

unwell : (net : Net) (status : Option ℕ) → status ≢ some 200 → is_healthy net status ≡ false
unwell net none h = refl
unwell net (some status) h = elim (Bool-cases (status == 200)) [
  | inl e ↦ absurd (h (ap some (ground arith)))
  | inr e ↦ e
]

-- The healthcheck of a collector on the address that its variable or the default names, with a port
-- that can be looked up. A GET of /healthz, on the loopback address where the collector listens on
-- every address and on its own host otherwise, is answered by the collector's own server, if it is
-- up, or gives anything but a 200. Then, where path cleaning leaves /healthz alone, the exit status
-- is 0 if the server is up, whatever its tokens, its limiter and its sink and whatever state they
-- are in, and 1 if not; and the server answers a GET of /healthz with 200 and stays as it was.
pub healthcheck_lem :
    {S L E : Type 0} (net : Net) (getenv : Getenv) (addr host port_name : Bytes) (port : ℕ)
    (up : Bool) (broken : Option ℕ) (d : Decoders) (sha256 clean_path : Bytes → Bytes)
    (cfg : RouteConfig L) (sink : Sink S E) (rendered : Option Bytes) (q : WebRequest)
    (v : Server S L)
    → Listens getenv addr
    → net.split_host_port addr ≡ some (host, port_name)
    → net.lookup_port port_name ≡ some port
    → clean_path (codes "/healthz") ≡ codes "/healthz"
    → q.method ≡ codes "GET"
    → q.path ≡ codes "/healthz"
    → broken ≢ some 200
    → ((dialled : Bytes)
        → Meets net host dialled
        → net.get_status (net.url_text (net.join_host_port dialled (itoa port)) (codes "/healthz"))
          ≡ (if up then status_of (serve d sha256 clean_path cfg sink rendered q v) else broken))
    → (serve d sha256 clean_path cfg sink rendered q v
        ≡ some (untouched v (responded (some (plain 200)))))
      × (run_subcommand net (codes "healthcheck" ∷ []) getenv ≡ (if up then 0 else 1))
unfolding run_subcommand healthcheck_command healthz_url run_healthcheck bytes_eq
healthcheck_lem net getenv addr host port_name port up broken d sha256 clean_path cfg sink rendered
      q v listens h k c m p bad answers =
    let e = serve_healthz d sha256 clean_path cfg sink rendered q v c m p in
    let found = answers (probed_host net host) (probed_host-Meets net host) in
    let same = resolve_addr_lem getenv addr listens in
    (
      e,
      elim (Bool-cases up) [
        | inl on ↦ rw (same, h, k, on, (rw on at found) ∙ ap status_of e) refl
        | inr off ↦ rw (same, h, k, off, rw off at found, unwell net broken bad) refl
      ],
    )
