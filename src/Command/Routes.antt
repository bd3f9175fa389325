-- ===== src/Command/Routes.antt =====
-- cmd/otherlode-collector/routes.go: the sinks in their order and the handlers in theirs, and the
-- requests that they serve. What `http.ServeMux` makes of a path, `path.Clean`, the decoders and
-- SHA-256 are parameters. Log lines are left out.
pub mod Admission
pub mod Hiding
pub mod Stages
pub mod Promised
pub mod Forwarded
use yukon_collector.Base.{
  ℕ, Bool, true, false, not, ◌&&◌, ◌||◌, Option, none, some, List, [], ◌∷◌, ◌++◌, Bytes, codes,
  bytes_eq, is_empty, take, if◌then◌else◌, ℤ,
}
use yukon_collector.Metrics.Counters.{PayloadKind, deltas, manifest, static_baseline, Count}
use yukon_collector.Payload.{DeltaBatch, ProbeManifest, StaticBaseline}
use yukon_collector.Ingest.Paths.{delta_batch_path, manifest_path, static_baseline_path}
use yukon_collector.Ingest.Sink.{Sink}
use yukon_collector.Ingest.Validate.{
  validate_delta_batch, validate_manifest, validate_static_baseline,
}
use yukon_collector.Ingest.Handler.{Request, Response, plain, Served, slots_of, handle}
use yukon_collector.Processor.Environment.{EnvironmentConfig, environment}
use yukon_collector.Processor.Namespace.{NamespaceConfig, namespace}
use yukon_collector.Processor.Redaction.{RedactionConfig, enabled, redaction}
use yukon_collector.Auth.{TokenSet, Guarded, unauthorized, served, require_bearer_token}
use yukon_collector.RateLimit.Allow.{Answer}
use yukon_collector.RateLimit.Clients
use yukon_collector.RateLimit.Middleware.{Limited, too_many, passed, middleware}

-- `source` is what the limiter reads of a request, and `now` the time at which it does.
pub record WebRequest : Type 0 where
  pub source : Clients.Request
  pub now : ℕ
  pub method : Bytes
  pub path : Bytes
  pub authorization : Bytes
  pub payload : Request

-- The chosen sink behind the processors that are on.
abbrev with_environment : {S E : Type 0} → EnvironmentConfig → Sink S E → Sink S E
with_environment cfg sink = if is_empty cfg.value then sink else environment cfg sink

abbrev with_namespace : {S E : Type 0} → NamespaceConfig → Sink S E → Sink S E
with_namespace cfg sink = if is_empty cfg.value then sink else namespace cfg sink

abbrev with_redaction : {S E : Type 0} → RedactionConfig → Sink S E → Sink S E
with_redaction cfg sink = if enabled cfg then redaction cfg sink else sink

-- What the settings give, the backend's sink apart. `allow` is the limiter's, if there is one.
pub record RouteConfig (L : Type 0) : Type 0 where
  pub auth_tokens : Option TokenSet
  pub allow : Option (WebRequest → L → Option (L × Answer))
  pub max_decodes : ℤ
  pub environment : EnvironmentConfig
  pub namespace : NamespaceConfig
  pub redaction : RedactionConfig

unfoldable pub chain : {L S E : Type 0} → RouteConfig L → Sink S E → Sink S E
unfolding environment namespace redaction
chain cfg sink =
    with_redaction cfg.redaction
      (with_namespace cfg.namespace (with_environment cfg.environment sink))

pub record Server (S L : Type 0) : Type 0 where
  pub state : S
  pub in_use : ℕ
  pub limiter : L

pub data WebReply : Type 0 where
  responded : Option Response → WebReply
  challenged : (status : ℕ) (www_authenticate : Bytes) → WebReply
  throttled : (status : ℕ) (retry_after : Bytes) → WebReply
  exposition : Bytes → WebReply
  redirected : WebReply

pub record Exchange (S L : Type 0) : Type 0 where
  pub server : Server S L
  pub counts : List Count
  pub reply : WebReply

-- A reply that leaves all as it is.
abbrev pub untouched : {S L : Type 0} → Server S L → WebReply → Exchange S L
untouched v reply = record { server = v; counts = []; reply = reply }

-- What a library and the generated package give.
pub record Decoders : Type 0 where
  pub parse_media_type : Bytes → Option Bytes
  pub delta_batch : Bytes → Option DeltaBatch
  pub probe_manifest : Bytes → Option ProbeManifest
  pub baseline : Bytes → Option StaticBaseline

abbrev pub unmatched : {S : Type 0} → ℕ → S → ℕ → Served S
unmatched status s n = record { state = s; in_use = n; counts = []; response = some (plain status) }

abbrev pub on_post : {S : Type 0} → WebRequest → S → ℕ → Option (Served S) → Option (Served S)
on_post q s n v = if bytes_eq q.method (codes "POST") then v else some (unmatched 405 s n)

-- `Handler.Register`, as the inner `http.ServeMux` serves it.
unfoldable pub ingest_mux :
    {S E : Type 0} → Decoders → Option ℕ → Sink S E → WebRequest → S → ℕ → Option (Served S)
ingest_mux d slots sink q s n =
    let batch =
      handle slots d.parse_media_type d.delta_batch deltas validate_delta_batch
        sink.accept_delta_batch q.payload s n in
    let probes =
      handle slots d.parse_media_type d.probe_manifest manifest validate_manifest
        sink.accept_manifest q.payload s n in
    let scan =
      handle slots d.parse_media_type d.baseline static_baseline validate_static_baseline
        sink.accept_static_baseline q.payload s n in
    if bytes_eq q.path delta_batch_path
    then on_post q s n batch
    else if bytes_eq q.path manifest_path
    then on_post q s n probes
    else if bytes_eq q.path static_baseline_path
    then on_post q s n scan
    else some (unmatched 404 s n)

abbrev pub with_auth :
    {X : Type 0}
    → (sha256 : Bytes → Bytes) → Option TokenSet
    → (WebRequest → X)
    → WebRequest
    → Guarded X
with_auth sha256 none next q = served (next q)
with_auth sha256 (some tokens) next q = require_bearer_token sha256 tokens next q.authorization q

-- Without a limiter its state stays as it is.
abbrev pub with_limiter :
    {L X : Type 0}
    → Option (WebRequest → L → Option (L × Answer))
    → (WebRequest → X)
    → WebRequest
    → L
    → Option (L × Limited X)
with_limiter none next q l = some (l, passed (next q))
with_limiter (some allow) next q l = middleware allow next q l

abbrev pub after_handler : {S L : Type 0} → Server S L → Option (Served S) → Option (Exchange S L)
after_handler v none = none
after_handler v (some r) = some (record {
  server = record v { state = r.state; in_use = r.in_use };
  counts = r.counts;
  reply = responded r.response;
})

abbrev pub after_auth :
    {S L : Type 0} → Server S L → Guarded (Option (Served S)) → Option (Exchange S L)
after_auth v (unauthorized status www counts) =
    some (record { server = v; counts = counts; reply = challenged status www })
after_auth v (served r) = after_handler v r

abbrev pub after_limiter :
    {S L : Type 0}
    → Server S L
    → Option (L × Limited (Guarded (Option (Served S))))
    → Option (Exchange S L)
after_limiter v none = none
after_limiter v (some (l, too_many status after counts)) =
    some (record {
      server = record v { limiter = l };
      counts = counts;
      reply = throttled status after;
    })
after_limiter v (some (l, passed g)) = after_auth (record v { limiter = l }) g

abbrev pub is_get : WebRequest → Bool
is_get q = bytes_eq q.method (codes "GET") || bytes_eq q.method (codes "HEAD")

-- `metrics.Handler`, on the text of `metrics.Render`.
abbrev expose : {S L : Type 0} → Server S L → Option Bytes → Option (Exchange S L)
expose v none = none
expose v (some text) = some (untouched v (exposition text))

-- A path that is not clean is redirected to the clean one, unless the method is CONNECT.
abbrev pub is_unclean : (clean_path : Bytes → Bytes) → WebRequest → Bool
is_unclean clean_path q =
    not (bytes_eq q.method (codes "CONNECT")) && not (bytes_eq (clean_path q.path) q.path)

-- The routes that stay open, and what else the outer mux answers.
unfoldable pub open_routes :
    {S L : Type 0} → (rendered : Option Bytes) → WebRequest → Server S L → Option (Exchange S L)
open_routes rendered q v =
    if bytes_eq q.path (codes "/v1/otherlode")
    then some (untouched v redirected)
    else if bytes_eq q.path (codes "/healthz")
    then some (untouched v (responded (some (plain (if is_get q then 200 else 405)))))
    else if bytes_eq q.path (codes "/metrics")
    then (if is_get q then expose v rendered else some (untouched v (responded (some (plain 405)))))
    else some (untouched v (responded (some (plain 404))))

module _ (d : Decoders) (sha256 clean_path : Bytes → Bytes) where
  -- The wrapped ingest handler that is mounted below "/v1/otherlode/".
  unfoldable pub ingest_handler :
      {S L E : Type 0} → RouteConfig L → Sink S E → WebRequest → Server S L → Option (Exchange S L)
  ingest_handler cfg sink q v =
      let inner = λ (p : WebRequest).
        ingest_mux d (slots_of cfg.max_decodes) (chain cfg sink) p v.state v.in_use in
      after_limiter v (with_limiter cfg.allow (with_auth sha256 cfg.auth_tokens inner) q v.limiter)

  -- The outer `http.ServeMux` after `registerRoutes`.
  unfoldable pub serve :
      {S L E : Type 0}
      → RouteConfig L
      → Sink S E
      → (rendered : Option Bytes) → WebRequest
      → Server S L
      → Option (Exchange S L)
  serve cfg sink rendered q v =
      if is_unclean clean_path q
      then some (untouched v redirected)
      else if bytes_eq (take 14 q.path) (codes "/v1/otherlode/")
      then ingest_handler cfg sink q v
      else open_routes rendered q v
