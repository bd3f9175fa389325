-- ===== src/Command/Tests/Probing.antt =====
-- The healthcheck of a collector that listens on the default address and whose limiter lets nothing
-- through.
use yukon_collector.Base.{
  ◌≡◌, refl, sym, ◌∙◌, inl, inr, true, false, none, some, [], ◌∷◌, ◌++◌, Bytes, codes, bytes_eq,
  if◌then◌else◌,
}
use yukon_collector.Text.Decimal.{itoa}
use yukon_collector.Ingest.Handler.{plain}
use yukon_collector.Command.Settings.{Getenv}
use yukon_collector.Command.Routes.{WebRequest, responded, untouched, open_routes, serve}
use yukon_collector.Command.Probe.{Net, healthz_path, run_subcommand}
use yukon_collector.Command.Probe.Passes.{Meets, status_of, healthcheck_lem}
use yukon_collector.Command.Tests.{keep}
use yukon_collector.Command.Tests.Serving.{taking, decoders, config, web_request, spent}

abbrev unset : Getenv
unset name = []

-- Only the collector answers, on the loopback address and its port.
abbrev net : Net
net = record {
  split_host_port = λ addr. if bytes_eq addr (codes ":4319") then some ([], codes "4319") else none;
  lookup_port = λ port. if bytes_eq port (codes "4319") then some 4319 else none;
  is_unspecified = λ host. false;
  join_host_port = λ host port. host ++ b':' ∷ port;
  url_text = λ host path. codes "http://" ++ host ++ path;
  get_status =
      λ url. if bytes_eq url (codes "http://127.0.0.1:4319/healthz") then some 200 else none;
}

abbrev probe_request : WebRequest
probe_request = record web_request { method = codes "GET"; path = healthz_path; authorization = [] }

splits : net.split_host_port (codes ":4319") ≡ some ([], codes "4319")
unfolding bytes_eq
splits = refl

looks_up : net.lookup_port (codes "4319") ≡ some 4319
unfolding bytes_eq
looks_up = refl

gives_ok : status_of (serve decoders keep keep config taking none probe_request spent) ≡ some 200
unfolding serve open_routes bytes_eq
gives_ok = refl

at_loopback :
    net.get_status
      (net.url_text (net.join_host_port (codes "127.0.0.1") (itoa 4319)) (codes "/healthz"))
    ≡ some 200
unfolding bytes_eq itoa
at_loopback = refl

answers_probe :
    (dialled : Bytes)
    → Meets net [] dialled
    → net.get_status (net.url_text (net.join_host_port dialled (itoa 4319)) (codes "/healthz"))
      ≡ status_of (serve decoders keep keep config taking none probe_request spent)
answers_probe dialled h = elim h [
  | inl (_, e) ↦ rw e (at_loopback ∙ sym gives_ok)
  | inr (named, _, _) ↦ absurd (named refl)
]

healthcheck_lem_example :
    (serve decoders keep keep config taking none probe_request spent
      ≡ some (untouched spent (responded (some (plain 200)))))
    × (run_subcommand net (codes "healthcheck" ∷ []) unset ≡ 0)
healthcheck_lem_example =
    healthcheck_lem net unset (codes ":4319") [] (codes "4319") 4319 true none decoders keep keep
      config taking none probe_request spent (inl (refl, refl)) splits looks_up refl refl refl
      (λ e. cc) answers_probe
