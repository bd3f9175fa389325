-- ===== src/Command/Tests/Serving.antt =====
-- The routes and the start at concrete requests.
use yukon_collector.Base.{
  ℕ, zero, suc, ◌≡◌, refl, true, false, Option, none, some, [], ◌∷◌, codes, pos,
}
use yukon_collector.Payload.Reflect.{Message, message, end}
use yukon_collector.Payload.Reflect.Clean.{IsClean}
use yukon_collector.Ingest.Sink.{Sink, Taken}
use yukon_collector.Ingest.Handler.{freed}
use yukon_collector.Auth.{store}
use yukon_collector.Processor.Action.{insert, upsert}
use yukon_collector.Processor.Redaction.{enabled}
use yukon_collector.Processor.Tests.{rules}
use yukon_collector.RateLimit.Allow.{Answer}
use yukon_collector.Command.Routes.{WebRequest, RouteConfig, Decoders, Server, serve}
use yukon_collector.Command.Routes.Admission.{Spares, over_limit, serve-Spares}
use yukon_collector.Command.Routes.Hiding.{serve-same}
use yukon_collector.Command.Tests.{keep}

abbrev pub taking : Sink ℕ ℕ
taking = record {
  accept_delta_batch = λ m s. some (record { state = s; counts = []; error = none });
  accept_manifest = λ m s. some (record { state = s; counts = []; error = none });
  accept_static_baseline = λ m s. some (record { state = s; counts = []; error = none });
}

-- A sink that fails where it sees an unknown field of the message itself.
abbrev unless_unknown : ℕ → Message → Option (Taken ℕ ℕ)
unless_unknown s (message [] fs) = some (record { state = s; counts = []; error = none })
unless_unknown s (message (c ∷ unknown) fs) = none

unless_unknown-IsClean :
    (s : ℕ) (m : Message)
    → IsClean m
    → some (record { state = s; counts = []; error = none }) ≡ unless_unknown s m
unfolding IsClean
unless_unknown-IsClean s (message [] fs) h = refl
unless_unknown-IsClean s (message (c ∷ unknown) fs) h = absurd (cc h.0)

abbrev pub wary : Sink ℕ ℕ
wary = record {
  accept_delta_batch = λ m s. unless_unknown s m.rest;
  accept_manifest = taking.accept_manifest;
  accept_static_baseline = taking.accept_static_baseline;
}

abbrev pub decoders : Decoders
decoders = record {
  parse_media_type = λ v. some v;
  delta_batch = λ body. some (record {
    resource = none;
    deltas = 1;
    endpoint_deltas = 0;
    dependency_deltas = 0;
    rest = message body end;
  });
  probe_manifest = λ body. none;
  baseline = λ body. none;
}

-- The limiter's state counts the requests, and the third is refused.
abbrev count_down : WebRequest → ℕ → Option (ℕ × Answer)
count_down q zero = some (zero, record { allowed = false; retry_after = pos 1 })
count_down q (suc n) = some (n, record { allowed = true; retry_after = pos 0 })

abbrev pub config : RouteConfig ℕ
config = record {
  auth_tokens = some (store keep (codes "alpha" ∷ []));
  allow = some count_down;
  max_decodes = pos 2;
  environment = record { value = codes "prod"; action = upsert };
  namespace = record { value = []; action = insert };
  redaction = rules;
}

abbrev pub web_request : WebRequest
web_request = record {
  source = record { header_lines = []; remote_addr = codes "192.0.2.1:4000" };
  now = 7;
  method = codes "POST";
  path = codes "/v1/otherlode/deltas";
  authorization = codes "Bearer alpha";
  payload = record {
    content_encoding = [];
    content_type = codes "application/x-protobuf";
    arriving = 1 ∷ [];
    broken = false;
    wait = freed;
  };
}

abbrev pub idle : Server ℕ ℕ
idle = record { state = 0; in_use = 0; limiter = 2 }

rules-on : enabled config.redaction ≡ true
unfolding enabled
rules-on = refl

serve-same_example :
    serve decoders keep keep config taking none web_request idle
    ≡ serve decoders keep keep config wary none web_request idle
serve-same_example =
    serve-same decoders keep keep config taking wary none web_request idle rules-on (record {
      batches = λ m s p. unless_unknown-IsClean s m.rest p;
      manifests = λ m s p. refl;
      baselines = λ m s p. refl;
    })

abbrev pub spent : Server ℕ ℕ
spent = record idle { limiter = 0 }

serve-Spares_example :
    Spares spent
      (serve decoders keep keep config taking none web_request spent)
      (serve decoders keep keep config wary none web_request spent)
serve-Spares_example =
    serve-Spares decoders keep keep config taking wary none web_request spent
      (over_limit count_down 0 (record { allowed = false; retry_after = pos 1 }) refl refl refl)
