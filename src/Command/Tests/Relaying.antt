-- ===== src/Command/Tests/Relaying.antt =====
-- A collector with a backend and two shards, and a request with one byte.
use yukon_collector.Base.{false, none, some, [], ◌∷◌, codes, arith}
use yukon_collector.Metrics.Counters.{deltas, manifest, static_baseline}
use yukon_collector.Payload.Reflect.{message, end}
use yukon_collector.Ingest.Paths.{delta_batch_path, manifest_path, static_baseline_path}
use yukon_collector.Ingest.Validate.{
  validate_delta_batch, validate_manifest, validate_static_baseline,
}
use yukon_collector.Forward.Tests.TwoShards.{both_in_sink}
use yukon_collector.Command.Sinks.{Encoders, base_sink}
use yukon_collector.Command.Routes.{Decoders, chain}
use yukon_collector.Command.Routes.Stages.{stages}
use yukon_collector.Command.Routes.Promised.{Promise}
use yukon_collector.Command.Routes.Forwarded.{answers_keep}
use yukon_collector.Command.Tests.Serving.{config, web_request}

abbrev with_service : Decoders
with_service = record {
  parse_media_type = λ v. some v;
  delta_batch = λ body. some (record {
    resource = some (record {
      service_namespace = [];
      service_name = codes "shop";
      service_instance_id = codes "a";
      run_id = codes "r";
      environment = [];
      test_run = false;
    });
    deltas = 1;
    endpoint_deltas = 0;
    dependency_deltas = 0;
    rest = message body end;
  });
  probe_manifest = λ body. none;
  baseline = λ body. none;
}

-- A batch is sent as the length of its list, and a baseline has no encoding.
abbrev encoders : Encoders
encoders = record {
  delta_batch = λ m. some (m.deltas ∷ []);
  probe_manifest = λ m. some (0 ∷ []);
  baseline = λ m. none;
}

answers_keep_example :
    Promise
      (some 2)
      with_service.parse_media_type
      with_service.delta_batch
      deltas
      validate_delta_batch
      (chain config (base_sink encoders)).accept_delta_batch
      (λ m. ((stages config).of_batch m).0)
      (λ m. m.resource)
      delta_batch_path
      encoders.delta_batch
      both_in_sink
      web_request.payload
      0
    × Promise
        (some 2)
        with_service.parse_media_type
        with_service.probe_manifest
        manifest
        validate_manifest
        (chain config (base_sink encoders)).accept_manifest
        (λ m. ((stages config).of_manifest m).0)
        (λ m. m.resource)
        manifest_path
        encoders.probe_manifest
        both_in_sink
        web_request.payload
        0
    × Promise
        (some 2)
        with_service.parse_media_type
        with_service.baseline
        static_baseline
        validate_static_baseline
        (chain config (base_sink encoders)).accept_static_baseline
        (λ m. ((stages config).of_baseline m).0)
        (λ m. m.resource)
        static_baseline_path
        encoders.baseline
        both_in_sink
        web_request.payload
        0
answers_keep_example =
    answers_keep config encoders both_in_sink (omega arith) (omega arith) with_service (some 2)
      web_request.payload 0
