-- ===== src/Command/Routes/Forwarded.antt =====
-- cmd/otherlode-collector/routes.go with a backend: each ingest request keeps its promise.
use yukon_collector.Base.{ℕ, ◌<◌, ◌^◌, ◌≡◌, refl, ap, ◌∙◌, Option, some, [], ◌++◌, length}
use yukon_collector.Metrics.Counters.{deltas, manifest, static_baseline}
use yukon_collector.Payload.{DeltaBatch, ProbeManifest, StaticBaseline}
use yukon_collector.Ingest.Paths.{delta_batch_path, manifest_path, static_baseline_path}
use yukon_collector.Ingest.Sink.{Sink, Taken}
use yukon_collector.Ingest.Validate.{
  validate_delta_batch, validate_manifest, validate_static_baseline,
}
use yukon_collector.Ingest.Handler.{Request}
use yukon_collector.Forward.Instance.{instance_of}
use yukon_collector.Forward.Sink.{ForwardingSink, SinkError}
use yukon_collector.Forward.Sink.Kept.{
  IsKept, accept_delta_batch-IsKept, accept_manifest-IsKept, accept_static_baseline-IsKept,
}
use yukon_collector.Command.Routes.{RouteConfig, chain, Decoders}
use yukon_collector.Command.Routes.Stages.{stages, chain-through}
use yukon_collector.Command.Sinks.{BaseSink, forwarding, Encoders, base_sink}
use yukon_collector.Command.Routes.Promised.{Promise, kept-Promise}

module _ {L : Type 0} (cfg : RouteConfig L) (p : Encoders) (f : ForwardingSink)
    (some_shard : 0 < length f.shards) (few : length f.shards < 2 ^ 32) where
  batch-IsKept :
      (m : DeltaBatch)
      → (t : Taken BaseSink SinkError) × ((chain cfg (base_sink p)).accept_delta_batch m
            (forwarding f)
          ≡ some t)
        × ((f' : ForwardingSink) × (t.state ≡ forwarding f')
            × IsKept f f'
                (instance_of ((stages cfg).of_batch m).0.resource)
                delta_batch_path
                (p.delta_batch ((stages cfg).of_batch m).0)
                t.error)
  unfolding base_sink
  batch-IsKept m =
      let (m', cs) = (stages cfg).of_batch m in
      let (f', e, a, kept) =
        accept_delta_batch-IsKept f some_shard few p.delta_batch (λ (b : DeltaBatch). b.resource)
          m' in
      (
        record { state = forwarding f'; counts = cs ++ []; error = e },
        ap (λ (k : Sink BaseSink SinkError). k.accept_delta_batch m (forwarding f))
              (chain-through cfg (base_sink p))
            ∙ rw a refl,
        (f', refl, kept),
      )

  manifest-IsKept :
      (m : ProbeManifest)
      → (t : Taken BaseSink SinkError) × ((chain cfg (base_sink p)).accept_manifest m (forwarding f)
          ≡ some t)
        × ((f' : ForwardingSink) × (t.state ≡ forwarding f')
            × IsKept f f'
                (instance_of ((stages cfg).of_manifest m).0.resource)
                manifest_path
                (p.probe_manifest ((stages cfg).of_manifest m).0)
                t.error)
  unfolding base_sink
  manifest-IsKept m =
      let (m', cs) = (stages cfg).of_manifest m in
      let (f', e, a, kept) =
        accept_manifest-IsKept f some_shard few p.probe_manifest (λ (b : ProbeManifest). b.resource)
          m' in
      (
        record { state = forwarding f'; counts = cs ++ []; error = e },
        ap (λ (k : Sink BaseSink SinkError). k.accept_manifest m (forwarding f))
              (chain-through cfg (base_sink p))
            ∙ rw a refl,
        (f', refl, kept),
      )

  baseline-IsKept :
      (m : StaticBaseline)
      → (t : Taken BaseSink SinkError) × ((chain cfg (base_sink p)).accept_static_baseline m
            (forwarding f)
          ≡ some t)
        × ((f' : ForwardingSink) × (t.state ≡ forwarding f')
            × IsKept f f'
                (instance_of ((stages cfg).of_baseline m).0.resource)
                static_baseline_path
                (p.baseline ((stages cfg).of_baseline m).0)
                t.error)
  unfolding base_sink
  baseline-IsKept m =
      let (m', cs) = (stages cfg).of_baseline m in
      let (f', e, a, kept) =
        accept_static_baseline-IsKept f some_shard few p.baseline
          (λ (b : StaticBaseline). b.resource) m' in
      (
        record { state = forwarding f'; counts = cs ++ []; error = e },
        ap (λ (k : Sink BaseSink SinkError). k.accept_static_baseline m (forwarding f))
              (chain-through cfg (base_sink p))
            ∙ rw a refl,
        (f', refl, kept),
      )

  -- With a backend and 1 to 2 ^ 32 - 1 shards, each of the three ingest requests returns, whatever
  -- processors are on. Either it is turned away with the queues as they were; or its body was decoded
  -- and passed the check, and 202 says that the payload as the processors made it is last in the queue
  -- of its instance's shard, or that it could not be encoded and was counted as dropped, and 503 that
  -- no queue changed.
  pub answers_keep :
      (d : Decoders) (slots : Option ℕ) (r : Request) (in_use : ℕ)
      → Promise slots d.parse_media_type d.delta_batch deltas validate_delta_batch
          (chain cfg (base_sink p)).accept_delta_batch
          (λ m. ((stages cfg).of_batch m).0)
          (λ m. m.resource)
          delta_batch_path
          p.delta_batch
          f
          r
          in_use
        × Promise slots d.parse_media_type d.probe_manifest manifest validate_manifest
            (chain cfg (base_sink p)).accept_manifest
            (λ m. ((stages cfg).of_manifest m).0)
            (λ m. m.resource)
            manifest_path
            p.probe_manifest
            f
            r
            in_use
        × Promise slots d.parse_media_type d.baseline static_baseline validate_static_baseline
            (chain cfg (base_sink p)).accept_static_baseline
            (λ m. ((stages cfg).of_baseline m).0)
            (λ m. m.resource)
            static_baseline_path
            p.baseline
            f
            r
            in_use
  answers_keep d slots r in_use = (
    kept-Promise slots d.parse_media_type d.delta_batch deltas validate_delta_batch
        (chain cfg (base_sink p)).accept_delta_batch (λ m. ((stages cfg).of_batch m).0)
        (λ m. m.resource) delta_batch_path p.delta_batch f batch-IsKept r in_use,
    kept-Promise slots d.parse_media_type d.probe_manifest manifest validate_manifest
        (chain cfg (base_sink p)).accept_manifest (λ m. ((stages cfg).of_manifest m).0)
        (λ m. m.resource) manifest_path p.probe_manifest f manifest-IsKept r in_use,
    kept-Promise slots d.parse_media_type d.baseline static_baseline validate_static_baseline
        (chain cfg (base_sink p)).accept_static_baseline (λ m. ((stages cfg).of_baseline m).0)
        (λ m. m.resource) static_baseline_path p.baseline f baseline-IsKept r in_use,
  )
