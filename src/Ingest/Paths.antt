-- ===== src/Ingest/Paths.antt =====
-- ingest/handler.go: the three ingest routes and the payload that each names.
use yukon_collector.Base.{Bytes, codes, bytes_eq, if◌then◌else◌}
use yukon_collector.Metrics.Counters.{PayloadKind, deltas, manifest, static_baseline}

abbrev pub delta_batch_path : Bytes
delta_batch_path = codes "/v1/otherlode/deltas"

abbrev pub manifest_path : Bytes
manifest_path = codes "/v1/otherlode/manifest"

abbrev pub static_baseline_path : Bytes
static_baseline_path = codes "/v1/otherlode/static-baseline"

unfoldable pub payload_label : Bytes → PayloadKind
payload_label path =
    if bytes_eq path manifest_path
    then manifest
    else if bytes_eq path static_baseline_path
    then static_baseline
    else deltas
