-- ===== src/Forward/Sink.antt =====
-- internal/forward/forward.go: the sink as the ingest handler sees it. Each Accept call takes the
-- read lock for its whole body, so here it is one step; Forward.Worker has the interleavings.
-- `none` is a panic.
pub mod Enqueue
pub mod Kept
use yukon_collector.Base.{
  ℕ, zero, suc, ◌≡◌, Bool, true, false, Option, none, some, List, [], ◌∷◌, ◌++◌, Bytes, length,
  get_elem?, set, if◌then◌else◌, ℤ, pos, negsuc,
}
use yukon_collector.Metrics.Counters.{
  Count, forward_refused, forward_dropped, marshal, RefuseReason,
}
use yukon_collector.Metrics.Counters
use yukon_collector.Ingest.Paths.{
  payload_label, delta_batch_path, manifest_path, static_baseline_path,
}
use yukon_collector.Payload.{Resource}
use yukon_collector.Forward.Config.{
  Config, with_defaults, Url, UrlError, Checked, usable, unusable, validate_url,
}
use yukon_collector.Forward.Instance.{Instance, instance_of, shard_key, shard_index}
use yukon_collector.Forward.Shard.{QueuedItem, Shard, enqueue_shard}

pub record ForwardingSink : Type 0 where
  pub cfg : Config
  pub shards : List Shard
  pub closed : Bool
  pub counts : List Count

-- An error that wraps one of these, with the instance that it names.
pub data SinkError : Type 0 where
  err_queue_full err_shutting_down : Instance → SinkError

-- A size that is positive after the defaults.
abbrev pub size : ℤ → ℕ
size (pos n) = n
size (negsuc n) = 0

unfoldable pub empty_shards : ℕ → List Shard
empty_shards zero = []
empty_shards (suc n) = record { queue = []; bytes = 0 } ∷ empty_shards n

pub data NewSink : Type 0 where
  started : ForwardingSink → NewSink
  refused_url : UrlError → NewSink

start : Config → Checked → NewSink
unfolding empty_shards
start cfg (unusable e) = refused_url e
start cfg (usable base scheme) = started (record {
  cfg = record cfg { url = base };
  shards = empty_shards (size cfg.shards);
  closed = false;
  counts = [];
})

pub new_forwarding_sink : (Bytes → Option Url) → Config → NewSink
unfolding start
new_forwarding_sink parse cfg =
    let cfg' = with_defaults cfg in start cfg' (validate_url parse cfg'.url)

unfoldable pub refused : ForwardingSink → QueuedItem → RefuseReason → ForwardingSink
refused s item reason = record s {
  counts = s.counts ++ forward_refused (payload_label item.path) reason ∷ [];
}

-- The sink after its shard `i` has answered.
abbrev shard_answer :
    ForwardingSink → QueuedItem → ℕ → Shard × Bool → ForwardingSink × Option SinkError
shard_answer s item i (sh, true) = (record s { shards = set s.shards i sh }, none)
shard_answer s item i (sh, false) = (
  refused (record s { shards = set s.shards i sh }) item RefuseReason.queue_full,
  some (err_queue_full item.owner),
)

abbrev at_shard :
    ForwardingSink → QueuedItem → ℕ → Option Shard → Option (ForwardingSink × Option SinkError)
at_shard s item i none = none
at_shard s item i (some sh) =
    some (
      shard_answer s item i
        (enqueue_shard (size s.cfg.queue_size) (size s.cfg.queue_bytes) item sh))

abbrev at_index :
    ForwardingSink → QueuedItem → Option ℕ → Option (ForwardingSink × Option SinkError)
at_index s item none = none
at_index s item (some i) = at_shard s item i (get_elem? s.shards i)

pub enqueue : ForwardingSink → QueuedItem → Option (ForwardingSink × Option SinkError)
enqueue s item =
    if s.closed
    then some (refused s item RefuseReason.shutting_down, some (err_shutting_down item.owner))
    else at_index s item (shard_index (shard_key item.owner) (length s.shards))

-- The result of `proto.Marshal` is a parameter: `none` where it fails.
abbrev with_body :
    ForwardingSink → Instance → Bytes → Option Bytes → Option (ForwardingSink × Option SinkError)
with_body s owner path none =
    some (record s { counts = s.counts ++ forward_dropped (payload_label path) marshal ∷ [] }, none)
with_body s owner path (some body) = enqueue s (record { owner = owner; path = path; body = body })

module _ {Msg : Type 0} (proto_marshal : Msg → Option Bytes) where
  pub marshal_and_enqueue :
      ForwardingSink → Msg → Instance → Bytes → Option (ForwardingSink × Option SinkError)
  marshal_and_enqueue s msg owner path = with_body s owner path (proto_marshal msg)

  module _ (get_resource : Msg → Option Resource) where
    pub accept_delta_batch : ForwardingSink → Msg → Option (ForwardingSink × Option SinkError)
    accept_delta_batch s batch =
        marshal_and_enqueue s batch (instance_of (get_resource batch)) delta_batch_path

    pub accept_manifest : ForwardingSink → Msg → Option (ForwardingSink × Option SinkError)
    accept_manifest s manifest =
        marshal_and_enqueue s manifest (instance_of (get_resource manifest)) manifest_path

    pub accept_static_baseline : ForwardingSink → Msg → Option (ForwardingSink × Option SinkError)
    accept_static_baseline s baseline =
        marshal_and_enqueue s baseline (instance_of (get_resource baseline)) static_baseline_path
