-- ===== src/Forward/Tests.antt =====
-- Concrete runs of the backend relay, and its theorems at concrete inputs.
pub mod Runs
pub mod TwoShards
use yukon_collector.Base.{
  ℕ, zero, suc, ◌+◌, ◌-◌, ◌*◌, ◌/◌, ◌^◌, ◌≤◌, ◌<◌, ◌≡◌, ◌≢◌, refl, Bool, true, false, Option, none,
  some, List, [], ◌∷◌, Bytes, codes, bytes_eq, is_empty, length, get_elem?, arith, if◌then◌else◌,
  leb, ℤ, pos, negsuc, int64,
}
use yukon_collector.Metrics.Counters.{Count, deltas}
use yukon_collector.Text.Decimal.{itoa}
use yukon_collector.Ingest.Paths.{delta_batch_path, payload_label}
use yukon_collector.Forward.Config.{
  Config, Url, usable, validate_url, contains, trim_slashes, with_defaults, second,
}
use yukon_collector.Forward.Config.Checks.{
  IsUsable, IsComplete, IsPositive, with_defaults-IsComplete, with_defaults_kept,
  validate_url_sound,
}
use yukon_collector.Forward.Instance.{Instance, shard_key, shard_index}
use yukon_collector.Forward.Instance.Keys.{read_key, read_key-shard_key}
use yukon_collector.Forward.Shard.{QueuedItem, Shard}
use yukon_collector.Forward.Sink.{ForwardingSink, size, empty_shards, enqueue}
use yukon_collector.Forward.Sink.Enqueue.{enqueue_answer, enqueue_lem}
use yukon_collector.Forward.Backoff.{Backoff, jittered, next, parse_retry_after}
use yukon_collector.Forward.Backoff.Jitter.{jittered_bounds}
use yukon_collector.Forward.Backoff.Budget.{promised, next_lem, next_overflow}
use yukon_collector.Forward.Backoff.RetryAfter.{parse_retry_after-itoa}
use yukon_collector.Forward.Attempt.{response, no_response}
use yukon_collector.Forward.Deliver.{World, deliver}
use yukon_collector.Forward.Deliver.Outcome.{Ends}
use yukon_collector.Forward.Deliver.Total.{IsRetrying, deliver_lem}

abbrev pub settings : Config
settings = record {
  url = codes "https://backend";
  auth_token = some (codes "key");
  shards = pos 8;
  queue_size = pos 2;
  queue_bytes = pos 6;
  request_timeout = pos (10 * second);
  retry_initial_interval = pos (5 * second);
  retry_max_interval = pos (30 * second);
  retry_max_elapsed_time = pos (300 * second);
}

abbrev pub owner : Instance
owner = record { namespace = codes "team"; service = codes "shop"; id = codes "a:1" }

abbrev pub item : QueuedItem
item = record { owner = owner; path = delta_batch_path; body = 1 ∷ 2 ∷ 3 ∷ [] }

abbrev sink : ForwardingSink
sink = record {
  cfg = settings;
  shards = record { queue = []; bytes = 0 } ∷ record { queue = item ∷ []; bytes = 3 } ∷ [];
  closed = false;
  counts = [];
}

shard_key_test : shard_key owner ≡ codes "4:team4:shop3:a:1"
unfolding shard_key itoa
shard_key_test = refl

read_key-shard_key_example : read_key (shard_key owner) ≡ some owner
read_key-shard_key_example = read_key-shard_key owner

abbrev parsed : Url
parsed = record {
  scheme = codes "https";
  host = codes "h";
  has_user = false;
  raw_query = [];
  force_query = false;
  fragment = [];
}

accepted_url :
    validate_url (λ raw. some parsed) (codes "https://h//")
    ≡ usable (codes "https://h") (codes "https")
unfolding validate_url bytes_eq is_empty contains trim_slashes
accepted_url = refl

validate_url_sound_example :
    (u : Url) × (◌≡◌ {A = Option Url} (some parsed) (some u))
    × IsUsable (codes "https://h//") (codes "https://h") (codes "https") u
validate_url_sound_example =
    validate_url_sound (λ raw. some parsed) (codes "https://h//") (codes "https://h")
      (codes "https") accepted_url

abbrev backoff : Backoff
backoff = record { interval = 5 * second; max = 30 * second; max_elapsed = 300 * second; start = 7 }

next_lem_example :
    next backoff (pos (20 * second)) (second + 7) 3
    ≡ promised backoff (pos (20 * second)) (second + 7) 3
next_lem_example =
    next_lem backoff (pos (20 * second)) (second + 7) 3 (omega arith) (omega arith) (omega arith)
      refl

-- A Retry-After date in the year 9999 gives the longest duration, 292 years.
next_overflow_example :
    (b' : Backoff) × (next backoff (pos (2 ^ 63 - 1)) (second + 7) 3 ≡ some (pos (2 ^ 63 - 1), b'))
    × (300 * second < (second + 7 - 7) + (2 ^ 63 - 1))
next_overflow_example =
    next_overflow backoff (2 ^ 63 - 1) (second + 7) 3 (omega arith) (omega arith) (omega arith)
      (omega arith) (omega arith) (omega arith)

parse_retry_after-itoa_example : parse_retry_after (λ v. none) (itoa 120) 0 ≡ int64 (120 * second)
parse_retry_after-itoa_example = parse_retry_after-itoa (λ v. none) 120 0 (omega arith)

-- A backend that answers 503 once, and then 202.
abbrev pub recovering : World
recovering = record {
  parse_time = λ v. none;
  round = λ k. record {
    reply = if leb k 0 then response 503 [] else response 202 [];
    took = 1;
    stopping = false;
    rand = 0;
    late = 1;
    stopped_in_wait = false;
  };
  final = record { cancelled = false; now = 0; reply = no_response };
}

pub settings-IsRetrying : IsRetrying settings
settings-IsRetrying = omega arith

deliver_lem_example :
    (cs : List Count) × (deliver (300 * second + 1) recovering settings item 9 ≡ some cs)
    × Ends (payload_label item.path) cs
deliver_lem_example =
    deliver_lem (300 * second + 1) recovering settings item 9 settings-IsRetrying (λ i. omega arith)
      (omega arith)
