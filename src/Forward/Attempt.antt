-- ===== src/Forward/Attempt.antt =====
-- internal/forward/forward.go: one HTTP attempt. What the network answers is given as a `Reply`.
use yukon_collector.Base.{
  is_empty, ℕ, Bool, true, false, ◌&&◌, ◌||◌, not, Option, [], ◌++◌, Bytes, codes, leb, ltb, ◌==◌,
  if◌then◌else◌, ℤ, pos,
}
use yukon_collector.Forward.Config.{Config, auth_token}
use yukon_collector.Forward.Shard.{QueuedItem}
use yukon_collector.Forward.Backoff.{parse_retry_after}

-- The POST that an attempt sends; an empty text stands for a header that is not set.
pub record Request : Type 0 where
  pub url : Bytes
  pub content_type : Bytes
  pub authorization : Bytes
  pub body : Bytes

pub request : Config → QueuedItem → Request
request cfg item = record {
  url = cfg.url ++ item.path;
  content_type = codes "application/x-protobuf";
  authorization = if is_empty (auth_token cfg) then [] else codes "Bearer " ++ auth_token cfg;
  body = item.body;
}

-- The request cannot be built, no response comes, or one comes with a status and a Retry-After.
pub data Reply : Type 0 where
  no_request no_response : Reply
  response : (status : ℕ) (retry_after : Bytes) → Reply

pub record Attempt : Type 0 where
  pub retryable : Bool
  pub retry_after : ℤ
  pub failed : Bool

unfoldable pub is_retryable_status : ℕ → Bool
is_retryable_status code = code == 429 || code == 502 || code == 503 || code == 504

unfoldable pub is_success_status : ℕ → Bool
is_success_status code = leb 200 code && ltb code 300

unfoldable pub attempt : (Bytes → Option ℕ) → ℕ → Reply → Attempt
unfolding is_success_status is_retryable_status
attempt parse_time now no_request = record { retryable = false; retry_after = pos 0; failed = true }
attempt parse_time now no_response = record { retryable = true; retry_after = pos 0; failed = true }
attempt parse_time now (response status header) =
    if is_success_status status
    then record { retryable = false; retry_after = pos 0; failed = false }
    else if not (is_retryable_status status)
    then record { retryable = false; retry_after = pos 0; failed = true }
    else record {
      retryable = true;
      retry_after = parse_retry_after parse_time header now;
      failed = true;
    }
