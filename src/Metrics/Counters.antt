-- ===== src/Metrics/Counters.antt =====
-- metrics/counters.go: the counters and their label values. A run of the program is modelled by the
-- list of the increments that it makes, oldest first.
use yukon_collector.Base.{ℕ}

-- The values of the label "payload".
pub data PayloadKind : Type 0 where
  deltas manifest static_baseline : PayloadKind

pub data RejectReason : Type 0 where
  content_type too_large read malformed invalid sink canceled busy : RejectReason

pub data DropReason : Type 0 where
  marshal permanent retry_exhausted shutdown_deadline shutdown_attempt_failed : DropReason

pub data RefuseReason : Type 0 where
  queue_full shutting_down : RefuseReason

-- The values of the label "file".
pub data TokenFileLabel : Type 0 where
  auth forward : TokenFileLabel

-- One call of `Inc` or `Add`.
pub data Count : Type 0 where
  ingest_accepted : PayloadKind → Count
  ingest_rejected : PayloadKind → RejectReason → Count
  auth_rejected : Count
  token_reload_failures : ℕ → TokenFileLabel → Count
  rate_limited : Count
  forward_delivered : PayloadKind → Count
  forward_retries : PayloadKind → Count
  forward_dropped : PayloadKind → DropReason → Count
  forward_refused : PayloadKind → RefuseReason → Count
  environment_mismatch : PayloadKind → Count
  namespace_mismatch : PayloadKind → Count
  redacted_literals : ℕ → PayloadKind → Count
