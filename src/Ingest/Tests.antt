-- ===== src/Ingest/Tests.antt =====
-- The ingest handler at concrete requests.
use yukon_collector.Base.{
  ℕ, ◌+◌, ◌≡◌, ◌⊎◌, refl, Option, none, some, [], ◌∷◌, codes, bytes_eq, is_empty, false, Bytes, ◌≤◌,
  arith,
}
use yukon_collector.Metrics.Counters.{deltas, ingest_accepted}
use yukon_collector.Text.Space.{trim_space}
use yukon_collector.Text.Parts.{split, join}
use yukon_collector.Text.Fold.{equal_fold}
use yukon_collector.Payload.{Resource, DeltaBatch}
use yukon_collector.Payload.Reflect.{message, end}
use yukon_collector.Ingest.Sink.{Taken}
use yukon_collector.Ingest.Validate.{validate_resource, validate_delta_batch, is_dot_segment}
use yukon_collector.Ingest.Handler.{
  Request, Served, plain, freed, handle, read_request, read_body, check_content_type, identity_only,
  acquire, release, complete,
}
use yukon_collector.Ingest.Slots.{
  waiting, holding, Pool, no_requests, arrive, read_whole, take_slot, Reach, here, later,
}
use yukon_collector.Ingest.Slots.Waiting.{holders, Holds, slot_comes}
use yukon_collector.Ingest.Handler.Answers.{TurnedAway, Asked, handle_lem}

abbrev resource : Resource
resource = record {
  service_namespace = [];
  service_name = codes "shop";
  service_instance_id = codes "a";
  run_id = codes "r";
  environment = [];
  test_run = false;
}

abbrev batch : DeltaBatch
batch = record {
  resource = some resource;
  deltas = 2;
  endpoint_deltas = 0;
  dependency_deltas = 1;
  rest = message [] end;
}

abbrev request : Request
request = record {
  content_encoding = codes "identity" ∷ [];
  content_type = codes "application/x-protobuf";
  arriving = 7 ∷ [];
  broken = false;
  wait = freed;
}

-- Counts what it takes.
abbrev take_one : DeltaBatch → ℕ → Option (Taken ℕ ℕ)
take_one m s = some (record { state = s + 1; counts = []; error = none })

accepted_request :
    handle
      (some 2)
      (λ v. some v)
      (λ body. some batch)
      deltas
      validate_delta_batch
      take_one
      request
      4
      0
    ≡ some (record {
      state = 5;
      in_use = 0;
      counts = ingest_accepted deltas ∷ [];
      response = some (plain 202);
    })
unfolding handle read_request check_content_type identity_only split join equal_fold trim_space
    is_empty bytes_eq read_body acquire release validate_delta_batch validate_resource
    is_dot_segment
accepted_request = refl

handle_lem_example :
    (v : Served ℕ) × (handle
        (some 2)
        (λ t. some t)
        (λ body. some batch)
        deltas
        validate_delta_batch
        take_one
        request
        4
        0
      ≡ some v)
    × (TurnedAway
          (some 2)
          (λ t. some t)
          (λ body. some batch)
          deltas
          validate_delta_batch
          take_one
          4
          0
          v
        ⊎ Asked
            (some 2)
            (λ t. some t)
            (λ body. some batch)
            deltas
            validate_delta_batch
            take_one
            request
            4
            0
            v)
handle_lem_example =
    handle_lem (some 2) (λ t. some t) (λ body. some batch) deltas validate_delta_batch take_one 4
      (λ m. (record { state = 5; counts = []; error = none }, refl)) request 0

reads_request : read_request (λ v. some v) request ≡ complete (7 ∷ [])
unfolding read_request check_content_type identity_only split join equal_fold trim_space is_empty
    bytes_eq read_body
reads_request = refl

-- With one slot, a request holds it and another waits.
abbrev crowded : Pool
crowded = record { in_use = 1; live = waiting (7 ∷ []) ∷ holding (7 ∷ []) ∷ []; ended = 0 }

abbrev media : Bytes → Option Bytes
media v = some v

reaches_crowded : Reach media 1 no_requests crowded
unfolding acquire
reaches_crowded =
    let first : Reach media 1 no_requests
        (record { in_use = 0; live = waiting (7 ∷ []) ∷ []; ended = 0 }) =
      later (later here (arrive request refl))
        (read_whole [] [] request (7 ∷ []) refl reads_request refl) in
    let second : Reach media 1 no_requests
        (record { in_use = 1; live = holding (7 ∷ []) ∷ []; ended = 0 }) =
      later first (take_slot [] [] (7 ∷ []) 1 refl refl refl refl) in
    later (later second (arrive request refl))
      (read_whole [] (holding (7 ∷ []) ∷ []) request (7 ∷ []) refl reads_request refl)

slot_comes_example :
    (crowded.in_use ≡ holders crowded.live)
    × (crowded.in_use ≤ 1)
    × ((t : Pool) × Holds media 1 crowded (7 ∷ []) t)
slot_comes_example =
    slot_comes media 1 crowded [] (holding (7 ∷ []) ∷ []) (7 ∷ []) (omega arith) reaches_crowded
      refl
