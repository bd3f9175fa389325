-- ===== src/Forward/Client.antt =====
-- internal/forward/forward.go: the settings of the HTTP client, on those of `http.DefaultTransport`.
-- What the client does with them is a parameter of Forward.Attempt and Forward.Deliver.
use yukon_collector.Base.{◌≡◌, refl, Bool, true, lt_int, le_int, if◌then◌else◌, ℤ, arith}

pub record Transport : Type 0 where
  pub max_idle_conns : ℤ
  pub max_idle_conns_per_host : ℤ

-- `last_response` says that a redirect is not followed, and is given back as the response.
pub record HttpClient : Type 0 where
  pub transport : Transport
  pub last_response : Bool

unfoldable pub new_http_client : Transport → (shards : ℤ) → HttpClient
new_http_client default_transport shards = record {
  transport = record {
    max_idle_conns =
        if lt_int default_transport.max_idle_conns shards
        then shards
        else default_transport.max_idle_conns;
    max_idle_conns_per_host = shards;
  };
  last_response = true;
}

-- Each worker can keep its connection to the backend, and no redirect is followed.
pub new_http_client_lem :
    (t : Transport) (shards : ℤ)
    → (le_int shards (new_http_client t shards).transport.max_idle_conns ≡ true)
      × ((new_http_client t shards).transport.max_idle_conns_per_host ≡ shards)
      × ((new_http_client t shards).last_response ≡ true)
unfolding new_http_client
new_http_client_lem t shards = (ground arith, refl, refl)
