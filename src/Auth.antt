-- ===== src/Auth.antt =====
-- internal/auth/bearer.go: the shared-secret check in front of the ingest routes. SHA-256 is a
-- parameter; a set holds the hashes of its tokens, and `none` is the zero value. A Store replaces
-- the pointer to the hashes at once, so a request sees the set before it or after it.
pub mod Accepts
pub mod Watched
pub mod Tests
use Prim.Native.Nat.{bit_or}
use yukon_collector.Base.{
  ℕ, ◌≡◌, refl, Bool, true, false, not, ◌||◌, Option, none, some, List, [], ◌∷◌, map, Bytes, codes,
  bytes_eq, length, take, drop, ltb, ◌==◌, if◌then◌else◌,
}
use yukon_collector.Text.Fold.{equal_fold}
use yukon_collector.Metrics.Counters.{Count, auth_rejected}

abbrev pub bearer_prefix : Bytes
bearer_prefix = codes "Bearer "

-- The credential, or `none` for a header that is not a Bearer header. An absent header is empty.
unfoldable pub bearer_token : Bytes → Option Bytes
bearer_token header =
    if ltb (length header) 7 || not (equal_fold (take 7 header) bearer_prefix)
    then none
    else some (drop 7 header)

-- `subtle.ConstantTimeCompare` of two texts of one length.
abbrev pub constant_time_compare : Bytes → Bytes → ℕ
constant_time_compare got want = if bytes_eq got want then 1 else 0

-- The loop over the hashes, which never stops early; the first argument is `match`.
unfoldable pub match_all : ℕ → Bytes → List Bytes → ℕ
match_all m got [] = m
match_all m got (want ∷ hashes) = match_all (bit_or m (constant_time_compare got want)) got hashes

pub record TokenSet : Type 0 where
  pub hashes : Option (List Bytes)

abbrev pub empty_set : TokenSet
empty_set = record { hashes = none }

-- The end of a request: turned away here, or served by the next handler.
pub data Guarded (R : Type 0) : Type 0 where
  unauthorized : (status : ℕ) (www_authenticate : Bytes) → List Count → Guarded R
  served : R → Guarded R

module _ (sha256 : Bytes → Bytes) where
  unfoldable pub store : List Bytes → TokenSet
  store tokens = record { hashes = some (map sha256 tokens) }

  -- `TokenSet.Store` as the function that a token file applies.
  abbrev pub replace : List Bytes → TokenSet → TokenSet
  replace tokens s = store tokens

  unfoldable pub new_token_set : List Bytes → TokenSet
  new_token_set tokens = store tokens

  abbrev matches_loaded : Bytes → Option (List Bytes) → Bool
  matches_loaded presented none = false
  matches_loaded presented (some hashes) = match_all 0 (sha256 presented) hashes == 1

  unfoldable pub matches : TokenSet → Bytes → Bool
  matches s presented = matches_loaded presented s.hashes

  abbrev pub presents : TokenSet → Option Bytes → Bool
  presents s none = false
  presents s (some presented) = matches s presented

  unfoldable pub require_bearer_token :
      {Q R : Type 0} → TokenSet → (Q → R) → (authorization : Bytes) → Q → Guarded R
  require_bearer_token tokens next authorization r =
      if not (presents tokens (bearer_token authorization))
      then unauthorized 401 (codes "Bearer realm=\"otherlode-collector\"") (auth_rejected ∷ [])
      else served (next r)
