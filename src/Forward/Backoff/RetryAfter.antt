-- ===== src/Forward/Backoff/RetryAfter.antt =====
-- How a Retry-After header in seconds is read.
use yukon_collector.Base.{
  suc, ℕ, ◌*◌, ◌^◌, ◌<◌, ◌≡◌, refl, Option, Bytes, arith, pos, sym, [], ◌∷◌, ap, ◌∙◌, some, int64,
}
use yukon_collector.Text.Decimal.{itoa, atoi}
use yukon_collector.Text.Decimal.RoundTrip.{atoi-itoa, digits-head}
use yukon_collector.Forward.Config.{second}
use yukon_collector.Forward.Backoff.{parse_retry_after}

-- A whole number of seconds below 2 ^ 63, as a server writes it, is read as that duration wrapped
-- to int64.
pub parse_retry_after-itoa :
    (parse_time : Bytes → Option ℕ) (n now : ℕ)
    → n < 2 ^ 63
    → parse_retry_after parse_time (itoa n) now ≡ int64 (n * second)
unfolding parse_retry_after itoa
parse_retry_after-itoa parse_time n now h =
    let (c, s, e, d) = digits-head (suc n) n [] (omega arith) in
    let a : atoi (c ∷ s) ≡ some (pos n) = ap atoi (sym e) ∙ atoi-itoa n h in rw e (rw a refl)
