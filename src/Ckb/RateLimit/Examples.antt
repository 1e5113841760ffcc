-- ===== src/Ckb/RateLimit/Examples.antt =====
-- A limiter of one message an hour over a bucket with one token left.
use cemp_mobile.Prelude.{
  ℕ, ◌+◌, ◌-◌, ◌*◌, ◌≤◌, refl, List, [], ◌∷◌, none, some, true, false, ◌≡◌, arith, String,
  str_apart, Option,
}
use cemp_mobile.Database.Table.{select_one, update_where}
use cemp_mobile.Ckb.RateLimit.{
  RateLimitBucket, RateLimiterConfig, incoming, get, bucket_key, hour_ms, returned, run, advance,
  overlap, consume, refill, refilled, charge_global, set_bucket,
}
use cemp_mobile.Ckb.RateLimit.Budget.{accepted, accepted_bounded}

abbrev hourly : RateLimiterConfig
hourly = record { per_contact_per_hour = 5; global_per_hour = 1 }

abbrev full_bucket : RateLimitBucket
full_bucket = record { bucket = "incoming:global"; tokens = 3600000; updated_at_ms = 0 }

abbrev two_messages : List (Option String × ℕ)
two_messages = (some "bob", 10) ∷ (none, 20) ∷ []

accepted_bounded_example :
    accepted hourly incoming (full_bucket ∷ []) two_messages * hour_ms
    ≤ full_bucket.tokens + (100 - full_bucket.updated_at_ms) * hourly.global_per_hour
unfolding get select_one bucket_key
accepted_bounded_example =
    accepted_bounded hourly incoming 100 two_messages (full_bucket ∷ []) full_bucket refl
      (omega arith, str_apart "incoming:global" "incoming:bob" refl, (omega arith, tt, omega arith))

-- Two calls that overlap spend one token twice: each reads the bucket before the other writes it.
overlap_passes_both :
    overlap
      (true ∷ false ∷ true ∷ false ∷ [])
      (consume hourly incoming none 0)
      (consume hourly incoming none 0)
      (full_bucket ∷ [])
    ≡ (returned true, returned true, record full_bucket { tokens = 0 } ∷ [])
unfolding overlap advance consume refill refilled charge_global get set_bucket select_one
    update_where bucket_key
overlap_passes_both = refl

-- One after the other, the second call is refused.
second_refused :
    (run
      (consume hourly incoming none 0)
      (run (consume hourly incoming none 0) (full_bucket ∷ [])).1).0
    ≡ false
unfolding run consume refill refilled charge_global get set_bucket select_one update_where
    bucket_key
second_refused = refl
