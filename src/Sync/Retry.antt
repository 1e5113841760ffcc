-- ===== src/Sync/Retry.antt =====
-- packages/cemp-sync/src/retry.ts: the time before the next attempt of a failed worker.
pub mod Bounds
pub mod Examples
use cemp_mobile.Prelude.{ℕ, ◌+◌, ◌-◌, ◌*◌, ◌/◌, ◌^◌, min}

-- The jitter is the fraction `jitter_num / jitter_den`.
pub record BackoffPolicy : Type 0 where
  pub base_ms : ℕ
  pub multiplier : ℕ
  pub cap_ms : ℕ
  pub jitter_num : ℕ
  pub jitter_den : ℕ

-- The defaults of the constructor: 30 s, doubled, up to 30 minutes, a quarter up or down.
abbrev pub default_policy : BackoffPolicy
default_policy = record {
  base_ms = 30000;
  multiplier = 2;
  cap_ms = 1800000;
  jitter_num = 1;
  jitter_den = 4;
}

unfoldable pub nominal : BackoffPolicy → ℕ → ℕ
nominal policy attempt = min policy.cap_ms (policy.base_ms * policy.multiplier ^ attempt)

-- `Math.round(numerator / denominator)` for a positive denominator.
unfoldable pub round_ratio : ℕ → ℕ → ℕ
round_ratio numerator denominator = (2 * numerator + denominator) / (2 * denominator)

-- `random` is the number of the four random bytes, so that `#random()` is `random / 2^32`. The sum is
-- over one denominator; with the defaults no product of the source needs more than 53 bits.
unfoldable pub delay : BackoffPolicy → ℕ → ℕ → ℕ
unfolding nominal round_ratio
delay policy random attempt =
    let whole = policy.jitter_den * 2 ^ 32 in
    let spread = nominal policy attempt * policy.jitter_num in
    round_ratio ((nominal policy attempt * whole - spread * 2 ^ 32) + 2 * spread * random) whole
