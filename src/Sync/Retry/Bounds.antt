-- ===== src/Sync/Retry/Bounds.antt =====
-- The delay stays within the jitter of its nominal value, and the nominal value under the cap.
use cemp_mobile.Prelude.{ℕ, suc, ◌+◌, ◌*◌, ◌^◌, ◌≤◌, ◌<◌, ◌≡◌, refl, min, arith}
use cemp_mobile.Sync.Retry.{default_policy, nominal, delay}
use native.Mathlib.Nat.{mul-le-mul_left, pow-succ'}

-- With the default policy every delay is the nominal delay with a quarter up or down, to the nearest
-- millisecond, and never more than 37.5 minutes.
pub delay_bounded :
    (random attempt : ℕ)
    → random < 2 ^ 32
    → (3 * nominal default_policy attempt ≤ 4 * delay default_policy random attempt + 2)
      × (4 * delay default_policy random attempt ≤ 5 * nominal default_policy attempt + 2)
      × (nominal default_policy attempt ≤ default_policy.cap_ms)
      × (delay default_policy random attempt ≤ 2250000)
delay_bounded random attempt h = (rounded.0, rounded.1, capped, omega (arith, rounded, capped))
  where
    capped : nominal default_policy attempt ≤ 1800000
    capped = unfold nominal in omega arith

    scaled : nominal default_policy attempt * random ≤ nominal default_policy attempt * 2 ^ 32
    scaled = mul-le-mul_left (nominal default_policy attempt) (omega arith)

    rounded :
        (3 * nominal default_policy attempt ≤ 4 * delay default_policy random attempt + 2)
        × (4 * delay default_policy random attempt ≤ 5 * nominal default_policy attempt + 2)
    rounded = unfold delay in (omega (arith, scaled), omega (arith, scaled))

doubled :
    (attempt : ℕ)
    → min 1800000 (30000 * 2 ^ suc attempt) ≡ min 1800000 (2 * min 1800000 (30000 * 2 ^ attempt))
doubled attempt = omega (arith, pow-succ' 2 attempt)

-- The nominal delay of the default policy starts at 30 seconds and doubles with each attempt until it
-- reaches half an hour.
pub nominal_doubles :
    (attempt : ℕ)
    → (nominal default_policy 0 ≡ 30000)
      × (nominal default_policy (suc attempt) ≡ min 1800000 (2 * nominal default_policy attempt))
unfolding nominal
nominal_doubles attempt = (refl, doubled attempt)
