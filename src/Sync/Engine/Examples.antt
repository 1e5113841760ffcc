-- ===== src/Sync/Engine/Examples.antt =====
-- An engine of one worker that always throws; the attempts are written as a tally.
use cemp_mobile.Prelude.{
  ℕ, zero, suc, ◌+◌, ◌≡◌, refl, ap, false, [], ◌∷◌, none, some, ok, String, str_apart, arith,
}
use cemp_mobile.Database.Leases.{WorkerLease, get}
use cemp_mobile.Database.Table.{select_one}
use cemp_mobile.Sync.Retry.{default_policy, delay}
use cemp_mobile.Sync.Engine.{
  World, WorkerSpec, SyncEngine, retry, skipped_lease, retry_attempt, run_worker, to_map,
}
use cemp_mobile.Sync.Engine.Runs.{IsFailing, run_times, rival_skips, failures_counted}
use Prim.Native.String.{count, ◌++◌ as str_append}
use text.Mathlib.TextLemmas.{length-append}

abbrev tally : ℕ → String
tally zero = ""
tally (suc n) = str_append "1" (tally n)

tally-count : (n : ℕ) → count (tally n) ≡ n
tally-count zero = refl
tally-count (suc n) = omega (arith, length-append "1" (tally n), tally-count n)

abbrev failing_worker : WorkerSpec
failing_worker = record { id = "publish"; run = λ w. (false, w) }

abbrev one_worker : SyncEngine
one_worker = record {
  workers = failing_worker ∷ [];
  engine_id = "boot1";
  backoff = default_policy;
  random = 0;
  to_number = λ raw. some (count raw);
  to_text = tally;
}

abbrev empty_world : World
empty_world = record { leases = []; retry_cursor = λ id. none; one_shot = λ id. none }

one_worker-inverse : (n : ℕ) → one_worker.to_number (one_worker.to_text n) ≡ some n
one_worker-inverse n = ap (λ m. some m) (tally-count n)

failing_worker-IsFailing : IsFailing failing_worker
failing_worker-IsFailing w = (refl, refl, refl)

failures_counted_example :
    (retry_attempt one_worker "publish" (run_times one_worker "publish" (1 ∷ 2 ∷ []) empty_world)
      ≡ 2 + retry_attempt one_worker "publish" empty_world)
    × ((world' : World) × (run_worker one_worker "publish" 3
            (run_times one_worker "publish" (1 ∷ 2 ∷ []) empty_world)
          ≡ ok (retry, world'))
        × (world'.one_shot "publish"
            ≡ some (delay default_policy 0 (2 + retry_attempt one_worker "publish" empty_world))))
unfolding select_one get to_map
failures_counted_example =
    failures_counted one_worker failing_worker (1 ∷ 2 ∷ []) 3 empty_world refl
      failing_worker-IsFailing one_worker-inverse refl

abbrev rival_lease : WorkerLease
rival_lease = record {
  resource = "worker:publish";
  owner = "boot0";
  acquired_at_ms = 0;
  expires_at_ms = 600000;
}

abbrev rival_world : World
rival_world = record empty_world { leases = rival_lease ∷ [] }

rival_skips_example :
    run_worker one_worker "publish" 5 rival_world ≡ ok (skipped_lease, rival_world)
unfolding select_one get to_map
rival_skips_example =
    rival_skips one_worker "publish" 5 rival_world failing_worker rival_lease refl refl
      (str_apart "boot0" "boot1" refl) (omega arith)
