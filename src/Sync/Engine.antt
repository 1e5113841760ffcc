-- ===== src/Sync/Engine.antt =====
-- packages/cemp-sync/src/engine.ts: one run of a worker under its lease, and the retry it leaves.
pub mod Runs
pub mod Examples
use cemp_mobile.Prelude.{
  ℕ, ◌+◌, Bool, true, false, List, [], ◌∷◌, Option, none, some, Result, ok, err, String, str_eq,
  if◌then◌else◌, any, ◌>>=◌,
}
use cemp_mobile.Database.Errors.{DatabaseError}
use cemp_mobile.Database.Leases.{WorkerLease, acquire, release}
use cemp_mobile.Database.Table.{select_one, update_where}
use cemp_mobile.Sync.Retry.{BackoffPolicy, delay}
use mathlib.Core.Option.{get_or}
use Prim.Native.String.{◌++◌ as str_append}

-- What the engine shares with the rest of the app: the lease table, the cursors `retry:<id>` by
-- worker, and the scheduler's one-shot runs by worker with their delays.
pub record World : Type 0 where
  pub leases : List WorkerLease
  pub retry_cursor : String → Option String
  pub one_shot : String → Option ℕ

-- `run` gives `true` where it returns and `false` where it throws, and the world after it.
pub record WorkerSpec : Type 0 where
  pub id : String
  pub run : World → Bool × World

-- `engineId`, the policy with its random bytes, the numbers' text (`to_number` is `none` for text that
-- is no whole number from 0), and `deps.workers`.
pub record SyncEngine : Type 0 where
  pub workers : List WorkerSpec
  pub engine_id : String
  pub backoff : BackoffPolicy
  pub random : ℕ
  pub to_number : String → Option ℕ
  pub to_text : ℕ → String

pub data WorkerRunResult : Type 0 where
  success retry skipped_lease unknown_worker : WorkerRunResult

abbrev pub worker_lease_ttl_ms : ℕ
worker_lease_ttl_ms = 600000

abbrev pub of_id : String → WorkerSpec → Bool
of_id id worker = str_eq worker.id id

-- `new Map(...)`: a later worker of the same id takes the earlier one's place.
pub to_map : List WorkerSpec → List WorkerSpec → List WorkerSpec
to_map map [] = map
to_map map (w ∷ ws) = to_map (put w map) ws
  where
    put : WorkerSpec → List WorkerSpec → List WorkerSpec
    put w [] = w ∷ []
    put w (x ∷ xs) = if str_eq x.id w.id then w ∷ xs else x ∷ put w xs

abbrev pub set_key {ℓ} : {A : Type ℓ} → String → Option A → (String → Option A) → String → Option A
set_key key value map k = if str_eq k key then value else map k

abbrev pub lease_resource : String → String
lease_resource worker_id = str_append "worker:" worker_id

module _ (engine : SyncEngine) where
  parsed_attempt : Option String → ℕ
  parsed_attempt none = 0
  parsed_attempt (some raw) = get_or (engine.to_number raw) 0

  pub retry_attempt : String → World → ℕ
  unfolding parsed_attempt
  retry_attempt worker_id world = parsed_attempt (world.retry_cursor worker_id)

  -- The `try` block after the worker returned, and the `catch` block.
  pub after_worker : String → Bool × World → WorkerRunResult × World
  unfolding retry_attempt
  after_worker worker_id (true, world) = (
    success,
    record world {
      retry_cursor = set_key worker_id none world.retry_cursor;
      one_shot = set_key worker_id none world.one_shot;
    },
  )
  after_worker worker_id (false, world) = (
    retry,
    record world {
      retry_cursor =
          set_key worker_id (some (engine.to_text (retry_attempt worker_id world + 1)))
            world.retry_cursor;
      one_shot =
          set_key worker_id
            (some (delay engine.backoff engine.random (retry_attempt worker_id world)))
            world.one_shot;
    },
  )

  -- The `finally` block.
  pub finish : String → WorkerRunResult × World → WorkerRunResult × World
  finish worker_id (result, world) = (
    result,
    record world { leases = release (lease_resource worker_id) engine.engine_id world.leases },
  )

  pub run_leased :
      WorkerSpec → World → Option WorkerLease × List WorkerLease → WorkerRunResult × World
  unfolding after_worker finish
  run_leased worker world (none, leases) = (skipped_lease, record world { leases = leases })
  run_leased worker world (some _, leases) =
      finish worker.id (after_worker worker.id (worker.run (record world { leases = leases })))

  pub run_found :
      String → ℕ → World → Option WorkerSpec → Result DatabaseError (WorkerRunResult × World)
  unfolding run_leased
  run_found worker_id now world none = ok (unknown_worker, world)
  run_found worker_id now world (some worker) =
      acquire (lease_resource worker_id) engine.engine_id worker_lease_ttl_ms now world.leases
      >>= λ r. ok (run_leased worker world r)

  pub run_worker : String → ℕ → World → Result DatabaseError (WorkerRunResult × World)
  unfolding to_map run_found
  run_worker worker_id now world =
      run_found worker_id now world (select_one (of_id worker_id) (to_map [] engine.workers))
