-- ===== src/Sync/Engine/Runs.antt =====
-- What a run of a worker leaves: its lease, and the count of its failures.
use cemp_mobile.Prelude.{
  ℕ, suc, ◌+◌, ◌<◌, ◌≡◌, sym, ap, ◌∙◌, ◌≢◌, Bool, false, List, [], ◌∷◌, ◌++◌, Option, none, some,
  Result, ok, err, String, str_eq, eq_refl, arith, ◌>>=◌, ◌&&◌, length,
}
use cemp_mobile.Database.Errors.{DatabaseError}
use cemp_mobile.Database.Table.{select_one}
use cemp_mobile.Database.Leases.{WorkerLease, acquire, release, get, of_resource}
use cemp_mobile.Database.Leases.Exclusion.{
  acquire_free, acquire_refused, release_own, release_fresh, acquire-Outcome, fresh_lease, Outcome,
}
use cemp_mobile.Sync.Retry.{delay}
use cemp_mobile.Sync.Engine.{
  World, WorkerSpec, SyncEngine, WorkerRunResult, retry, skipped_lease, worker_lease_ttl_ms, of_id,
  to_map, set_key, lease_resource, retry_attempt, parsed_attempt, after_worker, finish, run_leased,
  run_found, run_worker,
}
use mathlib.Core.Option.{get_or}

module _ (engine : SyncEngine) where
  -- The worker that an id names.
  abbrev pub worker_of : String → Option WorkerSpec
  worker_of id = select_one (of_id id) (to_map [] engine.workers)

  run_worker_found :
      (id : String) (now : ℕ) (world : World) {found : Option WorkerSpec}
      → worker_of id ≡ found
      → run_worker engine id now world ≡ run_found engine id now world found
  unfolding run_worker
  run_worker_found id now world e = ap (run_found engine id now world) e

  run_found_acquired :
      (id : String) (now : ℕ) (world : World) (worker : WorkerSpec)
      {r : Option WorkerLease × List WorkerLease}
      → acquire (lease_resource id) engine.engine_id worker_lease_ttl_ms now world.leases ≡ ok r
      → run_found engine id now world (some worker) ≡ ok (run_leased engine worker world r)
  unfolding run_found
  run_found_acquired id now world worker e =
      ap (λ x. x >>= λ r. ok (run_leased engine worker world r)) e

-- A live lease of another engine makes a run return at once: the worker is not run and nothing is
-- written.
pub rival_skips :
    (engine : SyncEngine) (id : String) (now : ℕ) (world : World) (worker : WorkerSpec)
    (rival : WorkerLease)
    → worker_of engine id ≡ some worker
    → get (lease_resource id) world.leases ≡ some rival
    → rival.owner ≢ engine.engine_id
    → now < rival.expires_at_ms
    → run_worker engine id now world ≡ ok (skipped_lease, world)
unfolding run_leased
rival_skips engine id now world worker rival known held other live =
    run_worker_found engine id now world known
    ∙ run_found_acquired engine id now world worker (
        acquire_refused (lease_resource id) engine.engine_id worker_lease_ttl_ms now world.leases
          rival held other live)

-- The lease is free again after a run that it was not refused to, whether the worker returned or
-- threw, and whatever the worker did: no lease on the resource is the engine's.
pub run_releases :
    (engine : SyncEngine) (id : String) (now : ℕ) (world world' : World) (worker : WorkerSpec)
    (result : WorkerRunResult)
    → worker_of engine id ≡ some worker
    → run_worker engine id now world ≡ ok (result, world')
    → result ≢ skipped_lease
    → select_one
        (λ l. of_resource (lease_resource worker.id) l && str_eq l.owner engine.engine_id)
        world'.leases
      ≡ none
run_releases engine id now world world' worker result known ran done =
    from (acquire-Outcome (lease_resource id) engine.engine_id worker_lease_ttl_ms now world.leases)
  where
    ours : WorkerLease → Bool
    ours l = of_resource (lease_resource worker.id) l && str_eq l.owner engine.engine_id

    leased :
        (r : Option WorkerLease × List WorkerLease)
        → run_leased engine worker world r ≡ (result, world')
        → select_one ours world'.leases ≡ none
    leased (none, t) e = absurd (done (unfold run_leased in ap (λ x. x.0) (sym e)))
    leased (some l, t) e =
        ap (λ x. select_one ours x.1.leases) (sym e)
        ∙ (unfold run_leased in
            unfold finish in release_own (lease_resource worker.id) engine.engine_id _)

    from :
        (r : Option WorkerLease × List WorkerLease) × (acquire
              (lease_resource id)
              engine.engine_id
              worker_lease_ttl_ms
              now
              world.leases
            ≡ ok r)
          × Outcome (lease_resource id) engine.engine_id worker_lease_ttl_ms now world.leases r
        → select_one ours world'.leases ≡ none
    from (r, acquired, _) = leased r (
        ground (
          arith,
          ran,
          run_worker_found engine id now world known
              ∙ run_found_acquired engine id now world worker acquired,
        ))

-- A worker that throws, and touches neither its retry cursor nor the leases.
abbrev pub IsFailing : WorkerSpec → Type 0
IsFailing worker =
    (w : World)
    → ((worker.run w).0 ≡ false)
      × ((worker.run w).1.retry_cursor worker.id ≡ w.retry_cursor worker.id)
      × ((worker.run w).1.leases ≡ w.leases)

-- The world after a run that does not itself fail.
abbrev world_after : World → Result DatabaseError (WorkerRunResult × World) → World
world_after world (ok (_, world')) = world'
world_after world (err _) = world

-- Runs of one worker at the given times.
pub run_times : SyncEngine → String → List ℕ → World → World
unfolding run_worker
run_times engine id [] world = world
run_times engine id (now ∷ times) world =
    run_times engine id times (world_after world (run_worker engine id now world))

module _ (engine : SyncEngine) (worker : WorkerSpec)
    (known : worker_of engine worker.id ≡ some worker) (failing : IsFailing worker)
    (inverse : (n : ℕ) → engine.to_number (engine.to_text n) ≡ some n) where
  set_key_same {ℓ} :
      {A : Type ℓ} (value : Option A) (map : String → Option A)
      → set_key worker.id value map worker.id ≡ value
  set_key_same value map = rw (eq_refl worker.id)

  one_failure :
      (now : ℕ) (world : World)
      → get (lease_resource worker.id) world.leases ≡ none
      → (world' : World) × (run_worker engine worker.id now world ≡ ok (retry, world'))
        × (world'.leases ≡ world.leases)
        × (retry_attempt engine worker.id world' ≡ suc (retry_attempt engine worker.id world))
        × (world'.one_shot worker.id
            ≡ some (delay engine.backoff engine.random (retry_attempt engine worker.id world)))
  one_failure now world free = (world', ran, restored, counted, scheduled)
    where
      resource : String
      resource = lease_resource worker.id

      lease : WorkerLease
      lease = fresh_lease resource engine.engine_id worker_lease_ttl_ms now

      started : World
      started = record world { leases = world.leases ++ lease ∷ [] }

      thrown : World
      thrown = (worker.run started).1

      world' : World
      world' = (finish engine worker.id (after_worker engine worker.id (false, thrown))).1

      attempts : retry_attempt engine worker.id thrown ≡ retry_attempt engine worker.id world
      attempts = unfold retry_attempt in ap (parsed_attempt engine) (failing started).1

      ran : run_worker engine worker.id now world ≡ ok (retry, world')
      ran =
          run_worker_found engine worker.id now world known
          ∙ run_found_acquired engine worker.id now world worker
              (acquire_free resource engine.engine_id worker_lease_ttl_ms now world.leases free)
          ∙ (unfold run_leased in
              unfold finish in
              unfold after_worker in
              ap (λ b. ok (finish engine worker.id (after_worker engine worker.id (b, thrown))))
                (failing started).0)

      restored : world'.leases ≡ world.leases
      restored =
          unfold finish in
          unfold after_worker in
          ap (release resource engine.engine_id) (failing started).2
          ∙ release_fresh resource engine.engine_id worker_lease_ttl_ms now world.leases free

      counted : retry_attempt engine worker.id world' ≡ suc (retry_attempt engine worker.id world)
      counted =
          unfold finish in
          unfold after_worker in
          unfold retry_attempt in
          ap (parsed_attempt engine) (set_key_same _ thrown.retry_cursor)
          ∙ (unfold parsed_attempt in
              ap (λ o. get_or o 0) (inverse (retry_attempt engine worker.id thrown + 1)))
          ∙ omega (arith, attempts)

      scheduled :
          world'.one_shot worker.id
          ≡ some (delay engine.backoff engine.random (retry_attempt engine worker.id world))
      scheduled =
          unfold finish in
          unfold after_worker in
          set_key_same _ thrown.one_shot
          ∙ ap (λ n. some (delay engine.backoff engine.random n)) attempts

  -- A list of times is as long as the runs; each delay is for the attempts before it.
  run_failures :
      (times : List ℕ) (world : World)
      → get (lease_resource worker.id) world.leases ≡ none
      → (retry_attempt engine worker.id (run_times engine worker.id times world)
          ≡ length times + retry_attempt engine worker.id world)
        × (get (lease_resource worker.id) (run_times engine worker.id times world).leases ≡ none)
  unfolding run_times
  run_failures [] world free = (omega arith, free)
  run_failures (now ∷ times) world free =
      let (world', ran, restored, counted, _) = one_failure now world free in
      let (total, free') =
        run_failures times world' (ap (get (lease_resource worker.id)) restored ∙ free) in
      let next : world_after world (run_worker engine worker.id now world) ≡ world' =
        ap (world_after world) ran in
      (
        ap (λ w. retry_attempt engine worker.id (run_times engine worker.id times w)) next
            ∙ omega (arith, total, counted),
        ap (λ w. get (lease_resource worker.id) (run_times engine worker.id times w).leases) next
            ∙ free',
      )

-- A worker that keeps throwing, with no other engine at its lease: each run counts one more attempt,
-- and the run after any number of them schedules the retry for the delay of that number. The attempts
-- stand in the cursor as text, which `Number` is to read back.
pub failures_counted :
    (engine : SyncEngine) (worker : WorkerSpec) (times : List ℕ) (now : ℕ) (world : World)
    → worker_of engine worker.id ≡ some worker
    → IsFailing worker
    → ((n : ℕ) → engine.to_number (engine.to_text n) ≡ some n)
    → get (lease_resource worker.id) world.leases ≡ none
    → (retry_attempt engine worker.id (run_times engine worker.id times world)
        ≡ length times + retry_attempt engine worker.id world)
      × ((world' : World) × (run_worker engine worker.id now
              (run_times engine worker.id times world)
            ≡ ok (retry, world'))
          × (world'.one_shot worker.id
              ≡ some (
                  delay engine.backoff engine.random
                    (length times + retry_attempt engine worker.id world))))
failures_counted engine worker times now world known failing inverse free =
    let (total, free') = run_failures engine worker known failing inverse times world free in
    let (world', ran, _, _, scheduled) =
      one_failure engine worker known failing inverse now (run_times engine worker.id times world)
        free' in
    (total, (world', ran, scheduled ∙ ap (λ n. some (delay engine.backoff engine.random n)) total))
