-- ===== src/Database/Leases.antt =====
-- packages/cemp-database/src/repositories/worker-leases.ts. A lease is a row keyed by its resource;
-- times are in milliseconds and the clock is an argument of each call.
pub mod Exclusion
pub mod Examples
use cemp_mobile.Prelude.{
  ℕ, ◌+◌, Bool, List, [], ◌∷◌, Option, none, some, Result, ok, err, String, str_eq, if◌then◌else◌,
  ltb, leb, ◌==◌, ◌&&◌,
}
use cemp_mobile.Database.Table.{select_one, update_where, delete_where, changes, insert_or_ignore}
use cemp_mobile.Database.Errors.{DatabaseError, adapter_error}

pub record WorkerLease : Type 0 where
  pub resource : String
  pub owner : String
  pub acquired_at_ms : ℕ
  pub expires_at_ms : ℕ

-- WHERE resource = ?
abbrev pub of_resource : String → WorkerLease → Bool
of_resource resource l = str_eq l.resource resource

-- The row that the insertion met: its owner refreshes it, another owner waits or steals it.
pub contend :
    String → String → ℕ → ℕ → List WorkerLease → WorkerLease → Option WorkerLease × List WorkerLease
contend resource owner ttl_ms now_ms leases lease =
    if str_eq lease.owner owner
    then (
      some (record lease { expires_at_ms = now_ms + ttl_ms }),
      update_where (of_resource resource) (λ l. record l { expires_at_ms = now_ms + ttl_ms })
          leases,
    )
    else if ltb now_ms lease.expires_at_ms
    then (none, leases)
    else (
      some (record {
        resource = resource;
        owner = owner;
        acquired_at_ms = now_ms;
        expires_at_ms = now_ms + ttl_ms;
      }),
      update_where (of_resource resource)
          (λ l. record {
            resource = l.resource;
            owner = owner;
            acquired_at_ms = now_ms;
            expires_at_ms = now_ms + ttl_ms;
          })
          leases,
    )

-- The rest of the transaction, from the table and `changes` of the insertion.
after_insert :
    String
    → String
    → ℕ
    → ℕ
    → WorkerLease
    → List WorkerLease × ℕ
    → Result DatabaseError (Option WorkerLease × List WorkerLease)
after_insert resource owner ttl_ms now_ms fresh (leases, inserted) =
    if inserted == 0
    then elim (select_one (of_resource resource) leases) [
      | none ↦ err adapter_error
      | some existing ↦ ok (contend resource owner ttl_ms now_ms leases existing)
    ]
    else ok (some fresh, leases)

-- The lease held or `none` for null, with the table after the transaction.
pub acquire :
    String
    → String
    → ℕ
    → ℕ
    → List WorkerLease
    → Result DatabaseError (Option WorkerLease × List WorkerLease)
unfolding after_insert
acquire resource owner ttl_ms now_ms leases =
    let fresh : WorkerLease = record {
      resource = resource;
      owner = owner;
      acquired_at_ms = now_ms;
      expires_at_ms = now_ms + ttl_ms;
    } in
    after_insert resource owner ttl_ms now_ms fresh
      (insert_or_ignore (of_resource resource) fresh leases)

pub release : String → String → List WorkerLease → List WorkerLease
release resource owner leases =
    delete_where (λ l. of_resource resource l && str_eq l.owner owner) leases

unfoldable pub get : String → List WorkerLease → Option WorkerLease
get resource leases = select_one (of_resource resource) leases

-- The table and the number of rows deleted.
pub prune_expired : ℕ → List WorkerLease → List WorkerLease × ℕ
prune_expired now_ms leases =
    let expired = λ (l : WorkerLease). leb l.expires_at_ms now_ms in
    (delete_where expired leases, changes expired leases)

-- The calls of every engine on the shared table, each with its time.
pub data Call : Type 0 where
  acquires : String → String → ℕ → Call
  releases : String → String → Call
  prunes : Call

-- The table after a call; a call that throws is rolled back.
abbrev after :
    List WorkerLease
    → Result DatabaseError (Option WorkerLease × List WorkerLease)
    → List WorkerLease
after t (ok (r, t')) = t'
after t (err e) = t

pub step : List WorkerLease → ℕ × Call → List WorkerLease
step t (now, acquires resource owner ttl) = after t (acquire resource owner ttl now t)
step t (now, releases resource owner) = release resource owner t
step t (now, prunes) = (prune_expired now t).0

pub run : List WorkerLease → List (ℕ × Call) → List WorkerLease
run t [] = t
run t (c ∷ cs) = run (step t c) cs
