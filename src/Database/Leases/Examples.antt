-- ===== src/Database/Leases/Examples.antt =====
-- Leases on a concrete table: two rivals of a live lease.
use cemp_mobile.Prelude.{ℕ, ◌≡◌, refl, List, [], ◌∷◌, some, arith, str_apart}
use cemp_mobile.Database.Table.{select_one}
use cemp_mobile.Database.Leases.{WorkerLease, Call, acquires, releases, prunes, get, run}
use cemp_mobile.Database.Leases.Exclusion.{get-run_foreign}

abbrev held_lease : WorkerLease
held_lease = record {
  resource = "worker:sync";
  owner = "a";
  acquired_at_ms = 0;
  expires_at_ms = 600;
}

abbrev rival_calls : List (ℕ × Call)
rival_calls =
    (10, acquires "worker:sync" "b" 500)
    ∷ (20, releases "worker:sync" "b")
    ∷ (30, prunes)
    ∷ (599, acquires "worker:sync" "c" 5)
    ∷ []

get-run_foreign_example : get "worker:sync" (run (held_lease ∷ []) rival_calls) ≡ some held_lease
unfolding get select_one
get-run_foreign_example = get-run_foreign held_lease (held_lease ∷ []) rival_calls refl (
  (omega arith, str_apart "b" "a" refl),
  (str_apart "b" "a" refl, (omega arith, ((omega arith, str_apart "c" "a" refl), tt))),
)
