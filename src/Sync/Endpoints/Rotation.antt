-- ===== src/Sync/Endpoints/Rotation.antt =====
-- Which endpoint is in use: the next one after enough failures, the same one after a restart.
use cemp_mobile.Prelude.{
  ℕ, zero, suc, ◌+◌, ◌≤◌, ◌<◌, ◌≡◌, refl, sym, ap, ◌∙◌, true, false, List, [], ◌∷◌, Option, none,
  some, String, arith, ltb, ◌==◌, ◌||◌, length, Bool-cases, inl, inr,
}
use cemp_mobile.Sync.Endpoints.{
  Number, first_index, next_index, element, EndpointRotator, Config, started, accepted,
  stored_index, load, current, report_success, count_failure, report_failure, Call, currents,
  successes, failures, step, run,
}

module _ (config : Config) where
  load_loaded : (r : EndpointRotator) → r.loaded ≡ true → load config r ≡ r
  unfolding load
  load_loaded r e = rw e

  load_fields :
      (r : EndpointRotator) → ((load config r).loaded ≡ true) × ((load config r).cursor ≡ r.cursor)
  unfolding load
  load_fields r = elim (Bool-cases r.loaded) [
    | inl e ↦ rw e (refl, refl)
    | inr e ↦ rw e (refl, refl)
  ]

abbrev pub failures_of : ℕ → List Call
failures_of zero = []
failures_of (suc n) = failures ∷ failures_of n

module _ (config : Config) (k : ℕ) (t : config.threshold ≡ suc k) where
  report_failure_early :
      (r : EndpointRotator)
      → r.loaded ≡ true
      → suc r.consecutive_failures ≤ k
      → step config r failures ≡ record r { consecutive_failures = r.consecutive_failures + 1 }
  unfolding step report_failure count_failure load
  report_failure_early r e h = ground (arith, e, t)

  run_early :
      (n : ℕ) (r : EndpointRotator)
      → r.loaded ≡ true
      → r.consecutive_failures + n ≤ k
      → run config r (failures_of n)
        ≡ record r { consecutive_failures = r.consecutive_failures + n }
  unfolding run
  run_early zero r e h = ground arith
  run_early (suc n) r e h =
      ap (λ x. run config x (failures_of n)) (report_failure_early r e (omega arith))
      ∙ run_early n (record r { consecutive_failures = r.consecutive_failures + 1 }) e (omega arith)
      ∙ ap (λ c. record r { consecutive_failures = c }) (omega arith)

-- From a loaded rotator with no failures counted, as many failures as the threshold, and no fewer,
-- move the endpoint: before that only the count changes; the last of them moves on to the next
-- endpoint round the list, of two or more, clears the count and stores the new index.
pub rotates_at_threshold :
    (config : Config) (k n : ℕ) (r : EndpointRotator)
    → config.threshold ≡ suc k
    → 1 < length config.endpoints
    → r.loaded ≡ true
    → r.consecutive_failures ≡ 0
    → n ≤ k
    → ((run config r (failures_of n)).index ≡ r.index)
      × ((run config r (failures_of n)).cursor ≡ r.cursor)
      × (report_failure config (run config r (failures_of k)) ≡ (
        true,
        record r {
          index = next_index r.index (length config.endpoints);
          consecutive_failures = 0;
          cursor = some (config.stringify (next_index r.index (length config.endpoints)));
        },
      ))
unfolding report_failure
rotates_at_threshold config k n r t two e zero_yet le = (
  ap (λ x. x.index) (run_early config k t n r e (omega arith)),
  ap (λ x. x.cursor) (run_early config k t n r e (omega arith)),
  ap (report_failure config) (run_early config k t k r e (omega arith)) ∙ moved,
)
  where
    late : EndpointRotator
    late = record r { consecutive_failures = r.consecutive_failures + k }

    kept : load config late ≡ late
    kept = unfold load in ground (arith, e)

    moved : count_failure config (load config late) ≡ (
      true,
      record r {
        index = next_index r.index (length config.endpoints);
        consecutive_failures = 0;
        cursor = some (config.stringify (next_index r.index (length config.endpoints)));
      },
    )
    moved =
        ap (count_failure config) kept ∙ (unfold count_failure in ground (arith, t, two, zero_yet))

module _ (config : Config) (f : ℕ) where
  -- The index that a restart over the cursor starts with is the one in use, and it has the fraction `f`.
  abbrev IsSaved : EndpointRotator → Type 0
  IsSaved r =
      (stored_index config first_index r.cursor ≡ (load config r).index)
      × ((load config r).index.fraction ≡ f)

  loaded-IsSaved :
      (r : EndpointRotator)
      → r.loaded ≡ true
      → stored_index config first_index r.cursor ≡ r.index
      → r.index.fraction ≡ f
      → IsSaved r
  loaded-IsSaved r e h k =
      let same = ap (λ x. x.index) (sym (load_loaded config r e)) in
      (h ∙ same, ap (λ n. n.fraction) (sym same) ∙ k)

  load-saved :
      (r : EndpointRotator)
      → IsSaved r
      → stored_index config first_index (load config r).cursor ≡ (load config r).index
  load-saved r h = ap (stored_index config first_index) (load_fields config r).1 ∙ h.0

module _ (config : Config) (f : ℕ)
    (inverse : (i : Number)
      → i.whole < length config.endpoints
      → i.fraction ≡ f
      → config.parse (config.stringify i) ≡ some i) where
  count_failure-IsSaved :
      (r : EndpointRotator)
      → 0 < length config.endpoints
      → r.loaded ≡ true
      → stored_index config first_index r.cursor ≡ r.index
      → r.index.fraction ≡ f
      → IsSaved config f (count_failure config r).1
  unfolding count_failure
  count_failure-IsSaved r pos e h k =
      elim (Bool-cases
        (ltb (r.consecutive_failures + 1) config.threshold || (length config.endpoints == 1))) [
          | inl t ↦ rw t (
              loaded-IsSaved config f
                (record r { consecutive_failures = r.consecutive_failures + 1 }) e h k)
          | inr t ↦ rw t (loaded-IsSaved config f _ e next k)
        ]
    where
      next :
          stored_index config first_index
            (some (config.stringify (next_index r.index (length config.endpoints))))
          ≡ next_index r.index (length config.endpoints)
      next =
          unfold stored_index in
          rw (inverse (next_index r.index (length config.endpoints)) (omega arith) k)
            (unfold accepted in ground arith)

  step-IsSaved :
      (r : EndpointRotator) (call : Call)
      → 0 < length config.endpoints
      → IsSaved config f r
      → IsSaved config f (step config r call)
  unfolding step current report_success report_failure
  step-IsSaved r currents pos h =
      loaded-IsSaved config f _ (load_fields config r).0 (load-saved config f r h) h.1
  step-IsSaved r successes pos h =
      loaded-IsSaved config f _ (load_fields config r).0 (load-saved config f r h) h.1
  step-IsSaved r failures pos h =
      count_failure-IsSaved _ pos (load_fields config r).0 (load-saved config f r h) h.1

  run-IsSaved :
      (r : EndpointRotator) (calls : List Call)
      → 0 < length config.endpoints
      → IsSaved config f r
      → IsSaved config f (run config r calls)
  unfolding run
  run-IsSaved r [] pos h = h
  run-IsSaved r (call ∷ calls) pos h =
      run-IsSaved (step config r call) calls pos (step-IsSaved r call pos h)

-- Whatever cursor a rotator started from, with a whole index or not, and after any reports: a rotator
-- that is started over the cursor then stored has the same current endpoint, or none where the first
-- has none, if the list is not empty and JSON reads back, as they were written, the indexes below its
-- length that have the fraction of the index that was loaded.
pub restart_agrees :
    (config : Config) (cursor : Option String) (calls : List Call)
    → ((i : Number)
        → i.whole < length config.endpoints
        → i.fraction ≡ (stored_index config first_index cursor).fraction
        → config.parse (config.stringify i) ≡ some i)
    → 0 < length config.endpoints
    → (current config (started (run config (started cursor) calls).cursor)).0
      ≡ (current config (run config (started cursor) calls)).0
unfolding current load
restart_agrees config cursor calls inverse pos =
    ap (element config.endpoints)
      (run-IsSaved config (stored_index config first_index cursor).fraction inverse (started cursor)
        calls pos (refl, refl)).0

-- A cursor whose index is a number with a fraction and below the length is loaded, and then no
-- endpoint is current.
pub fraction_undefined :
    (config : Config) (raw : String) (n : Number)
    → config.parse raw ≡ some n
    → n.whole < length config.endpoints
    → 0 < n.fraction
    → (current config (started (some raw))).0 ≡ none
unfolding current load stored_index
fraction_undefined config raw n parsed below positive =
    rw parsed (unfold accepted in rw below_test (rw whole_test refl))
  where
    below_test : ltb n.whole (length config.endpoints) ≡ true
    below_test = ground arith

    whole_test : (n.fraction == 0) ≡ false
    whole_test = ground arith
