-- ===== src/Ckb/RateLimit/Budget.antt =====
-- The messages that the limiter lets through, one call after another, are bounded by the level at its
-- start and the refill.
use cemp_mobile.Prelude.{
  ℕ, ◌+◌, ◌-◌, ◌*◌, ◌≤◌, ◌≡◌, refl, sym, subst, ◌∙◌, ap, ◌≢◌, inl, inr, Bool, true, false, ◌||◌,
  List, [], ◌∷◌, Option, none, some, String, eq_iff, eq_refl, arith, ltb, min, Option-cases,
  Bool-cases, if◌then◌else◌,
}
use native.Mathlib.Nat.{add-mul}
use cemp_mobile.Database.Table.{
  select_one, select_one-holds, select_one-append, select_one-append_other, select_one-update_self,
  select_one-update_other,
}
use cemp_mobile.Ckb.RateLimit.{
  Method, run, RateLimitBucket, RateLimiterConfig, Scope, hour_ms, of_bucket, get, set_bucket,
  bucket_key, refilled, refill, charge_global, charge_both, consume,
}

abbrev stored_at : String → ℕ → ℕ → RateLimitBucket
stored_at key tokens now = record { bucket = key; tokens = tokens; updated_at_ms = now }

-- A stored bucket is read back.
get-set_bucket_self :
    (key : String) (tokens now : ℕ) (rows : List RateLimitBucket)
    → get key (set_bucket key tokens now rows) ≡ some (stored_at key tokens now)
unfolding get set_bucket
get-set_bucket_self key tokens now rows = elim (Option-cases (select_one (of_bucket key) rows)) [
  | inl e ↦
      rw (e, set_bucket)
        (select_one-append (of_bucket key) (stored_at key tokens now) rows e ∙ rw (eq_refl key))
  | inr (b, e) ↦
      let own = select_one-holds (of_bucket key) rows e in
      rw (e, set_bucket)
        (select_one-update_self (of_bucket key)
            (λ x. record x { tokens = tokens; updated_at_ms = now }) b rows own e
          ∙ ap (λ k. some (stored_at k tokens now)) ((eq_iff b.bucket key).0 own))
]

-- No other bucket changes.
get-set_bucket_other :
    (key other : String) (tokens now : ℕ) (rows : List RateLimitBucket)
    → other ≢ key
    → get other (set_bucket key tokens now rows) ≡ get other rows
unfolding get set_bucket
get-set_bucket_other key other tokens now rows ne =
    elim (Option-cases (select_one (of_bucket key) rows)) [
      | inl e ↦
          rw (e, set_bucket)
            (select_one-append_other (of_bucket other) (stored_at key tokens now) rows
              (ground (arith, eq_iff key other, ne)))
      | inr (b, e) ↦
          rw (e, set_bucket)
            (select_one-update_other (of_bucket key) (of_bucket other) _ rows
              (λ a h. ground (arith, eq_iff a.bucket key, eq_iff a.bucket other, ne))
              (λ a h. ground (arith, eq_iff a.bucket key, eq_iff a.bucket other, ne)))
    ]

-- The step of a bucket at `now`, by one call: it is left alone, or charged one message after a refill
-- of at most `rate` for each millisecond since its last change.
abbrev pub Charged : ℕ → ℕ → Bool → RateLimitBucket → RateLimitBucket → Type 0
Charged rate now false b b' = b' ≡ b
Charged rate now true b b' =
    (b'.tokens + hour_ms ≤ b.tokens + (now - b.updated_at_ms) * rate)
    × (b'.tokens + hour_ms ≤ rate * hour_ms)
    × (b'.updated_at_ms ≡ now)

refilled-le :
    (b : RateLimitBucket) (rate now t : ℕ)
    → t ≡ min (rate * hour_ms) (b.tokens + (now - b.updated_at_ms) * rate)
    → (t ≤ b.tokens + (now - b.updated_at_ms) * rate) × (t ≤ rate * hour_ms)
refilled-le b rate now t e = omega arith

run-refill_found :
    {A : Type 0} (key : String) (rate now : ℕ) (next : ℕ → Method A) (rows : List RateLimitBucket)
    (b : RateLimitBucket)
    → get key rows ≡ some b
    → run (refill key rate now next) rows
      ≡ run (next (min (rate * hour_ms) (b.tokens + (now - b.updated_at_ms) * rate))) rows
unfolding refill refilled run
run-refill_found key rate now next rows b h = ap (λ o. run (refilled o key rate now next) rows) h

-- The refill of another bucket.
run-refill_other :
    {A : Type 0} (key other : String) (rate now : ℕ) (next : ℕ → Method A)
    (rows : List RateLimitBucket)
    → other ≢ key
    → (level : ℕ) × (rows' : List RateLimitBucket) × (run (refill key rate now next) rows
        ≡ run (next level) rows')
      × (get other rows' ≡ get other rows)
unfolding refill refilled run
run-refill_other key other rate now next rows ne = elim (Option-cases (get key rows)) [
  | inl e ↦ (
    rate * hour_ms,
    set_bucket key (rate * hour_ms) now rows,
    ap (λ o. run (refilled o key rate now next) rows) e,
    get-set_bucket_other key other _ now rows ne,
  )
  | inr (b, e) ↦ (_, rows, run-refill_found key rate now next rows b e, refl)
]

-- What one charge does to the bucket of `key`, which holds `level` after its refill.
abbrev IsCharge : String → ℕ → ℕ → RateLimitBucket → Bool × List RateLimitBucket → Type 0
IsCharge key rate now b (passed, rows) =
    (b' : RateLimitBucket) × (get key rows ≡ some b') × Charged rate now passed b b'

charge_global_lem :
    (key : String) (rate level now : ℕ) (rows : List RateLimitBucket) (b : RateLimitBucket)
    → get key rows ≡ some b
    → level ≤ b.tokens + (now - b.updated_at_ms) * rate
    → level ≤ rate * hour_ms
    → IsCharge key rate now b (run (charge_global key level now) rows)
unfolding charge_global run
charge_global_lem key rate level now rows b h fits full = elim (Bool-cases (ltb level hour_ms)) [
  | inl short ↦ rw short (b, h, refl)
  | inr enough ↦ rw enough (
    stored_at key (level - hour_ms) now,
    get-set_bucket_self key (level - hour_ms) now rows,
    (ground (arith, enough), ground (arith, enough), refl),
  )
]

charge_both_lem :
    (contact_key key : String) (rate contact level now : ℕ) (rows : List RateLimitBucket)
    (b : RateLimitBucket)
    → get key rows ≡ some b
    → level ≤ b.tokens + (now - b.updated_at_ms) * rate
    → level ≤ rate * hour_ms
    → IsCharge key rate now b (run (charge_both contact_key key contact level now) rows)
unfolding charge_both run
charge_both_lem contact_key key rate contact level now rows b h fits full =
    elim (Bool-cases (ltb contact hour_ms || ltb level hour_ms)) [
      | inl short ↦ rw short (b, h, refl)
      | inr enough ↦ rw enough (
        stored_at key (level - hour_ms) now,
        get-set_bucket_self key (level - hour_ms) now _,
        (ground (arith, enough), ground (arith, enough), refl),
      )
    ]

-- A contact's bucket is not the global one.
abbrev pub IsApart : Scope → Option String → Type 0
IsApart scope none = Unit {0}
IsApart scope (some p) = bucket_key scope "global" ≢ bucket_key scope p

-- What `consume` does to the global bucket of its scope, whichever contact it is for.
consume_global :
    (config : RateLimiterConfig) (scope : Scope) (profile : Option String) (now : ℕ)
    (rows : List RateLimitBucket) (b : RateLimitBucket)
    → IsApart scope profile
    → get (bucket_key scope "global") rows ≡ some b
    → IsCharge
        (bucket_key scope "global")
        config.global_per_hour
        now
        b
        (run (consume config scope profile now) rows)
unfolding consume
consume_global config scope none now rows b apart h =
    let key = bucket_key scope "global" in
    let level = refilled-le b config.global_per_hour now _ refl in
    subst (IsCharge key config.global_per_hour now b)
      (sym (run-refill_found key config.global_per_hour now _ rows b h))
      (charge_global_lem key config.global_per_hour _ now rows b h level.0 level.1)
consume_global config scope (some p) now rows b apart h =
    let key = bucket_key scope "global" in
    let level = refilled-le b config.global_per_hour now _ refl in
    let (contact, rows', after_contact, same) =
      run-refill_other (bucket_key scope p) key config.per_contact_per_hour now _ rows apart in
    subst (IsCharge key config.global_per_hour now b)
      (sym (run-refill_found key config.global_per_hour now _ rows b h ∙ after_contact))
      (charge_both_lem (bucket_key scope p) key config.global_per_hour contact _ now rows' b
        (same ∙ h) level.0 level.1)

-- The messages that a sequence of calls lets through, each run to its end before the next begins.
abbrev pub accepted :
    RateLimiterConfig → Scope → List RateLimitBucket → List (Option String × ℕ) → ℕ
accepted config scope rows [] = 0
accepted config scope rows ((profile, now) ∷ calls) =
    let (passed, rows') = run (consume config scope profile now) rows in
    (if passed then 1 else 0) + accepted config scope rows' calls

-- The calls are made in the order of the clock, from `from` to `until`.
abbrev pub IsTimed : Scope → ℕ → ℕ → List (Option String × ℕ) → Type 0
IsTimed scope from until [] = from ≤ until
IsTimed scope from until ((profile, now) ∷ calls) =
    (from ≤ now) × IsApart scope profile × IsTimed scope now until calls

IsTimed-le :
    (scope : Scope) (from until : ℕ) (calls : List (Option String × ℕ))
    → IsTimed scope from until calls
    → from ≤ until
IsTimed-le scope from until [] t = t
IsTimed-le scope from until ((profile, now) ∷ calls) t =
    omega (arith, IsTimed-le scope now until calls t.2)

IsTimed-from :
    (scope : Scope) (from from' until : ℕ) (calls : List (Option String × ℕ))
    → from' ≤ from
    → IsTimed scope from until calls
    → IsTimed scope from' until calls
IsTimed-from scope from from' until [] h t = omega arith
IsTimed-from scope from from' until ((profile, now) ∷ calls) h t = (omega arith, t.1, t.2)

Charged-le :
    (rate now : ℕ) (b b' : RateLimitBucket) (passed : Bool)
    → b.updated_at_ms ≤ now
    → Charged rate now passed b b'
    → b'.updated_at_ms ≤ now
Charged-le rate now b b' true h c = omega arith
Charged-le rate now b b' false h c = omega (arith, ap (λ x. x.updated_at_ms) c)

budget_step :
    (rate until now : ℕ) (b b' : RateLimitBucket) (passed : Bool) (n : ℕ)
    → b.updated_at_ms ≤ now
    → now ≤ until
    → Charged rate now passed b b'
    → n * hour_ms ≤ b'.tokens + (until - b'.updated_at_ms) * rate
    → ((if passed then 1 else 0) + n) * hour_ms ≤ b.tokens + (until - b.updated_at_ms) * rate
budget_step rate until now b b' false n from to c ih =
    omega (arith, subst (λ x. n * hour_ms ≤ x.tokens + (until - x.updated_at_ms) * rate) c ih)
budget_step rate until now b b' true n from to (spent, full, at) ih =
    let rest : n * hour_ms ≤ b'.tokens + (until - now) * rate =
      subst (λ x. n * hour_ms ≤ b'.tokens + (until - x) * rate) at ih in
    let span : until - b.updated_at_ms ≡ (now - b.updated_at_ms) + (until - now) = omega arith in
    let refill_sum : (until - b.updated_at_ms) * rate
        ≡ (now - b.updated_at_ms) * rate + (until - now) * rate =
      ap (λ x. x * rate) span ∙ add-mul (now - b.updated_at_ms) (until - now) rate in
    omega (arith, rest, spent, refill_sum)

-- Calls of `consume` that do not overlap, at clock readings that never go back, with contacts other
-- than "global": the messages of a scope that pass are at most the tokens that the global bucket held
-- at its last change before them and the refill since, over all contacts together.
pub accepted_bounded :
    (config : RateLimiterConfig) (scope : Scope) (until : ℕ) (calls : List (Option String × ℕ))
    (rows : List RateLimitBucket) (b : RateLimitBucket)
    → get (bucket_key scope "global") rows ≡ some b
    → IsTimed scope b.updated_at_ms until calls
    → accepted config scope rows calls * hour_ms
      ≤ b.tokens + (until - b.updated_at_ms) * config.global_per_hour
accepted_bounded config scope until [] rows b h t = omega arith
accepted_bounded config scope until ((profile, now) ∷ calls) rows b h t =
    let passed = (run (consume config scope profile now) rows).0 in
    let (b', there, charge) = consume_global config scope profile now rows b t.1 h in
    budget_step config.global_per_hour until now b b' passed _ t.0
      (IsTimed-le scope now until calls t.2) charge
      (accepted_bounded config scope until calls (run (consume config scope profile now) rows).1 b'
        there
        (IsTimed-from scope now b'.updated_at_ms until calls
          (Charged-le config.global_per_hour now b b' passed t.0 charge) t.2))
