-- ===== src/Ckb/RateLimit.antt =====
-- packages/cemp-ckb/src/rate-limit.ts over packages/cemp-database/src/repositories/rate-limits.ts.
-- A level of tokens is kept in units of 1/3,600,000 token, so that the refill of one millisecond,
-- perHour / 3,600,000 tokens, is the integer perHour; the rounding of floats is not modelled.
pub mod Budget
pub mod Examples
use cemp_mobile.Prelude.{
  ℕ, ◌+◌, ◌-◌, ◌*◌, ◌/◌, ◌≡◌, Bool, true, false, ◌||◌, List, [], ◌∷◌, ◌++◌, Option, none, some,
  String, str_eq, if◌then◌else◌, ltb, min,
}
use cemp_mobile.Database.Table.{select_one, update_where}
use Prim.Native.String.{◌++◌ as str_append}

pub record RateLimitBucket : Type 0 where
  pub bucket : String
  pub tokens : ℕ
  pub updated_at_ms : ℕ

pub record RateLimiterConfig : Type 0 where
  pub per_contact_per_hour : ℕ
  pub global_per_hour : ℕ

pub data Scope : Type 0 where
  outgoing incoming : Scope

abbrev pub hour_ms : ℕ
hour_ms = 3600000

abbrev pub of_bucket : String → RateLimitBucket → Bool
of_bucket bucket b = str_eq b.bucket bucket

-- RateLimitRepository.
pub get : String → List RateLimitBucket → Option RateLimitBucket
get bucket rows = select_one (of_bucket bucket) rows

-- INSERT ... ON CONFLICT (bucket) DO UPDATE.
pub set_bucket : String → ℕ → ℕ → List RateLimitBucket → List RateLimitBucket
set_bucket bucket tokens updated_at_ms rows = elim (select_one (of_bucket bucket) rows) [
  | none ↦ rows ++ record { bucket = bucket; tokens = tokens; updated_at_ms = updated_at_ms } ∷ []
  | some _ ↦
      update_where (of_bucket bucket)
        (λ b. record b { tokens = tokens; updated_at_ms = updated_at_ms }) rows
]

abbrev scope_name : Scope → String
scope_name outgoing = "outgoing"
scope_name incoming = "incoming"

-- `${scope}:${key}`
pub bucket_key : Scope → String → String
bucket_key scope key = str_append (scope_name scope) (str_append ":" key)

-- A method as the calls of the store that it awaits, one after another, each a statement of its own.
-- Other methods may run between two of them.
pub data Method (A : Type 0) : Type 0 where
  returned : A → Method A
  get_then : String → (Option RateLimitBucket → Method A) → Method A
  set_then : String → ℕ → ℕ → Method A → Method A

-- The method with no other in between.
pub run : {A : Type 0} → Method A → List RateLimitBucket → A × List RateLimitBucket
run (returned a) rows = (a, rows)
run (get_then bucket next) rows = run (next (get bucket rows)) rows
run (set_then bucket tokens now next) rows = run next (set_bucket bucket tokens now rows)

-- The first awaited call of a method.
pub advance : {A : Type 0} → Method A → List RateLimitBucket → Method A × List RateLimitBucket
advance (returned a) rows = (returned a, rows)
advance (get_then bucket next) rows = (next (get bucket rows), rows)
advance (set_then bucket tokens now next) rows = (next, set_bucket bucket tokens now rows)

-- Two methods at once: each entry of the schedule tells whether the first one moves.
pub overlap :
    {A : Type 0}
    → List Bool
    → Method A
    → Method A
    → List RateLimitBucket
    → Method A × Method A × List RateLimitBucket
unfolding advance
overlap [] m n rows = (m, n, rows)
overlap (true ∷ schedule) m n rows = let (m', rows') = advance m rows in overlap schedule m' n rows'
overlap (false ∷ schedule) m n rows =
    let (n', rows') = advance n rows in overlap schedule m n' rows'

-- `#refill`, and what follows it: an unseen bucket starts full and is stored.
refilled : {A : Type 0} → Option RateLimitBucket → String → ℕ → ℕ → (ℕ → Method A) → Method A
refilled none bucket per_hour now next =
    set_then bucket (per_hour * hour_ms) now (next (per_hour * hour_ms))
refilled (some existing) bucket per_hour now next =
    next (min (per_hour * hour_ms) (existing.tokens + (now - existing.updated_at_ms) * per_hour))

pub refill : {A : Type 0} → String → ℕ → ℕ → (ℕ → Method A) → Method A
unfolding refilled
refill bucket per_hour now next =
    get_then bucket (λ existing. refilled existing bucket per_hour now next)

-- The charge of a message whose sender is not known, to the global bucket alone.
charge_global : String → ℕ → ℕ → Method Bool
charge_global key level now =
    if ltb level hour_ms then returned false else set_then key (level - hour_ms) now (returned true)

charge_both : String → String → ℕ → ℕ → ℕ → Method Bool
charge_both contact_key global_key contact level now =
    if ltb contact hour_ms || ltb level hour_ms
    then returned false
    else set_then contact_key (contact - hour_ms) now
        (set_then global_key (level - hour_ms) now (returned true))

pub consume : RateLimiterConfig → Scope → Option String → ℕ → Method Bool
unfolding refill charge_global charge_both
consume config scope none now =
    refill (bucket_key scope "global") config.global_per_hour now
      λ level. charge_global (bucket_key scope "global") level now
consume config scope (some profile) now =
    refill (bucket_key scope "global") config.global_per_hour now λ level.
      refill (bucket_key scope profile) config.per_contact_per_hour now λ contact.
        charge_both (bucket_key scope profile) (bucket_key scope "global") contact level now

pub available : RateLimiterConfig → Scope → String → ℕ → Method ℕ
unfolding refill
available config scope profile now =
    refill (bucket_key scope profile) config.per_contact_per_hour now
      λ level. returned (level / hour_ms)
