-- ===== src/Sync/Endpoints.antt =====
-- packages/cemp-sync/src/endpoints.ts: the endpoint in use, which moves on after failures and whose
-- index outlives the process in a cursor.
pub mod Rotation
pub mod Examples
use cemp_mobile.Prelude.{
  ℕ, ◌+◌, ◌%◌, Bool, true, false, List, [], ◌∷◌, Option, none, some, String, if◌then◌else◌, ltb,
  ◌==◌, ◌||◌, length, get_elem?,
}

-- A number of JavaScript that is not negative: its whole part, and the rest in units of 2^-1074, the
-- smallest double. The rounding of `+ 1` is not modelled.
pub record Number : Type 0 where
  pub whole : ℕ
  pub fraction : ℕ

abbrev pub first_index : Number
first_index = record { whole = 0; fraction = 0 }

-- `(index + 1) % length`.
abbrev pub next_index : Number → ℕ → Number
next_index n size = record { whole = (n.whole + 1) % size; fraction = n.fraction }

-- `endpoints[index]`: an index with a fraction is no element.
abbrev pub element {ℓ} : {A : Type ℓ} → List A → Number → Option A
element xs n = if n.fraction == 0 then get_elem? xs n.whole else none

-- The fields of the class that change, with the row of the cursor `endpoint-rotation`.
pub record EndpointRotator : Type 0 where
  pub index : Number
  pub consecutive_failures : ℕ
  pub loaded : Bool
  pub cursor : Option String

-- What the class is over: the endpoints, the threshold, and JSON: `parse` gives the field `index` of
-- a cursor where it is a number that is not negative, and `none` for any other text.
pub record Config : Type 1 where
  pub Endpoint : Type 0
  pub endpoints : List Endpoint
  pub threshold : ℕ
  pub parse : String → Option Number
  pub stringify : Number → String

-- A rotator made over a stored cursor.
abbrev pub started : Option String → EndpointRotator
started cursor = record {
  index = first_index;
  consecutive_failures = 0;
  loaded = false;
  cursor = cursor;
}

module _ (config : Config) where
  -- The index that a cursor's text holds, or the one in use.
  accepted : Number → Option Number → Number
  accepted index none = index
  accepted index (some i) = if ltb i.whole (length config.endpoints) then i else index

  unfoldable pub stored_index : Number → Option String → Number
  unfolding accepted
  stored_index index none = index
  stored_index index (some raw) = accepted index (config.parse raw)

  pub load : EndpointRotator → EndpointRotator
  unfolding stored_index
  load r = if r.loaded then r else record r { index = stored_index r.index r.cursor; loaded = true }

  pub current : EndpointRotator → Option config.Endpoint × EndpointRotator
  unfolding load
  current r = let r' = load r in (element config.endpoints r'.index, r')

  pub report_success : EndpointRotator → EndpointRotator
  unfolding load
  report_success r = record (load r) { consecutive_failures = 0 }

  -- Whether the endpoint moved, and the rotator after it.
  pub count_failure : EndpointRotator → Bool × EndpointRotator
  count_failure r =
      if ltb (r.consecutive_failures + 1) config.threshold || (length config.endpoints == 1)
      then (false, record r { consecutive_failures = r.consecutive_failures + 1 })
      else (
        true,
        record r {
          index = next_index r.index (length config.endpoints);
          consecutive_failures = 0;
          cursor = some (config.stringify (next_index r.index (length config.endpoints)));
        },
      )

  pub report_failure : EndpointRotator → Bool × EndpointRotator
  unfolding load count_failure
  report_failure r = count_failure (load r)

pub data Call : Type 0 where
  currents successes failures : Call

pub step : Config → EndpointRotator → Call → EndpointRotator
step config r currents = (current config r).1
step config r successes = report_success config r
step config r failures = (report_failure config r).1

pub run : Config → EndpointRotator → List Call → EndpointRotator
unfolding step
run config r [] = r
run config r (call ∷ calls) = run config (step config r call) calls
