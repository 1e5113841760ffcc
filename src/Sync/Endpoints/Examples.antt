-- ===== src/Sync/Endpoints/Examples.antt =====
-- Two endpoints, and cursors that hold one digit.
use cemp_mobile.Prelude.{
  ℕ, zero, suc, ◌<◌, ◌≡◌, refl, ap, ◌^◌, List, [], ◌∷◌, none, some, String, str_eq, arith, length,
  if◌then◌else◌,
}
use cemp_mobile.Sync.Endpoints.{
  Number, stored_index, Config, started, Call, currents, successes, failures, run, current,
}
use cemp_mobile.Sync.Endpoints.Rotation.{restart_agrees, fraction_undefined}

abbrev index_of : ℕ → Number
index_of n = record { whole = n; fraction = 0 }

-- 0.5
abbrev half : Number
half = record { whole = 0; fraction = 2 ^ 1073 }

abbrev two_endpoints : Config
two_endpoints = record {
  Endpoint = String;
  endpoints = "https://a" ∷ "https://b" ∷ [];
  threshold = 3;
  parse = λ raw.
      if str_eq raw "0"
      then some (index_of 0)
      else if str_eq raw "1"
      then some (index_of 1)
      else if str_eq raw "0.5"
      then some half
      else none;
  stringify = digit;
}
  where
    digits : ℕ → String
    digits zero = "0"
    digits (suc i) = "1"

    digit : Number → String
    digit n = digits n.whole

two_endpoints-inverse :
    (i : Number)
    → i.whole < length two_endpoints.endpoints
    → i.fraction ≡ 0
    → two_endpoints.parse (two_endpoints.stringify i) ≡ some i
two_endpoints-inverse i h k = read i.whole refl h
  where
    whole_index : (w : ℕ) → i.whole ≡ w → index_of w ≡ i
    whole_index w e = cc (e, k)

    read :
        (w : ℕ)
        → i.whole ≡ w
        → w < 2
        → two_endpoints.parse (two_endpoints.stringify (record i { whole = w })) ≡ some i
    read zero e b = ap (λ n. some n) (whole_index 0 e)
    read (suc zero) e b = ap (λ n. some n) (whole_index 1 e)
    read (suc (suc w)) e b = absurd (omega arith)

abbrev some_calls : List Call
some_calls = currents ∷ failures ∷ failures ∷ failures ∷ successes ∷ failures ∷ []

restart_agrees_example :
    (current two_endpoints (started (run two_endpoints (started none) some_calls).cursor)).0
    ≡ (current two_endpoints (run two_endpoints (started none) some_calls)).0
unfolding stored_index
restart_agrees_example =
    restart_agrees two_endpoints none some_calls two_endpoints-inverse (omega arith)

-- The cursor {"index":0.5} leaves no endpoint.
half_undefined : (current two_endpoints (started (some "0.5"))).0 ≡ none
half_undefined = fraction_undefined two_endpoints "0.5" half refl (omega arith) (omega arith)
