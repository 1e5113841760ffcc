-- ===== src/Database/OutgoingTransactions/Journal.antt =====
-- Recording is idempotent, and a compare-and-swap of a state is won once.
use cemp_mobile.Prelude.{
  ℕ, ◌≤◌, ◌+◌, ◌≡◌, refl, ◌∙◌, ap, ◌≢◌, List, [], ◌∷◌, ◌++◌, some, none, ok, String, eq_iff,
  eq_refl, arith,
}
use cemp_mobile.Database.Table.{
  select_one, update_where, changes, insert_or_ignore_new, insert_or_ignore_met, select_one-append,
  select_one-append_other,
}
use cemp_mobile.Database.OutgoingTransactions.{
  OutgoingTransaction, NewTransaction, Patch, of_tx_hash, row_of, read_back, record_tx,
  get_by_tx_hash, patched, mark_state_if,
}

-- A hash that is in the journal keeps its row: recording it again returns it and writes nothing.
pub record_tx_existing :
    (input : NewTransaction) (rows : List OutgoingTransaction) (t : OutgoingTransaction)
    → get_by_tx_hash input.tx_hash rows ≡ some t
    → record_tx input rows ≡ ok (t, rows)
unfolding record_tx get_by_tx_hash
record_tx_existing input rows t h =
    ap (λ r. read_back input.tx_hash r.0)
      (insert_or_ignore_met (of_tx_hash input.tx_hash) (row_of input) rows h)
    ∙ rw (h, read_back)

-- A new hash is stored as given, and every other hash finds what it found.
pub record_tx_new :
    (input : NewTransaction) (rows : List OutgoingTransaction)
    → get_by_tx_hash input.tx_hash rows ≡ none
    → (record_tx input rows ≡ ok (row_of input, rows ++ row_of input ∷ []))
      × (get_by_tx_hash input.tx_hash (rows ++ row_of input ∷ []) ≡ some (row_of input))
      × ((other : String)
          → other ≢ input.tx_hash
          → get_by_tx_hash other (rows ++ row_of input ∷ []) ≡ get_by_tx_hash other rows)
unfolding record_tx get_by_tx_hash row_of
record_tx_new input rows h = (
  ap (λ r. read_back input.tx_hash r.0)
        (insert_or_ignore_new (of_tx_hash input.tx_hash) (row_of input) rows h)
      ∙ rw (stored, read_back),
  stored,
  (λ other ne.
      select_one-append_other (of_tx_hash other) (row_of input) rows
        (ground (arith, eq_iff input.tx_hash other, ne))),
)
  where
    stored : select_one (of_tx_hash input.tx_hash) (rows ++ row_of input ∷ []) ≡ some (row_of input)
    stored =
        select_one-append (of_tx_hash input.tx_hash) (row_of input) rows h
        ∙ rw (eq_refl input.tx_hash)

-- After a compare-and-swap away from `from` no row of that hash is left in `from`.
changes-mark_state_if :
    (tx_hash from to : String) (patch : Patch) (rows : List OutgoingTransaction)
    → to ≢ from
    → (mark_state_if tx_hash from to patch (mark_state_if tx_hash from to patch rows).0).1 ≡ 0
unfolding mark_state_if changes update_where patched
changes-mark_state_if tx_hash from to patch [] ne = refl
changes-mark_state_if tx_hash from to patch (t ∷ rows) ne =
    ground (arith, changes-mark_state_if tx_hash from to patch rows ne, eq_iff to from, ne)

-- With no row in `from` a compare-and-swap changes nothing.
mark_state_if-idle :
    (tx_hash from to : String) (patch : Patch) (rows : List OutgoingTransaction)
    → (mark_state_if tx_hash from to patch rows).1 ≡ 0
    → (mark_state_if tx_hash from to patch rows).0 ≡ rows
unfolding mark_state_if changes update_where
mark_state_if-idle tx_hash from to patch [] h = refl
mark_state_if-idle tx_hash from to patch (t ∷ rows) h =
    ground (arith, mark_state_if-idle tx_hash from to patch rows)

-- The rows that fit do not depend on the state that is written.
mark_state_if_count :
    (tx_hash from to to' : String) (patch patch' : Patch) (rows : List OutgoingTransaction)
    → (mark_state_if tx_hash from to patch rows).1 ≡ (mark_state_if tx_hash from to' patch' rows).1
unfolding mark_state_if
mark_state_if_count tx_hash from to to' patch patch' rows = refl

mark_state_if-le :
    (tx_hash from to : String) (patch : Patch) (rows : List OutgoingTransaction)
    → (mark_state_if tx_hash from to patch rows).1 ≤ changes (of_tx_hash tx_hash) rows
unfolding mark_state_if changes
mark_state_if-le tx_hash from to patch [] = omega arith
mark_state_if-le tx_hash from to patch (t ∷ rows) =
    ground (arith, mark_state_if-le tx_hash from to patch rows)

-- The rows changed by the attempts of several engines on one hash, in the order in which they run.
abbrev pub wins : String → String → List OutgoingTransaction → List (String × Patch) → ℕ
wins tx_hash from rows [] = 0
wins tx_hash from rows ((to, patch) ∷ attempts) =
    let (rows', n) = mark_state_if tx_hash from to patch rows in
    n + wins tx_hash from rows' attempts

-- None of the attempts writes the state that they all wait for.
abbrev pub AllLeave : String → List (String × Patch) → Type 0
AllLeave from [] = Unit {0}
AllLeave from ((to, patch) ∷ attempts) = (to ≢ from) × AllLeave from attempts

wins_idle :
    (tx_hash from : String) (rows : List OutgoingTransaction) (attempts : List (String × Patch))
    → ((to : String) (patch : Patch) → (mark_state_if tx_hash from to patch rows).1 ≡ 0)
    → wins tx_hash from rows attempts ≡ 0
wins_idle tx_hash from rows [] h = refl
wins_idle tx_hash from rows ((to, patch) ∷ attempts) h =
    rw (h to patch, mark_state_if-idle tx_hash from to patch rows (h to patch))
      (omega (arith, wins_idle tx_hash from rows attempts h))

-- However many engines try to move a journalled transaction out of a state, one of them at most
-- changes its row: the others see zero rows changed.
pub wins-le-one :
    (tx_hash from : String) (rows : List OutgoingTransaction) (attempts : List (String × Patch))
    → changes (of_tx_hash tx_hash) rows ≤ 1
    → AllLeave from attempts
    → wins tx_hash from rows attempts ≤ 1
wins-le-one tx_hash from rows [] h away = omega arith
wins-le-one tx_hash from rows ((to, patch) ∷ attempts) h away = omega (
  arith,
  mark_state_if-le tx_hash from to patch rows,
  wins_idle tx_hash from (mark_state_if tx_hash from to patch rows).0 attempts (λ to' patch'.
      mark_state_if_count tx_hash from to' to patch' patch _
      ∙ changes-mark_state_if tx_hash from to patch rows away.0),
)
