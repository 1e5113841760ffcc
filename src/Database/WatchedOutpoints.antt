-- ===== src/Database/WatchedOutpoints.antt =====
-- packages/cemp-database/src/repositories/watched-outpoints.ts: the outpoints whose spend matters.
pub mod Spends
pub mod Examples
use cemp_mobile.Prelude.{
  ℕ, ◌+◌, ◌≡◌, Bool, true, false, List, [], ◌∷◌, Option, none, some, Result, ok, err, String,
  str_eq, if◌then◌else◌, ◌==◌, ◌&&◌, max,
}
use cemp_mobile.Database.Errors.{DatabaseError, not_found, adapter_error, constraint_violation}
use cemp_mobile.Database.Table.{
  select_one, select_all, update_where, delete_where, changes, insert_or_ignore,
}

pub data WatchedOutpointStatus : Type 0 where
  watching spent : WatchedOutpointStatus

pub record WatchedOutpoint : Type 0 where
  pub id : ℕ
  pub tx_hash : String
  pub outpoint_index : ℕ
  pub purpose : String
  pub status : WatchedOutpointStatus
  pub spent_by_tx_hash : Option String
  pub reclaim_group_id : Option ℕ
  pub created_at_ms : ℕ
  pub spent_at_ms : Option ℕ

abbrev pub of_outpoint : String → ℕ → WatchedOutpoint → Bool
of_outpoint tx_hash index w = str_eq w.tx_hash tx_hash && w.outpoint_index == index

abbrev pub is_spent : WatchedOutpoint → Bool
is_spent w = elim w.status [ watching ↦ false | spent ↦ true ]

abbrev pub is_watching : WatchedOutpoint → Bool
is_watching w = elim w.status [ watching ↦ true | spent ↦ false ]

-- INTEGER PRIMARY KEY: one more than the largest id in the table.
unfoldable pub next_id : List WatchedOutpoint → ℕ
next_id [] = 1
next_id (w ∷ ws) = max (w.id + 1) (next_id ws)

unfoldable pub watch_of :
    String → ℕ → String → Option ℕ → ℕ → List WatchedOutpoint → WatchedOutpoint
watch_of tx_hash index purpose group now ws = record {
  id = next_id ws;
  tx_hash = tx_hash;
  outpoint_index = index;
  purpose = purpose;
  status = watching;
  spent_by_tx_hash = none;
  reclaim_group_id = group;
  created_at_ms = now;
  spent_at_ms = none;
}

unfoldable pub read_back :
    String
    → ℕ
    → List WatchedOutpoint
    → Result DatabaseError (WatchedOutpoint × List WatchedOutpoint)
read_back tx_hash index ws = elim (select_one (of_outpoint tx_hash index) ws) [
  | none ↦ err adapter_error
  | some w ↦ ok (w, ws)
]

unfoldable pub register :
    String
    → ℕ
    → String
    → Option ℕ
    → ℕ
    → List WatchedOutpoint
    → Result DatabaseError (WatchedOutpoint × List WatchedOutpoint)
unfolding watch_of read_back
register tx_hash index purpose group now ws =
    read_back tx_hash index
      (insert_or_ignore (of_outpoint tx_hash index) (watch_of tx_hash index purpose group now ws)
        ws).0

pub get : String → ℕ → List WatchedOutpoint → Option WatchedOutpoint
get tx_hash index ws = select_one (of_outpoint tx_hash index) ws

-- The UPDATE of `markSpent` and the row read back.
unfoldable pub spend :
    String
    → ℕ
    → String
    → ℕ
    → List WatchedOutpoint
    → Result DatabaseError (WatchedOutpoint × List WatchedOutpoint)
unfolding read_back
spend tx_hash index spent_by now ws = read_back tx_hash index (
    update_where (of_outpoint tx_hash index)
      (λ w. record w { status = spent; spent_by_tx_hash = some spent_by; spent_at_ms = some now })
      ws)

-- `current.spentByTxHash === spentByTxHash`
abbrev recorded_by : Option String → String → Bool
recorded_by none spent_by = false
recorded_by (some s) spent_by = str_eq s spent_by

-- The rest of the transaction from the row that it read.
unfoldable pub mark_row :
    Option WatchedOutpoint
    → String
    → ℕ
    → String
    → ℕ
    → List WatchedOutpoint
    → Result DatabaseError (WatchedOutpoint × List WatchedOutpoint)
mark_row none tx_hash index spent_by now ws = err not_found
mark_row (some current) tx_hash index spent_by now ws =
    if is_spent current
    then if recorded_by current.spent_by_tx_hash spent_by
      then ok (current, ws)
      else err constraint_violation
    else spend tx_hash index spent_by now ws

unfoldable pub mark_spent :
    String
    → ℕ
    → String
    → ℕ
    → List WatchedOutpoint
    → Result DatabaseError (WatchedOutpoint × List WatchedOutpoint)
unfolding mark_row spend
mark_spent tx_hash index spent_by now ws =
    mark_row (select_one (of_outpoint tx_hash index) ws) tx_hash index spent_by now ws

unfoldable pub list_active : List WatchedOutpoint → List WatchedOutpoint
list_active ws = select_all is_watching ws

unfoldable pub prune_spent : List WatchedOutpoint → List WatchedOutpoint × ℕ
prune_spent ws = (delete_where is_spent ws, changes is_spent ws)
