-- ===== src/Ckb/Lifecycle/Watches.antt =====
-- packages/cemp-ckb/src/lifecycle.ts: the responder's watch on the cell that it answered.
use cemp_mobile.Prelude.{ℕ, List, [], ◌∷◌, ◌++◌, Option, none, some, String}
use cemp_mobile.Prelude.Actions.{pure, raise, modify, ◌>>=◌, ◌>>◌}
use cemp_mobile.Database.MessageStates.{awaiting_remote_reclaim, remote_reclaimed}
use cemp_mobile.Database.WatchedOutpoints.{WatchedOutpoint, list_active}
use cemp_mobile.Ckb.Monitor.{transient}
use cemp_mobile.Ckb.Lifecycle.{
  monitor_error, LifecycleAction, Setting, transition_message, register_watch, mark_watch_spent,
  prune_spent_watches,
}
use cemp_mobile.Ckb.Lifecycle.Reclaim.{CellStatus, live, dead, unknown_cell, cell_call_threw}

module _ (setting : Setting) where
  unfoldable pub finalize_response_sent : ℕ → String → ℕ → LifecycleAction (Unit {0})
  unfolding transition_message register_watch
  finalize_response_sent response_row_id tx_hash index = do
    transition_message setting response_row_id awaiting_remote_reclaim
    register_watch setting tx_hash index
        (setting.concat "response:" (setting.print_integer response_row_id))

  -- `response:<rowId>` to the id; `none` for the other watches.
  abbrev pub parse_watch_purpose : String → Option ℕ
  parse_watch_purpose purpose = id_of (setting.after_prefix "response:" purpose)
    where
      id_of : Option String → Option ℕ
      id_of none = none
      id_of (some body) = setting.positive_integer body

  abbrev pub response_reclaimed : Option ℕ → LifecycleAction (Unit {0})
  response_reclaimed none = pure tt
  response_reclaimed (some id) = transition_message setting id remote_reclaimed

  -- One turn of the loop: the purposes that it pushes.
  unfoldable pub poll_watch : WatchedOutpoint → CellStatus → LifecycleAction (List String)
  unfolding mark_watch_spent transition_message
  poll_watch watch (live capacity) = pure []
  poll_watch watch unknown_cell = pure []
  poll_watch watch (cell_call_threw message) = raise (monitor_error (transient message))
  poll_watch watch dead = do
    mark_watch_spent setting watch.tx_hash watch.outpoint_index "unknown-spender"
    response_reclaimed (parse_watch_purpose watch.purpose)
    pure (watch.purpose ∷ [])

  unfoldable pub poll_watches :
      (String → ℕ → CellStatus) → List WatchedOutpoint → LifecycleAction (List String)
  unfolding poll_watch
  poll_watches get_live_cell [] = pure []
  poll_watches get_live_cell (watch ∷ watches) = do
    found ← poll_watch watch (get_live_cell watch.tx_hash watch.outpoint_index)
    rest ← poll_watches get_live_cell watches
    pure (found ++ rest)

  abbrev pub prune_if_any : List String → LifecycleAction (Unit {0})
  prune_if_any [] = pure tt
  prune_if_any (purpose ∷ purposes) = modify prune_spent_watches

  abbrev pub pruned : List String → LifecycleAction (List String)
  pruned spent_purposes = prune_if_any spent_purposes >> pure spent_purposes

  unfoldable pub poll_watches_once : (String → ℕ → CellStatus) → LifecycleAction (List String)
  unfolding poll_watches list_active prune_spent_watches
  poll_watches_once get_live_cell w =
      (poll_watches get_live_cell (list_active w.watches) >>= pruned) w
