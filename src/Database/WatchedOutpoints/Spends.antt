-- ===== src/Database/WatchedOutpoints/Spends.antt =====
-- A spend is recorded once, by one transaction, and pruning touches spent rows only.
use cemp_mobile.Prelude.{
  ℕ, ◌≡◌, refl, ◌∙◌, ap, ◌≢◌, List, [], ◌∷◌, Option, some, ok, err, String, eq_iff, eq_refl, arith,
  ◌⊎◌, inl, inr, true, false,
}
use cemp_mobile.Database.Table.{
  select_one, select_all, update_where, delete_where, insert_or_ignore_met, select_one-update_self,
  select_one-update_other, select_one-holds,
}
use cemp_mobile.Database.Errors.{constraint_violation}
use cemp_mobile.Database.WatchedOutpoints.{
  WatchedOutpoint, watching, spent, of_outpoint, read_back, register, get, spend, mark_row,
  mark_spent, list_active, prune_spent,
}

-- An outpoint that is watched keeps its row, whatever the second registration says.
pub register_again :
    (tx_hash : String) (index : ℕ) (purpose : String) (group : Option ℕ) (now : ℕ)
    (ws : List WatchedOutpoint) (w : WatchedOutpoint)
    → get tx_hash index ws ≡ some w
    → register tx_hash index purpose group now ws ≡ ok (w, ws)
unfolding register get
register_again tx_hash index purpose group now ws w h =
    ap (λ r. read_back tx_hash index r.0) (insert_or_ignore_met (of_outpoint tx_hash index) _ ws h)
    ∙ rw (h, read_back)

abbrev pub spent_row : String → ℕ → WatchedOutpoint → WatchedOutpoint
spent_row by now w = record w { status = spent; spent_by_tx_hash = some by; spent_at_ms = some now }

-- A row of one outpoint is no row of another.
outpoint_apart :
    (tx_hash other : String) (index i : ℕ) (a : WatchedOutpoint)
    → (other ≢ tx_hash) ⊎ (i ≢ index)
    → of_outpoint tx_hash index a ≡ true
    → of_outpoint other i a ≡ false
outpoint_apart tx_hash other index i a (inl ne) e =
    ground (arith, e, eq_iff a.tx_hash tx_hash, eq_iff a.tx_hash other, ne)
outpoint_apart tx_hash other index i a (inr ne) e = ground (arith, e, ne)

-- The first spend of a watched outpoint is stored in its row, and every other outpoint is found as
-- before. After it, the same transaction is accepted again with no change, and a different one is
-- refused.
pub mark_spent_once :
    (tx_hash : String) (index : ℕ) (by : String) (now : ℕ) (ws : List WatchedOutpoint)
    (w : WatchedOutpoint)
    → get tx_hash index ws ≡ some w
    → w.status ≡ watching
    → (ws' : List WatchedOutpoint) × (mark_spent tx_hash index by now ws
        ≡ ok (spent_row by now w, ws'))
      × ((later : ℕ) → mark_spent tx_hash index by later ws' ≡ ok (spent_row by now w, ws'))
      × ((rival : String) (later : ℕ)
          → rival ≢ by
          → mark_spent tx_hash index rival later ws' ≡ err constraint_violation)
      × ((other : String) (i : ℕ)
          → (other ≢ tx_hash) ⊎ (i ≢ index)
          → get other i ws' ≡ get other i ws)
unfolding mark_spent get spend read_back
mark_spent_once tx_hash index by now ws w h s = (
  ws',
  ap (λ r. mark_row r tx_hash index by now ws) h ∙ rw (s, mark_row) (rw (stored, read_back)),
  (λ later. ap (λ r. mark_row r tx_hash index by later ws') stored ∙ rw (eq_refl by, mark_row)),
  (λ rival later ne.
      ap (λ r. mark_row r tx_hash index rival later ws') stored
      ∙ ground (arith, eq_iff by rival, ne)),
  (λ other i apart.
      select_one-update_other (of_outpoint tx_hash index) (of_outpoint other i) (spent_row by now)
        ws (λ a e. outpoint_apart tx_hash other index i a apart e)
        (λ a e. outpoint_apart tx_hash other index i a apart e)),
)
  where
    ws' : List WatchedOutpoint
    ws' = update_where (of_outpoint tx_hash index) (spent_row by now) ws

    stored : select_one (of_outpoint tx_hash index) ws' ≡ some (spent_row by now w)
    stored =
        select_one-update_self (of_outpoint tx_hash index) (spent_row by now) w ws
          (select_one-holds (of_outpoint tx_hash index) ws h) h

-- Pruning drops every spent row and no watched one: the active watches are the same list, and an
-- outpoint that was being watched is found as before.
pub list_active-prune_spent :
    (ws : List WatchedOutpoint) → list_active (prune_spent ws).0 ≡ list_active ws
unfolding list_active prune_spent select_all delete_where
list_active-prune_spent [] = refl
list_active-prune_spent (w ∷ ws) = ground (arith, list_active-prune_spent ws)
