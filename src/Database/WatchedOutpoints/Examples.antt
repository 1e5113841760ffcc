-- ===== src/Database/WatchedOutpoints/Examples.antt =====
-- One watched outpoint that is spent.
use cemp_mobile.Prelude.{ℕ, ◌≡◌, ◌≢◌, ◌⊎◌, refl, List, [], ◌∷◌, none, ok, err, String}
use cemp_mobile.Database.Errors.{constraint_violation}
use cemp_mobile.Database.Table.{select_one}
use cemp_mobile.Database.WatchedOutpoints.{
  WatchedOutpoint, watching, spent, get, mark_spent, list_active, prune_spent,
}
use cemp_mobile.Database.WatchedOutpoints.Spends.{
  spent_row, mark_spent_once, list_active-prune_spent,
}

abbrev watched : WatchedOutpoint
watched = record {
  id = 1;
  tx_hash = "0xab";
  outpoint_index = 0;
  purpose = "response:1";
  status = watching;
  spent_by_tx_hash = none;
  reclaim_group_id = none;
  created_at_ms = 3;
  spent_at_ms = none;
}

mark_spent_once_example :
    (ws' : List WatchedOutpoint) × (mark_spent "0xab" 0 "0xcd" 8 (watched ∷ [])
      ≡ ok (spent_row "0xcd" 8 watched, ws'))
    × ((later : ℕ) → mark_spent "0xab" 0 "0xcd" later ws' ≡ ok (spent_row "0xcd" 8 watched, ws'))
    × ((rival : String) (later : ℕ)
        → rival ≢ "0xcd"
        → mark_spent "0xab" 0 rival later ws' ≡ err constraint_violation)
    × ((other : String) (i : ℕ)
        → (other ≢ "0xab") ⊎ (i ≢ 0)
        → get other i ws' ≡ get other i (watched ∷ []))
unfolding get select_one
mark_spent_once_example = mark_spent_once "0xab" 0 "0xcd" 8 (watched ∷ []) watched refl refl

list_active-prune_spent_example :
    list_active (prune_spent (record watched { status = spent } ∷ watched ∷ [])).0
    ≡ list_active (record watched { status = spent } ∷ watched ∷ [])
list_active-prune_spent_example =
    list_active-prune_spent (record watched { status = spent } ∷ watched ∷ [])
