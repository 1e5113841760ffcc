-- ===== src/Database/Balances/Examples.antt =====
-- Moves in a concrete wallet.
use cemp_mobile.Prelude.{ℕ, ◌<◌, ◌≡◌, ◌≢◌, refl, ◌⊎◌, List, [], ◌∷◌, ok, err, arith}
use cemp_mobile.Database.Errors.{constraint_violation}
use cemp_mobile.Database.Table.{select_one}
use cemp_mobile.Database.Balances.{
  WalletBalance, available, reserved, get_balance, row_or_throw, move,
}
use cemp_mobile.Database.Balances.Moves.{IsShifted, move_lem}

abbrev pub wallet : WalletBalance
wallet = record {
  wallet_id = 1;
  total_shannon = 100;
  available_shannon = 60;
  reserved_shannon = 40;
  reclaimable_shannon = 0;
  pending_shannon = 0;
  updated_at_ms = 0;
}

pub get_balance-wallet : get_balance 1 (wallet ∷ []) ≡ ok wallet
unfolding get_balance row_or_throw select_one
get_balance-wallet = refl

categories-apart : available ≢ reserved
categories-apart e = cc

move_lem_example :
    ((60 < 25) × (move available reserved 1 25 9 (wallet ∷ []) ≡ err constraint_violation))
    ⊎ ((b' : WalletBalance) × (rows' : List WalletBalance) × (move available reserved 1 25 9
            (wallet ∷ [])
          ≡ ok rows')
        × IsShifted available reserved 25 wallet b'
        × (get_balance 1 rows' ≡ ok b')
        × ((other : ℕ) → other ≢ 1 → get_balance other rows' ≡ get_balance other (wallet ∷ [])))
move_lem_example =
    move_lem available reserved 1 25 9 (wallet ∷ []) wallet categories-apart (omega arith)
      get_balance-wallet
