-- ===== src/Images/Reclaim/Examples.antt =====
-- A reclaim of 40 shannon at a fee of 3.
use cemp_mobile.Prelude.{◌+◌, ◌≡◌, List, [], ◌∷◌, some, ok, arith}
use cemp_mobile.Database.Balances.{WalletBalance, get_balance}
use cemp_mobile.Database.Balances.Examples.{wallet, get_balance-wallet}
use cemp_mobile.Images.Reclaim.{finalize_committed_reclaim}
use cemp_mobile.Images.Reclaim.Finalize.{finalize_lem}

finalize_lem_example :
    (b' : WalletBalance) × (rows' : List WalletBalance) × (finalize_committed_reclaim 1
        (some 40)
        (some 3)
        9
        (wallet ∷ [])
      ≡ ok (37, rows'))
    × (get_balance 1 rows' ≡ ok b')
    × (b'.available_shannon + 3 ≡ 100)
    × (b'.reserved_shannon + 40 ≡ 40)
    × (b'.reclaimable_shannon ≡ 0)
finalize_lem_example =
    finalize_lem 1 40 3 9 (wallet ∷ []) wallet get_balance-wallet (omega arith) (omega arith)
      (omega arith)
