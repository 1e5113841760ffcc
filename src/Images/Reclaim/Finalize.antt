-- ===== src/Images/Reclaim/Finalize.antt =====
-- What a committed reclaim does to the wallet's balances.
use cemp_mobile.Prelude.{ℕ, ◌+◌, ◌-◌, ◌≤◌, ◌<◌, ◌≡◌, some, ok, arith, List}
use cemp_mobile.Database.Balances.{
  max_integer, WalletBalance, available, reserved, reclaimable, get_balance, mark_reclaimable,
  release_reclaimed_capacity, record_fee_burn,
}
use cemp_mobile.Database.Balances.Moves.{move_ok, fee_burn_row}
use cemp_mobile.Images.Reclaim.{finalize_committed_reclaim}

-- A reclaim that committed, of a capacity that the wallet holds as reserved, that exceeds the fee and
-- that with the reclaimable part fits SQLite's 64-bit integer: the call returns the capacity less the fee, which is what the available part gains; the reserved
-- part loses the whole capacity, and the reclaimable part is as it was before.
pub finalize_lem :
    (wallet_id capacity fee now : ℕ) (rows : List WalletBalance) (b : WalletBalance)
    → get_balance wallet_id rows ≡ ok b
    → fee < capacity
    → capacity ≤ b.reserved_shannon
    → b.reclaimable_shannon + capacity ≤ max_integer
    → (b' : WalletBalance) × (rows' : List WalletBalance) × (finalize_committed_reclaim wallet_id
          (some capacity)
          (some fee)
          now
          rows
        ≡ ok (capacity - fee, rows'))
      × (get_balance wallet_id rows' ≡ ok b')
      × (b'.available_shannon + fee ≡ b.available_shannon + capacity)
      × (b'.reserved_shannon + capacity ≡ b.reserved_shannon)
      × (b'.reclaimable_shannon ≡ b.reclaimable_shannon)
unfolding finalize_committed_reclaim mark_reclaimable release_reclaimed_capacity
finalize_lem wallet_id capacity fee now rows b h more enough small =
    let (funded, marked, row) =
      move_ok reserved reclaimable wallet_id capacity now rows b (λ e. cc) (omega arith) enough h in
    let (paid, released, row') =
      move_ok reclaimable available wallet_id (capacity - fee) now funded _ (λ e. cc) (omega arith)
        (omega (arith, more)) row in
    let (b', there, gained, lost, rest) =
      fee_burn_row wallet_id fee now paid _ row' (omega (arith, small)) in
    (
      b',
      record_fee_burn wallet_id fee now paid,
      ground (arith, marked, released),
      there,
      omega (arith, gained),
      omega (arith, lost),
      omega (arith, rest),
    )
