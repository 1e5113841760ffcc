-- ===== src/Ckb/Lifecycle/Capacity.antt =====
-- No flow adds to what the wallet holds.
use cemp_mobile.Prelude.{ℕ, ◌≤◌, ◌≡◌, List, ok}
use cemp_mobile.Database.Balances.{WalletBalance, get_balance}
use cemp_mobile.Database.Balances.Moves.{held}
use cemp_mobile.Ckb.Lifecycle.{World}

-- The wallet has a row, which holds at most `most`.
abbrev pub HoldsAtMost : ℕ → ℕ → List WalletBalance → Type 0
HoldsAtMost wallet_id most rows =
    (b : WalletBalance) × (get_balance wallet_id rows ≡ ok b) × (held b ≤ most)

module _ (wallet_id most : ℕ) where
  Fits : World → Type 0
  Fits w = HoldsAtMost wallet_id most w.balances
