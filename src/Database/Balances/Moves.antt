-- ===== src/Database/Balances/Moves.antt =====
-- Moves between the categories conserve a wallet's capacity and never overdraw a category.
use cemp_mobile.Prelude.{
  ℕ, ◌+◌, ◌-◌, ◌≤◌, ◌<◌, ◌≡◌, refl, ap, ◌≢◌, inl, inr, ◌⊎◌, Bool-cases, ok, err, some, arith, List,
  ltb, ◌==◌, ltb→lt, ==→eq, true, false,
}
use cemp_mobile.Database.Errors.{constraint_violation}
use cemp_mobile.Database.Table.{
  select_one, update_where, select_one-update_self, select_one-update_other, select_one-holds,
}
use cemp_mobile.Database.Balances.{
  WalletBalance, Category, available, reserved, reclaimable, pending, value_of, set_value,
  max_integer, cast_integer, of_wallet, row_or_throw, get_balance, move_row, move, record_fee_burn,
  reconcile,
}

-- What the wallet holds in all categories.
abbrev pub held : WalletBalance → ℕ
held b = b.available_shannon + b.reserved_shannon + b.reclaimable_shannon + b.pending_shannon

of_row :
    (wallet_id : ℕ) (rows : List WalletBalance) {b : WalletBalance}
    → select_one (of_wallet wallet_id) rows ≡ some b
    → get_balance wallet_id rows ≡ ok b
unfolding get_balance
of_row wallet_id rows e = ap row_or_throw e

row_of :
    (wallet_id : ℕ) (rows : List WalletBalance) (b : WalletBalance)
    → get_balance wallet_id rows ≡ ok b
    → select_one (of_wallet wallet_id) rows ≡ some b
unfolding get_balance
row_of wallet_id rows b h = ground arith

get_balance-update :
    (wallet_id : ℕ) (rows : List WalletBalance) (b b' : WalletBalance)
    → get_balance wallet_id rows ≡ ok b
    → b'.wallet_id ≡ b.wallet_id
    → (get_balance wallet_id (update_where (of_wallet wallet_id) (λ _. b') rows) ≡ ok b')
      × ((other : ℕ)
          → other ≢ wallet_id
          → get_balance other (update_where (of_wallet wallet_id) (λ _. b') rows)
            ≡ get_balance other rows)
unfolding get_balance row_or_throw
get_balance-update wallet_id rows b b' h same = (
  of_row _ _ (select_one-update_self (of_wallet wallet_id) (λ _. b') b rows own found),
  (λ other ne. ap row_or_throw (
      select_one-update_other (of_wallet wallet_id) (of_wallet other) (λ _. b') rows
        (λ a e. ground arith)
        (λ a e. ground (arith, select_one-holds (of_wallet wallet_id) rows found, same)))),
)
  where
    found : select_one (of_wallet wallet_id) rows ≡ some b
    found = row_of wallet_id rows b h

    own : of_wallet wallet_id b' ≡ true
    own = rw same (select_one-holds (of_wallet wallet_id) rows found)

abbrev pub shifted : Category → Category → ℕ → ℕ → WalletBalance → WalletBalance
shifted from to amount now b =
    record (set_value to (value_of to b + amount) (set_value from (value_of from b - amount) b)) {
      updated_at_ms = now;
    }

-- What a move does to the row: the amount leaves one category for the other, and all else is kept.
abbrev pub IsShifted : Category → Category → ℕ → WalletBalance → WalletBalance → Type 0
IsShifted from to amount b b' =
    (value_of from b' + amount ≡ value_of from b)
    × (value_of to b' ≡ value_of to b + amount)
    × (held b' ≡ held b)
    × (b'.wallet_id ≡ b.wallet_id)
    × (b'.total_shannon ≡ b.total_shannon)

shifted-IsShifted :
    (from to : Category) (amount now : ℕ) (b : WalletBalance)
    → from ≢ to
    → amount ≤ value_of from b
    → IsShifted from to amount b (shifted from to amount now b)
shifted-IsShifted available available amount now b ne h = absurd (ne refl)
shifted-IsShifted reserved reserved amount now b ne h = absurd (ne refl)
shifted-IsShifted reclaimable reclaimable amount now b ne h = absurd (ne refl)
shifted-IsShifted pending pending amount now b ne h = absurd (ne refl)
shifted-IsShifted _ _ amount now b ne h = omega arith

move_row_lem :
    (from to : Category) (amount now : ℕ) (b : WalletBalance)
    → from ≢ to
    → ((value_of from b < amount) × (move_row from to amount now b ≡ err constraint_violation))
      ⊎ ((b' : WalletBalance) × (move_row from to amount now b ≡ ok b')
          × IsShifted from to amount b b')
unfolding move_row
move_row_lem from to amount now b ne = elim (Bool-cases (ltb (value_of from b) amount)) [
  | inl short ↦ inl (ltb→lt _ _ short, rw short)
  | inr enough ↦ inr (
    shifted from to amount now b,
    rw enough,
    shifted-IsShifted from to amount now b ne (ground (arith, enough)),
  )
]

-- Between two different categories, a move of a positive amount on a wallet with a row fails
-- exactly when the source is short; otherwise the amount leaves the one category of the wallet's row
-- for the other, the sum of the four and the total stay, and no other wallet's row changes.
pub move_lem :
    (from to : Category) (wallet_id amount now : ℕ) (rows : List WalletBalance) (b : WalletBalance)
    → from ≢ to
    → 0 < amount
    → get_balance wallet_id rows ≡ ok b
    → ((value_of from b < amount)
        × (move from to wallet_id amount now rows ≡ err constraint_violation))
      ⊎ ((b' : WalletBalance) × (rows' : List WalletBalance) × (move from to wallet_id amount now
              rows
            ≡ ok rows')
          × IsShifted from to amount b b'
          × (get_balance wallet_id rows' ≡ ok b')
          × ((other : ℕ) → other ≢ wallet_id → get_balance other rows' ≡ get_balance other rows))
unfolding move
move_lem from to wallet_id amount now rows b ne positive h =
    rw (positive_test, h)
      (elim (move_row_lem from to amount now b ne) [
        | inl (short, e) ↦ inl (short, rw e)
        | inr (b', e, shift) ↦
            let there = get_balance-update wallet_id rows b b' h shift.3 in
            inr
              (b', update_where (of_wallet wallet_id) (λ _. b') rows, rw e, shift, there.0, there.1)
      ])
  where
    positive_test : (amount == 0) ≡ false
    positive_test = ground arith

-- A move that the source covers, with the whole row that it leaves.
pub move_ok :
    (from to : Category) (wallet_id amount now : ℕ) (rows : List WalletBalance) (b : WalletBalance)
    → from ≢ to
    → 0 < amount
    → amount ≤ value_of from b
    → get_balance wallet_id rows ≡ ok b
    → (rows' : List WalletBalance) × (move from to wallet_id amount now rows ≡ ok rows')
      × (get_balance wallet_id rows' ≡ ok (shifted from to amount now b))
unfolding move move_row
move_ok from to wallet_id amount now rows b ne positive enough h =
    let shift = shifted-IsShifted from to amount now b ne enough in
    let there = get_balance-update wallet_id rows b (shifted from to amount now b) h shift.3 in
    (
      update_where (of_wallet wallet_id) (λ _. shifted from to amount now b) rows,
      rw (positive_test, h) (rw covered refl),
      there.0,
    )
  where
    positive_test : (amount == 0) ≡ false
    positive_test = ground arith

    covered : ltb (value_of from b) amount ≡ false
    covered = ground arith

-- A fee is taken from the reclaimable part, as far as it goes.
pub fee_burn_ok :
    (wallet_id amount now : ℕ) (rows : List WalletBalance) (b : WalletBalance)
    → 0 < amount
    → get_balance wallet_id rows ≡ ok b
    → get_balance wallet_id (record_fee_burn wallet_id amount now rows)
      ≡ ok (record b {
        reclaimable_shannon = cast_integer b.reclaimable_shannon - cast_integer amount;
        updated_at_ms = now;
      })
unfolding record_fee_burn get_balance
fee_burn_ok wallet_id amount now rows b positive h = rw positive_test (
    of_row _ _ (
      select_one-update_self (of_wallet wallet_id)
        (λ b. record b {
          reclaimable_shannon = cast_integer b.reclaimable_shannon - cast_integer amount;
          updated_at_ms = now;
        })
        b rows own found))
  where
    positive_test : (amount == 0) ≡ false
    positive_test = ground arith

    found : select_one (of_wallet wallet_id) rows ≡ some b
    found = row_of wallet_id rows b h

    own : of_wallet wallet_id b ≡ true
    own = select_one-holds (of_wallet wallet_id) rows found

-- The row after a fee of any amount, where the reclaimable part fits a 64-bit integer.
pub fee_burn_row :
    (wallet_id fee now : ℕ) (rows : List WalletBalance) (b : WalletBalance)
    → get_balance wallet_id rows ≡ ok b
    → b.reclaimable_shannon ≤ max_integer
    → (b' : WalletBalance) × (get_balance wallet_id (record_fee_burn wallet_id fee now rows)
        ≡ ok b')
      × (b'.available_shannon ≡ b.available_shannon)
      × (b'.reserved_shannon ≡ b.reserved_shannon)
      × (b'.reclaimable_shannon ≡ b.reclaimable_shannon - fee)
unfolding record_fee_burn
fee_burn_row wallet_id fee now rows b h small = elim (Bool-cases (fee == 0)) [
  | inl e ↦ (b, rw e h, refl, refl, omega (arith, ==→eq fee 0 e))
  | inr e ↦ (
    _,
    fee_burn_ok wallet_id fee now rows b (ground (arith, e)) h,
    refl,
    refl,
    omega (arith, small),
  )
]

-- The amounts after `setChainBalances` add up to the capacity that the chain reserves, and the
-- reclaimable part only ever shrinks.
pub reconcile_lem :
    (chain_reserved r c : ℕ)
    → let (r', c') = reconcile chain_reserved r c in (r' + c' ≡ chain_reserved) × (c' ≤ c)
unfolding reconcile
reconcile_lem chain_reserved r c = ground arith
