-- ===== src/Images/Reclaim.antt =====
-- packages/cemp-images/src/reclaim.ts and capacity.ts: the capacity that a committed reclaim of an
-- image's cells gives back, in the wallet's balances.
pub mod Finalize
pub mod Examples
use cemp_mobile.Prelude.{
  ℕ, ◌+◌, ◌-◌, ◌*◌, Bool, List, Option, none, some, Result, ok, err, if◌then◌else◌, ltb, leb, ◌==◌,
  ◌>>=◌,
}
use cemp_mobile.Database.Errors.{DatabaseError}
use cemp_mobile.Database.Balances.{
  WalletBalance, mark_reclaimable, release_reclaimed_capacity, record_fee_burn,
}
use mathlib.Core.Option.{get_or}

-- `capacity > fee ? capacity - fee : 0`
abbrev pub net_release : ℕ → ℕ → ℕ
net_release capacity fee = if ltb fee capacity then capacity - fee else 0

-- `finalizeCommittedReclaim` over the table of balances: what was released, and the rows. Its calls are
-- transactions of their own; the rows that an error leaves are not modelled.
pub finalize_committed_reclaim :
    ℕ → Option ℕ → Option ℕ → ℕ → List WalletBalance → Result DatabaseError (ℕ × List WalletBalance)
finalize_committed_reclaim wallet_id capacity_shannon fee_shannon now rows =
    let capacity = get_or capacity_shannon 0 in
    let fee = get_or fee_shannon 0 in
    let released = net_release capacity fee in
    (if ltb 0 capacity then mark_reclaimable wallet_id capacity now rows else ok rows) >>= λ funded.
    (if ltb 0 released then release_reclaimed_capacity wallet_id released now funded else ok funded)
    >>= λ paid. ok (released, record_fee_burn wallet_id fee now paid)

abbrev pub shannon_per_ckb : ℕ
shannon_per_ckb = 100000000

pub estimate_image_send_shannon : ℕ → ℕ → ℕ → ℕ → ℕ
estimate_image_send_shannon chunk_count per_chunk message_cell fee_reserve =
    chunk_count * per_chunk + message_cell + fee_reserve

pub has_sufficient_capacity : ℕ → ℕ → Bool
has_sufficient_capacity available required = leb required available
