-- ===== src/Database/OutgoingTransactions/Examples.antt =====
-- Two engines at one journalled transaction.
use cemp_mobile.Prelude.{◌≤◌, refl, List, [], ◌∷◌, none, some, arith, String, str_apart}
use cemp_mobile.Database.Table.{changes}
use cemp_mobile.Database.OutgoingTransactions.{OutgoingTransaction, Patch}
use cemp_mobile.Database.OutgoingTransactions.Journal.{wins, wins-le-one}

abbrev submitted_tx : OutgoingTransaction
submitted_tx = record {
  tx_hash = "0xab";
  purpose = "reclaim:1";
  state = "submitted";
  fee_shannon = some 10;
  submitted_at_ms = some 1;
  committed_at_ms = none;
  block_hash = none;
  capacity_shannon = some 500;
  tx_hex = none;
}

abbrev commit_attempts : List (String × Patch)
commit_attempts =
    ("committed", record { committed_at_ms = some 7; block_hash = none })
    ∷ ("abandoned", record { committed_at_ms = none; block_hash = none })
    ∷ []

wins-le-one_example : wins "0xab" "submitted" (submitted_tx ∷ []) commit_attempts ≤ 1
unfolding changes
wins-le-one_example =
    wins-le-one "0xab" "submitted" (submitted_tx ∷ []) commit_attempts (omega arith)
      (str_apart "committed" "submitted" refl, (str_apart "abandoned" "submitted" refl, tt))
