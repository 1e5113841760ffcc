-- ===== src/Ckb/Lifecycle/Examples.antt =====
-- One sent message whose cell is live, its journal row, an image attached to it, and its wallet.
use cemp_mobile.Prelude.{◌≡◌, refl, true, false, List, [], ◌∷◌, none, some, ok}
use cemp_mobile.Database.MessageStates.{outgoing, available_on_chain}
use cemp_mobile.Database.Messages.{Message}
use cemp_mobile.Database.OutgoingTransactions.{OutgoingTransaction, get_by_tx_hash}
use cemp_mobile.Database.Table.{select_one}
use cemp_mobile.Database.Balances.{WalletBalance}
use cemp_mobile.Ckb.Lifecycle.{World, Setting}
use cemp_mobile.Ckb.Lifecycle.Acknowledgements.{Receipt, process_acknowledgements}
use cemp_mobile.Ckb.Lifecycle.Reclaim.{dead, finish_resumed}
use cemp_mobile.Ckb.Lifecycle.Flows.{Flow, acknowledgements, response_sent, poll, run_flows}
use cemp_mobile.Ckb.Lifecycle.Credits.{lost, finish_resumed-again}
use cemp_mobile.Ckb.Lifecycle.Replays.{OnlyDownloads, process_acknowledgements-OnlyDownloads}

abbrev plain_setting : Setting
plain_setting = record {
  wallet_id = 1;
  now = 50;
  positive_integer = λ text. some 1;
  split = λ separator text. text ∷ [];
  after_prefix = λ prefix text. some "1";
  like = λ text prefix. true;
  concat = λ a b. "message:aa";
  join = λ separator parts. "1";
  print_integer = λ n. "1";
}

abbrev later_setting : Setting
later_setting = record plain_setting { now = 75 }

abbrev sent_message : Message
sent_message = record {
  id = 1;
  conversation_id = 1;
  direction = outgoing;
  state = available_on_chain;
  body = some "hello";
  logical_message_id = "aa";
  envelope_message_id_hex = some "e1";
  created_at_ms = 5;
  updated_at_ms = 9;
}

abbrev submitted_reclaim : OutgoingTransaction
submitted_reclaim = record {
  tx_hash = "t1";
  purpose = "reclaim:1";
  state = "submitted";
  fee_shannon = some 3;
  submitted_at_ms = some 10;
  committed_at_ms = none;
  block_hash = none;
  capacity_shannon = some 100;
  tx_hex = some "{}";
}

abbrev purse : WalletBalance
purse = record {
  wallet_id = 1;
  total_shannon = 1000;
  available_shannon = 800;
  reserved_shannon = 100;
  reclaimable_shannon = 100;
  pending_shannon = 0;
  updated_at_ms = 0;
}

abbrev one_sent : World
one_sent = record {
  messages = sent_message ∷ [];
  chain_refs = [];
  journal = submitted_reclaim ∷ [];
  balances = purse ∷ [];
  watches = [];
  attachments = record { message_id = 1; remote_downloaded = false } ∷ [];
}

abbrev downloaded : List Receipt
downloaded = record { message_id_hex = "e1"; status = 1 } ∷ []

abbrev a_day : List (Setting × Flow)
a_day =
    (plain_setting, acknowledgements downloaded)
    ∷ (plain_setting, response_sent 1 "t0" 0)
    ∷ (plain_setting, poll (λ hash index. dead))
    ∷ []

submitted_found : get_by_tx_hash "t1" one_sent.journal ≡ some submitted_reclaim
unfolding get_by_tx_hash select_one
submitted_found = refl

finish_resumed-again_example :
    let v = run_flows a_day (finish_resumed plain_setting submitted_reclaim (1 ∷ []) one_sent).1 in
    finish_resumed later_setting submitted_reclaim (1 ∷ []) v
    ≡ (ok (lost submitted_reclaim (1 ∷ [])), v)
finish_resumed-again_example =
    finish_resumed-again plain_setting later_setting submitted_reclaim submitted_reclaim (1 ∷ [])
      (1 ∷ []) a_day one_sent submitted_found

abbrev attachment_receipts : List Receipt
attachment_receipts =
    record { message_id_hex = "e1"; status = 5 } ∷ record { message_id_hex = "e1"; status = 9 } ∷ []

process_acknowledgements-OnlyDownloads_example :
    OnlyDownloads one_sent (process_acknowledgements plain_setting attachment_receipts one_sent)
process_acknowledgements-OnlyDownloads_example =
    process_acknowledgements-OnlyDownloads plain_setting attachment_receipts one_sent
      (refl, (refl, tt))
