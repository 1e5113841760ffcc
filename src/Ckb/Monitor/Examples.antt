-- ===== src/Ckb/Monitor/Examples.antt =====
-- Waits of 100 ms from the time 1000, and a resume whose inputs were spent.
use cemp_mobile.Ckb.SpentMessage.{
  spent_elsewhere, matches_from, matches_here, double_spend_at, dot_and_word, starts_with_word,
  utf16_units,
}
use cemp_mobile.Prelude.{
  ◌≡◌, ◌≢◌, refl, ◌⊎◌, inl, true, false, [], ◌∷◌, ◌++◌, Option, none, some, ok, err, String, arith,
}
use cemp_mobile.Ckb.Monitor.{
  pending, proposed, unknown, committed, rejected, JournaledTx, Node, Polls, still_waiting,
  wait_until, wait_for_transaction_commit, resume_journaled_broadcast, resume_from, resume_unknown,
  after_parse, after_send,
}
use cemp_mobile.Ckb.Monitor.Waiting.{verdict, wait_ends_at, wait_terminates, abandoned_only_if}

abbrev early_polls : Polls
early_polls = (pending, 1010) ∷ (proposed, 1060) ∷ []

wait_ends_at_example :
    wait_for_transaction_commit 100 1000 "0xab" (early_polls ++ (committed "0xbb" "0x5", 1200) ∷ [])
    ≡ verdict "0xab" (committed "0xbb" "0x5")
wait_ends_at_example =
    wait_ends_at 100 1000 "0xab" early_polls [] (committed "0xbb" "0x5") 1200
      (omega arith, (omega arith, tt)) (inl refl)

wait_terminates_example :
    wait_until 1100 "0xab" (early_polls ++ (pending, 1100) ∷ []) ≢ err still_waiting
wait_terminates_example = wait_terminates 1100 "0xab" early_polls [] pending 1100 (omega arith)

abbrev spent_node : Node
spent_node = record {
  status = unknown;
  parse = λ tx_hex. ok tx_hex;
  send = λ wire. err "inputs already spent";
  started = 0;
  polls = [];
}

abbrev journaled_tx : JournaledTx
journaled_tx = record { tx_hash = "0xab"; tx_hex = some "{}" }

abandoned_only_if_example :
    ((reason : Option String) × (spent_node.status ≡ rejected reason) × (true ≡ false))
    ⊎ (((spent_node.status ≡ unknown) × (journaled_tx.tx_hex ≡ none) × (true ≡ false))
        ⊎ ((tx_hex wire message : String) × (spent_node.status ≡ unknown)
            × (journaled_tx.tx_hex ≡ some tx_hex)
            × (spent_node.parse tx_hex ≡ ok wire)
            × (spent_node.send wire ≡ err message)
            × (spent_elsewhere message ≡ true)
            × (true ≡ true)))
unfolding resume_journaled_broadcast resume_from resume_unknown after_parse after_send
    spent_elsewhere matches_from matches_here double_spend_at dot_and_word starts_with_word
    utf16_units
abandoned_only_if_example = abandoned_only_if 100 spent_node journaled_tx true refl

finds_double_spend : spent_elsewhere "TX rejected: Double-Spend" ≡ true
unfolding spent_elsewhere matches_from matches_here double_spend_at dot_and_word starts_with_word
    utf16_units
finds_double_spend = refl

passes_full_pool : spent_elsewhere "mempool is full" ≡ false
unfolding spent_elsewhere matches_from matches_here double_spend_at dot_and_word starts_with_word
    utf16_units
passes_full_pool = refl
