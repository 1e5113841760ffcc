-- ===== src/Ckb/Monitor/Waiting.antt =====
-- How a wait ends, and when a resume gives a journalled transaction up.
use cemp_mobile.Ckb.SpentMessage.{spent_elsewhere}
use cemp_mobile.Prelude.{
  ℕ, ◌+◌, ◌≤◌, ◌<◌, ◌≡◌, refl, ◌∙◌, ◌≢◌, ◌⊎◌, inl, inr, Bool, true, false, [], ◌∷◌, ◌++◌, Option,
  none, some, Result, ok, err, String, arith, Bool-cases, str_eq, ◌>>=◌,
}
use cemp_mobile.Ckb.Monitor.{
  TransactionStatus, pending, proposed, unknown, committed, rejected, status_call_threw, transient,
  CommitResult, MonitorError, tx_rejected, timed_out, journaled_abandoned, still_waiting, Polls,
  wait_until, JournaledTx, ResumeBroadcastOutcome, already_committed, rebroadcast, Node, after_send,
  after_parse, resume_unknown, resume_from, resume_journaled_broadcast, wait_for_transaction_commit,
}

-- A poll that neither ends the wait nor finds the deadline passed.
abbrev pub IsWaiting : ℕ → Polls → Type 0
IsWaiting deadline [] = Unit {0}
IsWaiting deadline ((committed block number, now) ∷ polls) = ⊥
IsWaiting deadline ((rejected reason, now) ∷ polls) = ⊥
IsWaiting deadline ((status_call_threw message, now) ∷ polls) = ⊥
IsWaiting deadline ((_, now) ∷ polls) = (now < deadline) × IsWaiting deadline polls

-- The wait looks past the polls that come before the deadline with no final status.
wait_until-append :
    (deadline : ℕ) (tx_hash : String) (before after : Polls)
    → IsWaiting deadline before
    → wait_until deadline tx_hash (before ++ after) ≡ wait_until deadline tx_hash after
unfolding wait_until
wait_until-append deadline tx_hash [] after w = refl
wait_until-append deadline tx_hash ((committed block number, now) ∷ polls) after w = absurd w
wait_until-append deadline tx_hash ((rejected reason, now) ∷ polls) after w = absurd w
wait_until-append deadline tx_hash ((status_call_threw message, now) ∷ polls) after w = absurd w
wait_until-append deadline tx_hash ((pending, now) ∷ polls) after w =
    ground (arith, wait_until-append deadline tx_hash polls after w.1, w)
wait_until-append deadline tx_hash ((proposed, now) ∷ polls) after w =
    ground (arith, wait_until-append deadline tx_hash polls after w.1, w)
wait_until-append deadline tx_hash ((unknown, now) ∷ polls) after w =
    ground (arith, wait_until-append deadline tx_hash polls after w.1, w)

abbrev pub is_final : TransactionStatus → Bool
is_final (committed block number) = true
is_final (rejected reason) = true
is_final (status_call_threw message) = true
is_final _ = false

-- What a poll with a final status, one whose call threw, or one at or behind the deadline, makes of the wait. The status
-- counts first: a commit that is seen late is a commit.
abbrev pub verdict : String → TransactionStatus → Result MonitorError CommitResult
verdict tx_hash (committed block number) =
    ok (record { tx_hash = tx_hash; block_hash = block; block_number = number })
verdict tx_hash (rejected reason) = err (tx_rejected reason)
verdict tx_hash (status_call_threw message) = err (transient message)
verdict tx_hash status = err (timed_out status)

-- A wait ends at its first poll that is final, whose call threw, or that comes not before the deadline, with that poll's verdict;
-- later answers do not matter.
pub wait_ends_at :
    (timeout_ms started : ℕ) (tx_hash : String) (before after : Polls) (status : TransactionStatus)
    (now : ℕ)
    → IsWaiting (started + timeout_ms) before
    → (is_final status ≡ true) ⊎ (started + timeout_ms ≤ now)
    → wait_for_transaction_commit timeout_ms started tx_hash (before ++ (status, now) ∷ after)
      ≡ verdict tx_hash status
unfolding wait_for_transaction_commit
wait_ends_at timeout_ms started tx_hash before after status now w ends =
    wait_until-append (started + timeout_ms) tx_hash before ((status, now) ∷ after) w
    ∙ last status ends
  where
    last :
        (s : TransactionStatus)
        → (is_final s ≡ true) ⊎ (started + timeout_ms ≤ now)
        → wait_until (started + timeout_ms) tx_hash ((s, now) ∷ after) ≡ verdict tx_hash s
    last (committed block number) e = unfold wait_until in refl
    last (rejected reason) e = unfold wait_until in refl
    last (status_call_threw message) e = unfold wait_until in refl
    last pending e = unfold wait_until in ground arith
    last proposed e = unfold wait_until in ground arith
    last unknown e = unfold wait_until in ground arith

-- A wait cannot outlast its polls: if some answer comes at or behind the deadline, the wait has ended
-- by then, whatever the answers were.
pub wait_terminates :
    (deadline : ℕ) (tx_hash : String) (before after : Polls) (status : TransactionStatus) (now : ℕ)
    → deadline ≤ now
    → wait_until deadline tx_hash (before ++ (status, now) ∷ after) ≢ err still_waiting
unfolding wait_until
wait_terminates deadline tx_hash [] after (committed block number) now h e = cc
wait_terminates deadline tx_hash [] after (rejected reason) now h e = cc
wait_terminates deadline tx_hash [] after (status_call_threw message) now h e = cc
wait_terminates deadline tx_hash [] after _ now h e = ground arith
wait_terminates deadline tx_hash ((committed block number, t) ∷ polls) after status now h e = cc
wait_terminates deadline tx_hash ((rejected reason, t) ∷ polls) after status now h e = cc
wait_terminates deadline tx_hash ((status_call_threw message, t) ∷ polls) after status now h e = cc
wait_terminates deadline tx_hash ((_, t) ∷ polls) after status now h e =
    ground (arith, wait_terminates deadline tx_hash polls after status now h)

-- A wait never gives the transaction up.
wait_until-keeps :
    (deadline : ℕ) (tx_hash : String) (polls : Polls) (elsewhere : Bool)
    → wait_until deadline tx_hash polls ≢ err (journaled_abandoned elsewhere)
unfolding wait_until
wait_until-keeps deadline tx_hash [] elsewhere e = cc
wait_until-keeps deadline tx_hash ((committed block number, t) ∷ polls) elsewhere e = cc
wait_until-keeps deadline tx_hash ((rejected reason, t) ∷ polls) elsewhere e = cc
wait_until-keeps deadline tx_hash ((status_call_threw message, t) ∷ polls) elsewhere e = cc
wait_until-keeps deadline tx_hash ((_, t) ∷ polls) elsewhere e =
    ground (arith, wait_until-keeps deadline tx_hash polls elsewhere)

then_keeps :
    (outcome : ResumeBroadcastOutcome) (wait : Result MonitorError CommitResult) (elsewhere : Bool)
    → wait ≢ err (journaled_abandoned elsewhere)
    → (wait >>= λ _. ok outcome) ≢ err (journaled_abandoned elsewhere)
then_keeps outcome (ok r) elsewhere h e = cc
then_keeps outcome (err x) elsewhere h e = h cc

-- A resume gives the journalled transaction up in three cases only: the network rejected it; it is
-- unknown and the journal has no bytes; or the rebroadcast failed with a message of spent inputs. In
-- all but the last the inputs were not seen spent elsewhere.
pub abandoned_only_if :
    (timeout_ms : ℕ) (node : Node) (journaled : JournaledTx) (elsewhere : Bool)
    → resume_journaled_broadcast timeout_ms node journaled ≡ err (journaled_abandoned elsewhere)
    → ((reason : Option String) × (node.status ≡ rejected reason) × (elsewhere ≡ false))
      ⊎ (((node.status ≡ unknown) × (journaled.tx_hex ≡ none) × (elsewhere ≡ false))
          ⊎ ((tx_hex wire message : String) × (node.status ≡ unknown)
              × (journaled.tx_hex ≡ some tx_hex)
              × (node.parse tx_hex ≡ ok wire)
              × (node.send wire ≡ err message)
              × (spent_elsewhere message ≡ true)
              × (elsewhere ≡ true)))
unfolding resume_journaled_broadcast
abandoned_only_if timeout_ms node journaled elsewhere h = from node.status refl h
  where
    wait : Result MonitorError CommitResult
    wait = wait_for_transaction_commit timeout_ms node.started journaled.tx_hash node.polls

    keeps : wait ≢ err (journaled_abandoned elsewhere)
    keeps =
        unfold wait_for_transaction_commit in
        wait_until-keeps (node.started + timeout_ms) journaled.tx_hash node.polls elsewhere

    Cases : Type 0
    Cases =
        ((reason : Option String) × (node.status ≡ rejected reason) × (elsewhere ≡ false))
        ⊎ (((node.status ≡ unknown) × (journaled.tx_hex ≡ none) × (elsewhere ≡ false))
            ⊎ ((tx_hex wire message : String) × (node.status ≡ unknown)
                × (journaled.tx_hex ≡ some tx_hex)
                × (node.parse tx_hex ≡ ok wire)
                × (node.send wire ≡ err message)
                × (spent_elsewhere message ≡ true)
                × (elsewhere ≡ true)))

    unsent :
        (tx_hex wire : String) (sent : Result String String)
        → node.status ≡ unknown
        → journaled.tx_hex ≡ some tx_hex
        → node.parse tx_hex ≡ ok wire
        → node.send wire ≡ sent
        → after_send wait journaled.tx_hash sent ≡ err (journaled_abandoned elsewhere)
        → Cases
    unsent tx_hex wire (err message) s t p q e = elim (Bool-cases (spent_elsewhere message)) [
      | inl m ↦
          inr
            (inr (tx_hex, wire, message, s, t, p, q, m, unfold after_send in ground (arith, m, e)))
      | inr m ↦ absurd (unfold after_send in ground (arith, m, e))
    ]
    unsent tx_hex wire (ok hash) s t p q e = elim (Bool-cases (str_eq hash journaled.tx_hash)) [
      | inl m ↦
          absurd (
            then_keeps rebroadcast wait elsewhere keeps (unfold after_send in ground (arith, m, e)))
      | inr m ↦ absurd (unfold after_send in ground (arith, m, e))
    ]

    unparsed :
        (tx_hex : String) (parsed : Result String String)
        → node.status ≡ unknown
        → journaled.tx_hex ≡ some tx_hex
        → node.parse tx_hex ≡ parsed
        → after_parse wait journaled.tx_hash node.send parsed ≡ err (journaled_abandoned elsewhere)
        → Cases
    unparsed tx_hex (err message) s t p e = cc
    unparsed tx_hex (ok wire) s t p e =
        unsent tx_hex wire (node.send wire) s t p refl (unfold after_parse in e)

    unjournaled :
        (o : Option String)
        → node.status ≡ unknown
        → journaled.tx_hex ≡ o
        → resume_unknown wait journaled.tx_hash node o ≡ err (journaled_abandoned elsewhere)
        → Cases
    unjournaled none s t e = inr (inl (s, t, cc))
    unjournaled (some tx_hex) s t e =
        unparsed tx_hex (node.parse tx_hex) s t refl (unfold resume_unknown in e)

    from :
        (status : TransactionStatus)
        → node.status ≡ status
        → resume_from wait node journaled status ≡ err (journaled_abandoned elsewhere)
        → Cases
    from (committed block number) s e = cc
    from (rejected reason) s e = inl (reason, s, cc)
    from (status_call_threw message) s e = cc
    from pending s e = absurd (then_keeps already_committed wait elsewhere keeps e)
    from proposed s e = absurd (then_keeps already_committed wait elsewhere keeps e)
    from unknown s e = unjournaled journaled.tx_hex s refl e
