-- ===== src/Ckb/Monitor.antt =====
-- packages/cemp-ckb/src/monitor.ts: waiting for a commit, and resuming a journalled broadcast.
-- A status that the node answers is one element of a list, with the clock after the answer.
pub mod Waiting
pub mod Examples
use cemp_mobile.Ckb.SpentMessage.{spent_elsewhere}
use cemp_mobile.Prelude.{
  ℕ, zero, suc, ◌+◌, ◌-◌, ◌≡◌, Bool, true, false, not, List, [], ◌∷◌, Option, none, some, Result,
  ok, err, String, str_eq, if◌then◌else◌, leb, ◌>>=◌,
}

pub data TransactionStatus : Type 0 where
  pending proposed unknown : TransactionStatus
  committed : String → String → TransactionStatus
  rejected : Option String → TransactionStatus
  -- No status: the call of `getTransaction` threw.
  status_call_threw : String → TransactionStatus

pub record CommitResult : Type 0 where
  pub tx_hash : String
  pub block_hash : String
  pub block_number : String

-- CempCkbError "monitor", JournaledAbandonedError with `inputsSpentElsewhere`, or what the client threw.
pub data MonitorError : Type 0 where
  tx_rejected : Option String → MonitorError
  timed_out : TransactionStatus → MonitorError
  different_hash : MonitorError
  journaled_abandoned : Bool → MonitorError
  transient : String → MonitorError
  -- The list of answers ended: no call of the source.
  still_waiting : MonitorError

-- Each poll: the status that the node answers, and `Date.now()` after it.
abbrev pub Polls : Type 0
Polls = List (TransactionStatus × ℕ)

-- The loop of `waitForTransactionCommit` up to its deadline.
unfoldable pub wait_until : ℕ → String → Polls → Result MonitorError CommitResult
wait_until deadline tx_hash [] = err still_waiting
wait_until deadline tx_hash ((committed block number, now) ∷ polls) =
    ok (record { tx_hash = tx_hash; block_hash = block; block_number = number })
wait_until deadline tx_hash ((rejected reason, now) ∷ polls) = err (tx_rejected reason)
wait_until deadline tx_hash ((status_call_threw message, now) ∷ polls) = err (transient message)
wait_until deadline tx_hash ((pending, now) ∷ polls) =
    let rest = wait_until deadline tx_hash polls in
    if leb deadline now then err (timed_out pending) else rest
wait_until deadline tx_hash ((proposed, now) ∷ polls) =
    let rest = wait_until deadline tx_hash polls in
    if leb deadline now then err (timed_out proposed) else rest
wait_until deadline tx_hash ((unknown, now) ∷ polls) =
    let rest = wait_until deadline tx_hash polls in
    if leb deadline now then err (timed_out unknown) else rest

unfoldable pub wait_for_transaction_commit :
    ℕ → ℕ → String → Polls → Result MonitorError CommitResult
wait_for_transaction_commit timeout_ms started tx_hash polls =
    wait_until (started + timeout_ms) tx_hash polls

pub record JournaledTx : Type 0 where
  pub tx_hash : String
  pub tx_hex : Option String

pub data ResumeBroadcastOutcome : Type 0 where
  already_committed rebroadcast : ResumeBroadcastOutcome

-- What a resume meets: the answer to the client's first `getTransaction`, `JSON.parse` of the journalled bytes, the answer to
-- a rebroadcast (its hash, or the message thrown), and the polls of a wait.
pub record Node : Type 0 where
  pub status : TransactionStatus
  pub parse : String → Result String String
  pub send : String → Result String String
  pub started : ℕ
  pub polls : Polls

-- `wait` is the wait at the end.
unfoldable pub after_send :
    Result MonitorError CommitResult
    → String
    → Result String String
    → Result MonitorError ResumeBroadcastOutcome
after_send wait tx_hash (err message) =
    if not (spent_elsewhere message)
    then err (transient message)
    else err (journaled_abandoned true)
after_send wait tx_hash (ok hash) =
    if not (str_eq hash tx_hash) then err different_hash else (wait >>= λ _. ok rebroadcast)

unfoldable pub after_parse :
    Result MonitorError CommitResult
    → String
    → (String → Result String String)
    → Result String String
    → Result MonitorError ResumeBroadcastOutcome
unfolding after_send
after_parse wait tx_hash send (err message) = err (transient message)
after_parse wait tx_hash send (ok wire) = after_send wait tx_hash (send wire)

unfoldable pub resume_unknown :
    Result MonitorError CommitResult
    → String
    → Node
    → Option String
    → Result MonitorError ResumeBroadcastOutcome
unfolding after_parse
resume_unknown wait tx_hash node none = err (journaled_abandoned false)
resume_unknown wait tx_hash node (some tx_hex) =
    after_parse wait tx_hash node.send (node.parse tx_hex)

unfoldable pub resume_from :
    Result MonitorError CommitResult
    → Node
    → JournaledTx
    → TransactionStatus
    → Result MonitorError ResumeBroadcastOutcome
unfolding resume_unknown
resume_from wait node journaled (committed block number) = ok already_committed
resume_from wait node journaled (rejected reason) = err (journaled_abandoned false)
resume_from wait node journaled (status_call_threw message) = err (transient message)
resume_from wait node journaled pending = wait >>= λ _. ok already_committed
resume_from wait node journaled proposed = wait >>= λ _. ok already_committed
resume_from wait node journaled unknown =
    resume_unknown wait journaled.tx_hash node journaled.tx_hex

unfoldable pub resume_journaled_broadcast :
    ℕ → Node → JournaledTx → Result MonitorError ResumeBroadcastOutcome
unfolding resume_from
resume_journaled_broadcast timeout_ms node journaled =
    resume_from (wait_for_transaction_commit timeout_ms node.started journaled.tx_hash node.polls)
      node journaled node.status
