-- ===== src/Engine/Eks/Polling.antt =====
-- Enqueue and PollRuns of execution/engine/eks_engine.go, on the queue manager.
use flotilla_os.Common.{
  false, String, List, [], ◌∷◌, Option, none, some, Error, plain_error, Result, ok, err, ◌≡◌,
}
use flotilla_os.State.Types.{Run}
use flotilla_os.Queue.{Sqs, SqsManager, Codec, Receipt, qurl_for, enqueue, receive_run}

module _ {S : Type 0} (sqs : Sqs S) (codec : Codec) (job_queue : String) where
  -- Whatever the reason, the error that is returned is another one than the queue's, which it wraps.
  abbrev wrapped : Option Error → String → Option Error
  wrapped none text = none
  wrapped (some e) text = some (plain_error text)

  unfoldable pub enqueue_to : Run → SqsManager × S × Result String → SqsManager × S × Option Error
  enqueue_to run (qm, s, err e) = (qm, s, some (plain_error "problem getting queue url"))
  enqueue_to run (qm, s, ok qurl) =
      let (s', e) = enqueue sqs codec qurl run s in (qm, s', wrapped e "problem enqueing run")

  unfoldable pub eks_enqueue : Run → SqsManager → S → SqsManager × S × Option Error
  eks_enqueue run qm s = enqueue_to run (qurl_for sqs job_queue false qm s)

  -- The receipts that have a run; there is one queue to poll.
  abbrev with_run : Receipt Run → List (Receipt Run)
  with_run r = elim r.value [ none ↦ [] | some run ↦ r ∷ [] ]

  unfoldable pub polled :
      SqsManager → S × Result (Receipt Run) → SqsManager × S × List (Receipt Run) × Option Error
  polled qm (s, err e) = (qm, s, [], some (plain_error "problem receiving run from queue url"))
  polled qm (s, ok r) = (qm, s, with_run r, none)

  unfoldable pub poll_from :
      SqsManager × S × Result String → SqsManager × S × List (Receipt Run) × Option Error
  poll_from (qm, s, err e) = (qm, s, [], some (plain_error "problem listing queues to poll"))
  poll_from (qm, s, ok qurl) = polled qm (receive_run sqs codec qurl s)

  unfoldable pub poll_runs : SqsManager → S → SqsManager × S × List (Receipt Run) × Option Error
  poll_runs qm s = poll_from (qurl_for sqs job_queue false qm s)

  -- A receipt of a run with this identifier.
  abbrev pub IsReceiptFor : String → Receipt Run → Type 0
  IsReceiptFor run_id r = (run' : Run) × (r.value ≡ some run') × (run'.run_id ≡ run_id)
