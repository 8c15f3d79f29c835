-- ===== src/Services/Execution/Enqueue/Saved.antt =====
-- A message in the queue names a run that is saved: what createAndEnqueueRun, the submit worker and
-- the retry worker keep of this.
use flotilla_os.Common.{
  true, String, List, [], ◌∷◌, ◌++◌, Option, none, some, ◌≡◌, refl, inl, inr, subst, arith, eq_refl,
  returns-injective, panics-returns, Error, returns, ◌>>=◌, deref, All, string_slice_contains,
  Option-cases,
}
use flotilla_os.State.Types.{Run, Time}
use flotilla_os.State.RunUpdate.{zero_run}
use flotilla_os.State.TaskTable.{TxFaults, create_run, insert_row, update_run}
use flotilla_os.State.TaskTable.Update.{run_ids-update_run}
use flotilla_os.State.TaskTable.Create.{run_ids, run_ids-append, create_run_done, create_run_kept}
use flotilla_os.World.{World, Event, executed, acked, enqueued, terminated, emit, save_run}
use flotilla_os.Services.Execution.Enqueue.{
  EnqueueFaults, Created, mark_queued, enqueue_run, queue_of, after_creation,
  create_and_enqueue_run,
}
use flotilla_os.Worker.Submit.{Engines, Faults, RunReceipt, process_receipt}
use flotilla_os.Worker.Submit.Delivery.{
  Step, process_receipt-Step, leave, acknowledge, attempt, submit,
}

-- That a row of the table has an identifier, and that an event's message, if it is one, has a row.
abbrev pub IsSaved : String → List Run → Type 0
IsSaved run_id rows = string_slice_contains (run_ids rows) run_id ≡ true

abbrev pub EventIsSaved : List Run → Event → Type 0
EventIsSaved rows (enqueued engine run) = IsSaved run.run_id rows
EventIsSaved rows (executed engine run_id) = Unit
EventIsSaved rows (acked handle) = Unit
EventIsSaved rows (terminated engine run_id) = Unit

abbrev pub QueueIsSaved : World → Type 0
QueueIsSaved w = All (EventIsSaved w.tasks) w.events

-- The rows of one table are all in another.
abbrev pub Keeps : List Run → List Run → Type 0
Keeps rows rows' = (k : String) → IsSaved k rows → IsSaved k rows'

Event-Keeps :
    (rows rows' : List Run)
    → Keeps rows rows'
    → (e : Event) → EventIsSaved rows e
    → EventIsSaved rows' e
Event-Keeps rows rows' keeps (enqueued engine run) s = keeps run.run_id s
Event-Keeps rows rows' keeps (executed engine run_id) s = tt
Event-Keeps rows rows' keeps (acked handle) s = tt
Event-Keeps rows rows' keeps (terminated engine run_id) s = tt

pub All-Keeps :
    (rows rows' : List Run)
    → Keeps rows rows'
    → (es : List Event) → All (EventIsSaved rows) es
    → All (EventIsSaved rows') es
All-Keeps rows rows' keeps [] s = tt
All-Keeps rows rows' keeps (e ∷ es) (s, rest) =
    (Event-Keeps rows rows' keeps e s, All-Keeps rows rows' keeps es rest)

pub All-append :
    (P : Event → Type 0) (es : List Event) (e : Event) → All P es → P e → All P (es ++ e ∷ [])
All-append P [] e s p = (p, tt)
All-append P (x ∷ es) e (s, rest) p = (s, All-append P es e rest p)

pub update_run-Keeps :
    (faults : TxFaults) (run_id : String) (updates : Run) (rows : List Run)
    → Keeps rows (update_run faults run_id updates rows).0
update_run-Keeps faults run_id updates rows k s =
    rw (run_ids-update_run faults run_id updates rows) s

pub save_run-Queue :
    (faults : TxFaults) (run_id : String) (updates : Run) (w : World)
    → QueueIsSaved w
    → QueueIsSaved (save_run faults run_id updates w)
unfolding save_run
save_run-Queue faults run_id updates w s =
    All-Keeps w.tasks _ (update_run-Keeps faults run_id updates w.tasks) w.events s

pub emit-Queue :
    (e : Event) (w : World) → QueueIsSaved w → EventIsSaved w.tasks e → QueueIsSaved (emit e w)
unfolding emit
emit-Queue e w s p = All-append (EventIsSaved w.tasks) w.events e s p

pub Step-Queue :
    {handle : String} {w w' : World} → Step handle w w' → QueueIsSaved w → QueueIsSaved w'
Step-Queue leave s = s
Step-Queue {handle} {w} acknowledge s = emit-Queue (acked handle) w s tt
Step-Queue {handle} {w} (attempt engine run_id q) s = emit-Queue (executed engine run_id) w s tt
Step-Queue {handle} {w} (submit engine run_id faults launched q) s =
    emit-Queue (acked handle) _
      (save_run-Queue faults run_id launched _ (emit-Queue (executed engine run_id) w s tt)) tt

-- The submit worker keeps the queue's messages about saved runs, whatever fails.
pub process_receipt-QueueIsSaved :
    (engines : Engines) (faults : Faults) (receipt : RunReceipt) (w : World)
    → QueueIsSaved w
    → QueueIsSaved (process_receipt engines faults receipt w)
process_receipt-QueueIsSaved engines faults receipt w s =
    Step-Queue (process_receipt-Step engines faults receipt w) s

contains-append_old :
    (ks : List String) (j k : String)
    → string_slice_contains ks k ≡ true
    → string_slice_contains (ks ++ j ∷ []) k ≡ true
unfolding string_slice_contains
contains-append_old [] j k h = cc
contains-append_old (x ∷ ks) j k h = ground (arith, contains-append_old ks j k)

contains-append_new :
    (ks : List String) (k : String) → string_slice_contains (ks ++ k ∷ []) k ≡ true
unfolding string_slice_contains
contains-append_new [] k = ground (arith, eq_refl k)
contains-append_new (x ∷ ks) k = ground (arith, contains-append_new ks k)

pub create_run-Keeps :
    (faults : TxFaults) (md5 : String → String) (r : Run) (rows : List Run)
    → Keeps rows (create_run faults md5 r rows).0
create_run-Keeps faults md5 r rows k s = elim (create_run_kept faults md5 r rows) [
  | inl kept ↦ rw kept s
  | inr done ↦
      rw ((create_run_done faults md5 r rows done).0, run_ids-append rows (insert_row md5 r))
        (contains-append_old (run_ids rows) (insert_row md5 r).run_id k s)
]

pub create_run-saves :
    (faults : TxFaults) (md5 : String → String) (r : Run) (rows : List Run)
    → (create_run faults md5 r rows).1 ≡ none
    → IsSaved r.run_id (create_run faults md5 r rows).0
create_run-saves faults md5 r rows done =
    rw ((create_run_done faults md5 r rows done).0, run_ids-append rows (insert_row md5 r))
      (unfold insert_row in contains-append_new (run_ids rows) r.run_id)

mark_queued-Queue :
    (faults : EnqueueFaults) (now : Time) (run : Run) (w : World)
    → QueueIsSaved w
    → QueueIsSaved (mark_queued faults now run w).0
unfolding mark_queued save_run
mark_queued-Queue faults now run w s =
    save_run-Queue faults.update run.run_id (record zero_run { queued_at = some now }) w s

enqueue_run-Queue :
    (faults : EnqueueFaults) (now : Time) (engine : String) (run : Run) (w : World)
    → IsSaved run.run_id w.tasks
    → QueueIsSaved w
    → QueueIsSaved (enqueue_run faults now engine run w).0
unfolding enqueue_run
enqueue_run-Queue faults now engine run w there s = elim (Option-cases faults.queue) [
  | inr (e, refused) ↦ rw refused s
  | inl fine ↦
      rw (fine, enqueue_run)
        (mark_queued-Queue faults now run (emit (enqueued engine run) w)
          (emit-Queue (enqueued engine run) w s there))
]

deref_engine-Queue :
    (faults : EnqueueFaults) (now : Time) (run : Run) (w : World) (o : Option String)
    (created : Created)
    → IsSaved run.run_id w.tasks
    → QueueIsSaved w
    → (deref o >>= λ engine. returns (enqueue_run faults now (queue_of engine) run w))
      ≡ returns created
    → QueueIsSaved created.0
deref_engine-Queue faults now run w none created saved s h = absurd (panics-returns created h)
deref_engine-Queue faults now run w (some engine) created saved s h =
    subst (λ c. QueueIsSaved c.0) (returns-injective _ created h)
      (enqueue_run-Queue faults now (queue_of engine) run w saved s)

after_creation-Queue :
    (faults : EnqueueFaults) (now : Time) (run : Run) (w : World) (e : Option Error)
    (created : Created)
    → (e ≡ none → IsSaved run.run_id w.tasks)
    → QueueIsSaved w
    → after_creation faults now run w e ≡ returns created
    → QueueIsSaved created.0
unfolding after_creation
after_creation-Queue faults now run w (some e) created saved s h =
    subst (λ c. QueueIsSaved c.0) (returns-injective _ created h) s
after_creation-Queue faults now run w none created saved s h =
    deref_engine-Queue faults now run w run.engine created (saved refl) s h

-- A run that is created is in the table before its message is in the queue: if every message of
-- the queue was about a run in the table, so it is after the call, whatever fails in it.
pub create_and_enqueue_run-QueueIsSaved :
    (faults : EnqueueFaults) (md5 : String → String) (now : Time) (run : Run) (w : World)
    (created : Created)
    → QueueIsSaved w
    → create_and_enqueue_run faults md5 now run w ≡ returns created
    → QueueIsSaved created.0
unfolding create_and_enqueue_run
create_and_enqueue_run-QueueIsSaved faults md5 now run w created s h =
    after_creation-Queue faults now run _ _ created
      (create_run-saves faults.creation md5 run w.tasks)
      (All-Keeps w.tasks _ (create_run-Keeps faults.creation md5 run w.tasks) w.events s) h
