-- ===== src/Queue/Delivery.antt =====
-- Messages stay in their queue until they are acknowledged, and are received as they were put there.
use flotilla_os.Common.{
  Bool, true, false, String, List, [], ◌∷◌, ◌++◌, Option, none, some, Error, plain_error, Result,
  ok, err, ◌≡◌, ◌≢◌, ◌⊎◌, inl, inr, refl, sym, ◌∙◌, ap, subst, is_empty, ◌==◌, points_to,
  Bool-cases, Result-cases, keep, not, ◌||◌,
}
use flotilla_os.State.Types.{Run}
use flotilla_os.Queue.{
  Message, Sqs, Codec, Receipt, ack, first_message, receive, enqueue, receive_run, run_receipt,
  of_message, no_receipt,
}

-- A message with this handle and this body is among these.
abbrev pub Holds : String → String → List (String × String) → Type 0
Holds handle body [] = ⊥
Holds handle body ((k, b) ∷ rest) = ((k ≡ handle) × (b ≡ body)) ⊎ Holds handle body rest

-- The run of this body, with this handle, or nothing.
abbrev pub IsReceiptOf : Codec → String → String → Result (Receipt Run) → Type 0
IsReceiptOf codec handle body (err e) = Unit
IsReceiptOf codec handle body (ok r) =
    (r ≡ no_receipt {A = Run})
    ⊎ (r ≡ record { value = some (codec.decode_run body); handle = some handle })

-- What a component does with the queue: it puts a run there, takes one, or acknowledges.
pub data QueueCall : Type 0 where
  put : Run → QueueCall
  take : QueueCall
  finish : Option String → QueueCall

unfoldable pub finishes : String → List QueueCall → Bool
finishes handle [] = false
finishes handle (finish h ∷ us) = points_to h handle || finishes handle us
finishes handle (u ∷ us) = finishes handle us

module _ {S : Type 0} (sqs : Sqs S) (stored : S → List (String × String)) (qurl : String) where
  open sqs use {send_message, receive_message, delete_message}

  -- The answer has no message, or one that is stored.
  abbrev pub IsAnswer : S → Result (List Message) → Type 0
  IsAnswer s (err e) = Unit
  IsAnswer s (ok []) = Unit
  IsAnswer s (ok (m ∷ ms)) =
      (handle : String) × (body : String) × (m.body ≡ some body)
      × (m.receipt_handle ≡ some handle)
      × Holds handle body (stored s)

  -- What SQS promises of the messages that it stores for one queue, by their handles and bodies: a
  -- message is stored when no error is returned, receiving takes none away, and deleting takes away
  -- those of one handle, which all are gone if no error is returned.
  pub record IsStore : Type 0 where
    pub sent :
        (body : String) (s : S)
        → (send_message qurl body s).1 ≡ none
        → (handle : String) × (stored (send_message qurl body s).0
            ≡ stored s ++ (handle, body) ∷ [])
    pub send_keeps :
        (handle body other : String) (s : S)
        → Holds handle body (stored s)
        → Holds handle body (stored (send_message qurl other s).0)
    pub receive_keeps : (s : S) → stored (receive_message qurl s).0 ≡ stored s
    pub received : (s : S) → IsAnswer s (receive_message qurl s).1
    pub delete_keeps :
        (handle body other : String) (s : S)
        → other ≢ handle
        → Holds handle body (stored s)
        → Holds handle body (stored (delete_message qurl other s).0)
    pub deleted :
        (handle : String) (s : S)
        → (delete_message qurl handle s).1 ≡ none
        → stored (delete_message qurl handle s).0 ≡ keep (λ m. not (m.0 == handle)) (stored s)

  module _ (codec : Codec) (store : IsStore) where
    open store use {sent, send_keeps, receive_keeps, received, delete_keeps, deleted}

    unfoldable pub use_queue : QueueCall → S → S
    use_queue (put run) s = (enqueue sqs codec qurl run s).0
    use_queue take s = (receive_run sqs codec qurl s).0
    use_queue (finish handle) s = (ack sqs qurl handle s).0

    unfoldable pub use_all : List QueueCall → S → S
    use_all [] s = s
    use_all (u ∷ us) s = use_all us (use_queue u s)

    enqueue_sends :
        (run : Run) (body : String) (s : S)
        → is_empty qurl ≡ false
        → codec.encode run ≡ ok body
        → enqueue sqs codec qurl run s ≡ send_message qurl body s
    unfolding enqueue
    enqueue_sends run body s given made = rw (given, made, enqueue) refl

    enqueue_unnamed :
        (run : Run) (s : S) → is_empty qurl ≡ true → (enqueue sqs codec qurl run s).1 ≢ none
    unfolding enqueue
    enqueue_unnamed run s unnamed = rw (unnamed, enqueue) (λ h. cc)

    enqueue_unmade :
        (run : Run) (e : Error) (s : S)
        → is_empty qurl ≡ false
        → codec.encode run ≡ err e
        → (enqueue sqs codec qurl run s).1 ≢ none
    unfolding enqueue
    enqueue_unmade run e s given failed = rw (given, failed, enqueue) (λ h. cc)

    enqueue_done :
        (run : Run) (s : S)
        → (enqueue sqs codec qurl run s).1 ≡ none
        → (body : String) × (codec.encode run ≡ ok body)
          × (handle : String) × (stored (enqueue sqs codec qurl run s).0
              ≡ stored s ++ (handle, body) ∷ [])
    enqueue_done run s done = elim (Bool-cases (is_empty qurl)) [
      | inl unnamed ↦ absurd (enqueue_unnamed run s unnamed done)
      | inr given ↦ elim (Result-cases (codec.encode run)) [
        | inr (e, failed) ↦ absurd (enqueue_unmade run e s given failed done)
        | inl (body, made) ↦
            let sends = enqueue_sends run body s given made in
            let (handle, e) = sent body s (subst (λ r. r.1 ≡ none) sends done) in
            (
              body,
              made,
              handle,
              subst (λ r. stored r.0 ≡ stored s ++ (handle, body) ∷ []) (sym sends) e,
            )
      ]
    ]

    -- What `receive_run` makes of the answer of SQS.
    abbrev run_answer : Result (List Message) → Result (Receipt Run)
    run_answer (err e) = err e
    run_answer (ok ms) = of_message (ok no_receipt) (run_receipt sqs codec) (first_message ms)

    receive_run_answer :
        (s : S)
        → is_empty qurl ≡ false
        → (receive_run sqs codec qurl s).1 ≡ run_answer (receive_message qurl s).1
    unfolding receive_run receive
    receive_run_answer s given = elim (Result-cases (receive_message qurl s).1) [
      | inl (ms, e) ↦ rw (given, e, receive_run, receive) refl
      | inr (x, e) ↦ rw (given, e, receive_run, receive) refl
    ]

    receive_run_unnamed :
        (s : S) → is_empty qurl ≡ true → (x : Error) × ((receive_run sqs codec qurl s).1 ≡ err x)
    unfolding receive_run receive
    receive_run_unnamed s unnamed = (
      plain_error "no queue url specified, can't dequeue",
      rw (unnamed, receive_run, receive) refl,
    )

    only_answer :
        (handle body : String) (s : S) (answer : Result (List Message))
        → stored s ≡ (handle, body) ∷ []
        → IsAnswer s answer
        → IsReceiptOf codec handle body (run_answer answer)
    unfolding first_message
    only_answer handle body s (err x) e is = tt
    only_answer handle body s (ok []) e is = inl refl
    only_answer handle body s (ok (m ∷ ms)) e (h, b, is_body, is_handle, holds) =
        elim (subst (Holds h b) e holds) [
          | inl (same_handle, same_body) ↦
              rw (is_body, is_handle, ← same_handle, ← same_body) (inr refl)
          | inr none_else ↦ elim none_else [ ]
        ]

    -- A run that is put into an empty queue without an error is the only one that is received from
    -- it, under one handle and as the JSON decoder reads its encoding: the next receipt has an error,
    -- nothing, or this run.
    pub receive_run-enqueue :
        (run : Run) (s : S)
        → stored s ≡ []
        → (enqueue sqs codec qurl run s).1 ≡ none
        → let s' = (enqueue sqs codec qurl run s).0 in
          (body : String) × (codec.encode run ≡ ok body)
          × (handle : String) × (stored s' ≡ (handle, body) ∷ [])
          × IsReceiptOf codec handle body (receive_run sqs codec qurl s').1
    receive_run-enqueue run s empty done =
        let s' = (enqueue sqs codec qurl run s).0 in
        let (body, made, handle, e) = enqueue_done run s done in
        let only : stored s' ≡ (handle, body) ∷ [] =
          e ∙ ap (λ ms. ms ++ (handle, body) ∷ []) empty in
        (
          body,
          made,
          handle,
          only,
          elim (Bool-cases (is_empty qurl)) [
            | inl unnamed ↦ absurd (enqueue_unnamed run s unnamed done)
            | inr given ↦
                subst (IsReceiptOf codec handle body) (sym (receive_run_answer s' given))
                  (only_answer handle body s' (receive_message qurl s').1 only (received s'))
          ],
        )
