-- ===== src/Queue.antt =====
-- queue/sqs_manager.go and the receipts of queue/manager.go. SQS is a parameter: a state and the calls
-- of its client that the manager makes. So is the JSON of the messages.
pub mod Cache
pub mod Delivery
use flotilla_os.Common.{
  Bool, true, false, String, List, [], ◌∷◌, Option, none, some, Error, plain_error, Result, ok, err,
  if◌then◌else◌, is_empty, ◌==◌,
}
use Prim.Native.String.{◌++◌ as text_append}
use flotilla_os.State.Types.{Run}
use flotilla_os.State.EventTypes.{
  CloudTrailS3File, KubernetesEvent, EmrEvent, no_kubernetes_event, no_emr_event,
}

pub record Message : Type 0 where
  pub body : Option String
  pub receipt_handle : Option String

-- The client of SQS. Every call names a queue, by its name or its URL; `get_queue_url` is `none`
-- where it fails or the response has no URL.
pub record Sqs (S : Type 0) : Type 0 where
  pub get_queue_url : String → S → Option String
  pub create_queue : String → S → S × Result String
  pub send_message : String → String → S → S × Option Error
  pub receive_message : String → S → S × Result (List Message)
  pub delete_message : String → String → S → S × Option Error

-- encoding/json: what `Marshal` makes of a run, and what `Unmarshal` leaves of a text in a value
-- that was empty, whether it returns an error or not.
pub record Codec : Type 0 where
  pub encode : Run → Result String
  pub decode_run : String → Run
  pub decode_cloud_trail : String → CloudTrailS3File
  pub decode_kubernetes_event : String → KubernetesEvent
  pub decode_emr_event : String → EmrEvent

-- The fields of `SQSManager` that the calls use.
pub record SqsManager : Type 0 where
  pub namespace : String
  pub qurl_cache : List (String × String)

-- A receipt: the value in the message, if there was one, and the handle and queue that `Done`
-- acknowledges.
pub record Receipt (A : Type 0) : Type 0 where
  pub value : Option A
  pub handle : Option String

-- An event and its `Done`: nil, or the acknowledgement of a handle.
pub record Delivered (A : Type 0) : Type 0 where
  pub event : A
  pub done : Option (Option String)

abbrev pub no_s3_file : CloudTrailS3File
no_s3_file = record { s3_bucket = ""; s3_object_key = [] }

abbrev pub no_receipt : {A : Type 0} → Receipt A
no_receipt = record { value = none; handle = none }

abbrev pub of_message : {A : Type 0} → A → (Message → A) → Option Message → A
of_message nothing f none = nothing
of_message nothing f (some m) = f m

-- The message that is read of an answer; at most one is asked for.
unfoldable pub first_message : List Message → Option Message
first_message [] = none
first_message (m ∷ ms) = some m

unfoldable pub cache_key : String → Bool → String
cache_key name true = text_append name "-true"
cache_key name false = text_append name "-false"

unfoldable pub cached_url : String → List (String × String) → Option String
cached_url key [] = none
cached_url key ((k, url) ∷ rest) = if k == key then some url else cached_url key rest

unfoldable pub queue_name : String → String → Bool → String
queue_name namespace name true = text_append namespace (text_append "-" name)
queue_name namespace name false = name

module _ {S : Type 0} (sqs : Sqs S) where
  open sqs use {get_queue_url, create_queue, send_message, receive_message, delete_message}

  unfoldable pub get_or_create_queue : String → String → Bool → S → S × Result String
  get_or_create_queue namespace name prefixed s =
      elim (get_queue_url (queue_name namespace name prefixed) s) [
        | some url ↦ (s, ok url)
        | none ↦ create_queue (queue_name namespace name prefixed) s
      ]

  -- A URL that is got is put into the map; the key was not in it.
  unfoldable pub cache_got :
      String → S × Result String → SqsManager → SqsManager × S × Result String
  cache_got key (s, ok url) qm = (record qm { qurl_cache = (key, url) ∷ qm.qurl_cache }, s, ok url)
  cache_got key (s, err e) qm = (qm, s, err e)

  unfoldable pub qurl_for : String → Bool → SqsManager → S → SqsManager × S × Result String
  qurl_for name prefixed qm s = elim (cached_url (cache_key name prefixed) qm.qurl_cache) [
    | some url ↦ (qm, s, ok url)
    | none ↦
        cache_got (cache_key name prefixed) (get_or_create_queue qm.namespace name prefixed s) qm
  ]

  unfoldable pub ack : String → Option String → S → S × Option Error
  ack qurl none s = (s, some (plain_error "cannot acknowledge message with nil receipt"))
  ack qurl (some handle) s =
      if is_empty handle
      then (s, some (plain_error "cannot acknowledge message with empty receipt"))
      else delete_message qurl handle s

  -- The start of every `Receive…`: a URL must be given, and at most one message is asked for.
  unfoldable pub receive : String → S → S × Result (Option Message)
  receive qurl s =
      if is_empty qurl
      then (s, err (plain_error "no queue url specified, can't dequeue"))
      else let (s', answer) = receive_message qurl s in
        (s', elim answer [ ok ms ↦ ok (first_message ms) | err e ↦ err e ])

  module _ (codec : Codec) where
    open codec use {
      encode, decode_run, decode_cloud_trail, decode_kubernetes_event, decode_emr_event,
    }

    unfoldable pub enqueue : String → Run → S → S × Option Error
    enqueue qurl run s =
        if is_empty qurl
        then (s, some (plain_error "no queue url specified, can't enqueue"))
        else elim (encode run) [ err e ↦ (s, some e) | ok body ↦ send_message qurl body s ]

    -- `runFromMessage`, which drops the error of `Unmarshal`.
    abbrev pub run_receipt : Message → Result (Receipt Run)
    run_receipt m = elim m.body [
      | none ↦ err (plain_error "can't generate Run from empty message")
      | some body ↦ ok (record { value = some (decode_run body); handle = m.receipt_handle })
    ]

    unfoldable pub receive_run : String → S → S × Result (Receipt Run)
    receive_run qurl s =
        let (s', answer) = receive qurl s in
        (s', elim answer [ err e ↦ err e | ok m ↦ of_message (ok no_receipt) run_receipt m ])

    abbrev pub status_receipt : Message → Result (Receipt String)
    status_receipt m = elim m.body [
      | none ↦ err (plain_error "can't generate StatusUpdate from empty message")
      | some body ↦ ok (record { value = some body; handle = m.receipt_handle })
    ]

    unfoldable pub receive_status : String → S → S × Result (Receipt String)
    receive_status qurl s =
        let (s', answer) = receive qurl s in
        (s', elim answer [ err e ↦ err e | ok m ↦ of_message (ok no_receipt) status_receipt m ])

    -- `ReceiveCloudTrail` acknowledges the message at once, whatever was in it.
    unfoldable pub receive_cloud_trail : String → S → S × Result CloudTrailS3File
    receive_cloud_trail qurl s =
        let (s', answer) = receive qurl s in
        elim answer [
          | err e ↦ (s', err e)
          | ok m ↦ elim (of_message none (λ m. m.body) m) [
            | none ↦ (s', ok no_s3_file)
            | some body ↦ (
              (ack qurl (of_message none (λ m. m.receipt_handle) m) s').0,
              ok (decode_cloud_trail body),
            )
          ]
        ]

    -- An event that is not there is the empty one, whose `Done` is nil.
    abbrev pub event_of : {A : Type 0} → A → (String → A) → Option Message → Delivered A
    event_of nothing decode none = record { event = nothing; done = none }
    event_of nothing decode (some m) = elim m.body [
      | none ↦ record { event = nothing; done = none }
      | some body ↦ record { event = decode body; done = some m.receipt_handle }
    ]

    unfoldable pub receive_emr_event : String → S → S × Result (Delivered EmrEvent)
    receive_emr_event qurl s =
        let (s', answer) = receive qurl s in
        (s', elim answer [ err e ↦ err e | ok m ↦ ok (event_of no_emr_event decode_emr_event m) ])

    unfoldable pub receive_kubernetes_event : String → S → S × Result (Delivered KubernetesEvent)
    receive_kubernetes_event qurl s =
        let (s', answer) = receive qurl s in
        (
          s',
          elim answer [
            | err e ↦ err e
            | ok m ↦ ok (event_of no_kubernetes_event decode_kubernetes_event m)
          ],
        )

    -- The message of `ReceiveKubernetesRun`, which is acknowledged at once. Where there is none the
    -- empty text is returned without an error, since the error that is wrapped is nil.
    unfoldable pub kubernetes_run_of : String → S × Result (Option Message) → S × Result String
    kubernetes_run_of qurl (s, err e) = (s, err e)
    kubernetes_run_of qurl (s, ok m) = elim (of_message none (λ m. m.body) m) [
      | none ↦ (s, ok "")
      | some body ↦ ((ack qurl (of_message none (λ m. m.receipt_handle) m) s).0, ok body)
    ]

    unfoldable pub receive_kubernetes_run : String → SqsManager → S → SqsManager × S × Result String
    receive_kubernetes_run queue qm s =
        let (qm', s', qurl) = qurl_for queue false qm s in
        elim qurl [
          | err e ↦ (qm', s', err (plain_error "no queue url specified, can't dequeue"))
          | ok qurl ↦
              let (s'', answer) = kubernetes_run_of qurl (receive qurl s') in (qm', s'', answer)
        ]
