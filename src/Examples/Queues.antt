-- ===== src/Examples/Queues.antt =====
-- A queue that keeps its messages in a list, and the theorems on the queue manager and the engine's
-- queue at it.
use flotilla_os.Common.{
  true, not, String, List, [], ◌∷◌, ◌++◌, none, some, ok, ◌≡◌, ◌≢◌, inl, inr, refl, sym, ◌==◌,
  eq_iff, keep, map, Bool-cases, ◌∙◌,
}
use flotilla_os.State.EventTypes.{no_kubernetes_event, no_emr_event}
use flotilla_os.State.RunUpdate.{zero_run}
use flotilla_os.Queue.{
  Message, Sqs, Codec, SqsManager, cache_key, cached_url, queue_name, qurl_for, no_s3_file, enqueue,
  receive_run, ack, receive, first_message, get_or_create_queue, cache_got,
}
use flotilla_os.Queue.Cache.{HasOneUrl, CacheIsTrue, IsUrlOf, qurl_for-CacheIsTrue}
use flotilla_os.Queue.Delivery.{
  IsStore, IsAnswer, IsReceiptOf, Holds, QueueCall, put, take, finish, use_queue, use_all,
  receive_run-enqueue,
}
use flotilla_os.Examples.Data.{waiting, active}

abbrev Messages : Type 0
Messages = List (String × String)

abbrev message_of : String × String → Message
message_of (handle, body) = record { body = some body; receipt_handle = some handle }

-- The handle of a message is its body, and every queue is named by its URL.
abbrev plain_sqs : Sqs Messages
plain_sqs = record {
  get_queue_url = λ name s. some name;
  create_queue = λ name s. (s, ok name);
  send_message = λ qurl body s. (s ++ (body, body) ∷ [], none);
  receive_message = λ qurl s. (s, ok (map message_of s));
  delete_message = λ qurl handle s. (keep (λ m. not (m.0 == handle)) s, none);
}

-- A run is encoded by its identifier.
abbrev plain_codec : Codec
plain_codec = record {
  encode = λ run. ok run.run_id;
  decode_run = λ body. record zero_run { run_id = body };
  decode_cloud_trail = λ body. no_s3_file;
  decode_kubernetes_event = λ body. no_kubernetes_event;
  decode_emr_event = λ body. no_emr_event;
}

abbrev stored : Messages → Messages
stored s = s

Holds-append :
    (handle body : String) (m : String × String) (s : Messages)
    → Holds handle body s
    → Holds handle body (s ++ m ∷ [])
Holds-append handle body m [] h = elim h [ ]
Holds-append handle body m (x ∷ s) (inl this) = inl this
Holds-append handle body m (x ∷ s) (inr later) = inr (Holds-append handle body m s later)

Holds-keep :
    (handle body other : String) (s : Messages)
    → other ≢ handle
    → Holds handle body s
    → Holds handle body (keep (λ m. not (m.0 == other)) s)
Holds-keep handle body other [] apart h = h
Holds-keep handle body other ((k, b) ∷ s) apart h = elim (Bool-cases (k == other)) [
  | inl gone ↦ elim h [
    | inl (same, e) ↦ absurd (apart (sym ((eq_iff k other).0 gone) ∙ same))
    | inr later ↦ rw (gone) (Holds-keep handle body other s apart later)
  ]
  | inr stays ↦ elim h [
    | inl this ↦ rw (stays) (inl this)
    | inr later ↦ rw (stays) (inr (Holds-keep handle body other s apart later))
  ]
]

messages-IsAnswer : (s : Messages) → IsAnswer plain_sqs stored "jobs" s (ok (map message_of s))
messages-IsAnswer [] = tt
messages-IsAnswer ((handle, body) ∷ s) = (handle, body, refl, refl, inl (refl, refl))

plain_sqs-IsStore : IsStore plain_sqs stored "jobs"
plain_sqs-IsStore = record {
  sent = λ body s h. (body, refl);
  send_keeps = λ handle body other s h. Holds-append handle body (other, other) s h;
  receive_keeps = λ s. refl;
  received = λ s. messages-IsAnswer s;
  delete_keeps = λ handle body other s apart h. Holds-keep handle body other s apart h;
  deleted = λ handle s h. refl;
}

abbrev manager : SqsManager
manager = record { namespace = "prod"; qurl_cache = [] }

abbrev one_url : HasOneUrl plain_sqs (λ name. name)
one_url = (λ name url s h. cc, λ name url s h. cc)

-- The manager knows no URL before it asks for the one of its jobs.
qurl_for-CacheIsTrue_example :
    let (qm', s', url) = qurl_for plain_sqs "jobs" true manager [] in
    CacheIsTrue plain_sqs (λ name. name) qm'
    × (qm'.namespace ≡ "prod")
    × IsUrlOf plain_sqs (λ name. name) "prod-jobs" url
unfolding queue_name cached_url cache_key
qurl_for-CacheIsTrue_example =
    qurl_for-CacheIsTrue plain_sqs (λ name. name) one_url "jobs" true manager []
      (λ name prefixed url h. cc)

-- The URL is kept in the map.
kept_url :
    qurl_for plain_sqs "jobs" true manager []
    ≡ (record manager { qurl_cache = ("jobs-true", "prod-jobs") ∷ [] }, [], ok "prod-jobs")
unfolding qurl_for cached_url cache_key get_or_create_queue cache_got queue_name
kept_url = refl

abbrev calls : List QueueCall
calls = put active ∷ take ∷ finish (some "eks-2") ∷ finish none ∷ []

-- What is in the queue in the end.
after_calls :
    use_all plain_sqs stored "jobs" plain_codec plain_sqs-IsStore calls (("eks-1", "eks-1") ∷ [])
    ≡ ("eks-1", "eks-1") ∷ []
unfolding use_all use_queue enqueue receive_run receive first_message ack
after_calls = refl

receive_run-enqueue_example :
    (body : String) × (plain_codec.encode waiting ≡ ok body)
    × (handle : String) × ((enqueue plain_sqs plain_codec "jobs" waiting []).0
        ≡ (handle, body) ∷ [])
    × IsReceiptOf plain_codec handle body
        (receive_run plain_sqs plain_codec "jobs"
          (enqueue plain_sqs plain_codec "jobs" waiting []).0).1
unfolding enqueue
receive_run-enqueue_example =
    receive_run-enqueue plain_sqs stored "jobs" plain_codec plain_sqs-IsStore waiting [] refl refl

-- The engine's manager knows the URL of its jobs.
abbrev warm : SqsManager
warm = record { namespace = "prod"; qurl_cache = ("jobs-false", "jobs") ∷ [] }
