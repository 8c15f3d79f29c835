-- ===== src/Clients/HttpClient.antt =====
-- clients/httpclient/client.go: one request, and its retries. The response of the server and the
-- decoding of its body are arguments, as is the answer of each attempt in the loop.
pub mod Retries
use flotilla_os.Common.{
  ℕ, zero, suc, ◌+◌, ℤ, pos, pos_part, mul64, Bool, true, false, String, List, [], ◌∷◌, Option,
  none, some, if◌then◌else◌, ltb, leb, ◌&&◌,
}
use Prim.Native.String.{◌++◌ as text_append}

-- What an attempt returns: nil, a `RetryableError`, or any other error.
pub data Reply : Type 0 where
  succeeded : Reply
  retryable failed : String → Reply

-- What `http.Client.Do` gives: an error, or a response by its code, its status line and the error of
-- decoding its body.
pub data Exchange : Type 0 where
  no_response : String → Exchange
  response : ℕ → String → Option String → Exchange

-- `defaultExecutor.Do`
unfoldable pub do_exchange : Exchange → Reply
do_exchange (no_response e) = failed e
do_exchange (response code status decoded) =
    if leb 200 code && ltb code 400
    then elim decoded [ none ↦ succeeded | some e ↦ failed e ]
    else if leb 500 code
    then retryable (text_append "Error response: " status)
    else failed (text_append "Error response: " status)

-- The error that is returned, the number of calls, and the sleeps in nanoseconds.
pub record Attempted : Type 0 where
  pub result : Reply
  pub calls : ℕ
  pub slept : List ℤ

-- The loop, with the rounds left, the number of the next call and the next sleep. An error that
-- outlasts the rounds is not returned: the first one is.
unfoldable pub retry_rounds : (ℕ → Reply) → Reply → ℕ → ℕ → ℤ → Attempted
retry_rounds fn first zero i to_sleep = record { result = first; calls = i; slept = [] }
retry_rounds fn first (suc rounds) i to_sleep =
    let rest = retry_rounds fn first rounds (i + 1) (mul64 to_sleep (pos 2)) in
    elim (fn i) [
      | succeeded ↦ record { result = succeeded; calls = i + 1; slept = to_sleep ∷ [] }
      | failed e ↦ record { result = failed e; calls = i + 1; slept = to_sleep ∷ [] }
      | retryable e ↦ record {
        result = rest.result;
        calls = rest.calls;
        slept = to_sleep ∷ rest.slept;
      }
    ]

-- `retryRequest` with the sleep time of `doRequestWithRetry`, three seconds. A negative
-- `RetryCount` makes no round.
unfoldable pub retry_request : ℤ → (ℕ → Reply) → Attempted
retry_request retry_count fn = elim (fn 0) [
  | succeeded ↦ record { result = succeeded; calls = 1; slept = [] }
  | failed e ↦ record { result = failed e; calls = 1; slept = [] }
  | retryable e ↦ retry_rounds fn (retryable e) (pos_part retry_count) 1 (pos 3000000000)
]
