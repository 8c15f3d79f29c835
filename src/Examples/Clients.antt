-- ===== src/Examples/Clients.antt =====
-- The theorems on the clients: at a server that answers the third call, and at a short log.
use flotilla_os.Common.{
  ℕ, pos, [], ◌∷◌, none, some, ok, err, plain_error, ◌≡◌, refl, if◌then◌else◌, ltb, starts_with,
}
use flotilla_os.Clients.HttpClient.{
  Reply, succeeded, response, do_exchange, retry_rounds, retry_request,
}
use flotilla_os.Clients.S3Logs.{S3Calls, latest_key, skip_lines, read_page, logs_to_message_string}
use flotilla_os.Clients.S3Logs.Pages.{whole_log}
use flotilla_os.Clients.CloudWatchLogs.{
  insert_event, sort_events, message_text, message_texts, events_to_message,
}
use flotilla_os.State.Queries.{join}

-- Two calls are answered by a code of 503, and the others by one of 200.
abbrev busy : ℕ → Reply
busy i =
    if ltb i 2 then do_exchange (response 503 "busy" none) else do_exchange (response 200 "ok" none)

-- It makes three calls, and the third one's answer is returned.
three_calls :
    ((retry_request (pos 5) busy).calls ≡ 3) × ((retry_request (pos 5) busy).result ≡ succeeded)
unfolding retry_request retry_rounds do_exchange
three_calls = (refl, refl)

-- Lines are their own texts, but for those in brackets, which cannot be decoded.
abbrev calls : S3Calls
calls = record {
  list_objects = λ bucket prefix. ok [];
  get_object = λ bucket key. err (plain_error "no such key");
  unzip = λ body. ok body;
  log_of = λ line. if starts_with line "[" then err (plain_error "no JSON") else ok line;
}

-- The line that cannot be decoded is left out.
decoded_lines : whole_log calls ("one" ∷ "[two" ∷ "three" ∷ []) ≡ "onethree"
unfolding whole_log
decoded_lines = refl

-- The position after the end of a file is one too high: when the file has grown by a line, the next page
-- skips it.
skipped_line :
    ((logs_to_message_string calls (record { lines = "one" ∷ []; failure = none }) (pos 0))
      ≡ ("one", 2, none))
    × ((logs_to_message_string calls
          (record { lines = "one" ∷ "two" ∷ []; failure = none })
          (pos 2)).0
        ≡ "")
unfolding logs_to_message_string skip_lines read_page
skipped_line = (refl, refl)

newest :
    latest_key
      (λ key. starts_with key "run")
      (record { key = "run-1"; last_modified = 3 }
        ∷ record { key = "run-2"; last_modified = 5 }
        ∷ record { key = "other"; last_modified = 9 }
        ∷ [])
      none
      0
    ≡ some "run-2"
unfolding latest_key
newest = refl

-- Two events in the order of their times; the one that is no JSON is lost.
ordered :
    events_to_message calls.log_of (
      record { timestamp = 7; message = "late" }
      ∷ record { timestamp = 6; message = "[plain" }
      ∷ record { timestamp = 5; message = "early " }
      ∷ [])
    ≡ "early late"
unfolding events_to_message sort_events insert_event message_texts message_text join
ordered = refl
