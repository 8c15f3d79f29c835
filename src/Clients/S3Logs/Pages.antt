-- ===== src/Clients/S3Logs/Pages.antt =====
-- A log that is read page by page is read whole.
use Prim.Native.String.{◌++◌ as text_append}
use text.Mathlib.TextLemmas.{
  append_assoc as text_append_assoc, append-nil as text_append-nil, nil-append as nil-text_append,
}
use flotilla_os.Common.{ℕ, zero, suc, pos, String, List, [], ◌∷◌}
use flotilla_os.Clients.S3Logs.{S3Calls, Body, append_log, logs_to_message_string}

module _ (calls : S3Calls) where
  -- The log of a file: the texts of its lines, one after the other.
  unfoldable pub whole_log : List String → String
  whole_log [] = ""
  whole_log (l ∷ lines) = text_append (append_log calls "" l) (whole_log lines)

  -- What a client sees that asks for one page after the other, each time from the position that it was given.
  unfoldable pub read_pages : Body → ℕ → ℕ → String
  read_pages body zero position = ""
  read_pages body (suc requests) position =
      let (text, next, e) = logs_to_message_string calls body (pos position) in
      text_append text (read_pages body requests next)
