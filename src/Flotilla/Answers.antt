-- ===== src/Flotilla/Answers.antt =====
-- decodeRequest and encodeError of flotilla/endpoints.go, and the decoding of one parameter. The JSON of
-- bodies is left out: a decoded body is an argument, and an answer holds the value that is encoded.
use flotilla_os.Common.{
  ℕ, String, Error, malformed_input, conflicting_resource, missing_resource, plain_error, Result,
  ok, err,
}

pub data Answer {ℓ} (A : Type ℓ) : Type ℓ where
  answered : A → Answer A
  failed : ℕ → String → Answer A

unfoldable pub error_text : Error → String
error_text (malformed_input s) = s
error_text (conflicting_resource s) = s
error_text (missing_resource s) = s
error_text (plain_error s) = s

unfoldable pub status_code : Error → ℕ
status_code (malformed_input s) = 400
status_code (conflicting_resource s) = 409
status_code (missing_resource s) = 404
status_code (plain_error s) = 500

unfoldable pub encode_error {ℓ} : {A : Type ℓ} → Error → Answer A
encode_error e = failed (status_code e) (error_text e)

-- A body that cannot be decoded is a malformed input.
unfoldable pub decoded {ℓ} : {A : Type ℓ} → Result A → Result A
decoded (ok a) = ok a
decoded (err e) = err (malformed_input (error_text e))
