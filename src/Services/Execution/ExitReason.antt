-- ===== src/Services/Execution/ExitReason.antt =====
-- extractExitReason: the text of a run's exceptions, as `json.Marshal` writes it, is classified by
-- the regular expressions of the code, each of which is a list of words without regard to case.
use Prim.Native.Char.{Char, code}
use Prim.Native.String.{◌++◌ as text_append}
use Prim.Native.String.append
use flotilla_os.Common.{
  ℕ, ◌-◌, ◌+◌, Bool, true, false, String, List, [], ◌∷◌, ◌||◌, ◌&&◌, Option, none, some, ◌≡◌, refl,
  arith, string_slice_contains, if◌then◌else◌, eqb, ltb, leb, any,
}

-- Encoding of a string by `json.Marshal`, which also escapes the characters of HTML.
hex_digit : ℕ → String → String
hex_digit n String.[] = ""
hex_digit n (String.◌∷◌ c s) =
    let rest = hex_digit (n - 1) s in if eqb n 0 then String.◌∷◌ c "" else rest

escape_char : Char → String
unfolding hex_digit
escape_char c =
    if eqb (code c) b'"'
    then "\\\""
    else if eqb (code c) b'\\'
    then "\\\\"
    else if eqb (code c) 10
    then "\\n"
    else if eqb (code c) 13
    then "\\r"
    else if eqb (code c) 9
    then "\\t"
    else if eqb (code c) b'<'
    then "\\u003c"
    else if eqb (code c) b'>'
    then "\\u003e"
    else if eqb (code c) b'&'
    then "\\u0026"
    else if eqb (code c) 8232
    then "\\u2028"
    else if eqb (code c) 8233
    then "\\u2029"
    else if ltb (code c) 16
    then text_append "\\u000" (hex_digit (code c) "0123456789abcdef")
    else if ltb (code c) 32
    then text_append "\\u001" (hex_digit (code c - 16) "0123456789abcdef")
    else String.◌∷◌ c ""

escape : String → String
escape String.[] = ""
escape (String.◌∷◌ c s) = text_append (escape_char c) (escape s)

quoted : String → String
unfolding escape escape_char hex_digit
quoted s = text_append "\"" (text_append (escape s) "\"")

marshal_items : List String → String
marshal_items [] = ""
marshal_items (s ∷ []) = quoted s
marshal_items (s ∷ t ∷ ss) = text_append (quoted s) (text_append "," (marshal_items (t ∷ ss)))

-- `json.Marshal(runExceptions)`, of a pointer that may be nil.
unfoldable pub marshal : Option (List String) → String
unfolding marshal_items quoted escape escape_char hex_digit
marshal none = "null"
marshal (some exceptions) = text_append "[" (text_append (marshal_items exceptions) "]")

-- The character that `(?i)` compares: the Kelvin sign is a k and the long s an s.
abbrev fold : ℕ → ℕ
fold c =
    if eqb c 8490
    then 107
    else if eqb c 383
    then 115
    else if leb 65 c && leb c 90
    then c + 32
    else c

-- `\s`
abbrev is_space : ℕ → Bool
is_space c = eqb c 32 || eqb c 9 || eqb c 10 || eqb c 12 || eqb c 13

-- A word of an expression at the start of a text. A space in the word stands for `\s`.
begins_with : String → String → Bool
begins_with String.[] s = true
begins_with (String.◌∷◌ p word) String.[] = false
begins_with (String.◌∷◌ p word) (String.◌∷◌ c s) =
    let rest = begins_with word s in
    if eqb (code p) 32
    then is_space (code c) && rest
    else eqb (fold (code p)) (fold (code c)) && rest

unfoldable pub occurs : String → String → Bool
unfolding begins_with
occurs word String.[] = begins_with word ""
occurs word (String.◌∷◌ c s) = begins_with word (String.◌∷◌ c s) || occurs word s

-- `MatchString` of `(?i).*(w1|w2|…).*`
unfoldable pub matches_any : List String → String → Bool
matches_any words s = any (λ word. occurs word s) words

abbrev pub connection_error : List String
connection_error =
    "timeout" ∷ "gatewayerror" ∷ "socketerror" ∷ " 503 " ∷ " 502 " ∷ " 500 " ∷ " 504 "
    ∷ "connectionerror" ∷ []

abbrev pub pip_error : List String
pip_error =
    "could not find a version" ∷ "package not found" ∷ "ModuleNotFoundError"
    ∷ "No matching distribution found" ∷ []

abbrev pub yum_error : List String
yum_error = "Nothing to do" ∷ []

abbrev pub git_error : List String
git_error =
    "Could not read from remote repository" ∷ "correct access rights" ∷ "Repository not found" ∷ []

abbrev pub argument_error : List String
argument_error = "404" ∷ "400" ∷ "keyerror" ∷ "column missing" ∷ "RuntimeError" ∷ []

-- The expression ends in a `|`, so that its last word is empty.
abbrev pub syntax_error : List String
syntax_error = "syntaxerror" ∷ "typeerror" ∷ "" ∷ []

unfoldable pub classify : String → String
classify error_msg =
    if matches_any connection_error error_msg
    then "Connection error to downstream uri"
    else if matches_any pip_error error_msg
    then "Python pip package installation error"
    else if matches_any yum_error error_msg
    then "Yum installation error"
    else if matches_any git_error error_msg
    then "Git clone error"
    else if matches_any argument_error error_msg
    then "Data or argument error"
    else if matches_any syntax_error error_msg
    then "Code or syntax error"
    else "Runtime exception encountered"

unfoldable pub extract_exit_reason : Option (List String) → String
extract_exit_reason run_exceptions = classify (marshal run_exceptions)

occurs-empty : (s : String) → occurs "" s ≡ true
unfolding occurs
occurs-empty String.[] = refl
occurs-empty (String.◌∷◌ c s) = refl

-- A text that ends a longer one: a word that occurs in it occurs in the longer one.
occurs-append : (word s t : String) → occurs word t ≡ true → occurs word (text_append s t) ≡ true
unfolding occurs
occurs-append word String.[] t h = rw (append.nil t) h
occurs-append word (String.◌∷◌ c s) t h =
    rw (append.cons c s t, occurs) (ground (arith, occurs-append word s t h))

matches_any-syntax_error : (s : String) → matches_any syntax_error s ≡ true
unfolding matches_any
matches_any-syntax_error s = ground (arith, occurs-empty s)

-- The reasons that can be given.
abbrev pub reasons : List String
reasons =
    "Connection error to downstream uri" ∷ "Python pip package installation error"
    ∷ "Yum installation error" ∷ "Git clone error" ∷ "Data or argument error"
    ∷ "Code or syntax error" ∷ []

reason_of :
    (a b c d e : Bool)
    → string_slice_contains reasons (
        if a
        then "Connection error to downstream uri"
        else if b
        then "Python pip package installation error"
        else if c
        then "Yum installation error"
        else if d
        then "Git clone error"
        else if e
        then "Data or argument error"
        else "Code or syntax error")
      ≡ true
unfolding string_slice_contains
reason_of true b c d e = refl
reason_of false true c d e = refl
reason_of false false true d e = refl
reason_of false false false true e = refl
reason_of false false false false true = refl
reason_of false false false false false = refl

classify-reasons : (s : String) → string_slice_contains reasons (classify s) ≡ true
unfolding classify
classify-reasons s = rw (matches_any-syntax_error s) (
    reason_of (matches_any connection_error s) (matches_any pip_error s) (matches_any yum_error s)
      (matches_any git_error s) (matches_any argument_error s))

-- Every list of exceptions, and no list too, is given one of the first six reasons. The last,
-- "Runtime exception encountered", is never given: the expression of syntax errors has an empty
-- word, which occurs in all texts.
pub extract_exit_reason-reasons :
    (run_exceptions : Option (List String))
    → string_slice_contains reasons (extract_exit_reason run_exceptions) ≡ true
unfolding extract_exit_reason
extract_exit_reason-reasons run_exceptions = classify-reasons (marshal run_exceptions)
