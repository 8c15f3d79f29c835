-- ===== src/Worker/Events/PodNames.antt =====
-- parsePodName of worker/events_worker.go: the expression `eks-\w+-\w+-\w+-\w+-\w+-\w+` in a message.
use Prim.Native.Nat.{ℕ, zero, suc}
use Prim.Native.String.{String, ◌++◌}
use Prim.Native.Char.{Char, code}
use flotilla_os.Common.{Bool, ◌&&◌, ◌||◌, Option, none, some, if◌then◌else◌, leb, eqb, is_empty}

-- `\w`
unfoldable pub is_word_char : Char → Bool
is_word_char c =
    (leb 48 (code c) && leb (code c) 57)
    || (leb 65 (code c) && leb (code c) 90)
    || eqb (code c) 95
    || (leb 97 (code c) && leb (code c) 122)

-- The characters of a word that stand first in a text, and the rest of it.
unfoldable pub take_word : String → String × String
take_word String.[] = ("", "")
take_word (String.◌∷◌ c s) =
    let (word, rest) = take_word s in
    if is_word_char c then (String.◌∷◌ c word, rest) else ("", String.◌∷◌ c s)

-- The text after a prefix that it starts with.
unfoldable pub strip : String → String → Option String
strip String.[] s = some s
strip (String.◌∷◌ p ps) String.[] = none
strip (String.◌∷◌ p ps) (String.◌∷◌ c s) = if eqb (code p) (code c) then strip ps s else none

-- As many words as there are rounds, a dash before each.
unfoldable pub dashed_words : ℕ → String → Option String
dashed_words zero s = some ""
dashed_words (suc n) s = elim (strip "-" s) [
  | none ↦ none
  | some after ↦
      let (word, rest) = take_word after in
      let others = dashed_words n rest in
      if is_empty word
      then none
      else elim others [ none ↦ none | some t ↦ some ("-" ++ (word ++ t)) ]
]

-- A pod's name at the start of a text. A word ends where no more of its characters follow, so that
-- there is one way to match.
unfoldable pub name_here : String → Option String
name_here s = elim (strip "eks" s) [
  | none ↦ none
  | some rest ↦ elim (dashed_words 6 rest) [ none ↦ none | some t ↦ some ("eks" ++ t) ]
]

-- The first place where there is one.
unfoldable pub parse_pod_name : String → Option String
parse_pod_name String.[] = none
parse_pod_name (String.◌∷◌ c s) = elim (name_here (String.◌∷◌ c s)) [
  | none ↦ parse_pod_name s
  | some name ↦ some name
]
