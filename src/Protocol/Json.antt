-- ===== src/Protocol/Json.antt =====
-- The parts of JavaScript's standard library that the protocol's texts rest on: `String(n)` of a natural
-- number, and the UTF-8 length of `JSON.stringify` for the events of a task.
use Prim.Native.Char.{code, len_utf8}
use Prim.Native.String
use copilot_agent_mesh.Prelude.{
  ℕ, zero, suc, ◌+◌, ◌/◌, ◌%◌, String, Option, none, some, List, [], ◌∷◌, map, ltb, eqb,
  if◌then◌else◌, ◌||◌,
}
use copilot_agent_mesh.Protocol.Records.{TaskEventRecord}

infixr 65 ◌^◌
-- Concatenation of texts.
abbrev pub ◌^◌ : String → String → String
s ^ t = String.◌++◌ s t

abbrev pub digit_text : ℕ → String
digit_text zero = "0"
digit_text (suc zero) = "1"
digit_text (suc (suc zero)) = "2"
digit_text (suc (suc (suc zero))) = "3"
digit_text (suc (suc (suc (suc zero)))) = "4"
digit_text (suc (suc (suc (suc (suc zero))))) = "5"
digit_text (suc (suc (suc (suc (suc (suc zero)))))) = "6"
digit_text (suc (suc (suc (suc (suc (suc (suc zero))))))) = "7"
digit_text (suc (suc (suc (suc (suc (suc (suc (suc zero)))))))) = "8"
digit_text _ = "9"

-- The digits of `n`, given at least as many rounds as it has digits.
unfoldable pub digits : ℕ → ℕ → String
digits zero n = ""
digits (suc rounds) n =
    let more = digits rounds (n / 10) ^ digit_text (n % 10) in
    if ltb n 10 then digit_text n else more

-- `String(n)`. A number has no more digits than one more than its value.
unfoldable pub number_text : ℕ → String
unfolding digits
number_text n = digits (suc n) n

-- The bytes of one character in a JSON string: two for the short escapes, six for the other control
-- characters, and the character's own otherwise.
abbrev character_json_bytes : ℕ → ℕ → ℕ
character_json_bytes c width =
    if eqb c 34 || (eqb c 92 || (eqb c 8 || (eqb c 9 || (eqb c 10 || (eqb c 12 || eqb c 13)))))
    then 2
    else if ltb c 32
    then 6
    else width

escaped_bytes : String → ℕ
escaped_bytes String.[] = 0
escaped_bytes (String.◌∷◌ c s) = character_json_bytes (code c) (len_utf8 c) + escaped_bytes s

-- The UTF-8 length of `JSON.stringify(text)`.
unfoldable pub string_json_bytes : String → ℕ
unfolding escaped_bytes
string_json_bytes s = 2 + escaped_bytes s

abbrev summary_json_bytes : Option String → ℕ
summary_json_bytes none = 0
summary_json_bytes (some s) = 11 + string_json_bytes s

-- The UTF-8 length of `JSON.stringify(event)`:
-- `{"eventSeq":N,"at":S,"type":S}`, and `,"summary":S` before the brace when there is a summary.
unfoldable pub event_json_bytes : TaskEventRecord → ℕ
unfolding string_json_bytes number_text
event_json_bytes e =
    27
    + String.len (number_text e.event_seq)
    + string_json_bytes e.at
    + string_json_bytes e.type
    + summary_json_bytes e.summary

-- The items' texts with a comma between them.
abbrev pub joined_bytes : List ℕ → ℕ
joined_bytes [] = 0
joined_bytes (n ∷ []) = n
joined_bytes (n ∷ m ∷ ms) = n + 1 + joined_bytes (m ∷ ms)

-- The UTF-8 length of `JSON.stringify(events)`: the items, joined by commas, in brackets.
abbrev pub events_json_bytes : List TaskEventRecord → ℕ
events_json_bytes es = 2 + joined_bytes (map event_json_bytes es)
