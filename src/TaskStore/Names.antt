-- ===== src/TaskStore/Names.antt =====
-- src/tasks/FileTaskStore.ts: the names of the task files.
use Prim.Native.Char.{Char}
use copilot_agent_mesh.Prelude.{
  ℕ, ◌+◌, ◌-◌, ◌/◌, ◌%◌, Bool, true, false, ◌&&◌, ◌||◌, String, Option, none, some, List, [], ◌∷◌,
  ◌==◌, ltb, eqb, if◌then◌else◌, starts_with, codes, is_some,
}
use copilot_agent_mesh.Protocol.{Platform, Result, ok, err, corruption, ◌^◌}

-- `taskPath`, and the file's name in it.
abbrev pub file_name : String → String → String
file_name peer_id task_id = peer_id ^ "--" ^ task_id ^ ".json"

abbrev pub path_of : String → String
path_of name = "tasks/" ^ name

abbrev pub task_path : String → String → String
task_path peer_id task_id = path_of (file_name peer_id task_id)

pub record TaskIdentity : Type 0 where
  pub identity_peer : String
  pub identity_task : String

abbrev prepend : Char → Option String → Option String
prepend c none = none
prepend c (some t) = some (String.◌∷◌ c t)

-- `name.slice(0, -'.json'.length)` of a name that ends with '.json'; `none` for any other.
unfoldable pub json_stem : String → Option String
json_stem String.[] = none
json_stem (String.◌∷◌ c s) =
    let rest = json_stem s in if String.◌∷◌ c s == ".json" then some "" else prepend c rest

abbrev prepend_first : Char → Option (String × String) → Option (String × String)
prepend_first c none = none
prepend_first c (some (t, u)) = some (String.◌∷◌ c t, u)

-- The parts of a text before and from the first '--'.
unfoldable pub split_separator : String → Option (String × String)
split_separator String.[] = none
split_separator (String.◌∷◌ c s) =
    let rest = split_separator s in
    if starts_with (String.◌∷◌ c s) "--" then some ("", String.◌∷◌ c s) else prepend_first c rest

-- A text without its first character.
abbrev pub rest_of : String → String
rest_of String.[] = ""
rest_of (String.◌∷◌ c s) = s

abbrev pub identity_of : String → String → Option String → Option String → Result TaskIdentity
identity_of path name (some peer_id) (some task_id) =
    if name == file_name peer_id task_id
    then ok (record { identity_peer = peer_id; identity_task = task_id })
    else err (corruption path)
identity_of path name _ _ = err (corruption path)

module _ ⦃p : Platform⦄ where
  -- The two parts of the stem; there is one '--', and it is not at the start.
  abbrev pub parts_identity : String → String → Option (String × String) → Result TaskIdentity
  parts_identity path name none = err (corruption path)
  parts_identity path name (some (before, from)) =
      if before == "" || is_some (split_separator (rest_of from))
      then err (corruption path)
      else identity_of path name (p.parse_uuid before) (p.parse_uuid (rest_of (rest_of from)))

  -- `parseTaskFileName`, of a name whose stem is given.
  unfoldable pub parse_task_file_name : String → String → String → Result TaskIdentity
  parse_task_file_name path name stem = parts_identity path name (split_separator stem)

-- The UTF-16 code units of a text, by which JavaScript orders texts.
abbrev code_units : List ℕ → List ℕ
code_units [] = []
code_units (c ∷ cs) =
    if ltb c 65_536
    then c ∷ code_units cs
    else (55_296 + (c - 65_536) / 1_024) ∷ (56_320 + (c - 65_536) % 1_024) ∷ code_units cs

unfoldable pub units_before : List ℕ → List ℕ → Bool
units_before [] ys = true
units_before (x ∷ xs) [] = false
units_before (x ∷ xs) (y ∷ ys) =
    let rest = units_before xs ys in if ltb x y then true else eqb x y && rest

abbrev pub text_before : String → String → Bool
text_before s t = units_before (code_units (codes s)) (code_units (codes t))

-- `[...names].sort()`.
unfoldable pub insert_sorted : String → List String → List String
insert_sorted name [] = name ∷ []
insert_sorted name (other ∷ names) =
    let rest = insert_sorted name names in
    if text_before name other then name ∷ other ∷ names else other ∷ rest

unfoldable pub sorted_names : List String → List String
sorted_names [] = []
sorted_names (name ∷ names) = insert_sorted name (sorted_names names)

-- The names in the folder of the tasks, of the paths of all files.
unfoldable pub after_prefix : String → String → Option String
after_prefix String.[] path = some path
after_prefix (String.◌∷◌ c s) String.[] = none
after_prefix (String.◌∷◌ c s) (String.◌∷◌ d path) =
    let rest = after_prefix s path in
    if starts_with (String.◌∷◌ c "") (String.◌∷◌ d "") then rest else none

abbrev keep_name : Option String → List String → List String
keep_name none names = names
keep_name (some name) names = name ∷ names

unfoldable pub task_names : List String → List String
task_names [] = []
task_names (path ∷ paths) = keep_name (after_prefix "tasks/" path) (task_names paths)
