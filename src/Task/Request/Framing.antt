-- ===== src/Task/Request/Framing.antt =====
-- src/domain/task.ts: `lengthPrefix`, and the text of a list of fields.
use copilot_agent_mesh.Prelude.{String, List, [], ◌∷◌, map}
use copilot_agent_mesh.Protocol.{number_text, ◌^◌, utf8_byte_length}

-- `${Buffer.byteLength(value, 'utf8')}:${value}`.
unfoldable pub length_prefix : String → String
length_prefix value = number_text (utf8_byte_length value) ^ (":" ^ value)

-- `texts.join('')`.
unfoldable pub joined : List String → String
joined [] = ""
joined (s ∷ rest) = s ^ joined rest

abbrev pub framed : List String → String
framed fields = joined (map length_prefix fields)
