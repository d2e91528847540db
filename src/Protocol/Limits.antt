-- ===== src/Protocol/Limits.antt =====
-- shared/protocol/limits.ts. A text's UTF-8 length is `len`.
use Prim.Native.String.{len}
use copilot_agent_mesh.Prelude.{ℕ, ◌*◌, String, Bool, ◌&&◌, leb}

abbrev pub frame_bytes : ℕ
frame_bytes = 1_048_576

abbrev pub task_event_journal_bytes : ℕ
task_event_journal_bytes = 640 * 1_024

abbrev pub task_title_bytes : ℕ
task_title_bytes = 256

abbrev pub task_prompt_bytes : ℕ
task_prompt_bytes = 128 * 1_024

abbrev pub acceptance_criteria_count : ℕ
acceptance_criteria_count = 32

abbrev pub acceptance_criterion_bytes : ℕ
acceptance_criterion_bytes = 4 * 1_024

abbrev pub task_answer_bytes : ℕ
task_answer_bytes = 32 * 1_024

abbrev pub output_event_bytes : ℕ
output_event_bytes = 16 * 1_024

abbrev pub terminal_summary_bytes : ℕ
terminal_summary_bytes = 16 * 1_024

abbrev pub error_message_bytes : ℕ
error_message_bytes = 2 * 1_024

abbrev pub name_bytes : ℕ
name_bytes = 256

abbrev pub identifier_bytes : ℕ
identifier_bytes = 128

abbrev pub artifact_consumer_task_count : ℕ
artifact_consumer_task_count = 8

abbrev pub artifact_label_bytes : ℕ
artifact_label_bytes = 256

abbrev pub artifact_group_count : ℕ
artifact_group_count = 16

abbrev pub artifact_content_bytes : ℕ
artifact_content_bytes = 12 * 1_024

abbrev pub artifact_store_bytes : ℕ
artifact_store_bytes = 2 * 1_024 * 1_024

abbrev pub utf8_byte_length : String → ℕ
utf8_byte_length = len

-- `utf8String(maxBytes, name, minimumBytes)` as a test.
abbrev pub utf8_string : ℕ → ℕ → String → Bool
utf8_string max_bytes minimum_bytes value =
    leb minimum_bytes (utf8_byte_length value) && leb (utf8_byte_length value) max_bytes
