-- ===== src/Protocol/Host.antt =====
-- What the task core calls and does not implement: zod's schemas for UUIDs and timestamps, the
-- `Date` of the JavaScript engine, and SHA-256. Every definition that needs them takes them as an
-- instance argument.
use copilot_agent_mesh.Prelude.{ℕ, Bool, String, Option}

pub record Platform : Type 0 where
  -- `uuidSchema.safeParse(value)`: the value in lower case, or `none` when it is no UUID.
  pub parse_uuid : String → Option String
  -- `timestampSchema.safeParse(value).success`.
  pub is_timestamp : String → Bool
  -- `Date.parse(value)`, in milliseconds from the least time value that a Date can hold, so that
  -- it is never negative; `none` is NaN.
  pub date_parse : String → Option ℕ
  -- `createHash('sha256').update(text, 'utf8').digest('hex')`.
  pub sha256_hex : String → String
