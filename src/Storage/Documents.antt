-- ===== src/Storage/Documents.antt =====
-- src/storage/FencedDocumentStore.ts: one document in one file, written by the owner only. Each method runs
-- alone (`serialize`). The schema, the size of the JSON text, the document that is there at first and the
-- change are arguments, as in the source.
pub mod Revisions
pub mod Fence
use copilot_agent_mesh.Prelude.{
  ℕ, suc, Bool, true, false, not, ◌||◌, String, Option, none, some, List, [], ◌∷◌, ltb,
  if◌then◌else◌,
}
use copilot_agent_mesh.Protocol.{Result, ok, err, MeshErrorReason, mesh, plain_error, corruption}
use copilot_agent_mesh.Storage.Effects.{
  DiskOutcome, OwnershipView, Surroundings, World, Action, pure, throw, lift, ◌>>=◌, ◌>>◌,
  require_that, tick, has_failed, read_file, write_file, confirms,
}

-- What a document store is made with. `encoded` is the JSON value of a document, and `with_revision` the
-- object `{ ...document, revision }`.
pub record DocumentKind (V T : Type 0) : Type 0 where
  pub path : String
  pub schema : V → Result T
  pub encoded : T → V
  pub revision : T → ℕ
  pub with_revision : T → ℕ → V
  pub json_bytes : V → ℕ
  pub max_bytes : ℕ
  pub initial : V
  pub ownership : ℕ → OwnershipView
  pub generation : String

-- The store's document, if it is initialized, and the files.
pub record DocumentState (V T : Type 0) : Type 0 where
  pub world : World V
  pub document : Option T

-- `schema.safeParse`, whose error is replaced.
abbrev parsed_or : {T : Type 0} → Result T → String → Result T
parsed_or (ok d) path = ok d
parsed_or (err _) path = err (corruption path)

abbrev or_initial : {V : Type 0} → Option V → V → V
or_initial none initial = initial
or_initial (some v) initial = v

module _ {V T : Type 0} (s : Surroundings) (k : DocumentKind V T) where
  -- `assertDocumentFence`.
  unfoldable pub assert_document_fence : Action V (Unit {0})
  assert_document_fence w = (confirms (some k.generation) (k.ownership w.moment), tick w)

  -- `validate?.()`, which changes no file.
  abbrev validated : Option (ℕ → Result (Unit {0})) → Action V (Unit {0})
  validated none w = (ok tt, w)
  validated (some validate) w = (validate w.moment, tick w)

  -- What `writeJson` does before it asks whether the write is still current.
  abbrev prepare_write : Action V (Unit {0})
  prepare_write w = (if has_failed (s.disk w.moment) then err plain_error else ok tt, tick w)

  -- `initialize`, from the file on.
  unfoldable pub read_document : Action V T
  read_document = do
    stored ← read_file s k.path
    parsed ← lift (parsed_or (k.schema (or_initial stored k.initial)) k.path)
    require_that (not (ltb k.max_bytes (k.json_bytes (or_initial stored k.initial))))
        (corruption k.path)
    assert_document_fence
    pure parsed

  -- `update`, from the document on.
  unfoldable pub write_document : (T → Result T) → Option (ℕ → Result (Unit {0})) → T → Action V T
  write_document transform validate current = do
    changed ← lift (transform current)
    next ← lift (k.schema (k.with_revision changed (suc (k.revision current))))
    require_that (not (ltb k.max_bytes (k.json_bytes (k.encoded next))))
        (mesh MeshErrorReason.policy_forbidden false)
    assert_document_fence
    validated validate
    prepare_write
    assert_document_fence
    validated validate
    assert_document_fence
    write_file s k.path (k.encoded next)
    assert_document_fence
    pure next

  -- The document is set when all went well.
  abbrev settled_with : Option T → Result T × World V → Result T × DocumentState V T
  settled_with before (ok next, w) = (ok next, record { world = w; document = some next })
  settled_with before (err e, w) = (err e, record { world = w; document = before })

  initialize_from : Option T → World V → Result T × DocumentState V T
  initialize_from (some d) w = (ok d, record { world = w; document = some d })
  initialize_from none w = settled_with none (read_document w)

  unfoldable pub initialize : DocumentState V T → Result T × DocumentState V T
  unfolding initialize_from
  initialize d = initialize_from d.document d.world

  update_from :
      (T → Result T)
      → Option (ℕ → Result (Unit {0}))
      → Option T
      → World V
      → Result T × DocumentState V T
  update_from transform validate none w = (err plain_error, record { world = w; document = none })
  update_from transform validate (some current) w =
      settled_with (some current) (write_document transform validate current w)

  unfoldable pub update :
      (T → Result T)
      → Option (ℕ → Result (Unit {0}))
      → DocumentState V T
      → Result T × DocumentState V T
  unfolding update_from
  update transform validate d = update_from transform validate d.document d.world
