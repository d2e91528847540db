-- ===== src/Storage/Effects.antt =====
-- What the stores call: the clock, the ownership of src/storage/WorkerOwnerLock.ts and the files of
-- src/storage/AtomicFileStore.ts, as actions on a world that may throw. What was written stays written
-- after a throw.
use copilot_agent_mesh.Prelude.{
  ℕ, suc, Bool, true, false, not, ◌||◌, String, Option, none, some, List, Dict, lookup, insert, map,
  if◌then◌else◌, text_option_eq, is_some,
}
use copilot_agent_mesh.Protocol.{
  Result, ok, err, MeshError, MeshErrorReason, mesh, plain_error, corruption,
}

-- How a call of `writeJson` ends: an error before the rename leaves the file, one after it does not.
pub data DiskOutcome : Type 0 where
  done failed_before failed_after : DiskOutcome

-- What `WorkerOwnership` answers around one `assertOwner`: `isOwner()` and `currentGeneration()`, the error
-- that `assertOwner` throws, and `currentGeneration()` after it.
pub record OwnershipView : Type 0 where
  pub is_owner : Bool
  pub generation : Option String
  pub assertion : Option MeshError
  pub generation_after : Option String

-- The surroundings of a store: at each moment the time, how the disk does, and, if the store is fenced,
-- what the ownership answers. `generation` is the one that the store was made with.
pub record Surroundings : Type 0 where
  pub now : ℕ → String
  pub disk : ℕ → DiskOutcome
  pub ownership : Option (ℕ → OwnershipView)
  pub generation : Option String

-- The contents of a file, as `readJson` finds them: a JSON value, or text that is no JSON.
pub data Stored (V : Type 0) : Type 0 where
  json : V → Stored V
  not_json : Stored V

-- The files, and a count of the calls so far.
pub record World (V : Type 0) : Type 0 where
  pub files : Dict (Stored V)
  pub moment : ℕ

abbrev pub Action : Type 0 → Type 0 → Type 0
Action V A = World V → Result A × World V

abbrev pub has_failed : DiskOutcome → Bool
has_failed done = false
has_failed _ = true

module _ {V : Type 0} where
  abbrev pub pure : {A : Type 0} → A → Action V A
  pure a w = (ok a, w)

  abbrev pub throw : {A : Type 0} → MeshError → Action V A
  throw e w = (err e, w)

  -- A computation that touches nothing.
  abbrev pub lift : {A : Type 0} → Result A → Action V A
  lift r w = (r, w)

  abbrev pub continue : {A B : Type 0} → (A → Action V B) → Result A × World V → Result B × World V
  continue next (ok a, w) = next a w
  continue next (err e, w) = (err e, w)

  infixl 5 ◌>>=◌ ◌>>◌
  abbrev pub ◌>>=◌ : {A B : Type 0} → Action V A → (A → Action V B) → Action V B
  ◌>>=◌ m next w = continue next (m w)

  abbrev pub ◌>>◌ : {B : Type 0} → Action V (Unit {0}) → Action V B → Action V B
  m >> next = m >>= λ _. next

  abbrev pub require_that : Bool → MeshError → Action V (Unit {0})
  require_that test e w = (if test then ok tt else err e, w)

  abbrev pub tick : World V → World V
  tick w = record w { moment = suc w.moment }

  -- `clock.now().toISOString()`.
  abbrev pub current_time : Surroundings → Action V String
  current_time s w = (ok (s.now w.moment), tick w)

  -- `readJson`: a missing file is `none`, and text that is no JSON throws.
  abbrev pub contents_of : String → Option (Stored V) → Result (Option V)
  contents_of path none = ok none
  contents_of path (some (json v)) = ok (some v)
  contents_of path (some not_json) = err (corruption path)

  unfoldable pub read_file : Surroundings → String → Action V (Option V)
  read_file s path w = (
    if has_failed (s.disk w.moment)
        then err plain_error
        else contents_of path (lookup path w.files),
    tick w,
  )

  -- `writeJson`.
  abbrev pub written : DiskOutcome → String → V → World V → Result (Unit {0}) × World V
  written done path v w = (ok tt, record w { files = insert path (json v) w.files })
  written failed_before path v w = (err plain_error, w)
  written failed_after path v w =
      (err plain_error, record w { files = insert path (json v) w.files })

  unfoldable pub write_file : Surroundings → String → V → Action V (Unit {0})
  write_file s path v w = written (s.disk w.moment) path v (tick w)

  -- `list`.
  abbrev pub names_of : Dict (Stored V) → List String
  names_of files = map (λ entry. entry.0) files

  unfoldable pub list_files : Surroundings → Action V (List String)
  list_files s w =
      (if has_failed (s.disk w.moment) then err plain_error else ok (names_of w.files), tick w)

abbrev pub draining : MeshError
draining = mesh MeshErrorReason.worker_draining true

abbrev pub or_error : Option MeshError → Result (Unit {0}) → Result (Unit {0})
or_error (some e) r = err e
or_error none r = r

-- One view of the ownership against the generation of the store.
abbrev pub confirms : Option String → OwnershipView → Result (Unit {0})
confirms generation view =
    if not (is_some generation)
      || not view.is_owner
      || not (text_option_eq view.generation generation)
    then err draining
    else or_error view.assertion
        (if text_option_eq view.generation_after generation then ok tt else err draining)

-- `assertWritable` of FileTaskStore.ts, and `assertDocumentFence` of FencedDocumentStore.ts. A store
-- without ownership is not fenced.
module _ {V : Type 0} where
  abbrev pub fence_outcome : Option (ℕ → OwnershipView) → Option String → Action V (Unit {0})
  fence_outcome none generation w = (ok tt, w)
  fence_outcome (some view) generation w = (confirms generation (view w.moment), tick w)

  unfoldable pub assert_writable : Surroundings → Action V (Unit {0})
  assert_writable s w = fence_outcome s.ownership s.generation w
