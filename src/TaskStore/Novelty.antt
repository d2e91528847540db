-- ===== src/TaskStore/Novelty.antt =====
-- src/tasks/FileTaskStore.ts: `createUnlocked` on a task that has no file yet.
use copilot_agent_mesh.Prelude.{
  Bool, true, false, not, ◌&&◌, ◌==◌, String, Option, some, none, ◌≡◌, refl, sym, ap, ◌∙◌, subst,
  arith, Bool-cases, inl, inr, is_some, lookup,
}
use copilot_agent_mesh.Protocol.{
  Platform, TaskRecord, Result, ok, err, corruption, MeshError, mesh, MeshErrorReason, type_error,
}
use copilot_agent_mesh.Protocol.Schema.{persisted_task_record_schema}
use copilot_agent_mesh.Task.Journal.{compact_task_event_journal}
use copilot_agent_mesh.Storage.Effects.{
  Surroundings, World, Action, Stored, json, not_json, pure, lift, ◌>>=◌, ◌>>◌, continue, tick,
  require_that, has_failed, contents_of, read_file, write_file, assert_writable,
}
use copilot_agent_mesh.TaskStore.Names.{task_path}
use copilot_agent_mesh.TaskStore.Access.{
  TaskValue, record_value, parse_record, read_value, read_task, get_owned, compact_on_read,
  write_record, or_else_throw, create,
}
use copilot_agent_mesh.TaskStore.Changes.{Stores}
use copilot_agent_mesh.TaskStore.Identity.{or_else_throw-ok}
use copilot_agent_mesh.TaskStore.Creating.{create-runs, schema-IsParsed}

module _ {V A B : Type 0} where
  continue-ok :
      (x : Result A × World V) (next : A → Action V B) (b : B)
      → (continue next x).0 ≡ ok b
      → (a : A) × (x.0 ≡ ok a) × ((next a x.1).0 ≡ ok b)
  continue-ok (ok a, w) next b h = (a, refl, h)
  continue-ok (err e, w) next b h = cc

  then-ok :
      (m : Action V A) (next : A → Action V B) (w : World V) (b : B)
      → ((m >>= next) w).0 ≡ ok b
      → (a : A) × ((m w).0 ≡ ok a) × ((next a (m w).1).0 ≡ ok b)
  then-ok m next w b h = continue-ok (m w) next b h

module _ ⦃p : Platform⦄ where
  contents-none :
      (path : String) (found : Option (Stored TaskValue))
      → contents_of path found ≡ ok none
      → found ≡ none
  contents-none path none h = refl
  contents-none path (some (json v)) h = cc
  contents-none path (some not_json) h = cc

  read_file-none :
      (s : Surroundings) (path : String) (w : World TaskValue)
      → (read_file s path w).0 ≡ ok none
      → lookup path w.files ≡ none
  unfolding read_file
  read_file-none s path w h = elim (Bool-cases (has_failed (s.disk w.moment))) [
    | inl failed ↦ cc (rw failed at h)
    | inr fine ↦ contents-none path (lookup path w.files) (rw fine at h)
  ]

  module _ (s : Surroundings) (device_id : Option String) where
    read_value-none :
        (path peer_id task_id : String) (o : Option TaskValue) (w : World TaskValue)
        → (read_value s device_id path peer_id task_id o w).0 ≡ ok none
        → o ≡ none
    unfolding read_value
    read_value-none path peer_id task_id none w h = refl
    read_value-none path peer_id task_id (some value) w h =
        let (r, e1, h1) = then-ok (lift (parse_record path value)) _ w none h in
        let (u, e2, h2) =
          then-ok (require_that (r.peer_id == peer_id && r.task_id == task_id) (corruption path))
            (λ u. compact_on_read s device_id path r >>= λ kept. pure (some kept)) w none h1 in
        let (kept, e3, h3) =
          then-ok (compact_on_read s device_id path r) (λ kept. pure (some kept)) w none h2 in
        cc

    pub get_owned-none :
        (peer_id task_id : String) (w : World TaskValue)
        → p.parse_uuid peer_id ≡ some peer_id
        → p.parse_uuid task_id ≡ some task_id
        → (get_owned s device_id peer_id task_id w).0 ≡ ok none
        → lookup (task_path peer_id task_id) w.files ≡ none
    unfolding get_owned read_task
    get_owned-none peer_id task_id w peer task h =
        let path = task_path peer_id task_id in
        let (o, e, h1) = then-ok (read_file s path) _ w none (rw (peer, task) at h) in
        let empty = read_value-none path peer_id task_id o _ h1 in
        read_file-none s path w (e ∙ ap ok empty)

    not_found : {A : Type 0} (o : Option A) → not (is_some o) ≡ true → o ≡ none
    not_found none h = refl
    not_found (some a) h = cc

    required :
        (test : Bool) (w : World TaskValue) (e : MeshError) (u : Unit {0})
        → (require_that test e w).0 ≡ ok u
        → test ≡ true
    required true w e u h = refl
    required false w e u h = cc

    write_record-gives :
        (path : String) (v a : TaskRecord) (w : World TaskValue)
        → (write_record s device_id path v w).0 ≡ ok a
        → a ≡ v
    unfolding write_record
    write_record-gives path v a w h =
        let write = write_file s path (record_value v) in
        let (u, e1, h1) =
          then-ok (assert_writable s) (λ u. write >> (assert_writable s >> pure v)) w a h in
        let w1 = (assert_writable s w).1 in
        let (u2, e2, h2) = then-ok write (λ u. assert_writable s >> pure v) w1 a h1 in
        let (u3, e3, h3) = then-ok (assert_writable s) (λ u. pure v) (write w1).1 a h2 in
        ground (arith, h3)

    -- The tail of `createUnlocked`, from the parsed record on.
    fresh_name :
        (v a : TaskRecord) (w : World TaskValue)
        → p.parse_uuid v.peer_id ≡ some v.peer_id
        → p.parse_uuid v.task_id ≡ some v.task_id
        → ((get_owned s device_id v.peer_id v.task_id >>= λ existing.
              require_that (not (is_some existing)) (mesh MeshErrorReason.task_id_conflict false)
              >> write_record s device_id (task_path v.peer_id v.task_id) v)
            w).0
          ≡ ok a
        → (lookup (task_path v.peer_id v.task_id) w.files ≡ none) × (a ≡ v)
    fresh_name v a w peer task h =
        let (o, e, h1) = then-ok (get_owned s device_id v.peer_id v.task_id) _ w a h in
        let w1 = (get_owned s device_id v.peer_id v.task_id w).1 in
        let (u, e1, h2) =
          then-ok (require_that (not (is_some o)) (mesh MeshErrorReason.task_id_conflict false))
            (λ u. write_record s device_id (task_path v.peer_id v.task_id) v) w1 a h1 in
        let absent = not_found o (required (not (is_some o)) w1 _ _ e1) in
        (
          get_owned-none v.peer_id v.task_id w peer task (e ∙ ap ok absent),
          write_record-gives (task_path v.peer_id v.task_id) v a _ h2,
        )

    created_fresh :
        (settled : (s t : String) → p.parse_uuid s ≡ some t → p.parse_uuid t ≡ some t)
        (r v : TaskRecord) (w : World TaskValue)
        → (create s device_id r w).0 ≡ ok v
        → lookup (task_path v.peer_id v.task_id) w.files ≡ none
    unfolding create
    created_fresh settled r v w h =
        let at = s.now w.moment in
        let (c, e1, h1) = then-ok (lift (compact_task_event_journal r at)) _ (tick w) v h in
        let (u, e2, h2) =
          then-ok (lift (or_else_throw (persisted_task_record_schema c) type_error)) _ (tick w) v
            h1 in
        let (good, normal) = schema-IsParsed settled c u (or_else_throw-ok _ _ u e2) in
        let (absent, same) = fresh_name u v (tick w) normal.peer normal.task h2 in
        subst (λ (q : TaskRecord). lookup (task_path q.peer_id q.task_id) w.files ≡ none) (sym same)
          absent

    -- A creation that returns a record has made its file: there was no file under the name of the task, and
    -- now there is one that parses to the record. What a creation that throws does is not part of this. The
    -- schema for UUIDs leaves what it gives.
    pub create_new :
        (settled : (s t : String) → p.parse_uuid s ≡ some t → p.parse_uuid t ≡ some t)
        (r v : TaskRecord) (w : World TaskValue)
        → (create s device_id r w).0 ≡ ok v
        → (lookup (task_path v.peer_id v.task_id) w.files ≡ none)
          × Stores (task_path v.peer_id v.task_id) v (create s device_id r w).1.files
    create_new settled r v w h =
        (created_fresh settled r v w h, (((create-runs settled s device_id r).runs w tt).1 v h).1)
