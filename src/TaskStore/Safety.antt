-- ===== src/TaskStore/Safety.antt =====
-- src/tasks/FileTaskStore.ts: the files after any calls of its public methods.
use copilot_agent_mesh.Prelude.{
  ℕ, false, String, Option, some, List, ◌≡◌, refl, sym, ap, ◌∙◌, subst, arith, Bool-cases, inl, inr,
  if◌then◌else◌, lookup, lookup-insert, eq_iff, ◌==◌,
}
use copilot_agent_mesh.Protocol.{Platform, TaskRecord, ok}
use copilot_agent_mesh.Protocol.Schema.{persisted_task_record_schema}
use copilot_agent_mesh.Storage.Effects.{Surroundings, World, Stored, json}
use copilot_agent_mesh.Storage.Rules.{Files, is_confirmed}
use copilot_agent_mesh.TaskStore.Names.{task_path}
use copilot_agent_mesh.TaskStore.Access.{TaskValue, record_value, get_owned}
use copilot_agent_mesh.TaskStore.Changes.{
  IsRecordOf, IsSaved, Stores, Changes, unchanged, and_written,
}
use copilot_agent_mesh.TaskStore.Methods.{get_owned-runs}
use copilot_agent_mesh.TaskStore.Calls.{
  TaskChange, Call, apply_change, perform_all, apply_change-runs, named-cases, unnamed_change,
  unnamed_get, perform_all-Changes,
}
use copilot_agent_mesh.TaskStore.Listing.{Any}

module _ ⦃p : Platform⦄ where
  -- Every file holds a record that the schema leaves unchanged, under the name of its task.
  pub record IsCanonical (f : Files TaskValue) : Type 0 where
    pub holds :
        (path : String) (x : Stored TaskValue)
        → lookup path f ≡ some x
        → (r : TaskRecord) × (x ≡ json (record_value r))
          × (persisted_task_record_schema r ≡ ok r)
          × (path ≡ task_path r.peer_id r.task_id)

  Changes-IsCanonical :
      (s : Surroundings) (W : TaskRecord → Type 0) (f g : Files TaskValue)
      → Changes s W f g
      → IsCanonical f
      → IsCanonical g
  Changes-IsCanonical s W f g unchanged h = h
  Changes-IsCanonical s W f g (and_written {g = g'} path r later ready w) h = record {
    holds = λ other x found.
        let read : (if path == other then some (json (record_value r)) else lookup other g')
            ≡ some x =
          sym (lookup-insert path other (json (record_value r)) g') ∙ found in
        elim (Bool-cases (path == other)) [
          | inl same ↦
              let value : json (record_value r) ≡ x = ground (arith, rw same at read) in
              (r, sym value, ready.parsed, sym ((eq_iff path other).0 same) ∙ ready.named)
          | inr apart ↦ (Changes-IsCanonical s W f g' later h).holds other x (rw apart at read)
        ];
  }

  Changes-unconfirmed :
      (s : Surroundings) (W : TaskRecord → Type 0) (f g : Files TaskValue)
      → ((n : ℕ) → is_confirmed s n ≡ false)
      → Changes s W f g
      → g ≡ f
  Changes-unconfirmed s W f g never unchanged = refl
  Changes-unconfirmed s W f g never (and_written path r later ready w) =
      cc (ready.confirmed, never ready.at)

  same_path :
      {peer_id task_id : String} (r : TaskRecord)
      → IsRecordOf peer_id task_id r
      → task_path r.peer_id r.task_id ≡ task_path peer_id task_id
  same_path r (peer, task) = rw (peer, task) refl

  saved_own :
      (peer_id task_id peer task : String) (r : TaskRecord) (f : Files TaskValue)
      → p.parse_uuid peer_id ≡ some peer
      → p.parse_uuid task_id ≡ some task
      → IsSaved peer task r f
      → (p.parse_uuid peer_id ≡ some r.peer_id)
        × (p.parse_uuid task_id ≡ some r.task_id)
        × Stores (task_path r.peer_id r.task_id) r f
  saved_own peer_id task_id peer task r f h k (named, stored) = (
    h ∙ ap some (sym named.0),
    k ∙ ap some (sym named.1),
    subst (λ q. Stores q r f) (sym (same_path r named)) stored,
  )

  Changes-elsewhere :
      (s : Surroundings) (peer_id task_id other : String) (f g : Files TaskValue)
      → (task_path peer_id task_id == other) ≡ false
      → Changes s (IsRecordOf peer_id task_id) f g
      → lookup other g ≡ lookup other f
  Changes-elsewhere s peer_id task_id other f g apart unchanged = refl
  Changes-elsewhere s peer_id task_id other f g apart (and_written {g = g'} path r later ready w) =
      let named : path ≡ task_path peer_id task_id = ready.named ∙ same_path r w in
      lookup-insert path other (json (record_value r)) g'
      ∙ rw (ap (λ t. t == other) named ∙ apart)
          (Changes-elsewhere s peer_id task_id other f g' apart later)

  module _ (s : Surroundings) (device_id : Option String)
      (settled : (s t : String) → p.parse_uuid s ≡ some t → p.parse_uuid t ≡ some t) where
    -- Whatever methods are called, in whatever order, whichever of them throw, and however the disk and the
    -- ownership do: if every file holds a record that the schema leaves unchanged, under the name of its own
    -- task, then so it is afterwards. The schema for UUIDs leaves what it gives.
    pub perform_all-IsCanonical :
        (cs : List Call) (w : World TaskValue)
        → IsCanonical w.files
        → IsCanonical (perform_all s device_id cs w).files
    perform_all-IsCanonical cs w h =
        Changes-IsCanonical s Any _ _ (perform_all-Changes s device_id settled cs w) h

    -- While the ownership is never confirmed for the generation of the store, no sequence of calls changes a
    -- file. The schema for UUIDs leaves what it gives.
    pub perform_all-unconfirmed :
        (cs : List Call) (w : World TaskValue)
        → ((n : ℕ) → is_confirmed s n ≡ false)
        → (perform_all s device_id cs w).files ≡ w.files
    perform_all-unconfirmed cs w never =
        Changes-unconfirmed s Any _ _ never (perform_all-Changes s device_id settled cs w)

    -- A call that changes a task leaves every file but that of the task as it was, whether it returns or throws.
    -- The schema for UUIDs leaves what it gives.
    pub apply_change-elsewhere :
        (peer_id task_id peer task other : String) (c : TaskChange) (w : World TaskValue)
        → p.parse_uuid peer_id ≡ some peer
        → p.parse_uuid task_id ≡ some task
        → (task_path peer task == other) ≡ false
        → lookup other (apply_change s device_id peer_id task_id c w).1.files ≡ lookup other w.files
    apply_change-elsewhere peer_id task_id peer task other c w h k apart =
        Changes-elsewhere s peer task other _ _ apart
          ((apply_change-runs s device_id settled {P = λ f. Unit {0}} peer_id task_id peer task c h
              k).runs
            w tt).0

    -- A call that changes a task and returns a record has both identifiers given as UUIDs of that record, and
    -- the file of the task then parses to it; so a caller gets only what is stored, and only of its own tasks.
    -- The schema for UUIDs leaves what it gives.
    pub apply_change_stored :
        (peer_id task_id : String) (c : TaskChange) (w : World TaskValue) (r : TaskRecord)
        → (apply_change s device_id peer_id task_id c w).0 ≡ ok r
        → (p.parse_uuid peer_id ≡ some r.peer_id)
          × (p.parse_uuid task_id ≡ some r.task_id)
          × Stores
              (task_path r.peer_id r.task_id)
              r
              (apply_change s device_id peer_id task_id c w).1.files
    apply_change_stored peer_id task_id c w r done =
        elim (named-cases s device_id settled peer_id task_id) [
          | inl unnamed ↦
              absurd ((unnamed_change s device_id settled peer_id task_id c w unnamed).1 r done)
          | inr (peer, task, h, k) ↦ saved_own peer_id task_id peer task r _ h k (
              ((apply_change-runs s device_id settled {P = λ f. Unit {0}} peer_id task_id peer task
                    c h k).runs
                  w tt).1
                r done)
        ]

    -- What `getOwned` returns is a record of the task with both identifiers given as UUIDs, and the file of the
    -- task then parses to it. The schema for UUIDs leaves what it gives.
    pub get_owned_stored :
        (peer_id task_id : String) (w : World TaskValue) (r : TaskRecord)
        → (get_owned s device_id peer_id task_id w).0 ≡ ok (some r)
        → (p.parse_uuid peer_id ≡ some r.peer_id)
          × (p.parse_uuid task_id ≡ some r.task_id)
          × Stores
              (task_path r.peer_id r.task_id)
              r
              (get_owned s device_id peer_id task_id w).1.files
    get_owned_stored peer_id task_id w r done =
        elim (named-cases s device_id settled peer_id task_id) [
          | inl unnamed ↦
              cc (rw (unnamed_get s device_id settled peer_id task_id w unnamed) at done)
          | inr (peer, task, h, k) ↦ saved_own peer_id task_id peer task r _ h k (
              ((get_owned-runs settled s device_id peer_id task_id peer task h k
                    {P = λ f. Unit {0}}).runs
                  w tt).1
                (some r) done r refl)
        ]
