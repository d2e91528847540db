-- ===== src/TaskStore/Listing.antt =====
-- src/tasks/FileTaskStore.ts: the names of the task files and `listUnlocked`.
use copilot_agent_mesh.Prelude.{
  ◌||◌, String, Option, some, none, List, [], ◌∷◌, ◌≡◌, refl, sym, subst, arith, Bool-cases, inl,
  inr, eq_iff, is_some, ◌==◌,
}
use copilot_agent_mesh.Protocol.{Platform, TaskRecord, ok}
use copilot_agent_mesh.Storage.Effects.{Surroundings}
use copilot_agent_mesh.Storage.Rules.{
  IsOrder, Runs, runs_then, runs_pure, runs_lift, runs_given, runs_post, runs_along, runs_list,
}
use copilot_agent_mesh.TaskStore.Names.{
  path_of, file_name, parse_task_file_name, parts_identity, identity_of, TaskIdentity,
  split_separator, rest_of, sorted_names, task_names, json_stem,
}
use copilot_agent_mesh.TaskStore.Access.{read_task}
use copilot_agent_mesh.TaskStore.{list_file, list_named, list_each, list_tasks}
use copilot_agent_mesh.TaskStore.Changes.{
  IsRecordOf, IsFound, Changes, Changes-IsOrder, Changes-weaken,
}
use copilot_agent_mesh.TaskStore.Identity.{IsNormal}
use copilot_agent_mesh.TaskStore.Reads.{read_task-runs}

abbrev pub Any : TaskRecord → Type 0
Any r = Unit

module _ ⦃p : Platform⦄
    (settled : (s t : String) → p.parse_uuid s ≡ some t → p.parse_uuid t ≡ some t) where
  -- A file name that parses is the name of the file of the task, whose identifiers are normal.
  identity_of-IsNormal :
      (path name before after : String) (peer task : Option String) (i : TaskIdentity)
      → p.parse_uuid before ≡ peer
      → p.parse_uuid after ≡ task
      → identity_of path name peer task ≡ ok i
      → (name ≡ file_name i.identity_peer i.identity_task)
        × IsNormal i.identity_peer i.identity_task
  identity_of-IsNormal path name before after (some peer) (some task) i e e' h =
      elim (Bool-cases (name == file_name peer task)) [
        | inl same ↦
            let k : record { identity_peer = peer; identity_task = task } ≡ i =
              ground (arith, h, same) in
            subst
              (λ (i : TaskIdentity).
                (name ≡ file_name i.identity_peer i.identity_task)
                × IsNormal i.identity_peer i.identity_task)
              k
              (
                (eq_iff name (file_name peer task)).0 same,
                record { peer = settled before peer e; task = settled after task e' },
              )
        | inr other ↦ cc (rw other at h)
      ]
  identity_of-IsNormal path name before after none task i e e' h = cc
  identity_of-IsNormal path name before after (some peer) none i e e' h = cc

  parts_identity-IsNormal :
      (path name : String) (parts : Option (String × String)) (i : TaskIdentity)
      → parts_identity path name parts ≡ ok i
      → (name ≡ file_name i.identity_peer i.identity_task)
        × IsNormal i.identity_peer i.identity_task
  parts_identity-IsNormal path name none i h = cc
  parts_identity-IsNormal path name (some (before, from)) i h =
      elim (Bool-cases (before == "" || is_some (split_separator (rest_of from)))) [
        | inl bad ↦ cc (rw bad at h)
        | inr fine ↦
            identity_of-IsNormal path name before (rest_of (rest_of from)) _ _ i refl refl
              (rw fine at h)
      ]

  pub parse_task_file_name-IsNormal :
      (path name stem : String) (i : TaskIdentity)
      → parse_task_file_name path name stem ≡ ok i
      → (name ≡ file_name i.identity_peer i.identity_task)
        × IsNormal i.identity_peer i.identity_task
  unfolding parse_task_file_name
  parse_task_file_name-IsNormal path name stem i h =
      parts_identity-IsNormal path name (split_separator stem) i h

  module _ (s : Surroundings) (device_id : Option String) where
    abbrev order : IsOrder (Changes s Any)
    order = Changes-IsOrder s Any

    list_file-runs :
        (name stem : String)
        → Runs (Changes s Any) (λ f. Unit {0}) (list_file s device_id name stem) (λ o f. Unit {0})
    unfolding list_file
    list_file-runs name stem =
        runs_then order
          (runs_lift order
            {Q = λ i f.
              ((name ≡ file_name i.identity_peer i.identity_task)
                × IsNormal i.identity_peer i.identity_task)
              × Unit {0}}
            (parse_task_file_name (path_of name) name stem)
            (λ f i u h. (parse_task_file_name-IsNormal (path_of name) name stem i h, u)))
          (λ i. runs_given (λ known.
            runs_along
              (runs_post
                (subst
                  (λ n.
                    Runs (Changes s (IsRecordOf i.identity_peer i.identity_task)) (λ f. Unit {0})
                      (read_task s device_id (path_of n) i.identity_peer i.identity_task)
                      (IsFound i.identity_peer i.identity_task))
                  (sym known.0)
                  (read_task-runs settled s device_id i.identity_peer i.identity_task known.1))
                (λ o f found. tt))
              (λ f g changes. Changes-weaken s _ Any f g (λ r w. tt) changes) (λ f u. u)))

    list_named-runs :
        (name : String) (stem : Option String)
        → Runs (Changes s Any) (λ f. Unit {0}) (list_named s device_id name stem) (λ o f. Unit {0})
    unfolding list_named
    list_named-runs name none = runs_pure order none (λ f u. u)
    list_named-runs name (some stem) = list_file-runs name stem

    list_each-runs :
        (names : List String)
        → Runs (Changes s Any) (λ f. Unit {0}) (list_each s device_id names) (λ o f. Unit {0})
    unfolding list_each
    list_each-runs [] = runs_pure order [] (λ f u. u)
    list_each-runs (name ∷ names) =
        runs_then order (list_named-runs name (json_stem name)) (λ found.
          runs_then order (list_each-runs names) (λ records. runs_pure order _ (λ f u. u)))

    pub list_tasks-runs :
        Runs (Changes s Any) (λ f. Unit {0}) (list_tasks s device_id) (λ o f. Unit {0})
    unfolding list_tasks
    list_tasks-runs =
        runs_then order (runs_list order s)
          (λ names. list_each-runs (sorted_names (task_names names)))
