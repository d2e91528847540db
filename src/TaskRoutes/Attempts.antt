-- ===== src/TaskRoutes/Attempts.antt =====
-- src/broker/TaskRouteCatalog.ts: `retainAmbiguous` and `releaseAmbiguous`.
use copilot_agent_mesh.Prelude.{
  ℕ, Bool, true, false, not, ◌||◌, String, Option, none, some, List, [], ◌∷◌, ◌==◌, select, find,
  if◌then◌else◌, Dict, insert, remove,
}
use copilot_agent_mesh.Protocol.{Platform, ok, err, type_error}
use copilot_agent_mesh.Storage.Effects.{DiskOutcome}
use copilot_agent_mesh.TaskRoutes.Records.{Route, ambiguous, state_eq, same_route}
use copilot_agent_mesh.TaskRoutes.State.{
  AttemptGroup, Catalog, Reservation, Outcome, on_ok, after_ok, read_stored, write_catalog,
  without_attempt, require_attempt_group,
}

-- A group with its attempts, which goes with the last one.
abbrev pub set_group : String → AttemptGroup → List ℕ → Dict AttemptGroup → Dict AttemptGroup
set_group task_id group [] groups = remove task_id groups
set_group task_id group (n ∷ attempts) groups = insert task_id group groups

module _ ⦃p : Platform⦄ where
  -- `retainAmbiguous`.
  abbrev pub keep_group : String → AttemptGroup → Dict AttemptGroup → Dict AttemptGroup
  keep_group task_id group groups = set_group task_id group group.attempts groups

  unfoldable pub retain_ambiguous : Reservation → Catalog → Outcome (Unit {0})
  retain_ambiguous reservation c = on_ok (require_attempt_group reservation c) c λ group. (
    ok tt,
    record c {
      attempt_groups =
          keep_group group.route.task_id
            (record group {
              is_protected = true;
              attempts = without_attempt reservation.attempt_id group.attempts;
            })
            c.attempt_groups;
    },
  )

  -- `releaseAmbiguous`, from the catalog without the last attempt on.
  unfoldable pub release_stored :
      DiskOutcome → Route → Option Route → List Route → Catalog → Outcome Bool
  release_stored disk r none routes c = (ok false, c)
  release_stored disk r (some current) routes c =
      if not (state_eq current.state ambiguous) || not (same_route current r)
      then (ok false, c)
      else after_ok (write_catalog disk (select (λ q. not (q.task_id == current.task_id)) routes) c)
          λ written c'. (ok true, record c' { routes = remove current.task_id c'.routes })

  unfoldable pub release_last : DiskOutcome → AttemptGroup → Catalog → Outcome Bool
  unfolding release_stored
  release_last disk group c =
      if group.is_protected || not group.releasable
      then (ok false, c)
      else on_ok (read_stored c.stored) c λ routes.
        release_stored disk group.route (find (λ r. r.task_id == group.route.task_id) routes) routes
          c

  unfoldable pub release_group : DiskOutcome → AttemptGroup → List ℕ → Catalog → Outcome Bool
  release_group disk group [] c =
      release_last disk group
        (record c { attempt_groups = remove group.route.task_id c.attempt_groups })
  release_group disk group (n ∷ attempts) c = (
    ok false,
    record c {
      attempt_groups =
          insert group.route.task_id (record group { attempts = n ∷ attempts }) c.attempt_groups;
    },
  )

  unfoldable pub release_ambiguous :
      DiskOutcome
      → Reservation
      → (task_persisted dispatch_attempted : Bool) → Catalog
      → Outcome Bool
  unfolding release_group release_last
  release_ambiguous disk reservation task_persisted dispatch_attempted c =
      if task_persisted || dispatch_attempted
      then (err type_error, c)
      else on_ok (require_attempt_group reservation c) c λ group.
        release_group disk group (without_attempt reservation.attempt_id group.attempts) c
