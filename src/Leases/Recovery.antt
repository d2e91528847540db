-- ===== src/Leases/Recovery.antt =====
-- src/tasks/WorkspaceLeaseManager.ts: the leases after a restart.
use copilot_agent_mesh.Prelude.{
  true, false, String, none, some, List, [], ◌∷◌, ◌==◌, ◌≡◌, ◌⊎◌, inl, inr, refl, sym, ap, ◌∙◌,
  arith, if◌then◌else◌, lookup, insert, lookup-insert, eq_iff, eq_refl, Bool-cases, Listed, first,
  later,
}
use copilot_agent_mesh.Protocol.{Platform, ok, Result-cases, >>=-eq-ok, TaskRecord, is_active}
use copilot_agent_mesh.Leases.{
  LeaseOwner, Leases, is_taken, owner, normalize_lease_identity, restore_record, restore_records,
  restore_from_task_records,
}
use copilot_agent_mesh.Leases.Ownership.{untaken-cases, still_owned, ok-eq, some-eq}

nothing : (w : String) (o : LeaseOwner) → owner w [] ≡ some o → ⊥
unfolding lookup
nothing w o h = cc

module _ ⦃p : Platform⦄ where
  -- The leases give the workspace of the record to its task.
  unfoldable pub HoldsLease : Leases → TaskRecord → Type 0
  HoldsLease leases r =
      (o : LeaseOwner) × (normalize_lease_identity r.workspace_lease_key r.peer_id r.task_id ≡ ok o)
      × (owner r.workspace_lease_key leases ≡ some o)

  -- An active record of the list has this key and this owner.
  pub data IsClaimed (w : String) (o : LeaseOwner) : List TaskRecord → Type 0 where
    by_first :
        {r : TaskRecord} {records : List TaskRecord}
        → is_active r.state ≡ true
        → r.workspace_lease_key ≡ w
        → normalize_lease_identity r.workspace_lease_key r.peer_id r.task_id ≡ ok o
        → IsClaimed w o (r ∷ records)
    by_later :
        {r : TaskRecord} {records : List TaskRecord}
        → IsClaimed w o records
        → IsClaimed w o (r ∷ records)

  -- How a record is restored: it is skipped, or its lease is added.
  data Restored (r : TaskRecord) (restored leases : Leases) : Type 0 where
    skipped : is_active r.state ≡ false → leases ≡ restored → Restored r restored leases
    added :
        (o : LeaseOwner)
        → is_active r.state ≡ true
        → normalize_lease_identity r.workspace_lease_key r.peer_id r.task_id ≡ ok o
        → (owner r.workspace_lease_key restored ≡ none)
          ⊎ (owner r.workspace_lease_key restored ≡ some o)
        → leases ≡ insert r.workspace_lease_key o restored
        → Restored r restored leases

  restore_record-Restored :
      (r : TaskRecord) (restored leases : Leases)
      → restore_record r restored ≡ ok leases
      → Restored r restored leases
  unfolding restore_record
  restore_record-Restored r restored leases h = elim (Bool-cases (is_active r.state)) [
    | inl active ↦
        elim (Result-cases (normalize_lease_identity r.workspace_lease_key r.peer_id r.task_id)) [
          | inl (e, invalid) ↦ absurd (ground arith)
          | inr (o, valid) ↦
              elim (Bool-cases (is_taken (lookup r.workspace_lease_key restored) o)) [
                | inl taken ↦ absurd (ground arith)
                | inr free ↦ added o active valid (untaken-cases _ o free) (ground arith)
              ]
        ]
    | inr ended ↦ skipped ended (ground arith)
  ]

  Restored-keeps :
      (r : TaskRecord) (restored leases : Leases)
      → Restored r restored leases
      → (w : String) (o : LeaseOwner) → owner w restored ≡ some o
      → owner w leases ≡ some o
  Restored-keeps r restored leases (skipped ended same) w o held = rw same held
  Restored-keeps r restored leases (added x active valid free same) w o held = rw same (
      lookup-insert r.workspace_lease_key w x restored
      ∙ still_owned w r.workspace_lease_key o x restored held free)

  Restored-claims :
      (r : TaskRecord) (records : List TaskRecord) (restored leases : Leases)
      → Restored r restored leases
      → (w : String) (o : LeaseOwner) → owner w leases ≡ some o
      → (owner w restored ≡ some o) ⊎ IsClaimed w o (r ∷ records)
  Restored-claims r records restored leases (skipped ended same) w o held =
      inl (ap (owner w) (sym same) ∙ held)
  Restored-claims r records restored leases (added x active valid free same) w o held =
      let looked =
        sym (lookup-insert r.workspace_lease_key w x restored) ∙ ap (owner w) (sym same) ∙ held in
      elim (Bool-cases (r.workspace_lease_key == w)) [
        | inl here ↦ inr (
            by_first active ((eq_iff r.workspace_lease_key w).0 here) (
              valid
              ∙ ap ok
                  (some-eq (sym (ap (λ b. if b then some x else owner w restored) here) ∙ looked))))
        | inr elsewhere ↦
            inl (sym (ap (λ b. if b then some x else owner w restored) elsewhere) ∙ looked)
      ]

  restore_records-keeps :
      (records : List TaskRecord) (restored leases : Leases)
      → restore_records records restored ≡ ok leases
      → (w : String) (o : LeaseOwner) → owner w restored ≡ some o
      → owner w leases ≡ some o
  unfolding restore_records
  restore_records-keeps [] restored leases h w o held = ap (owner w) (sym (ok-eq h)) ∙ held
  restore_records-keeps (r ∷ records) restored leases h w o held =
      let (next, step, more) = >>=-eq-ok (restore_record r restored) _ h in
      restore_records-keeps records next leases more w o
        (Restored-keeps r restored next (restore_record-Restored r restored next step) w o held)

  restore_records-HoldsLease :
      (records : List TaskRecord) (restored leases : Leases) (r : TaskRecord)
      → restore_records records restored ≡ ok leases
      → Listed r records
      → is_active r.state ≡ true
      → HoldsLease leases r
  unfolding restore_records HoldsLease
  restore_records-HoldsLease [] restored leases r h listed active = elim listed [ ]
  restore_records-HoldsLease (x ∷ records) restored leases r h first active =
      let (next, step, more) = >>=-eq-ok (restore_record x restored) _ h in
      elim (restore_record-Restored x restored next step) [
        | skipped ended same ↦ absurd (cc)
        | added o live valid free same ↦ (
          o,
          valid,
          restore_records-keeps records next leases more x.workspace_lease_key o (
              rw same (
                lookup-insert x.workspace_lease_key x.workspace_lease_key o restored
                ∙ (rw (eq_refl x.workspace_lease_key) refl))),
        )
      ]
  restore_records-HoldsLease (x ∷ records) restored leases r h (later listed) active =
      let (next, step, more) = >>=-eq-ok (restore_record x restored) _ h in
      restore_records-HoldsLease records next leases r more listed active

  restore_records-claims :
      (records : List TaskRecord) (restored leases : Leases)
      → restore_records records restored ≡ ok leases
      → (w : String) (o : LeaseOwner) → owner w leases ≡ some o
      → (owner w restored ≡ some o) ⊎ IsClaimed w o records
  unfolding restore_records
  restore_records-claims [] restored leases h w o held = inl (ap (owner w) (ok-eq h) ∙ held)
  restore_records-claims (r ∷ records) restored leases h w o held =
      let (next, step, more) = >>=-eq-ok (restore_record r restored) _ h in
      elim (restore_records-claims records next leases more w o held) [
        | inl before ↦
            Restored-claims r records restored next (restore_record-Restored r restored next step) w
              o before
        | inr claimed ↦ inr (by_later claimed)
      ]

  -- After a restore that returns, every active record of the list holds the lease of its workspace.
  pub restored_lease :
      (records : List TaskRecord) (leases leases' : Leases) (r : TaskRecord)
      → restore_from_task_records records leases ≡ ok leases'
      → Listed r records
      → is_active r.state ≡ true
      → HoldsLease leases' r
  unfolding restore_from_task_records
  restored_lease records leases leases' r h listed active =
      restore_records-HoldsLease records [] leases' r h listed active

  -- After a restore that returns, whatever was leased before, a lease belongs to an active record of
  -- the list.
  pub restored_claim :
      (records : List TaskRecord) (leases leases' : Leases) (w : String) (o : LeaseOwner)
      → restore_from_task_records records leases ≡ ok leases'
      → owner w leases' ≡ some o
      → IsClaimed w o records
  unfolding restore_from_task_records
  restored_claim records leases leases' w o h held =
      elim (restore_records-claims records [] leases' h w o held) [
        | inl before ↦ absurd (nothing w o before)
        | inr claimed ↦ claimed
      ]
