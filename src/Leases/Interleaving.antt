-- ===== src/Leases/Interleaving.antt =====
-- src/tasks/WorkspaceLeaseManager.ts: a lease under calls of several tasks, in any order.
use copilot_agent_mesh.Prelude.{
  Bool, true, false, not, ◌&&◌, Listed, first, later, String, none, some, List, [], ◌∷◌, ◌==◌, ◌≡◌,
  inl, inr, sym, ap, ◌∙◌, arith, if◌then◌else◌, eq_iff, Bool-cases, any, subst,
}
use copilot_agent_mesh.Protocol.{Platform, Result, ok, err, Result-cases, TaskRecord, is_active}
use copilot_agent_mesh.Leases.{
  LeaseOwner, Leases, same_owner, owned_by, owner, normalize_lease_identity, acquire, release,
  release_for_persisted_terminal, restore_from_task_records,
}
use copilot_agent_mesh.Leases.Recovery.{HoldsLease, restored_lease}
use copilot_agent_mesh.Leases.Ownership.{
  AcquireOutcome, invalid, busy, leased, acquire_outcome, release-owner, still_owned, same_owner-eq,
}

-- A call of the manager. One that throws leaves the leases as they were.
pub data LeaseCall : Type 0 where
  acquire_call release_call : (workspace_id peer_id task_id : String) → LeaseCall
  release_terminal_call : TaskRecord → LeaseCall
  restore_call : List TaskRecord → LeaseCall

abbrev pub leases_after : Result Leases → Leases → Leases
leases_after (ok leases') leases = leases'
leases_after (err e) leases = leases

abbrev pub identifies : Result LeaseOwner → LeaseOwner → Bool
identifies (ok identity) o = same_owner o identity
identifies (err e) o = false

still_held :
    (w v : String) (o o' : LeaseOwner) (leases : Leases)
    → owner w leases ≡ some o
    → (v == w && same_owner o o') ≡ false
    → (if v == w && owned_by (owner v leases) o' then none else owner w leases) ≡ some o
still_held w v o o' leases held h = elim (Bool-cases (v == w)) [
  | inl same ↦
      let at_v : owner v leases ≡ some o = ap (λ u. owner u leases) ((eq_iff v w).0 same) ∙ held in
      let apart : same_owner o o' ≡ false = sym (ap (λ b. b && same_owner o o') same) ∙ h in
      rw (same, at_v, apart) held
  | inr other ↦ rw other held
]

module _ ⦃p : Platform⦄ where
  abbrev pub call : LeaseCall → Leases → Leases
  call (acquire_call w peer task) leases = leases_after (acquire w peer task leases) leases
  call (release_call w peer task) leases = leases_after (release w peer task leases) leases
  call (release_terminal_call r) leases =
      leases_after (release_for_persisted_terminal r leases) leases
  call (restore_call records) leases =
      leases_after (restore_from_task_records records leases) leases

  abbrev pub run : List LeaseCall → Leases → Leases
  run [] leases = leases
  run (c ∷ calls) leases = run calls (call c leases)

  -- The record is an active one of the workspace, of this owner.
  abbrev pub claims : String → LeaseOwner → TaskRecord → Bool
  claims w o r =
      is_active r.state
      && r.workspace_lease_key == w
      && identifies (normalize_lease_identity r.workspace_lease_key r.peer_id r.task_id) o

  -- The call releases the workspace for this owner, or restores leases from records without an active one
  -- of the workspace and the owner.
  abbrev pub gives_up : String → LeaseOwner → LeaseCall → Bool
  gives_up w o (acquire_call v peer task) = false
  gives_up w o (release_call v peer task) =
      v == w && identifies (normalize_lease_identity v peer task) o
  gives_up w o (release_terminal_call r) =
      not (is_active r.state)
      && (r.workspace_lease_key == w
          && identifies (normalize_lease_identity r.workspace_lease_key r.peer_id r.task_id) o)
  gives_up w o (restore_call records) = not (any (claims w o) records)

  acquire_keeps :
      (w : String) (o : LeaseOwner) (v peer task : String) (leases : Leases)
      → owner w leases ≡ some o
      → AcquireOutcome v peer task leases
      → owner w (call (acquire_call v peer task) leases) ≡ some o
  acquire_keeps w o v peer task leases held (invalid _ thrown) = rw thrown held
  acquire_keeps w o v peer task leases held (busy _ _ _ _ _ thrown) = rw thrown held
  acquire_keeps w o v peer task leases held (leased o' leases' _ free returned owners) =
      rw returned (owners w ∙ still_owned w v o o' leases held free)

  release_keeps :
      (w : String) (o : LeaseOwner) (v peer task : String) (leases : Leases)
      → owner w leases ≡ some o
      → (v == w && identifies (normalize_lease_identity v peer task) o) ≡ false
      → owner w (leases_after (release v peer task leases) leases) ≡ some o
  release_keeps w o v peer task leases held h = elim (Result-cases (release v peer task leases)) [
    | inl (e, thrown) ↦ rw thrown held
    | inr (leases', returned) ↦
        let (o', valid, owners) = release-owner v peer task leases leases' returned in
        rw returned (
          owners w
          ∙ still_held w v o o' leases held (ap (λ r. v == w && identifies r o) (sym valid) ∙ h))
  ]

  claims-Listed :
      (w : String) (o : LeaseOwner) (records : List TaskRecord)
      → any (claims w o) records ≡ true
      → (r : TaskRecord) × Listed r records × (claims w o r ≡ true)
  claims-Listed w o [] h = cc
  claims-Listed w o (r ∷ records) h = elim (Bool-cases (claims w o r)) [
    | inl here ↦ (r, first, here)
    | inr elsewhere ↦
        let (x, listed, claimed) = claims-Listed w o records (ground (arith, h, elsewhere)) in
        (x, later listed, claimed)
  ]

  identified :
      (x : Result LeaseOwner) (o o' : LeaseOwner) → x ≡ ok o' → identifies x o ≡ true → o' ≡ o
  identified x o o' e h = sym (same_owner-eq o o' (subst (λ r. identifies r o ≡ true) e h))

  restore_keeps :
      (w : String) (o : LeaseOwner) (records : List TaskRecord) (leases : Leases)
      → owner w leases ≡ some o
      → any (claims w o) records ≡ true
      → owner w (leases_after (restore_from_task_records records leases) leases) ≡ some o
  unfolding HoldsLease
  restore_keeps w o records leases held h =
      elim (Result-cases (restore_from_task_records records leases)) [
        | inl (e, thrown) ↦ rw thrown held
        | inr (leases', returned) ↦
            let (r, listed, claimed) = claims-Listed w o records h in
            let (o', valid, leased_now) =
              restored_lease records leases leases' r returned listed (ground (arith, claimed)) in
            let here : r.workspace_lease_key ≡ w =
              (eq_iff r.workspace_lease_key w).0 (ground (arith, claimed)) in
            let own = identified _ o o' valid (ground (arith, claimed)) in
            rw returned (ap (λ k. owner k leases') (sym here) ∙ leased_now ∙ ap some own)
      ]

  call_keeps :
      (w : String) (o : LeaseOwner) (c : LeaseCall) (leases : Leases)
      → owner w leases ≡ some o
      → gives_up w o c ≡ false
      → owner w (call c leases) ≡ some o
  unfolding release_for_persisted_terminal
  call_keeps w o (acquire_call v peer task) leases held h =
      acquire_keeps w o v peer task leases held (acquire_outcome v peer task leases)
  call_keeps w o (release_call v peer task) leases held h =
      release_keeps w o v peer task leases held h
  call_keeps w o (release_terminal_call r) leases held h = elim (Bool-cases (is_active r.state)) [
    | inl active ↦ rw active held
    | inr ended ↦ rw ended (
        release_keeps w o r.workspace_lease_key r.peer_id r.task_id leases held
          (ground (arith, h, ended)))
  ]
  call_keeps w o (restore_call records) leases held h =
      restore_keeps w o records leases held (ground (arith, h))

  -- A task that holds a lease holds it, whichever methods of the manager are called and whether they throw,
  -- as long as no call releases it for that task, be it by `release` or by `releaseForPersistedTerminal` with
  -- a record that is not active, and every restore is from records with an active one of that task and
  -- workspace.
  pub lease_held :
      (w : String) (o : LeaseOwner) (calls : List LeaseCall) (leases : Leases)
      → owner w leases ≡ some o
      → any (gives_up w o) calls ≡ false
      → owner w (run calls leases) ≡ some o
  lease_held w o [] leases held h = held
  lease_held w o (c ∷ calls) leases held h =
      lease_held w o calls (call c leases) (call_keeps w o c leases held (ground arith))
        (ground arith)
