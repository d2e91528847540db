-- ===== src/Leases/Ownership.antt =====
-- src/tasks/WorkspaceLeaseManager.ts: the owner of a lease before and after a call.
use copilot_agent_mesh.Prelude.{
  Bool, true, false, ◌&&◌, String, Option, none, some, ◌==◌, ◌≡◌, ◌⊎◌, inl, inr, refl, sym, ap, ◌∙◌,
  arith, if◌then◌else◌, lookup, insert, remove, lookup-insert, lookup-remove, eq_iff, eq_refl,
  Bool-cases,
}
use copilot_agent_mesh.Protocol.{
  Platform, Result, ok, err, MeshErrorReason, MeshError, mesh, type_error, >>=-eq-ok, Result-cases,
}
use copilot_agent_mesh.Leases.{
  LeaseOwner, Leases, same_owner, owned_by, is_taken, owner, identity_of, normalize_lease_identity,
  acquire, release,
}

pub same_owner-eq : (o o' : LeaseOwner) → same_owner o o' ≡ true → o ≡ o'
same_owner-eq o o' h = ground (arith, eq_iff o.peer_id o'.peer_id, eq_iff o.task_id o'.task_id)

pub same_owner_self : (o : LeaseOwner) → same_owner o o ≡ true
same_owner_self o = ground (arith, eq_refl o.peer_id, eq_refl o.task_id)

-- The lease was free, or had this owner.
pub untaken-cases :
    (held : Option LeaseOwner) (o : LeaseOwner)
    → is_taken held o ≡ false
    → (held ≡ none) ⊎ (held ≡ some o)
untaken-cases none o h = inl refl
untaken-cases (some x) o h = inr (ap some (same_owner-eq x o (ground arith)))

pub some-eq : {a b : LeaseOwner} → some a ≡ some b → a ≡ b
some-eq h = cc

-- A lease that was free or this task's goes to this task; its owner, if any, is the same.
pub still_owned :
    (w v : String) (o o' : LeaseOwner) (leases : Leases)
    → owner w leases ≡ some o
    → (owner v leases ≡ none) ⊎ (owner v leases ≡ some o')
    → (if v == w then some o' else owner w leases) ≡ some o
still_owned w v o o' leases held free = elim (Bool-cases (v == w)) [
  | inl same ↦
      let at_v : owner v leases ≡ some o = ap (λ u. owner u leases) ((eq_iff v w).0 same) ∙ held in
      rw same (elim free [ inl nobody ↦ cc | inr own ↦ sym own ∙ at_v ])
  | inr other ↦ rw other held
]

normalized-error :
    (valid : Bool) (peer task : Option String) (e : MeshError)
    → identity_of valid peer task ≡ err e
    → e ≡ type_error
normalized-error true none task e h = ground arith
normalized-error true (some a) none e h = ground arith
normalized-error true (some a) (some b) e h = absurd (ground arith)
normalized-error false peer task e h = ground arith

pub ok-eq : {a b : Leases} → ◌≡◌ {A = Result Leases} (ok a) (ok b) → a ≡ b
ok-eq h = cc

released :
    (w : String) (o : LeaseOwner) (leases leases' : Leases) (v : String)
    → ◌≡◌ {A = Result Leases}
        (ok (if owned_by (lookup w leases) o then remove w leases else leases))
        (ok leases')
    → owner v leases' ≡ (if w == v && owned_by (owner w leases) o then none else owner v leases)
released w o leases leases' v h = elim (Bool-cases (owned_by (lookup w leases) o)) [
  | inl owned ↦
      let same : leases' ≡ remove w leases =
        sym (ok-eq (sym (ap (λ b. ok (if b then remove w leases else leases)) owned) ∙ h)) in
      rw (same, owned) (ground (arith, lookup-remove w v leases))
  | inr unowned ↦
      let same : leases' ≡ leases =
        sym (ok-eq (sym (ap (λ b. ok (if b then remove w leases else leases)) unowned) ∙ h)) in
      rw (same, unowned) (ground arith)
]

module _ ⦃p : Platform⦄ where
  -- What comes of a call of `acquire`.
  pub data AcquireOutcome (w peer task : String) (leases : Leases) : Type 0 where
    invalid :
        normalize_lease_identity w peer task ≡ err type_error
        → acquire w peer task leases ≡ err type_error
        → AcquireOutcome w peer task leases
    busy :
        (o x : LeaseOwner)
        → normalize_lease_identity w peer task ≡ ok o
        → owner w leases ≡ some x
        → same_owner x o ≡ false
        → acquire w peer task leases ≡ err (mesh MeshErrorReason.workspace_busy false)
        → AcquireOutcome w peer task leases
    leased :
        (o : LeaseOwner) (leases' : Leases)
        → normalize_lease_identity w peer task ≡ ok o
        → (owner w leases ≡ none) ⊎ (owner w leases ≡ some o)
        → acquire w peer task leases ≡ ok leases'
        → ((v : String) → owner v leases' ≡ (if w == v then some o else owner v leases))
        → AcquireOutcome w peer task leases

  identity_error :
      (w peer task : String) (e : MeshError)
      → normalize_lease_identity w peer task ≡ err e
      → e ≡ type_error
  unfolding normalize_lease_identity
  identity_error w peer task e h = normalized-error _ (p.parse_uuid peer) (p.parse_uuid task) e h

  taken-some :
      (held : Option LeaseOwner) (o : LeaseOwner)
      → is_taken held o ≡ true
      → (x : LeaseOwner) × (held ≡ some x) × (same_owner x o ≡ false)
  taken-some none o h = cc
  taken-some (some x) o h = (x, refl, ground arith)

  -- A call of `acquire` throws a `TypeError` for an invalid identity, reports a workspace that has
  -- another owner as busy, and otherwise returns leases that give this workspace, which was free
  -- or had the same owner, to the requested owner and every other workspace to whom it belonged.
  pub acquire_outcome : (w peer task : String) (leases : Leases) → AcquireOutcome w peer task leases
  unfolding acquire
  acquire_outcome w peer task leases = elim (Result-cases (normalize_lease_identity w peer task)) [
    | inl (e, failed) ↦
        let failed' = failed ∙ ap err (identity_error w peer task e failed) in
        invalid failed' (rw failed' refl)
    | inr (o, valid) ↦ elim (Bool-cases (is_taken (lookup w leases) o)) [
      | inl taken ↦
          let (x, held, other) = taken-some (lookup w leases) o taken in
          busy o x valid held other (rw valid (rw taken refl))
      | inr free ↦
          leased o (insert w o leases) valid (untaken-cases (lookup w leases) o free)
            (rw valid (rw free refl)) (λ v. lookup-insert w v o leases)
    ]
  ]

  -- A call of `release` that returns frees the workspace if the caller is its owner, and changes no
  -- owner otherwise; in both cases every other workspace keeps its owner.
  pub release-owner :
      (w peer task : String) (leases leases' : Leases)
      → release w peer task leases ≡ ok leases'
      → (o : LeaseOwner) × (normalize_lease_identity w peer task ≡ ok o)
        × ((v : String)
            → owner v leases'
              ≡ (if w == v && owned_by (owner w leases) o then none else owner v leases))
  unfolding release
  release-owner w peer task leases leases' h =
      let (o, valid, done) = >>=-eq-ok (normalize_lease_identity w peer task) _ h in
      (o, valid, λ v. released w o leases leases' v done)
