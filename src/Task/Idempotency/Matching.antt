-- ===== src/Task/Idempotency/Matching.antt =====
-- src/domain/task.ts: `matchIdempotentStart` against the records that accepted requests.
use copilot_agent_mesh.Prelude.{
  Listed, first, later, Bool, true, false, ◌&&◌, String, Option, some, List, [], ◌∷◌, ◌==◌, ◌≡◌,
  sym, ap, ◌∙◌, arith, inl, inr, eq_iff, eq_refl, select, find, Bool-cases, Option-cases, All,
  and_split, subst,
}
use copilot_agent_mesh.Protocol.{Platform, Result, ok, >>=-eq-ok, TaskRecord}
use copilot_agent_mesh.Task.Request.{
  OwnedTaskStart, normalize_owned_task_start, canonical_task_request_hash, create_accepted_task,
}
use copilot_agent_mesh.Task.Idempotency.{
  has_identifier, confirm_start, match_idempotent_start, is_start_conflict,
}

-- No other record of the list has the peer of `r` and one of its identifiers.
abbrev pub IsSole : TaskRecord → List TaskRecord → Type 0
IsSole r = All (λ s.
    s.peer_id == r.peer_id ≡ true
    → has_identifier r.delegation_request_id r.task_id s ≡ true
    → s ≡ r)

select-first :
    (test keep : TaskRecord → Bool) (x : TaskRecord) (rs : List TaskRecord)
    → keep x ≡ true
    → test x ≡ true
    → find test (select keep (x ∷ rs)) ≡ some x
select-first test keep x rs k t = ground arith

select-next :
    (test keep : TaskRecord → Bool) (x : TaskRecord) (rs : List TaskRecord)
    → (keep x && test x) ≡ false
    → find test (select keep (x ∷ rs)) ≡ find test (select keep rs)
select-next test keep x rs h = ground arith

some-eq : {x y : TaskRecord} → some x ≡ some y → x ≡ y
some-eq h = cc

-- What is found is in the list and passes both tests.
pub find-select-Listed :
    (test keep : TaskRecord → Bool) (rs : List TaskRecord) (r : TaskRecord)
    → find test (select keep rs) ≡ some r
    → Listed r rs × (keep r ≡ true) × (test r ≡ true)
find-select-Listed test keep [] r h = cc
find-select-Listed test keep (x ∷ rs) r h = elim (Bool-cases (keep x && test x)) [
  | inl hit ↦
      let (kept, passed) = and_split (keep x) (test x) hit in
      let same : x ≡ r = some-eq (sym (select-first test keep x rs kept passed) ∙ h) in
      subst (λ y. Listed y (x ∷ rs) × (keep y ≡ true) × (test y ≡ true)) same (first, kept, passed)
  | inr miss ↦
      let (listed, kept, passed) =
        find-select-Listed test keep rs r (sym (select-next test keep x rs miss) ∙ h) in
      (later listed, kept, passed)
]

still_in_rest :
    (test keep : TaskRecord → Bool) (x : TaskRecord) (rs : List TaskRecord) (r : TaskRecord)
    → keep r ≡ true
    → test r ≡ true
    → (keep x && test x) ≡ false
    → Listed r (x ∷ rs)
    → Listed r rs
still_in_rest test keep x rs _ k t miss first = absurd (ground arith)
still_in_rest test keep x rs r k t miss (later listed) = listed

-- The one record that passes both tests is found.
find-select-sole :
    (test keep : TaskRecord → Bool) (rs : List TaskRecord) (r : TaskRecord)
    → keep r ≡ true
    → test r ≡ true
    → Listed r rs
    → All (λ s. keep s ≡ true → test s ≡ true → s ≡ r) rs
    → find test (select keep rs) ≡ some r
find-select-sole test keep [] r k t listed sole = elim listed [ ]
find-select-sole test keep (x ∷ rs) r k t listed (here, rest) =
    elim (Bool-cases (keep x && test x)) [
      | inl hit ↦
          let (kept, passed) = and_split (keep x) (test x) hit in
          select-first test keep x rs kept passed ∙ ap some (here kept passed)
      | inr miss ↦
          select-next test keep x rs miss
          ∙ find-select-sole test keep rs r k t (still_in_rest test keep x rs r k t miss listed)
              rest
    ]

-- A record with the peer, the identifiers and the hash of a normalized request.
pub record Answers (r : TaskRecord) (n : OwnedTaskStart) (request_hash : String) : Type 0 where
  pub own_peer : r.peer_id ≡ n.peer_id
  pub own_delegation : r.delegation_request_id ≡ n.delegation_request_id
  pub own_task : r.task_id ≡ n.task_id
  pub own_hash : r.request_hash ≡ request_hash

confirm_start-Answers :
    (n : OwnedTaskStart) (request_hash : String) (r : TaskRecord)
    → Answers r n request_hash
    → confirm_start n request_hash (some r) ≡ ok (some r)
unfolding confirm_start
confirm_start-Answers n request_hash r a = rw a.own_delegation (
    rw a.own_task (
      rw a.own_hash
        (ground (arith, eq_refl n.delegation_request_id, eq_refl n.task_id, eq_refl request_hash))))

ok_some-eq :
    {x y : TaskRecord} → ◌≡◌ {A = Result (Option TaskRecord)} (ok (some x)) (ok (some y)) → x ≡ y
ok_some-eq h = cc

confirm_start_sound :
    (n : OwnedTaskStart) (request_hash : String) (x r : TaskRecord)
    → (x.peer_id == n.peer_id) ≡ true
    → confirm_start n request_hash (some x) ≡ ok (some r)
    → (x ≡ r) × Answers x n request_hash
unfolding confirm_start
confirm_start_sound n request_hash x r peer h =
    elim (Bool-cases (is_start_conflict n x request_hash)) [
      | inl conflict ↦ absurd (ground arith)
      | inr agreed ↦ (
        ok_some-eq (ground arith),
        record {
          own_peer = ground (arith, eq_iff x.peer_id n.peer_id);
          own_delegation = ground (arith, eq_iff x.delegation_request_id n.delegation_request_id);
          own_task = ground (arith, eq_iff x.task_id n.task_id);
          own_hash = ground (arith, eq_iff x.request_hash request_hash);
        },
      )
    ]

confirmed_sound :
    (n : OwnedTaskStart) (request_hash : String) (records : List TaskRecord) (r : TaskRecord)
    → confirm_start n request_hash (
        find
          (has_identifier n.delegation_request_id n.task_id)
          (select (λ s. s.peer_id == n.peer_id) records))
      ≡ ok (some r)
    → Listed r records × Answers r n request_hash
unfolding confirm_start
confirmed_sound n request_hash records r h =
    elim (Option-cases (
      find (has_identifier n.delegation_request_id n.task_id)
        (select (λ s. s.peer_id == n.peer_id) records))) [
          | inl missing ↦ absurd (ground arith)
          | inr (x, found) ↦
              let (listed, peer, _) = find-select-Listed _ _ records x found in
              let (same, own) =
                confirm_start_sound n request_hash x r peer
                  (ap (confirm_start n request_hash) (sym found) ∙ h) in
              subst (λ y. Listed y records × Answers y n request_hash) same (listed, own)
        ]

module _ ⦃p : Platform⦄ where
  create_accepted_task-Answers :
      (q : OwnedTaskStart) (at : String) (r : TaskRecord)
      → create_accepted_task q at ≡ ok r
      → (n : OwnedTaskStart) × (request_hash : String) × (normalize_owned_task_start q ≡ ok n)
        × (canonical_task_request_hash n ≡ ok request_hash)
        × Answers r n request_hash
  unfolding create_accepted_task
  create_accepted_task-Answers q at r h =
      let (n, normal, h') = >>=-eq-ok (normalize_owned_task_start q) _ h in
      let (request_hash, hashed, built) = >>=-eq-ok (canonical_task_request_hash n) _ h' in
      (
        n,
        request_hash,
        normal,
        hashed,
        record { own_peer = cc; own_delegation = cc; own_task = cc; own_hash = cc },
      )

  -- A request is found by its own record: a request that was accepted as `r`, sent again while `r` is
  -- kept and no other record of the peer has one of its identifiers, gives `r` back.
  pub accepted_start_found :
      (q : OwnedTaskStart) (at : String) (r : TaskRecord) (records : List TaskRecord)
      → create_accepted_task q at ≡ ok r
      → Listed r records
      → IsSole r records
      → match_idempotent_start records q ≡ ok (some r)
  unfolding match_idempotent_start
  accepted_start_found q at r records made listed sole =
      let (n, request_hash, normal, hashed, a) = create_accepted_task-Answers q at r made in
      let found : find (has_identifier n.delegation_request_id n.task_id)
            (select (λ s. s.peer_id == n.peer_id) records)
          ≡ some r =
        rw (sym a.own_delegation) (
          rw (sym a.own_task) (
            rw (sym a.own_peer) (
              find-select-sole _ _ records r (eq_refl r.peer_id)
                (ground (arith, eq_refl r.delegation_request_id)) listed sole))) in
      rw normal (rw hashed (rw found (confirm_start-Answers n request_hash r a)))

  -- A record that is given back is in the list, has the peer and both identifiers of the
  -- normalized request, and carries the hash of its canonical text.
  pub match_idempotent_start_sound :
      (records : List TaskRecord) (q : OwnedTaskStart) (r : TaskRecord)
      → match_idempotent_start records q ≡ ok (some r)
      → (n : OwnedTaskStart) × (request_hash : String) × (normalize_owned_task_start q ≡ ok n)
        × (canonical_task_request_hash n ≡ ok request_hash)
        × Listed r records
        × Answers r n request_hash
  unfolding match_idempotent_start
  match_idempotent_start_sound records q r h =
      let (n, normal, h') = >>=-eq-ok (normalize_owned_task_start q) _ h in
      let (request_hash, hashed, confirmed) = >>=-eq-ok (canonical_task_request_hash n) _ h' in
      let (listed, own) = confirmed_sound n request_hash records r confirmed in
      (n, request_hash, normal, hashed, listed, own)
