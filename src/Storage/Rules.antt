-- ===== src/Storage/Rules.antt =====
-- src/storage/AtomicFileStore.ts and src/storage/WorkerOwnerLock.ts, as the stores call them: how the
-- files change under an action.
use copilot_agent_mesh.Prelude.{
  ℕ, Bool, true, false, String, Option, some, none, ◌≡◌, refl, sym, subst, arith, Dict, insert,
  lookup, Bool-cases, lookup-insert, eq_iff, inl, inr,
}
use copilot_agent_mesh.Protocol.{Result, ok, err, MeshError}
use copilot_agent_mesh.Storage.Effects.{
  DiskOutcome, done, failed_before, failed_after, has_failed, contents_of, OwnershipView,
  Surroundings, Stored, json, World, Action, pure, lift, ◌>>=◌, continue, require_that,
  current_time, tick, not_json, read_file, write_file, written, list_files, assert_writable,
  fence_outcome, confirms,
}

abbrev is_ok : Result (Unit {0}) → Bool
is_ok (ok _) = true
is_ok (err _) = false

-- Whether the fence holds at a moment.
abbrev confirmed_by : Option (ℕ → OwnershipView) → Option String → ℕ → Bool
confirmed_by none generation n = true
confirmed_by (some view) generation n = is_ok (confirms generation (view n))

abbrev pub is_confirmed : Surroundings → ℕ → Bool
is_confirmed s n = confirmed_by s.ownership s.generation n

abbrev pub Files : Type 0 → Type 0
Files V = Dict (Stored V)

-- A relation on files that the writes of a store step along.
pub record IsOrder {V : Type 0} (R : Files V → Files V → Type 0) : Type 0 where
  pub same : (f : Files V) → R f f
  pub joined : (f g h : Files V) → R f g → R g h → R f h

-- From files with `P`, the files change along `R`, and the value and the files after it have `Q`.
pub record Runs {V A : Type 0} (R : Files V → Files V → Type 0) (P : Files V → Type 0)
    (m : Action V A) (Q : A → Files V → Type 0) : Type 0 where
  pub runs :
      (w : World V)
      → P w.files
      → R w.files (m w).1.files × ((a : A) → (m w).0 ≡ ok a → Q a (m w).1.files)

pub runs_post :
    {V A : Type 0} {R : Files V → Files V → Type 0} {P : Files V → Type 0} {m : Action V A}
    {Q Q' : A → Files V → Type 0}
    → Runs R P m Q
    → ((a : A) (f : Files V) → Q a f → Q' a f)
    → Runs R P m Q'
runs_post after weaker = record {
  runs =
      λ w before. let (moved, gave) = after.runs w before in (moved, λ a h. weaker a _ (gave a h));
}

-- A precondition that does not depend on the files is a hypothesis.
pub runs_given :
    {V A : Type 0} {R : Files V → Files V → Type 0} {Fact : Type 0} {P : Files V → Type 0}
    {m : Action V A} {Q : A → Files V → Type 0}
    → (Fact → Runs R P m Q)
    → Runs R (λ f. Fact × P f) m Q
runs_given from = record { runs = λ w before. let (fact, rest) = before in (from fact).runs w rest }

-- Along another relation, from stronger files.
pub runs_along :
    {V A : Type 0} {R R' : Files V → Files V → Type 0} {P P' : Files V → Type 0} {m : Action V A}
    {Q : A → Files V → Type 0}
    → Runs R P m Q
    → ((f g : Files V) → R f g → R' f g)
    → ((f : Files V) → P' f → P f)
    → Runs R' P' m Q
runs_along there along stronger = record {
  runs = λ w before.
      let (moved, gave) = there.runs w (stronger w.files before) in (along _ _ moved, gave);
}

module _ {V : Type 0} {R : Files V → Files V → Type 0} (order : IsOrder R) where
  continue-runs :
      {A B : Type 0} (Q : A → Files V → Type 0) (Q' : B → Files V → Type 0) (f : Files V)
      (x : Result A × World V) (next : A → Action V B)
      → R f x.1.files
      → ((a : A) → x.0 ≡ ok a → Q a x.1.files)
      → ((a : A) → Runs R (Q a) (next a) Q')
      → R f (continue next x).1.files
        × ((b : B) → (continue next x).0 ≡ ok b → Q' b (continue next x).1.files)
  continue-runs Q Q' f (ok a, w) next moved gave later =
      let (on, out) = (later a).runs w (gave a refl) in (order.joined _ _ _ moved on, out)
  continue-runs Q Q' f (err e, w) next moved gave later = (moved, λ b h. cc)

  pub runs_then :
      {A B : Type 0} {P : Files V → Type 0} {Q : A → Files V → Type 0} {Q' : B → Files V → Type 0}
      {m : Action V A} {next : A → Action V B}
      → Runs R P m Q
      → ((a : A) → Runs R (Q a) (next a) Q')
      → Runs R P (m >>= next) Q'
  runs_then {Q = Q} {Q' = Q'} {m = m} {next = next} first later = record {
    runs = λ w before.
        let (moved, gave) = first.runs w before in
        continue-runs Q Q' w.files (m w) next moved gave later;
  }

  -- An action that leaves the files.
  pub runs_reading :
      {A : Type 0} {P : Files V → Type 0} {Q : A → Files V → Type 0} {m : Action V A}
      → ((w : World V) → (m w).1.files ≡ w.files)
      → ((w : World V) (a : A) → P w.files → (m w).0 ≡ ok a → Q a w.files)
      → Runs R P m Q
  runs_reading {Q = Q} left gives = record {
    runs = λ w before. (
      subst (λ f. R w.files f) (sym (left w)) (order.same w.files),
      λ a e. subst (λ f. Q a f) (sym (left w)) (gives w a before e),
    );
  }

  pub runs_pure :
      {A : Type 0} {P : Files V → Type 0} {Q : A → Files V → Type 0} (a : A)
      → ((f : Files V) → P f → Q a f)
      → Runs R P (pure a) Q
  runs_pure {Q = Q} a after =
      runs_reading (λ w. refl)
        (λ w b before e.
          let same : a ≡ b = ground (arith, e) in
          subst (λ c. Q c w.files) same (after w.files before))

  pub runs_lift :
      {A : Type 0} {P : Files V → Type 0} {Q : A → Files V → Type 0} (r : Result A)
      → ((f : Files V) (a : A) → P f → r ≡ ok a → Q a f)
      → Runs R P (lift r) Q
  runs_lift r after = runs_reading (λ w. refl) (λ w a before e. after w.files a before e)

  pub runs_require :
      {P : Files V → Type 0} (test : Bool) (e : MeshError)
      → Runs R P (require_that test e) (λ _ f. (test ≡ true) × P f)
  runs_require true e = runs_reading (λ w. refl) (λ w a before h. (refl, before))
  runs_require false e = runs_reading (λ w. refl) (λ w a before h. cc)

  pub runs_time : {P : Files V → Type 0} (s : Surroundings) → Runs R P (current_time s) (λ _ f. P f)
  runs_time s = runs_reading (λ w. refl) (λ w a before h. before)

  pub runs_list : (s : Surroundings) {P : Files V → Type 0} → Runs R P (list_files s) (λ _ f. P f)
  unfolding list_files
  runs_list s = runs_reading (λ w. refl) (λ w a before h. before)

  contents_found :
      (path : String) (found : Option (Stored V)) (o : Option V)
      → contents_of path found ≡ ok o
      → (v : V) → o ≡ some v
      → found ≡ some (json v)
  contents_found path none o h v e = cc
  contents_found path (some (json u)) o h v e = ground (arith, h, e)
  contents_found path (some not_json) o h v e = cc

  -- `readJson` gives what is in the file.
  pub runs_read :
      (s : Surroundings) {P : Files V → Type 0} (path : String)
      → Runs R P
          (read_file s path)
          (λ o f. P f × ((v : V) → o ≡ some v → lookup path f ≡ some (json v)))
  unfolding read_file
  runs_read s path =
      runs_reading (λ w. refl)
        (λ w o before h. (
          before,
          λ v e. elim (Bool-cases (has_failed (s.disk w.moment))) [
            | inl failed ↦ cc (rw failed at h)
            | inr fine ↦ contents_found path (lookup path w.files) o (rw fine at h) v e
          ],
        ))

  fence_files :
      (o : Option (ℕ → OwnershipView)) (g : Option String) (w : World V)
      → (fence_outcome o g w).1.files ≡ w.files
  fence_files none g w = refl
  fence_files (some view) g w = refl

  fence_confirmed :
      (o : Option (ℕ → OwnershipView)) (g : Option String) (w : World V) (u : Unit {0})
      → (fence_outcome o g w).0 ≡ ok u
      → confirmed_by o g w.moment ≡ true
  fence_confirmed none g w u h = refl
  fence_confirmed (some view) g w u h = rw h

  -- A fence that lets a call pass was confirmed.
  pub runs_fence :
      (s : Surroundings) {P : Files V → Type 0}
      → Runs R P (assert_writable s) (λ _ f. ((n : ℕ) × (is_confirmed s n ≡ true)) × P f)
  unfolding assert_writable
  runs_fence s =
      runs_reading (λ w. fence_files s.ownership s.generation w)
        (λ w u before h. ((w.moment, fence_confirmed s.ownership s.generation w u h), before))

  written_runs :
      (outcome : DiskOutcome) (path : String) (v : V) (w : World V)
      → R w.files (insert path (json v) w.files)
      → R w.files (written outcome path v w).1.files
        × ((u : Unit {0})
            → (written outcome path v w).0 ≡ ok u
            → (written outcome path v w).1.files ≡ insert path (json v) w.files)
  written_runs done path v w step = (step, λ u h. refl)
  written_runs failed_before path v w step = (order.same w.files, λ u h. cc)
  written_runs failed_after path v w step = (step, λ u h. cc)

  -- `writeJson` writes nothing or the file, and the file when it returns.
  pub runs_write :
      (s : Surroundings) {P : Files V → Type 0} (path : String) (v : V)
      → ((f : Files V) → P f → R f (insert path (json v) f))
      → Runs R P (write_file s path v) (λ _ f. lookup path f ≡ some (json v))
  unfolding write_file
  runs_write s path v step = record {
    runs = λ w before.
        let (moved, gave) = written_runs (s.disk w.moment) path v (tick w) (step w.files before) in
        (
          moved,
          λ u h.
              rw (gave u h)
                (rw (lookup-insert path path (json v) w.files) (ground (arith, eq_iff path path))),
        );
  }
