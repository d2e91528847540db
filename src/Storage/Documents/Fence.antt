-- ===== src/Storage/Documents/Fence.antt =====
-- src/storage/FencedDocumentStore.ts: updates by a broker that is not the owner.
use copilot_agent_mesh.Prelude.{ℕ, suc, Option, some, none, ◌≡◌, ◌≢◌, refl, ◌∙◌}
use copilot_agent_mesh.Protocol.{Result, ok, err}
use copilot_agent_mesh.Storage.Effects.{Surroundings, World, confirms}
use copilot_agent_mesh.Storage.Rules.{
  Files, IsOrder, Runs, runs_then, runs_lift, runs_require, runs_reading,
}
use copilot_agent_mesh.Storage.Documents.{
  DocumentKind, DocumentState, assert_document_fence, write_document, update, update_from,
  settled_with,
}

module _ {V T : Type 0} (s : Surroundings) (k : DocumentKind V T)
    (refused : (n : ℕ) → confirms (some k.generation) (k.ownership n) ≢ ok tt) where
  abbrev Unchanged : Files V → Files V → Type 0
  Unchanged f g = g ≡ f

  Unchanged-IsOrder : IsOrder Unchanged
  Unchanged-IsOrder = record { same = λ f. refl; joined = λ f g h e e'. e' ∙ e }

  fence_stops : {P : Files V → Type 0} → Runs Unchanged P (assert_document_fence s k) (λ u f. ⊥)
  unfolding assert_document_fence
  fence_stops = runs_reading Unchanged-IsOrder (λ w. refl) (λ w u before h. refused w.moment h)

  write_document_stops :
      (transform : T → Result T) (validate : Option (ℕ → Result (Unit {0}))) (current : T)
      → Runs Unchanged (λ f. Unit {0}) (write_document s k transform validate current) (λ next f. ⊥)
  unfolding write_document
  write_document_stops transform validate current =
      let order = Unchanged-IsOrder in
      runs_then order
        (runs_lift order {Q = λ changed f. Unit {0}} (transform current) (λ f changed u h. u))
        λ changed.
          runs_then order
            (runs_lift order {Q = λ next f. Unit {0}}
              (k.schema (k.with_revision changed (suc (k.revision current)))) (λ f next u h. u))
            λ next.
              runs_then order (runs_require order {P = λ f. Unit {0}} _ _)
                λ u1. runs_then order fence_stops λ u2. record { runs = λ w never. absurd never }

  settled_stops :
      (before : Option T) (w : World V) (x : Result T × World V)
      → x.1.files ≡ w.files
      → ((a : T) → x.0 ≡ ok a → ⊥)
      → ((settled_with s k before x).1.world.files ≡ w.files)
        × ((settled_with s k before x).1.document ≡ before)
        × ((a : T) → (settled_with s k before x).0 ≢ ok a)
  settled_stops before w (ok a, w') same never = absurd (never a refl)
  settled_stops before w (err e, w') same never = (same, refl, λ a h. cc)

  update_from_stops :
      (transform : T → Result T) (validate : Option (ℕ → Result (Unit {0}))) (o : Option T)
      (w : World V)
      → ((update_from s k transform validate o w).1.world.files ≡ w.files)
        × ((update_from s k transform validate o w).1.document ≡ o)
        × ((a : T) → (update_from s k transform validate o w).0 ≢ ok a)
  unfolding update_from
  update_from_stops transform validate none w = (refl, refl, λ a h. cc)
  update_from_stops transform validate (some current) w =
      let (same, never) = (write_document_stops transform validate current).runs w tt in
      settled_stops (some current) w (write_document s k transform validate current w) same never

  -- While the ownership is never confirmed for the generation of the store, an update throws, and it leaves
  -- the files and the document as they are.
  pub update_unconfirmed :
      (transform : T → Result T) (validate : Option (ℕ → Result (Unit {0}))) (d : DocumentState V T)
      → ((update s k transform validate d).1.world.files ≡ d.world.files)
        × ((update s k transform validate d).1.document ≡ d.document)
        × ((a : T) → (update s k transform validate d).0 ≢ ok a)
  unfolding update
  update_unconfirmed transform validate d = update_from_stops transform validate d.document d.world
