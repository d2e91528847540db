-- ===== src/Storage/Documents/Revisions.antt =====
-- src/storage/FencedDocumentStore.ts: the revision of the document and of its file, over any updates.
use copilot_agent_mesh.Prelude.{
  ℕ, suc, ◌+◌, String, Option, none, some, List, [], ◌∷◌, ◌≡◌, refl, sym, ap, ◌∙◌, subst, arith,
  lookup, insert, lookup-insert, eq_iff, inl, inr, ◌⊎◌, Dict,
}
use copilot_agent_mesh.Protocol.{Result, ok, err}
use copilot_agent_mesh.Storage.Effects.{Surroundings, World, json, pure, ◌>>◌, write_file}
use copilot_agent_mesh.Storage.Rules.{
  Files, IsOrder, Runs, runs_then, runs_pure, runs_lift, runs_require, runs_reading, runs_write,
  runs_given,
}
use copilot_agent_mesh.Storage.Documents.{
  DocumentKind, DocumentState, assert_document_fence, write_document, update, update_from,
  settled_with, validated, prepare_write,
}

own_lookup :
    {A : Type 0} (path : String) (a : A) (files : Dict A)
    → lookup path (insert path a files) ≡ some a
own_lookup path a files = lookup-insert path path a files ∙ ground (arith, eq_iff path path)

module _ {V T : Type 0} (s : Surroundings) (k : DocumentKind V T) where
  -- The schema keeps the revision of what it parses.
  abbrev pub KeepsRevision : Type 0
  KeepsRevision =
      (d : T) (n : ℕ) (next : T) → k.schema (k.with_revision d n) ≡ ok next → k.revision next ≡ n

  -- What the file of the document holds: the encoding of a document with a revision.
  pub record Holds (n : ℕ) (f : Files V) : Type 0 where
    pub held : T
    pub stored : lookup k.path f ≡ some (json (k.encoded held))
    pub held_revision : k.revision held ≡ n

  -- The file is as before, or holds the revision.
  abbrev Writes : ℕ → Files V → Files V → Type 0
  Writes n f g = (lookup k.path g ≡ lookup k.path f) ⊎ Holds n g

  joined-Writes : (n : ℕ) (f g h : Files V) → Writes n f g → Writes n g h → Writes n f h
  joined-Writes n f g h (inl e) (inl e') = inl (e' ∙ e)
  joined-Writes n f g h (inr held) (inl e') =
      inr
        (record { held = held.held; stored = e' ∙ held.stored; held_revision = held.held_revision })
  joined-Writes n f g h first (inr held) = inr held

  Writes-IsOrder : (n : ℕ) → IsOrder (Writes n)
  Writes-IsOrder n = record { same = λ f. inl refl; joined = joined-Writes n }

  fence-runs :
      (n : ℕ) {P : Files V → Type 0} → Runs (Writes n) P (assert_document_fence s k) (λ u f. P f)
  unfolding assert_document_fence
  fence-runs n = runs_reading (Writes-IsOrder n) (λ w. refl) (λ w u before h. before)

  validated-runs :
      (n : ℕ) {P : Files V → Type 0} (validate : Option (ℕ → Result (Unit {0})))
      → Runs (Writes n) P (validated s k validate) (λ u f. P f)
  validated-runs n none = runs_reading (Writes-IsOrder n) (λ w. refl) (λ w u before h. before)
  validated-runs n (some validate) =
      runs_reading (Writes-IsOrder n) (λ w. refl) (λ w u before h. before)

  prepare-runs : (n : ℕ) {P : Files V → Type 0} → Runs (Writes n) P (prepare_write s k) (λ u f. P f)
  prepare-runs n = runs_reading (Writes-IsOrder n) (λ w. refl) (λ w u before h. before)

  -- What `update` returns is in the file, with the next revision.
  abbrev IsWritten : T → T → Files V → Type 0
  IsWritten current next f =
      (k.revision next ≡ suc (k.revision current))
      × (lookup k.path f ≡ some (json (k.encoded next)))

  -- From the check of the size on.
  write_next-runs :
      (validate : Option (ℕ → Result (Unit {0}))) (current next : T)
      → k.revision next ≡ suc (k.revision current)
      → Runs
          (Writes (suc (k.revision current)))
          (λ f. Unit {0})
          (write_file s k.path (k.encoded next) >> (assert_document_fence s k >> pure next))
          (IsWritten current)
  write_next-runs validate current next e =
      let n = suc (k.revision current) in
      let order = Writes-IsOrder n in
      runs_then order
        (runs_write order s k.path (k.encoded next) (λ f u. inr (record {
          held = next;
          stored = own_lookup k.path (json (k.encoded next)) f;
          held_revision = e;
        })))
        (λ u. runs_then order (fence-runs n) (λ u. runs_pure order next (λ f stored. (e, stored))))

  write_document-runs :
      KeepsRevision
      → (transform : T → Result T) (validate : Option (ℕ → Result (Unit {0}))) (current : T)
      → Runs
          (Writes (suc (k.revision current)))
          (λ f. Unit {0})
          (write_document s k transform validate current)
          (IsWritten current)
  unfolding write_document
  write_document-runs parsed_revision transform validate current =
      let n = suc (k.revision current) in
      let order = Writes-IsOrder n in
      runs_then order
        (runs_lift order {Q = λ changed f. Unit {0}} (transform current) (λ f changed u h. u))
        λ changed.
          runs_then order
            (runs_lift order {Q = λ next f. (k.revision next ≡ n) × Unit {0}}
              (k.schema (k.with_revision changed n))
              (λ f next u h. (parsed_revision changed n next h, u)))
            λ next. runs_given λ e.
              runs_then order (runs_require order {P = λ f. Unit {0}} _ _) λ u1. runs_given λ small.
                runs_then order (fence-runs n {P = λ f. Unit {0}}) λ u2.
                  runs_then order (validated-runs n {P = λ f. Unit {0}} validate) λ u3.
                    runs_then order (prepare-runs n {P = λ f. Unit {0}}) λ u4.
                      runs_then order (fence-runs n {P = λ f. Unit {0}}) λ u5.
                        runs_then order (validated-runs n {P = λ f. Unit {0}} validate) λ u6.
                          runs_then order (fence-runs n {P = λ f. Unit {0}})
                            λ u7. write_next-runs validate current next e

  -- The updates one after the other, each whether it throws or not, with a count of those that returned.
  abbrev pub counted : {A : Type 0} → Result A → ℕ → ℕ
  counted (ok a) n = suc n
  counted (err e) n = n

  unfoldable pub update_all :
      List ((T → Result T) × Option (ℕ → Result (Unit {0})))
      → ℕ
      → DocumentState V T
      → ℕ × DocumentState V T
  update_all [] n d = (n, d)
  update_all (call ∷ calls) n d =
      let result = update s k call.0 call.1 d in update_all calls (counted result.0 n) result.1

  -- What the file holds beside a current document: still what it held, if no update returned, or the
  -- document's revision or the next one.
  abbrev pub IsHeld : T → Files V → ℕ → Files V → Type 0
  IsHeld current files n f =
      ((n ≡ 0) × (lookup k.path f ≡ lookup k.path files))
      ⊎ (Holds (k.revision current) f ⊎ Holds (suc (k.revision current)) f)

  -- Where updates lead that start with a document and files, when `n` of them returned.
  pub record IsAfter (first : T) (files : Files V) (n : ℕ) (d : DocumentState V T) : Type 0 where
    pub current : T
    pub kept : d.document ≡ some current
    pub current_revision : k.revision current ≡ k.revision first + n
    pub file : IsHeld current files n d.world.files

  moved-Holds : {n : ℕ} (f g : Files V) → lookup k.path g ≡ lookup k.path f → Holds n f → Holds n g
  moved-Holds f g e h = record {
    held = h.held;
    stored = e ∙ h.stored;
    held_revision = h.held_revision;
  }

  moved-file :
      (first current : T) (files f g : Files V) (n : ℕ)
      → Writes (suc (k.revision current)) f g
      → IsHeld current files n f
      → IsHeld current files n g
  moved-file first current files f g n (inl e) (inl (none_yet, same)) = inl (none_yet, e ∙ same)
  moved-file first current files f g n (inl e) (inr (inl h)) = inr (inl (moved-Holds f g e h))
  moved-file first current files f g n (inl e) (inr (inr h)) = inr (inr (moved-Holds f g e h))
  moved-file first current files f g n (inr held) before = inr (inr held)

  settled-IsAfter :
      (first current : T) (files : Files V) (n : ℕ) (w : World V) (x : Result T × World V)
      → IsAfter first files n (record { world = w; document = some current })
      → Writes (suc (k.revision current)) w.files x.1.files
      → ((a : T) → x.0 ≡ ok a → IsWritten current a x.1.files)
      → IsAfter first files
          (counted (settled_with s k (some current) x).0 n)
          (settled_with s k (some current) x).1
  settled-IsAfter first current files n w (ok next, w') h moved gave =
      let written = gave next refl in
      let same : h.current ≡ current = ground (arith, h.kept) in
      record {
        current = next;
        kept = refl;
        current_revision = omega (arith, written.0, h.current_revision, ap k.revision same);
        file = inr (inl (record { held = next; stored = written.1; held_revision = refl }));
      }
  settled-IsAfter first current files n w (err e, w') h moved gave =
      let same : h.current ≡ current = ground (arith, h.kept) in
      record {
        current = current;
        kept = refl;
        current_revision = ap k.revision (sym same) ∙ h.current_revision;
        file =
            moved-file first current files w.files w'.files n moved
              (subst (λ c. IsHeld c files n w.files) same h.file);
      }

  update-IsAfter :
      KeepsRevision
      → (transform : T → Result T) (validate : Option (ℕ → Result (Unit {0}))) (first : T)
        (files : Files V) (n : ℕ) (o : Option T) (w : World V)
      → IsAfter first files n (record { world = w; document = o })
      → IsAfter first files
          (counted (update_from s k transform validate o w).0 n)
          (update_from s k transform validate o w).1
  unfolding update_from
  update-IsAfter parsed_revision transform validate first files n none w h = h
  update-IsAfter parsed_revision transform validate first files n (some current) w h =
      let (moved, gave) =
        (write_document-runs parsed_revision transform validate current).runs w tt in
      settled-IsAfter first current files n w (write_document s k transform validate current w) h
        moved gave

  -- After any updates on a store with a document, whichever of them throw and whatever the disk and the
  -- ownership do: the document's revision has gone up by the number of updates that returned; and the file
  -- is untouched by a store none of whose updates returned, or it holds a document with the document's
  -- revision or with the next one. The schema keeps the revision of what it parses.
  pub update_all-IsAfter :
      KeepsRevision
      → (calls : List ((T → Result T) × Option (ℕ → Result (Unit {0})))) (first : T)
        (files : Files V) (n : ℕ) (d : DocumentState V T)
      → IsAfter first files n d
      → IsAfter first files (update_all calls n d).0 (update_all calls n d).1
  unfolding update_all update
  update_all-IsAfter parsed_revision [] first files n d h = h
  update_all-IsAfter parsed_revision (call ∷ calls) first files n d h =
      update_all-IsAfter parsed_revision calls first files _ _
        (update-IsAfter parsed_revision call.0 call.1 first files n d.document d.world h)
