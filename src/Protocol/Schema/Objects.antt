-- ===== src/Protocol/Schema/Objects.antt =====
-- shared/protocol/models.ts: the schema of an object with UUIDs for keys, on the objects that it gives.
use copilot_agent_mesh.Prelude.{
  String, none, some, [], ◌∷◌, ◌++◌, ◌==◌, ◌≡◌, refl, sym, ap, ◌∙◌, subst, arith, Bool-cases, inl,
  inr, Dict, lookup, insert, eq_iff,
}
use copilot_agent_mesh.Keys.{Distinct, Distinct-insert}
use copilot_agent_mesh.Protocol.Errors.{ok, >>=-eq-ok}
use copilot_agent_mesh.Protocol.Host.{Platform}
use copilot_agent_mesh.Protocol.Schema.{
  each, with_entries, answered_input_schema, answered_inputs_schema,
}
use copilot_agent_mesh.Protocol.Schema.Fields.{Settles, settle, each-Settles, answered-Settles}

insert_new :
    (key value : String) (m : Dict String)
    → lookup key m ≡ none
    → insert key value m ≡ m ++ (key, value) ∷ []
unfolding lookup insert
insert_new key value [] h = refl
insert_new key value (entry ∷ m) h = ground (arith, insert_new key value m)

append_none : (m : Dict String) → m ++ [] ≡ m
append_none [] = refl
append_none (x ∷ m) = ap (λ l. x ∷ l) (append_none m)

append_one :
    (m : Dict String) (entry : String × String) (rest : Dict String)
    → (m ++ entry ∷ []) ++ rest ≡ m ++ entry ∷ rest
append_one [] entry rest = refl
append_one (x ∷ m) entry rest = ap (λ l. x ∷ l) (append_one m entry rest)

-- An object whose keys stand once, after others.
lookup-before :
    (key : String) (m rest : Dict String) → lookup key (m ++ rest) ≡ none → lookup key m ≡ none
unfolding lookup
lookup-before key [] rest h = refl
lookup-before key (x ∷ m) rest h = ground (arith, lookup-before key m rest)

lookup-at :
    (key value : String) (m rest : Dict String) → lookup key (m ++ (key, value) ∷ rest) ≡ none → ⊥
unfolding lookup
lookup-at key value [] rest h = ground (arith, eq_iff key key, h)
lookup-at key value (x ∷ m) rest h = lookup-at key value m rest (ground (arith, h))

key_new :
    (m : Dict String) (entry : String × String) (rest : Dict String)
    → Distinct (m ++ entry ∷ rest)
    → lookup entry.0 m ≡ none
unfolding Distinct lookup
key_new [] entry rest d = refl
key_new (x ∷ m) entry rest (fresh, d) = elim (Bool-cases (x.0 == entry.0)) [
  | inl same ↦
      let name = (eq_iff x.0 entry.0).0 same in
      absurd (
        lookup-at entry.0 entry.1 m rest
          (subst (λ k. lookup k (m ++ entry ∷ rest) ≡ none) name fresh))
  | inr other ↦ rw other (key_new m entry rest d)
]

with_entries_again :
    (m entries : Dict String) → Distinct (m ++ entries) → with_entries m entries ≡ m ++ entries
unfolding with_entries
with_entries_again m [] d = sym (append_none m)
with_entries_again m (entry ∷ entries) d =
    let appended = insert_new entry.0 entry.1 m (key_new m entry entries d) in
    let next = append_one m entry entries in
    ap (λ o. with_entries o entries) appended
    ∙ with_entries_again (m ++ entry ∷ []) entries (subst Distinct (sym next) d)
    ∙ next

with_entries-Distinct : (m entries : Dict String) → Distinct m → Distinct (with_entries m entries)
unfolding with_entries
with_entries-Distinct m [] d = d
with_entries-Distinct m (entry ∷ entries) d =
    with_entries-Distinct (insert entry.0 entry.1 m) entries (Distinct-insert entry.0 entry.1 m d)

module _ ⦃p : Platform⦄ where
  abbrev AllSettled : Dict String → Type 0
  AllSettled m = each answered_input_schema m ≡ ok m

  first_settled :
      (x : String × String) (m : Dict String)
      → AllSettled (x ∷ m)
      → (answered_input_schema x ≡ ok x) × AllSettled m
  unfolding each
  first_settled x m h =
      let (b, e, k) = >>=-eq-ok (answered_input_schema x) _ h in
      let (bs, e', k') = >>=-eq-ok (each answered_input_schema m) _ k in
      (grind (arith, k'), grind (arith, k'))

  insert-AllSettled :
      (key value : String) (m : Dict String)
      → answered_input_schema (key, value) ≡ ok (key, value)
      → AllSettled m
      → AllSettled (insert key value m)
  unfolding each insert
  insert-AllSettled key value [] good h = rw good
  insert-AllSettled key value (x ∷ m) good h =
      let (here, rest) = first_settled x m h in
      elim (Bool-cases (x.0 == key)) [
        | inl same ↦ rw same (rw (good, rest))
        | inr other ↦ rw other (rw (here, insert-AllSettled key value m good rest))
      ]

  with_entries-AllSettled :
      (m entries : Dict String)
      → AllSettled m
      → AllSettled entries
      → AllSettled (with_entries m entries)
  unfolding with_entries
  with_entries-AllSettled m [] h h' = h
  with_entries-AllSettled m (entry ∷ entries) h h' =
      let (here, rest) = first_settled entry entries h' in
      with_entries-AllSettled (insert entry.0 entry.1 m) entries
        (insert-AllSettled entry.0 entry.1 m here h) rest

  module _ (settled : (s t : String) → p.parse_uuid s ≡ some t → p.parse_uuid t ≡ some t) where
    pub answered_inputs-Settles : Settles answered_inputs_schema
    unfolding answered_inputs_schema Distinct each
    answered_inputs-Settles a b h =
        let (entries, e, k) = >>=-eq-ok (each answered_input_schema a) _ h in
        let again = each-Settles answered_input_schema (answered-Settles settled) a entries e in
        let all = with_entries-AllSettled [] entries refl again in
        let same =
          with_entries_again [] (with_entries [] entries) (with_entries-Distinct [] entries tt) in
        settle answered_inputs_schema k (rw (all, same))
