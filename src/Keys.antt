-- ===== src/Keys.antt =====
-- Maps whose entries stand under distinct keys, and how many entries pass a test.
use copilot_agent_mesh.Prelude.{
  suc, ◌+◌, ◌≤◌, ◌<◌, Bool, true, false, not, String, none, some, [], ◌∷◌, ◌==◌, ◌≡◌, refl, ap, ◌∙◌,
  arith, if◌then◌else◌, Dict, lookup, insert, remove, select, find, length, eq_iff, eq_refl,
  lookup-insert, Bool-cases, inl, inr, length-select, subst, subst,
}

module _ {V : Type 0} where
  pub remove-select :
      (key : String) (m : Dict V) → remove key m ≡ select (λ entry. not (entry.0 == key)) m
  unfolding remove
  remove-select key [] = refl
  remove-select key (entry ∷ m) = ground (arith, remove-select key m)

  -- A test that all entries pass counts them all.
  pub count_all : (m : Dict V) → length (select (λ entry. true) m) ≡ length m
  count_all [] = refl
  count_all (entry ∷ m) = ap suc (count_all m)

  -- A test counts no more entries once some are gone.
  pub count-select :
      (test keep : String × V → Bool) (m : Dict V)
      → length (select test (select keep m)) ≤ length (select test m)
  count-select test keep [] = omega arith
  count-select test keep (entry ∷ m) = ground (arith, count-select test keep m)

  pub lookup-select :
      (key : String) (keep : String × V → Bool) (m : Dict V)
      → lookup key m ≡ none
      → lookup key (select keep m) ≡ none
  unfolding lookup
  lookup-select key keep [] h = refl
  lookup-select key keep (entry ∷ m) h = ground (arith, lookup-select key keep m)

  -- No key stands twice.
  unfoldable pub Distinct : Dict V → Type 0
  Distinct [] = Unit {0}
  Distinct (entry ∷ m) = (lookup entry.0 m ≡ none) × Distinct m

  Distinct-if :
      (b : Bool) (entry : String × V) (m : Dict V)
      → lookup entry.0 m ≡ none
      → Distinct m
      → Distinct (elim b [ true ↦ entry ∷ m | false ↦ m ])
  unfolding Distinct
  Distinct-if true entry m fresh d = (fresh, d)
  Distinct-if false entry m fresh d = d

  length-remove : (key : String) (m : Dict V) → length (remove key m) ≤ length m
  length-remove key m = rw (remove-select key m) (length-select _ m)

  pub Distinct-select :
      (keep : String × V → Bool) (m : Dict V) → Distinct m → Distinct (select keep m)
  unfolding Distinct
  Distinct-select keep [] d = tt
  Distinct-select keep (entry ∷ m) (fresh, d) =
      Distinct-if (keep entry) entry (select keep m) (lookup-select entry.0 keep m fresh)
        (Distinct-select keep m d)

  pub length-insert_new :
      (test : String × V → Bool) (key : String) (value : V) (m : Dict V)
      → lookup key m ≡ none
      → length (select test (insert key value m))
        ≡ (if test (key, value) then 1 else 0) + length (select test m)
  unfolding lookup insert
  length-insert_new test key value [] h = ground arith
  length-insert_new test key value (entry ∷ m) h =
      ground (arith, length-insert_new test key value m)

  pub length-insert_old :
      (test : String × V → Bool) (key : String) (old value : V) (m : Dict V)
      → lookup key m ≡ some old
      → ((j : String) → test (j, value) ≡ test (j, old))
      → length (select test (insert key value m)) ≡ length (select test m)
  unfolding lookup insert
  length-insert_old test key old value [] h same = cc
  length-insert_old test key old value ((j, w) ∷ m) h same =
      ground (arith, eq_iff j key, same key, length-insert_old test key old value m)

  pub Distinct-insert :
      (key : String) (value : V) (m : Dict V) → Distinct m → Distinct (insert key value m)
  unfolding Distinct insert lookup
  Distinct-insert key value [] d = (refl, tt)
  Distinct-insert key value ((j, w) ∷ m) (fresh, d) = elim (Bool-cases (j == key)) [
    | inl here ↦ rw here (subst (λ k. lookup k m ≡ none) ((eq_iff j key).0 here) fresh, d)
    | inr other ↦ rw other (
      lookup-insert key j value m ∙ (ground (arith, eq_iff key j, eq_iff j key)),
      Distinct-insert key value m d,
    )
  ]

  -- An entry that is found stands under its key.
  pub lookup-find :
      (test : String × V → Bool) (m : Dict V) (entry : String × V)
      → Distinct m
      → find test m ≡ some entry
      → lookup entry.0 m ≡ some entry.1
  unfolding Distinct lookup
  lookup-find test [] entry d h = cc
  lookup-find test (e ∷ m) entry (fresh, d) h = elim (Bool-cases (test e)) [
    | inl hit ↦ ground (arith, eq_refl e.0)
    | inr miss ↦
        let found = lookup-find test m entry d (ground arith) in ground (arith, eq_iff e.0 entry.0)
  ]

  -- To delete the key of an entry that is found leaves fewer entries.
  pub remove-find :
      (test : String × V → Bool) (m : Dict V) (entry : String × V)
      → find test m ≡ some entry
      → length (remove entry.0 m) < length m
  unfolding remove
  remove-find test [] entry h = cc
  remove-find test (e ∷ m) entry h = elim (Bool-cases (test e)) [
    | inl hit ↦ ground (arith, eq_refl e.0, length-remove e.0 m)
    | inr miss ↦ ground (arith, remove-find test m entry)
  ]
