-- ===== src/RemotePolicy/Lists.antt =====
-- src/broker/RemotePeerPolicyStore.ts: the tests on lists of its schemas.
use copilot_agent_mesh.Prelude.{
  Bool, true, false, not, ◌&&◌, ◌||◌, String, List, [], ◌∷◌, ◌==◌, eq_iff, all, select, ◌≡◌, refl,
  arith, Bool-cases, inl, inr, subst, sym,
}
use copilot_agent_mesh.Protocol.{Result, ok, >>=-eq-ok}
use copilot_agent_mesh.Protocol.Schema.{each}

-- `list.includes(x)`.
unfoldable pub includes : String → List String → Bool
includes x [] = false
includes x (y ∷ ys) = (y == x) || includes x ys

-- `new Set(values).size === values.length`.
unfoldable pub is_unique : List String → Bool
is_unique [] = true
is_unique (x ∷ xs) = not (includes x xs) && is_unique xs

-- A list less what fails a test.
module _ (keeps : String → Bool) where
  pub includes-select :
      (x : String) (xs : List String) → includes x (select keeps xs) ≡ (keeps x && includes x xs)
  unfolding includes
  includes-select x [] = ground arith
  includes-select x (y ∷ ys) = elim (Bool-cases (y == x)) [
    | inl same ↦ grind (arith, eq_iff y x, includes-select x ys, same)
    | inr other ↦ grind (arith, other, includes-select x ys)
  ]

  pub is_unique-select :
      (xs : List String) → is_unique xs ≡ true → is_unique (select keeps xs) ≡ true
  unfolding is_unique
  is_unique-select [] h = refl
  is_unique-select (x ∷ xs) h = grind (arith, is_unique-select xs, includes-select x xs)

  pub all-includes-select :
      (xs ys : List String)
      → all (λ x. includes x ys) xs ≡ true
      → all (λ x. includes x (select keeps ys)) (select keeps xs) ≡ true
  all-includes-select [] ys h = refl
  all-includes-select (x ∷ xs) ys h = grind (arith, all-includes-select xs ys, includes-select x ys)

pub each-select {ℓ} :
    {A : Type ℓ} (schema : A → Result A) (keeps : A → Bool) (xs : List A)
    → each schema xs ≡ ok xs
    → each schema (select keeps xs) ≡ ok (select keeps xs)
unfolding each
each-select schema keeps [] h = refl
each-select schema keeps (x ∷ xs) h =
    let (b, e, k) = >>=-eq-ok (schema x) _ h in
    let (bs, e', k') = >>=-eq-ok (each schema xs) _ k in
    let first : schema x ≡ ok x = grind (arith, k') in
    let rest : each schema xs ≡ ok xs = grind (arith, k') in
    let later = each-select schema keeps xs rest in
    elim (Bool-cases (keeps x)) [
      | inl kept ↦
          let chosen : select keeps (x ∷ xs) ≡ x ∷ select keeps xs = ground (arith, kept) in
          subst (λ ys. each schema ys ≡ ok ys) (sym chosen) (rw (first, later) refl)
      | inr dropped ↦
          let skipped : select keeps (x ∷ xs) ≡ select keeps xs = ground (arith, dropped) in
          subst (λ ys. each schema ys ≡ ok ys) (sym skipped) later
    ]
