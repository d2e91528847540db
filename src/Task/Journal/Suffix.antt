-- ===== src/Task/Journal/Suffix.antt =====
-- The longest suffix of a list that passes a test, and `drop`.
use native.Mathlib.Nat.{suc-add}
use copilot_agent_mesh.Prelude.{
  ℕ, zero, suc, ◌+◌, ◌-◌, Bool, true, false, List, [], ◌∷◌, ◌++◌, ◌≡◌, refl, ◌∙◌, arith, length,
  drop, Bool-cases, ◌⊎◌, inl, inr, ◌⊎◌,
}

module _ {ℓ} {A : Type ℓ} where
  -- The longest suffix of `xs` that passes `test`, or the empty list.
  unfoldable pub longest : (List A → Bool) → List A → List A
  longest test [] = []
  longest test (x ∷ xs) = elim (test (x ∷ xs)) [ true ↦ x ∷ xs | false ↦ longest test xs ]

  pub longest_pass :
      (test : List A → Bool) (x : A) (xs : List A)
      → test (x ∷ xs) ≡ true
      → longest test (x ∷ xs) ≡ x ∷ xs
  unfolding longest
  longest_pass test x xs h = rw (h, longest)

  pub longest_fail :
      (test : List A → Bool) (x : A) (xs : List A)
      → test (x ∷ xs) ≡ false
      → longest test (x ∷ xs) ≡ longest test xs
  unfolding longest
  longest_fail test x xs h = rw (h, longest)

  pub longest_self : (test : List A → Bool) (xs : List A) → test xs ≡ true → longest test xs ≡ xs
  unfolding longest
  longest_self test [] h = refl
  longest_self test (x ∷ xs) h = longest_pass test x xs h

  -- It passes, unless it is empty.
  pub longest-passes :
      (test : List A → Bool) (xs : List A)
      → (longest test xs ≡ []) ⊎ (test (longest test xs) ≡ true)
  unfolding longest
  longest-passes test [] = inl refl
  longest-passes test (x ∷ xs) = elim (Bool-cases (test (x ∷ xs))) [
    | inl h ↦ inr (rw (longest_pass test x xs h) h)
    | inr h ↦ rw (longest_fail test x xs h) (longest-passes test xs)
  ]

  pub drop-length-append : (xs ys : List A) → drop (length xs) (xs ++ ys) ≡ ys
  drop-length-append [] ys = refl
  drop-length-append (x ∷ xs) ys = drop-length-append xs ys

  drop-nil : (n : ℕ) → drop {A = A} n [] ≡ []
  drop-nil zero = refl
  drop-nil (suc n) = refl

  pub drop-add : (m n : ℕ) (xs : List A) → drop n (drop m xs) ≡ drop (m + n) xs
  drop-add zero n xs = ground arith
  drop-add (suc m) n [] = rw (drop-nil n, drop-nil (suc m + n))
  drop-add (suc m) n (x ∷ xs) = rw suc-add (drop-add m n xs)

  pub length-drop : (n : ℕ) (xs : List A) → length (drop n xs) ≡ length xs - n
  length-drop zero xs = omega arith
  length-drop (suc n) [] = omega arith
  length-drop (suc n) (x ∷ xs) = omega (arith, length-drop n xs)

  -- Nothing longer than `ys` passes when its extension by one does not and the test is hereditary.
  pub longest-append :
      (test : List A → Bool)
      → ((z : A) (zs : List A) → test (z ∷ zs) ≡ true → test zs ≡ true)
      → (xs : List A) (y : A) (ys : List A) → test (y ∷ ys) ≡ false
      → test ys ≡ true
      → (test (xs ++ y ∷ ys) ≡ false) × (longest test (xs ++ y ∷ ys) ≡ ys)
  longest-append test down [] y ys h k = (h, longest_fail test y ys h ∙ longest_self test ys k)
  longest-append test down (x ∷ xs) y ys h k =
      let (fails, found) = longest-append test down xs y ys h k in
      elim (Bool-cases (test (x ∷ (xs ++ y ∷ ys)))) [
        | inl passes ↦ absurd (cc (down x (xs ++ y ∷ ys) passes))
        | inr e ↦ (e, longest_fail test x (xs ++ y ∷ ys) e ∙ found)
      ]
