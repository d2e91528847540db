-- ===== src/RemotePolicy/Updating.antt =====
-- src/broker/RemotePeerPolicyStore.ts: what `updateMany` makes of a document.
use copilot_agent_mesh.Prelude.{
  ℕ, Bool, true, false, not, String, Option, none, some, List, [], ◌∷◌, ◌++◌, find, get_or, or_else,
  ◌≡◌, refl, sym, arith, ap, subst, ◌∙◌, ◌==◌, eq_iff, select, Bool-cases, inl, inr, ◌⊎◌,
}
use copilot_agent_mesh.Protocol.{
  Platform, Result, ok, err, >>=-eq-ok, MeshErrorReason, mesh, MeshError, Result-cases,
}
use copilot_agent_mesh.RemotePolicy.{
  Entry, Policy, empty_entry, entry_of, entry_schema, changed_entry, changed_entries, is_expected,
  updating_many,
}
use copilot_agent_mesh.RemotePolicy.Lists.{includes}

abbrev at : String → Entry → Bool
at workspace entry = entry.identity == workspace

find-append :
    (test : Entry → Bool) (xs ys : List Entry)
    → find test (xs ++ ys) ≡ or_else (find test xs) (find test ys)
find-append test [] ys = refl
find-append test (x ∷ xs) ys = ground (arith, find-append test xs ys)

-- The entries that are not replaced.
find-kept :
    (workspace : String) (identities : List String) (entries : List Entry)
    → includes workspace identities ≡ false
    → find (at workspace) (select (λ entry. not (includes entry.identity identities)) entries)
      ≡ find (at workspace) entries
find-kept workspace identities [] h = refl
find-kept workspace identities (e ∷ entries) h = elim (Bool-cases (e.identity == workspace)) [
  | inl same ↦
      let name = (eq_iff e.identity workspace).0 same in
      let kept : includes e.identity identities ≡ false =
        ap (λ x. includes x identities) name ∙ h in
      grind (arith, same, kept)
  | inr other ↦ grind (arith, other, find-kept workspace identities entries h)
]

find-replaced :
    (workspace : String) (identities : List String) (entries : List Entry)
    → includes workspace identities ≡ true
    → find (at workspace) (select (λ entry. not (includes entry.identity identities)) entries)
      ≡ none
find-replaced workspace identities [] h = refl
find-replaced workspace identities (e ∷ entries) h = elim (Bool-cases (e.identity == workspace)) [
  | inl same ↦
      let name = (eq_iff e.identity workspace).0 same in
      let replaced : includes e.identity identities ≡ true =
        ap (λ x. includes x identities) name ∙ h in
      grind (arith, replaced, find-replaced workspace identities entries h)
  | inr other ↦ grind (arith, other, find-replaced workspace identities entries h)
]

module _ ⦃p : Platform⦄ (transform : Entry → Result Entry) (entries : List Entry) where
  changed_entry-identity :
      (workspace : String) (e : Entry)
      → changed_entry transform entries workspace ≡ ok e
      → e.identity ≡ workspace
  unfolding changed_entry
  changed_entry-identity workspace e h =
      let (c, e1, h1) = >>=-eq-ok (transform (entry_of entries workspace)) _ h in
      let (v, e2, h2) = >>=-eq-ok (entry_schema c) _ h1 in
      grind (arith, h2, eq_iff v.identity workspace)

  changed-found :
      (workspace : String) (identities : List String) (es : List Entry)
      → changed_entries transform entries identities ≡ ok es
      → includes workspace identities ≡ true
      → (e : Entry) × (changed_entry transform entries workspace ≡ ok e)
        × (find (at workspace) es ≡ some e)
  unfolding changed_entries includes
  changed-found workspace [] es h inside = cc
  changed-found workspace (identity ∷ identities) es h inside =
      let (c, e1, h1) = >>=-eq-ok (changed_entry transform entries identity) _ h in
      let (cs, e2, h2) = >>=-eq-ok (changed_entries transform entries identities) _ h1 in
      let named = changed_entry-identity identity c e1 in
      elim (Bool-cases (identity == workspace)) [
        | inl same ↦
            let name = (eq_iff identity workspace).0 same in
            let here : find (at workspace) es ≡ some c =
              grind (arith, h2, named, eq_iff c.identity workspace) in
            (c, subst (λ w. changed_entry transform entries w ≡ ok c) name e1, here)
        | inr other ↦
            let (e, e3, e4) =
              changed-found workspace identities cs e2 (grind (arith, inside, other)) in
            let there : find (at workspace) es ≡ some e = grind (arith, h2, e4, named, other) in
            (e, e3, there)
      ]

  changed-missed :
      (workspace : String) (identities : List String) (es : List Entry)
      → changed_entries transform entries identities ≡ ok es
      → includes workspace identities ≡ false
      → find (at workspace) es ≡ none
  unfolding changed_entries includes
  changed-missed workspace [] es h outside = grind (arith, h)
  changed-missed workspace (identity ∷ identities) es h outside =
      let (c, e1, h1) = >>=-eq-ok (changed_entry transform entries identity) _ h in
      let (cs, e2, h2) = >>=-eq-ok (changed_entries transform entries identities) _ h1 in
      let named = changed_entry-identity identity c e1 in
      let later = changed-missed workspace identities cs e2 (grind (arith, outside)) in
      grind (arith, h2, later, named, outside)

  -- The entry of a workspace after an update, beside the entries before: made from the one before, if the
  -- update names the workspace.
  abbrev pub IsUpdated : List String → List Entry → String → Type 0
  IsUpdated identities after workspace =
      ((includes workspace identities ≡ true)
        × (changed_entry transform entries workspace ≡ ok (entry_of after workspace)))
      ⊎ ((includes workspace identities ≡ false)
          × (entry_of after workspace ≡ entry_of entries workspace))

  entries-IsUpdated :
      (identities : List String) (es : List Entry) (workspace : String)
      → changed_entries transform entries identities ≡ ok es
      → IsUpdated identities
          (select (λ entry. not (includes entry.identity identities)) entries ++ es)
          workspace
  entries-IsUpdated identities es workspace h =
      let before = select (λ entry. not (includes entry.identity identities)) entries in
      let joined = find-append (at workspace) before es in
      elim (Bool-cases (includes workspace identities)) [
        | inl inside ↦
            let (e, made, found) = changed-found workspace identities es h inside in
            let gone = find-replaced workspace identities entries inside in
            let now : find (at workspace) (before ++ es) ≡ some e =
              joined ∙ rw (gone, found) refl in
            let is_e : e ≡ entry_of (before ++ es) workspace =
              sym (ap (λ o. get_or o (empty_entry workspace)) now) in
            inl (inside, subst (λ x. changed_entry transform entries workspace ≡ ok x) is_e made)
        | inr outside ↦
            let none_new = changed-missed workspace identities es h outside in
            let still = find-kept workspace identities entries outside in
            let now : find (at workspace) (before ++ es) ≡ find (at workspace) entries =
              joined ∙ grind (arith, none_new, still) in
            inr (outside, ap (λ o. get_or o (empty_entry workspace)) now)
      ]

-- What an update of many workspaces comes to.
pub data Updated ⦃p : Platform⦄ (identities : List String) (transform : Entry → Result Entry)
    (expected : Option ℕ) (d : Policy) : Result Policy → Type 0 where
  outdated :
      is_expected expected d.revision ≡ false
      → Updated identities transform expected d (err (mesh MeshErrorReason.policy_forbidden false))
  refused :
      (e : MeshError)
      → is_expected expected d.revision ≡ true
      → changed_entries transform d.entries identities ≡ err e
      → Updated identities transform expected d (err e)
  updated :
      (next : Policy)
      → is_expected expected d.revision ≡ true
      → next.revision ≡ d.revision
      → ((workspace : String) → IsUpdated transform d.entries identities next.entries workspace)
      → Updated identities transform expected d (ok next)

-- An update of many workspaces is refused for another revision than the expected one, or with the error of
-- an entry that cannot be made; or it gives a document in which each workspace that it names has the
-- entry that is made of its entry before, and each other workspace has its entry as before.
pub updating_many_lem :
    ⦃p : Platform⦄ (identities : List String) (transform : Entry → Result Entry)
    (expected : Option ℕ) (d : Policy)
    → Updated identities transform expected d (updating_many identities transform expected d)
unfolding updating_many
updating_many_lem identities transform expected d =
    elim (Bool-cases (is_expected expected d.revision)) [
      | inl current ↦ elim (Result-cases (changed_entries transform d.entries identities)) [
        | inl (e, failed) ↦ rw (current, failed) (refused e current failed)
        | inr (es, made) ↦
            rw (current, made)
              (updated _ current refl
                (λ workspace. entries-IsUpdated transform d.entries identities es workspace made))
      ]
      | inr other ↦ rw other (outdated other)
    ]
