-- ===== src/Invocations/Bounds.antt =====
-- src/tools/DelegatedToolInvocationRegistry.ts: the entries of the registry against its limits.
use copilot_agent_mesh.Prelude.{
  ◌≤◌, ◌<◌, Bool, true, false, String, none, some, [], ◌∷◌, ◌==◌, ◌≡◌, refl, arith, Dict, lookup,
  insert, remove, select, length, Bool-cases, inl, inr, ap, All, length-select, subst, eq_iff,
}
use copilot_agent_mesh.Invocations.{CorrelationEntry, RegistryLimits, count_scope, in_scope}
use copilot_agent_mesh.Keys.{
  Distinct, Distinct-select, Distinct-insert, count-select, lookup-select, remove-select, count_all,
  length-insert_new, length-insert_old,
}
use copilot_agent_mesh.Invocations.Eviction.{Reduced, as_it_is, less}

-- Every entry stands under its own key, and no key stands twice.
pub record IsKeyed (m : Dict CorrelationEntry) : Type 0 where
  pub keyed : All (λ entry. entry.1.observation_key ≡ entry.0) m
  pub distinct : Distinct m

-- A map of the registry within its limits.
pub record IsBounded (limits : RegistryLimits) (m : Dict CorrelationEntry) : Type 0 where
  pub keys : IsKeyed m
  pub within : length m ≤ limits.entry_limit
  pub scoped : (scope_key : String) → count_scope scope_key m ≤ limits.scope_entry_limit

All-if :
    (P : String × CorrelationEntry → Type 0) (b : Bool) (entry : String × CorrelationEntry)
    (m : Dict CorrelationEntry)
    → P entry
    → All P m
    → All P (elim b [ true ↦ entry ∷ m | false ↦ m ])
All-if P true entry m h a = (h, a)
All-if P false entry m h a = a

All-select :
    (P : String × CorrelationEntry → Type 0) (keep : String × CorrelationEntry → Bool)
    (m : Dict CorrelationEntry)
    → All P m
    → All P (select keep m)
All-select P keep [] a = tt
All-select P keep (entry ∷ m) (h, a) =
    All-if P (keep entry) entry (select keep m) h (All-select P keep m a)

All-insert :
    (P : String × CorrelationEntry → Type 0) (key : String) (value : CorrelationEntry)
    (m : Dict CorrelationEntry)
    → P (key, value)
    → All P m
    → All P (insert key value m)
unfolding insert
All-insert P key value [] h a = (h, tt)
All-insert P key value ((j, w) ∷ m) h (here, a) = elim (Bool-cases (j == key)) [
  | inl same ↦ rw same (h, a)
  | inr other ↦ rw other (here, All-insert P key value m h a)
]

pub IsBounded-select :
    (limits : RegistryLimits) (keep : String × CorrelationEntry → Bool) (m : Dict CorrelationEntry)
    → IsBounded limits m
    → IsBounded limits (select keep m)
IsBounded-select limits keep m b = record {
  keys = record {
    keyed = All-select _ keep m b.keys.keyed;
    distinct = Distinct-select keep m b.keys.distinct;
  };
  within = omega (arith, length-select keep m, b.within);
  scoped = λ s. omega (arith, count-select (in_scope s) keep m, b.scoped s);
}

pub IsBounded-remove :
    (limits : RegistryLimits) (key : String) (m : Dict CorrelationEntry)
    → IsBounded limits m
    → IsBounded limits (remove key m)
IsBounded-remove limits key m b = rw (remove-select key m) (IsBounded-select limits _ m b)

pub Reduced-IsBounded :
    (limits : RegistryLimits) (m m' : Dict CorrelationEntry)
    → Reduced m m'
    → IsBounded limits m
    → IsBounded limits m'
Reduced-IsBounded limits m m' as_it_is b = b
Reduced-IsBounded limits m m' (less key r) b =
    Reduced-IsBounded limits _ m' r (IsBounded-remove limits key m b)

pub Reduced-count :
    (test : String × CorrelationEntry → Bool) (m m' : Dict CorrelationEntry)
    → Reduced m m'
    → length (select test m') ≤ length (select test m)
Reduced-count test m m' as_it_is = omega arith
Reduced-count test m m' (less key r) =
    omega (arith, Reduced-count test (remove key m) m' r, count-remove test key m)
  where
    count-remove :
        (test : String × CorrelationEntry → Bool) (key : String) (m : Dict CorrelationEntry)
        → length (select test (remove key m)) ≤ length (select test m)
    count-remove test key m = rw (remove-select key m) (count-select test _ m)

pub Reduced-lookup :
    (key : String) (m m' : Dict CorrelationEntry)
    → Reduced m m'
    → lookup key m ≡ none
    → lookup key m' ≡ none
Reduced-lookup key m m' as_it_is h = h
Reduced-lookup key m m' (less j r) h =
    Reduced-lookup key (remove j m) m' r (rw (remove-select j m) (lookup-select key _ m h))

scope_count :
    (limits : RegistryLimits) (s key : String) (entry : CorrelationEntry)
    (m : Dict CorrelationEntry)
    → lookup key m ≡ none
    → count_scope entry.scope_key m < limits.scope_entry_limit
    → count_scope s m ≤ limits.scope_entry_limit
    → count_scope s (insert key entry m) ≤ limits.scope_entry_limit
scope_count limits s key entry m fresh few bound =
    let added = length-insert_new (in_scope s) key entry m fresh in
    elim (Bool-cases (entry.scope_key == s)) [
      | inl same ↦
          let e : entry.scope_key ≡ s = (eq_iff entry.scope_key s).0 same in
          let few' : count_scope s m < limits.scope_entry_limit =
            subst (λ t. count_scope t m < limits.scope_entry_limit) e few in
          ground (arith, added, few')
      | inr other ↦ ground (arith, added)
    ]

-- A new entry, where both limits leave room.
pub IsBounded-new :
    (limits : RegistryLimits) (key : String) (entry : CorrelationEntry) (m : Dict CorrelationEntry)
    → entry.observation_key ≡ key
    → lookup key m ≡ none
    → length m < limits.entry_limit
    → count_scope entry.scope_key m < limits.scope_entry_limit
    → IsBounded limits m
    → IsBounded limits (insert key entry m)
IsBounded-new limits key entry m own fresh small few b = record {
  keys = record {
    keyed = All-insert _ key entry m own b.keys.keyed;
    distinct = Distinct-insert key entry m b.keys.distinct;
  };
  within = omega (
    arith,
    count_all m,
    count_all (insert key entry m),
    length-insert_new (λ e. true) key entry m fresh,
  );
  scoped = λ s. scope_count limits s key entry m fresh few (b.scoped s);
}

-- An entry that is replaced by one of the same scope.
pub IsBounded-old :
    (limits : RegistryLimits) (key : String) (old entry : CorrelationEntry)
    (m : Dict CorrelationEntry)
    → entry.observation_key ≡ key
    → lookup key m ≡ some old
    → entry.scope_key ≡ old.scope_key
    → IsBounded limits m
    → IsBounded limits (insert key entry m)
IsBounded-old limits key old entry m own there same b = record {
  keys = record {
    keyed = All-insert _ key entry m own b.keys.keyed;
    distinct = Distinct-insert key entry m b.keys.distinct;
  };
  within = omega (
    arith,
    b.within,
    count_all m,
    count_all (insert key entry m),
    length-insert_old (λ e. true) key old entry m there (λ j. refl),
  );
  scoped = λ s. omega (
    arith,
    b.scoped s,
    length-insert_old (in_scope s) key old entry m there (λ j. ap (λ k. k == s) same),
  );
}
