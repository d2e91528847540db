-- ===== src/Invocations/Calls.antt =====
-- src/tools/DelegatedToolInvocationRegistry.ts: `observe` and `consume` against the limits.
use copilot_agent_mesh.Prelude.{
  ℕ, ◌<◌, Bool, true, false, not, ◌&&◌, String, Option, none, some, [], ◌∷◌, ◌==◌, ◌≡◌, refl, arith,
  Dict, lookup, select, find, All, length, Bool-cases, Option-cases, inl, inr, sym, ap, ◌∙◌, leb,
  is_some, or_else, head?, subst,
}
use copilot_agent_mesh.Protocol.{Platform, Result, ok, err, MeshError}
use copilot_agent_mesh.Invocations.{
  CorrelationEntry, DelegatedExecutionContext, RegistryLimits, Registry, ToolInputs, Evicted,
  count_scope, in_scope, add_observation, after_eviction, observe_fingerprint, observe, consume,
  claim, matches, best_match, is_ignored, delegation_fingerprint, input_fingerprint, prune,
  observation_key_of, execution_context_schema,
}
use copilot_agent_mesh.Keys.{lookup-find}
use copilot_agent_mesh.Invocations.Eviction.{Reduced, Ends, with_room, all_claimed, evict-Ends}
use copilot_agent_mesh.Invocations.Bounds.{
  IsBounded, IsKeyed, IsBounded-select, IsBounded-new, IsBounded-old, Reduced-IsBounded,
  Reduced-count, Reduced-lookup,
}

abbrev pub Bounded : RegistryLimits → Registry → Type 0
Bounded limits registry = IsBounded limits registry.entries

pub prune-Bounded :
    (limits : RegistryLimits) (now : ℕ) (m : Dict CorrelationEntry)
    → IsBounded limits m
    → IsBounded limits (prune now m)
unfolding prune
prune-Bounded limits now m b = IsBounded-select limits _ m b

after-Bounded :
    (limits : RegistryLimits) (registry : Registry)
    (continue : Dict CorrelationEntry → Registry × Option MeshError)
    (full : Dict CorrelationEntry → Bool) (pick : String × CorrelationEntry → Bool)
    (m : Dict CorrelationEntry) (e : Evicted)
    → Ends full pick m e
    → IsBounded limits m
    → ((m' : Dict CorrelationEntry)
        → full m' ≡ false
        → Reduced m m'
        → Bounded limits (continue m').0)
    → Bounded limits (after_eviction registry continue e).0
unfolding after_eviction
after-Bounded limits registry continue full pick m e (with_room m' h r) b next = next m' h r
after-Bounded limits registry continue full pick m e (all_claimed m' h o r) b next =
    Reduced-IsBounded limits m m' r b

add-Bounded :
    (limits : RegistryLimits) (key scope_key fingerprint : String) (expires_at : ℕ)
    (registry : Registry) (m : Dict CorrelationEntry) (context : Result DelegatedExecutionContext)
    → IsBounded limits m
    → lookup key m ≡ none
    → leb limits.entry_limit (length m) ≡ false
    → count_scope scope_key m < limits.scope_entry_limit
    → Bounded limits (add_observation key scope_key fingerprint expires_at registry m context).0
unfolding add_observation
add-Bounded limits key scope_key fingerprint expires_at registry m (err e) b fresh small few = b
add-Bounded limits key scope_key fingerprint expires_at registry m (ok context) b fresh small few =
    IsBounded-new limits key _ m refl fresh (ground arith) few b

find-select :
    (test keep : String × CorrelationEntry → Bool) (m : Dict CorrelationEntry)
    → find test (select keep m) ≡ find (λ entry. keep entry && test entry) m
find-select test keep [] = refl
find-select test keep (entry ∷ m) = ground (arith, find-select test keep m)

head-find : (m : Dict CorrelationEntry) → head? m ≡ find (λ entry. true) m
head-find [] = refl
head-find (entry ∷ m) = refl

found-eq : {a b : String × CorrelationEntry} → some a ≡ some b → a ≡ b
found-eq h = cc

All-find :
    (P : String × CorrelationEntry → Type 0) (test : String × CorrelationEntry → Bool)
    (m : Dict CorrelationEntry) (entry : String × CorrelationEntry)
    → All P m
    → find test m ≡ some entry
    → P entry
All-find P test [] entry a h = cc
All-find P test (e ∷ m) entry (here, a) h = elim (Bool-cases (test e)) [
  | inl hit ↦ subst P (found-eq (ground arith)) here
  | inr miss ↦ All-find P test m entry a (ground arith)
]

found-own :
    (test : String × CorrelationEntry → Bool) (m : Dict CorrelationEntry)
    (entry : String × CorrelationEntry)
    → IsKeyed m
    → find test m ≡ some entry
    → lookup entry.1.observation_key m ≡ some entry.1
found-own test m entry k h =
    subst (λ key. lookup key m ≡ some entry.1) (sym (All-find _ test m entry k.keyed h))
      (lookup-find test m entry k.distinct h)

best_match-lookup :
    (fingerprint : String) (m : Dict CorrelationEntry)
    → IsKeyed m
    → (entry : String × CorrelationEntry) → best_match fingerprint m ≡ some entry
    → lookup entry.1.observation_key m ≡ some entry.1
best_match-lookup fingerprint m k entry h =
    elim (Option-cases (find (λ e. not e.1.claimed) (matches fingerprint m))) [
      | inl none_new ↦ found-own _ m entry k (
          sym (find-select (λ e. true) (λ e. e.1.fingerprint == fingerprint) m)
          ∙ sym (head-find (matches fingerprint m))
          ∙ sym (ap (λ o. or_else o (head? (matches fingerprint m))) none_new)
          ∙ h)
      | inr (e, new) ↦ found-own _ m entry k (
          sym (find-select (λ e. not e.1.claimed) (λ e. e.1.fingerprint == fingerprint) m)
          ∙ new
          ∙ sym (ap (λ o. or_else o (head? (matches fingerprint m))) new)
          ∙ h)
    ]

claim-Bounded :
    (limits : RegistryLimits) (registry : Registry) (m : Dict CorrelationEntry)
    (found : Option (String × CorrelationEntry))
    → IsBounded limits m
    → ((entry : String × CorrelationEntry)
        → found ≡ some entry
        → (lookup entry.1.observation_key m ≡ some entry.1))
    → Bounded limits (claim registry m found).0
unfolding claim
claim-Bounded limits registry m none b h = b
claim-Bounded limits registry m (some (key, entry)) b h = elim (Bool-cases entry.claimed) [
  | inl taken ↦ rw taken b
  | inr fresh ↦
      rw fresh
        (IsBounded-old limits entry.observation_key entry _ m refl (h (key, entry) refl) refl b)
]

absent : (o : Option CorrelationEntry) → is_some o ≡ false → o ≡ none
absent none h = refl
absent (some e) h = cc

module _ ⦃p : Platform⦄ where
  observe_fingerprint-Bounded :
      (limits : RegistryLimits) (now : ℕ) (scope_id invocation_id fingerprint : String)
      (context : DelegatedExecutionContext) (registry : Registry)
      → Bounded limits registry
      → Bounded limits
          (observe_fingerprint limits now scope_id invocation_id fingerprint context registry).0
  unfolding observe_fingerprint
  observe_fingerprint-Bounded limits now scope_id invocation_id fingerprint context registry b =
      let entries = prune now registry.entries in
      let key = observation_key_of scope_id invocation_id in
      let scope_key = p.sha256_hex scope_id in
      let pruned = prune-Bounded limits now registry.entries b in
      elim (Bool-cases (is_some (lookup key entries))) [
        | inl known ↦ rw known pruned
        | inr fresh ↦ rw fresh (
            after-Bounded limits registry _ _ _ entries _
              (evict-Ends _ _ (in_scope scope_key) entries (omega arith)) pruned
              (λ m h r.
                after-Bounded limits registry _ _ _ m _ (evict-Ends _ _ (λ e. true) m (omega arith))
                  (Reduced-IsBounded limits entries m r pruned)
                  (λ m' h' r'.
                    add-Bounded limits key scope_key fingerprint _ registry m'
                      (execution_context_schema context)
                      (Reduced-IsBounded limits m m' r'
                        (Reduced-IsBounded limits entries m r pruned))
                      (Reduced-lookup key m m' r' (Reduced-lookup key entries m r (absent _ fresh)))
                      h' (ground (arith, Reduced-count (in_scope scope_key) m m' r')))))
      ]

  module _ {Raw : Type 0} (inputs : ToolInputs Raw) where
    pub observe-Bounded :
        (limits : RegistryLimits) (now : ℕ) (scope_id invocation_id tool_name : String)
        (tool_input : Option String) (context : DelegatedExecutionContext) (registry : Registry)
        → Bounded limits registry
        → Bounded limits
            (observe inputs limits now scope_id invocation_id tool_name tool_input context
              registry).0
    unfolding observe
    observe-Bounded limits now scope_id invocation_id tool_name tool_input context registry b =
        elim (Bool-cases (is_ignored registry tool_name tool_input scope_id invocation_id)) [
          | inl ignored ↦ rw ignored b
          | inr heard ↦ elim (Option-cases (input_fingerprint inputs tool_input)) [
            | inl unreadable ↦ rw (heard, unreadable) b
            | inr (fingerprint, read) ↦
                rw (heard, read)
                  (observe_fingerprint-Bounded limits now scope_id invocation_id fingerprint context
                    registry b)
          ]
        ]

    pub consume-Bounded :
        (limits : RegistryLimits) (now : ℕ) (raw : Raw) (registry : Registry)
        → Bounded limits registry
        → Bounded limits (consume inputs now raw registry).0
    unfolding consume
    consume-Bounded limits now raw registry b = elim (Bool-cases registry.disposed) [
      | inl closed ↦ rw closed b
      | inr live ↦ elim (Option-cases (delegation_fingerprint inputs raw)) [
        | inl unreadable ↦ rw (live, unreadable) b
        | inr (fingerprint, read) ↦
            let pruned = prune-Bounded limits now registry.entries b in
            rw (live, read)
              (claim-Bounded limits registry (prune now registry.entries)
                (best_match fingerprint (prune now registry.entries)) pruned
                (best_match-lookup fingerprint (prune now registry.entries) pruned.keys))
      ]
    ]
