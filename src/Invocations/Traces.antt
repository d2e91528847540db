-- ===== src/Invocations/Traces.antt =====
-- The registry under calls in any order.
use copilot_agent_mesh.Prelude.{
  ℕ, false, not, ◌||◌, String, Option, List, [], ◌∷◌, arith, Bool-cases, inl, inr,
}
use copilot_agent_mesh.Protocol.{Platform}
use copilot_agent_mesh.Invocations.{
  DelegatedExecutionContext, RegistryLimits, Registry, ToolInputs, observe, consume,
  valid_correlation_id, forget, clear_scope, dispose, clear, size,
}
use copilot_agent_mesh.Keys.{Distinct}
use copilot_agent_mesh.Invocations.Bounds.{IsBounded, IsBounded-select, IsBounded-remove}
use copilot_agent_mesh.Invocations.Calls.{Bounded, prune-Bounded, observe-Bounded, consume-Bounded}

-- A call of the registry, with the time of the call where it reads the clock.
pub data RegistryCall (Raw : Type 0) : Type 0 where
  observe_call :
      (now : ℕ) (scope_id invocation_id tool_name : String) (tool_input : Option String)
      (context : DelegatedExecutionContext)
      → RegistryCall Raw
  consume_call : (now : ℕ) (raw : Raw) → RegistryCall Raw
  forget_call : (scope_id invocation_id : String) → RegistryCall Raw
  clear_scope_call : (scope_id : String) → RegistryCall Raw
  size_call : (now : ℕ) → RegistryCall Raw
  dispose_call clear_call : RegistryCall Raw

module _ ⦃p : Platform⦄ where
  forget-Bounded :
      (limits : RegistryLimits) (scope_id invocation_id : String) (registry : Registry)
      → Bounded limits registry
      → Bounded limits (forget scope_id invocation_id registry)
  unfolding forget
  forget-Bounded limits scope_id invocation_id registry b =
      elim (Bool-cases
        (not (valid_correlation_id scope_id) || not (valid_correlation_id invocation_id))) [
          | inl invalid ↦ rw invalid b
          | inr valid ↦ rw valid (IsBounded-remove limits _ registry.entries b)
        ]

  clear_scope-Bounded :
      (limits : RegistryLimits) (scope_id : String) (registry : Registry)
      → Bounded limits registry
      → Bounded limits (clear_scope scope_id registry)
  unfolding clear_scope
  clear_scope-Bounded limits scope_id registry b =
      elim (Bool-cases (not (valid_correlation_id scope_id))) [
        | inl invalid ↦ rw invalid b
        | inr valid ↦ rw valid (IsBounded-select limits _ registry.entries b)
      ]

  module _ {Raw : Type 0} (inputs : ToolInputs Raw) (limits : RegistryLimits) where
    abbrev pub call : RegistryCall Raw → Registry → Registry
    call (observe_call now scope_id invocation_id tool_name tool_input context) registry =
        (observe inputs limits now scope_id invocation_id tool_name tool_input context registry).0
    call (consume_call now raw) registry = (consume inputs now raw registry).0
    call (forget_call scope_id invocation_id) registry = forget scope_id invocation_id registry
    call (clear_scope_call scope_id) registry = clear_scope scope_id registry
    call (size_call now) registry = (size now registry).1
    call dispose_call registry = dispose registry
    call clear_call registry = clear registry

    abbrev pub run : List (RegistryCall Raw) → Registry → Registry
    run [] registry = registry
    run (c ∷ calls) registry = run calls (call c registry)

    empty-IsBounded : IsBounded limits []
    unfolding Distinct
    empty-IsBounded = record {
      keys = record { keyed = tt; distinct = tt };
      within = omega arith;
      scoped = λ s. omega arith;
    }

    call-Bounded :
        (c : RegistryCall Raw) (registry : Registry)
        → Bounded limits registry
        → Bounded limits (call c registry)
    call-Bounded (observe_call now s i t input context) registry b =
        observe-Bounded inputs limits now s i t input context registry b
    call-Bounded (consume_call now raw) registry b =
        consume-Bounded inputs limits now raw registry b
    call-Bounded (forget_call s i) registry b = forget-Bounded limits s i registry b
    call-Bounded (clear_scope_call s) registry b = clear_scope-Bounded limits s registry b
    call-Bounded (size_call now) registry b = prune-Bounded limits now registry.entries b
    call-Bounded dispose_call registry b = empty-IsBounded
    call-Bounded clear_call registry b = empty-IsBounded

    run-Bounded :
        (calls : List (RegistryCall Raw)) (registry : Registry)
        → Bounded limits registry
        → Bounded limits (run calls registry)
    run-Bounded [] registry b = b
    run-Bounded (c ∷ calls) registry b =
        run-Bounded calls (call c registry) (call-Bounded c registry b)

    -- Whatever is called from the start on, the registry keeps every entry under its own key, no key
    -- twice, and no more entries than its limits, in all and for any one scope.
    pub run-IsBounded :
        (calls : List (RegistryCall Raw))
        → IsBounded limits (run calls (record { entries = []; disposed = false })).entries
    run-IsBounded calls = run-Bounded calls _ empty-IsBounded
