-- ===== src/Scenarios/Invocations.antt =====
-- Examples for src/tools/DelegatedToolInvocationRegistry.ts.
use copilot_agent_mesh.Prelude.{
  false, true, String, none, some, List, [], ◌∷◌, Dict, length, ltb, arith,
}
use copilot_agent_mesh.Invocations.{
  DelegatedExecutionContext, RegistryLimits, CorrelationEntry, evict, ToolInputs, Part, text_part,
  target_handle,
}
use copilot_agent_mesh.Invocations.Bounds.{IsBounded}
use copilot_agent_mesh.Invocations.Eviction.{Ends, evict-Ends}
use copilot_agent_mesh.Invocations.Traces.{
  observe_call, consume_call, RegistryCall, run, run-IsBounded,
}
use copilot_agent_mesh.Scenarios.Samples.{sample_platform}

abbrev title_part : List Part → String
title_part (a ∷ b ∷ text_part (some title) ∷ rest) = title
title_part _ = ""

-- Inputs that are the title of the task.
abbrev titles : ToolInputs String
titles = record {
  json_parse = some;
  parse_delegate_task_input = λ title. some (record {
    delegation_request_id = none;
    target = target_handle "h1";
    title = title;
    prompt = "prompt";
    acceptance_criteria = [];
    timeout_minutes = none;
    mode = none;
    continue_from_task_id = none;
  });
  json_stringify = title_part;
}

abbrev two_entries : RegistryLimits
two_entries = record { entry_limit = 2; scope_entry_limit = 1; ttl_ms = 300_000 }

abbrev child : DelegatedExecutionContext
child = record { task_id = "t1"; capability = "abcdefghijklmnopqrstuvwxyz_abcdefghijklmnop" }

abbrev three_calls : List (RegistryCall String)
three_calls =
    observe_call 0 "s1" "i1" "mesh_delegate_task" (some "first") child
    ∷ observe_call 1 "s1" "i2" "mesh_delegate_task" (some "second") child
    ∷ consume_call 2 "second"
    ∷ []

run-IsBounded_example :
    IsBounded two_entries
      (run titles two_entries three_calls (record { entries = []; disposed = false })).entries
run-IsBounded_example = run-IsBounded titles two_entries three_calls

abbrev one_entry : Dict CorrelationEntry
one_entry =
    (
      "k1",
      record {
        observation_key = "k1";
        scope_key = "s1";
        fingerprint = "f1";
        context = child;
        expires_at = 300;
        claimed = false;
      },
    )
    ∷ []

-- One entry is one too many.
evict-Ends_example :
    Ends
      (λ m. ltb 0 (length m))
      (λ e. true)
      one_entry
      (evict 2 (λ m. ltb 0 (length m)) (λ e. true) one_entry)
evict-Ends_example = evict-Ends 2 (λ m. ltb 0 (length m)) (λ e. true) one_entry (omega arith)
