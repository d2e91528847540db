-- ===== src/Invocations/Eviction.antt =====
-- src/tools/DelegatedToolInvocationRegistry.ts: the loops that delete the oldest unclaimed entries.
use copilot_agent_mesh.Prelude.{
  ℕ, zero, suc, ◌<◌, Bool, true, false, String, Option, none, some, ◌≡◌, refl, arith, Dict, remove,
  find, length, Bool-cases, Option-cases, inl, inr, ◌&&◌, not, sym,
}
use copilot_agent_mesh.Invocations.{
  CorrelationEntry, Evicted, room, stuck, evict, oldest_unclaimed, key_of,
}
use copilot_agent_mesh.Keys.{remove-find}

-- `m'` is `m` less some entries, deleted one key after the other.
pub data Reduced : Dict CorrelationEntry → Dict CorrelationEntry → Type 0 where
  as_it_is : {m : Dict CorrelationEntry} → Reduced m m
  less : {m m' : Dict CorrelationEntry} (key : String) → Reduced (remove key m) m' → Reduced m m'

-- How the loop ends: when it stops there is room, or every entry that it may delete is claimed.
pub data Ends (full : Dict CorrelationEntry → Bool) (pick : String × CorrelationEntry → Bool)
    (m : Dict CorrelationEntry) : Evicted → Type 0 where
  with_room :
      (m' : Dict CorrelationEntry) → full m' ≡ false → Reduced m m' → Ends full pick m (room m')
  all_claimed :
      (m' : Dict CorrelationEntry)
      → full m' ≡ true
      → oldest_unclaimed pick m' ≡ none
      → Reduced m m'
      → Ends full pick m (stuck m')

found_entry :
    (found : Option (String × CorrelationEntry)) (key : String)
    → key_of found ≡ some key
    → (entry : String × CorrelationEntry) × (found ≡ some entry) × (entry.0 ≡ key)
found_entry none key h = cc
found_entry (some entry) key h = (entry, refl, ground arith)

remove-oldest :
    (pick : String × CorrelationEntry → Bool) (m : Dict CorrelationEntry) (key : String)
    → oldest_unclaimed pick m ≡ some key
    → length (remove key m) < length m
remove-oldest pick m key h =
    let (entry, found, at) = found_entry (find (λ e. not e.1.claimed && pick e) m) key h in
    rw (sym at) (remove-find (λ e. not e.1.claimed && pick e) m entry found)

Ends-less :
    (full : Dict CorrelationEntry → Bool) (pick : String × CorrelationEntry → Bool)
    (m : Dict CorrelationEntry) (key : String) (e : Evicted)
    → Ends full pick (remove key m) e
    → Ends full pick m e
Ends-less full pick m key e (with_room m' h r) = with_room m' h (less key r)
Ends-less full pick m key e (all_claimed m' h o r) = all_claimed m' h o (less key r)

-- With more rounds than entries, the loop ends by its own tests: it never runs out of rounds.
pub evict-Ends :
    (n : ℕ) (full : Dict CorrelationEntry → Bool) (pick : String × CorrelationEntry → Bool)
    (m : Dict CorrelationEntry)
    → length m < n
    → Ends full pick m (evict n full pick m)
unfolding evict
evict-Ends zero full pick m h = absurd (omega arith)
evict-Ends (suc n) full pick m h = elim (Bool-cases (full m)) [
  | inl crowded ↦ elim (Option-cases (oldest_unclaimed pick m)) [
    | inl nobody ↦ rw (crowded, nobody, evict) (all_claimed m crowded nobody as_it_is)
    | inr (key, oldest) ↦
        let shorter = remove-oldest pick m key oldest in
        rw (crowded, oldest, evict)
          (Ends-less full pick m key _ (evict-Ends n full pick (remove key m) (omega arith)))
  ]
  | inr free ↦ rw (free, evict) (with_room m free as_it_is)
]
