-- ===== src/Scenarios/Documents.antt =====
-- src/storage/FencedDocumentStore.ts: a document that is a number with a revision.
use copilot_agent_mesh.Prelude.{
  ℕ, true, String, Option, none, some, List, [], ◌∷◌, ◌≡◌, ◌≢◌, refl, arith, inl,
}
use copilot_agent_mesh.Protocol.{Result, ok, err, plain_error}
use copilot_agent_mesh.Storage.Effects.{Surroundings, DiskOutcome, OwnershipView, json}
use copilot_agent_mesh.Storage.Documents.{DocumentKind, DocumentState, update}
use copilot_agent_mesh.Storage.Documents.Revisions.{
  IsAfter, KeepsRevision, update_all, update_all-IsAfter,
}
use copilot_agent_mesh.Storage.Documents.Fence.{update_unconfirmed}

-- A document: its revision and what it tells.
abbrev Note : Type 0
Note = ℕ × String

abbrev owner_of : String → OwnershipView
owner_of g = record {
  is_owner = true;
  generation = some g;
  assertion = none;
  generation_after = some g;
}

abbrev kind : DocumentKind Note Note
kind = record {
  path = "state.json";
  schema = λ note. ok note;
  encoded = λ note. note;
  revision = λ note. note.0;
  with_revision = λ note n. (n, note.1);
  json_bytes = λ note. 20;
  max_bytes = 262144;
  initial = (0, "");
  ownership = λ n. owner_of "g1";
  generation = "g1";
}

-- Every write is made.
abbrev surroundings : Surroundings
surroundings = record {
  now = λ n. "10:00";
  disk = λ n. DiskOutcome.done;
  ownership = none;
  generation = none;
}

abbrev first : Note
first = (4, "first")

abbrev start : DocumentState Note Note
start = record {
  world = record { files = ("state.json", json first) ∷ []; moment = 0 };
  document = some first;
}

abbrev renamed : Note → Result Note
renamed note = ok (note.0, "renamed")

abbrev calls : List ((Note → Result Note) × Option (ℕ → Result (Unit {0})))
calls = (renamed, none) ∷ ((λ note. err plain_error), none) ∷ (renamed, some (λ n. ok tt)) ∷ []

keeps_revision : KeepsRevision surroundings kind
keeps_revision d n next h = ground (arith, h)

start-IsAfter : IsAfter surroundings kind first start.world.files 0 start
start-IsAfter = record {
  current = first;
  kept = refl;
  current_revision = refl;
  file = inl (refl, refl);
}

update_all-IsAfter_example :
    IsAfter surroundings kind first start.world.files
      (update_all surroundings kind calls 0 start).0
      (update_all surroundings kind calls 0 start).1
update_all-IsAfter_example =
    update_all-IsAfter surroundings kind keeps_revision calls first start.world.files 0 start
      start-IsAfter

abbrev displaced : DocumentKind Note Note
displaced = record kind { generation = "g0" }

update_unconfirmed_example :
    ((update surroundings displaced renamed none start).1.world.files ≡ start.world.files)
    × ((update surroundings displaced renamed none start).1.document ≡ some first)
    × ((a : Note) → (update surroundings displaced renamed none start).0 ≢ ok a)
update_unconfirmed_example =
    update_unconfirmed surroundings displaced (λ n h. cc) renamed none start
