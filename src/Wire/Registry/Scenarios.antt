-- ===== src/Wire/Registry/Scenarios.antt =====
-- connection-registry.ts: a runner that connects a second time.
use collab.Base.{true, false, ◌≡◌, refl, [], ◌∷◌}
use collab.Base.Table.{get, set}
use collab.Wire.Registry.{Registry, new, Closed, fenced, fence_of, register, is_current}
use collab.Wire.Registry.Fences.{registers, unregisters, run, step, register_replaces}

abbrev twice : Registry
twice = record {
  connections = ("r1", record { connection_id = "second"; fence = 2 }) ∷ [];
  fences = ("r1", 2) ∷ [];
  quiesced = false;
}

abbrev first_closed : Closed
first_closed = ("first", fenced) ∷ []

register_replaces_example :
    (is_current twice "r1" "second" 2 ≡ true)
    × (first_closed ≡ ("first", fenced) ∷ [])
    × (is_current (run twice (unregisters "r1" "second" 2 ∷ [])) "r1" "first" 1 ≡ false)
unfolding new run step register is_current fence_of get set
register_replaces_example =
    register_replaces (registers "r1" "first" ∷ []) (unregisters "r1" "second" 2 ∷ []) "r1" "second"
      {s = twice} {c = record { connection_id = "second"; fence = 2 }} {closed = first_closed}
      "first" 1 refl refl
