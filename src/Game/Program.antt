-- ===== src/Game/Program.antt =====
-- server/World.cpp: the update of the whole program and its command line, with
-- SystemManager::update of common/System_Manager.cpp.
use sfrpg.Base.{
  ℕ, zero, suc, ◌+◌, ◌%◌, ◌^◌, Bool, true, false, ◌&&◌, ◌==◌, if◌then◌else◌, none, some, List, [],
  ◌∷◌, Text, codes, eq_text, ℤ, ltb_ℤ, length,
}
use sfrpg.Platform.{Platform}
use sfrpg.Server.State.{null_id}
use sfrpg.Server.Transport.{broadcast, disconnect_all}
use sfrpg.Server.Heartbeat.{update_server}
use sfrpg.Server.Lifecycle.{stop}
use sfrpg.Ecs.Components.{Vector, health_part}
use sfrpg.Ecs.State.{
  World, SystemBase, Outcome, done, network_system, movement_system, state_system, collision_system,
  combat_system, timers_system,
}
use sfrpg.Ecs.Entities.{purge}
use sfrpg.Ecs.Parts.{set_part, health_of}
use sfrpg.Ecs.StateSystem.{and_then, update_states}
use sfrpg.Ecs.Combat.{update_combat}
use sfrpg.Ecs.Timers.{update_timers}
use sfrpg.Ecs.Network.{update_network}
use sfrpg.Game.Stream.{stream_of, read_word, read_signed}
use sfrpg.Game.Map.{GameMap}
use sfrpg.Game.Movement.{update_movement}
use sfrpg.Game.Events.{handle_events}
use sfrpg.Game.Collision.{Geometry}
use sfrpg.Game.Contacts.{update_collision}
use sfrpg.Game.Snapshot.{Stale, create_snapshot}
use sfrpg.Game.Session.{Run, runs, and_run, of_outcome, client_leave}

abbrev snapshot_interval : ℤ
snapshot_interval = ℤ.pos 100

-- class World. The two parts of the system manager and the entity manager are in `world`.
pub record Program (π : Platform) : Type 0 where
  pub world : World π
  pub game_map : GameMap π
  pub is_running : Bool
  pub tick : ℕ
  pub tps : ℕ
  pub tps_time : π.Time
  pub game_time : π.Time
  pub snapshot_timer : π.Time

-- What the systems find in variables that nothing sets, and the fuel.
pub record Limits : Type 0 where
  pub messages : ℕ
  pub rounds : ℕ
  pub junk_event : ℕ
  pub stale : ℤ → Stale

module _ {π : Platform} (γ : Geometry π) (limits : Limits) (read_gone : Vector π → Vector π) where
  open π use {Time, of_int, milliseconds, as_milliseconds, new_packet}

  -- update of the system with the identifier; S_Control does nothing there. The time is in
  -- milliseconds.
  unfoldable pub update_system :
      GameMap π → (l_dt : ℤ) → (l_id : ℕ) → (members : List ℤ) → World π → Outcome (World π)
  unfolding update_network update_movement update_states update_collision update_combat
      update_timers
  update_system game_map l_dt l_id members w =
      if l_id == network_system
      then update_network limits.messages limits.junk_event members w
      else if l_id == movement_system
      then update_movement read_gone game_map (of_int l_dt) members w
      else if l_id == state_system
      then update_states members w
      else if l_id == collision_system
      then update_collision limits.messages γ (some game_map) members w
      else if l_id == combat_system
      then update_combat members w
      else if l_id == timers_system
      then update_timers limits.messages (milliseconds l_dt) members w
      else done w

  -- The loop of SystemManager::update over the systems, none of which changes its members there.
  unfoldable pub update_each :
      GameMap π → (l_dt : ℤ) → List SystemBase → World π → Outcome (World π)
  unfolding update_system and_then
  update_each game_map l_dt [] w = done w
  update_each game_map l_dt (s ∷ ss) w =
      and_then (update_system game_map l_dt s.system_id s.members w) (update_each game_map l_dt ss)

  -- SystemManager::update
  unfoldable pub update_systems : GameMap π → (l_dt : ℤ) → World π → Outcome (World π)
  unfolding update_each handle_events and_then
  update_systems game_map l_dt w =
      and_then (update_each game_map l_dt w.systems w) (handle_events limits.messages limits.rounds)

  -- The timeout handler, called for each client that the update of the server timed out.
  unfoldable pub leave_each : List ℤ → World π → Run (World π)
  unfolding client_leave and_run
  leave_each [] w = runs w
  leave_each (cid ∷ cids) w = and_run (client_leave cid w) (leave_each cids)

  -- The snapshot, when it is due.
  unfoldable pub send_snapshot : Program π → Run (Program π)
  unfolding create_snapshot broadcast and_run of_outcome
  send_snapshot g =
      if ltb_ℤ snapshot_interval (as_milliseconds g.snapshot_timer)
      then and_run (of_outcome (create_snapshot limits.stale g.world new_packet)) (λ packet.
        let told = record g.world { server = broadcast g.world.server packet null_id } in
        runs (record g { world = told; snapshot_timer = milliseconds (ℤ.pos 0) }))
      else runs g

  -- The count of the rounds in a second.
  unfoldable pub count_tick : Program π → Program π
  count_tick g =
      if ltb_ℤ (ℤ.pos 1000) (as_milliseconds g.tps_time)
      then record g { tps = g.tick; tick = 0; tps_time = milliseconds (ℤ.pos 0) }
      else record g { tick = (g.tick + 1) % 2 ^ 32 }

  abbrev skip : ℕ → List ℤ → List ℤ
  skip zero cids = cids
  skip (suc n) [] = []
  skip (suc n) (cid ∷ cids) = skip n cids

  -- World::update
  unfoldable pub update_program : Time → Program π → Run (Program π)
  unfolding update_server leave_each update_systems send_snapshot count_tick and_run of_outcome
  update_program l_time g =
      let timed = record g {
        game_time = π.time_add g.game_time l_time;
        snapshot_timer = π.time_add g.snapshot_timer l_time;
        tps_time = π.time_add g.tps_time l_time;
      } in
      let server = update_server l_time g.world.server in
      let timed_out = skip (length g.world.server.timeouts) server.timeouts in
      if g.world.server.running
      then and_run (leave_each timed_out (record g.world { server = server })) (λ w.
        and_run (of_outcome (update_systems g.game_map (as_milliseconds l_time) w))
          (λ v. and_run (send_snapshot (record timed { world = v })) (λ h. runs (count_tick h))))
      else runs (record g { is_running = false })

-- Whether a text stands somewhere in another one: `str.find(...) != npos`.
abbrev starts_with : Text → Text → Bool
starts_with [] t = true
starts_with (c ∷ s) [] = false
starts_with (c ∷ s) (d ∷ t) = c == d && starts_with s t

unfoldable pub is_within : Text → Text → Bool
is_within s [] = starts_with s []
is_within s (d ∷ t) = let later = is_within s t in if starts_with s (d ∷ t) then true else later

-- atoi of a word, for the numbers that an int can hold.
unfoldable pub to_int : Text → ℤ
unfolding read_signed
to_int word = (read_signed (ℤ.pos 0) (stream_of word)).0

module _ {π : Platform} where
  -- The command `health`: nothing, unless there are three words and the entity has health.
  unfoldable pub set_health : Text → World π → World π
  unfolding read_word to_int health_of set_part
  set_health str w =
      let (command, s1) = read_word [] (stream_of str) in
      let (eid, s2) = read_word [] s1 in
      let (value, s3) = read_word [] s2 in
      if s3.good
      then elim (health_of w (to_int eid)) [
        | none ↦ w
        | some h ↦ set_part (to_int eid) (health_part (record h { health = to_int value })) w
      ]
      else w

  -- World::commandLine, on one line of input; what it prints is left out. The flag says whether the
  -- loop goes on.
  unfoldable pub command_line : Text → Program π → Program π × Bool
  unfolding stop disconnect_all purge is_within set_health
  command_line str g =
      if eq_text str (codes "terminate")
      then (
        record g {
          world = record g.world { server = (stop g.world.server).0 };
          is_running = false;
        },
        false,
      )
      else if eq_text str (codes "disconnectall")
      then (
        record g { world = purge (record g.world { server = disconnect_all g.world.server }) },
        true,
      )
      else if is_within (codes "tps") str
      then (g, true)
      else if is_within (codes "health") str
      then (record g { world = set_health str g.world }, true)
      else (g, true)
