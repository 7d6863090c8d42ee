-- ===== src/Startup/Tests.antt =====
-- Runs of the start on a bus that reaches operation at the third check.
use bharatiya_beagle_bone.Common.{
  ℕ, suc, ◌≡◌, ◌≢◌, refl, arith, Bool, true, false, if◌then◌else◌, ◌==◌, [], ◌∷◌, some,
}
use bharatiya_beagle_bone.EcatCheck.{state_operational}
use bharatiya_beagle_bone.Startup.{
  Library, manufacturer_id, product_id, await_operational, no_socket, in_operation, start_up,
}
use bharatiya_beagle_bone.Startup.Retry.{check, LastCheck, await_operational_lem}
use bharatiya_beagle_bone.Startup.Outcomes.{Opens, start_up_closes}

-- Its state: whether the interface is open, and the checks so far.
abbrev slow_bus : Library
slow_bus = record {
  World = Bool × ℕ;
  init = λ w. (true, (true, 0));
  config_init = λ w. (some (record { eep_man = manufacturer_id; eep_id = product_id } ∷ []), w);
  config_map = λ hooks w. w;
  config_dc = λ w. w;
  state_check = λ wanted w. (if w.1 == 2 then state_operational else 4, (w.0, suc w.1));
  exchange = λ w. w;
  create_thread = λ w. w;
  write_state = λ s w. w;
  read_state = λ w. w;
  close = λ w. (false, w.1);
}

-- The same bus when it has no slave that answers.
abbrev empty_bus : Library
empty_bus = record slow_bus { state_check = λ wanted w. (0, w) }

await_operational_lem_example :
    (k : ℕ) × LastCheck slow_bus 40 (true, 0) k
    × (await_operational slow_bus 40 (true, 0) ≡ check slow_bus k (true, 0))
await_operational_lem_example = await_operational_lem slow_bus 40 (true, 0)

abbrev empty_bus_opens : Opens empty_bus
empty_bus_opens = record { is_open = λ w. w.0; closes = λ w. refl }

ends_on_empty_bus : (start_up empty_bus (false, 0)).0 ≢ in_operation
unfolding start_up
ends_on_empty_bus e = ground (arith, e)

start_up_closes_example :
    ((empty_bus.init (false, 0)).0 ≡ true
      → empty_bus_opens.is_open (start_up empty_bus (false, 0)).1 ≡ false)
    × ((empty_bus.init (false, 0)).0 ≡ false
        → ((start_up empty_bus (false, 0)).0 ≡ no_socket)
          × ((start_up empty_bus (false, 0)).1 ≡ (empty_bus.init (false, 0)).1))
start_up_closes_example = start_up_closes empty_bus empty_bus_opens (false, 0) ends_on_empty_bus
