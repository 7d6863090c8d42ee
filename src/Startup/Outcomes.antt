-- ===== src/Startup/Outcomes.antt =====
-- What `simpletest` leaves behind.
use bharatiya_beagle_bone.Common.{
  ◌≡◌, ◌≢◌, refl, arith, Bool, true, false, List, Option, none, some,
}
use bharatiya_beagle_bone.Startup.{
  Library, Outcome, Identity, no_socket, no_slaves, not_operational, in_operation, leave, bring_up,
  start_up,
}

-- What tells whether the interface is open, and that closing it closes it.
pub record Opens (lib : Library) : Type 0 where
  pub is_open : lib.World → Bool
  pub closes : (w : lib.World) → is_open (lib.close w) ≡ false

module _ (lib : Library) (opens : Opens lib) where
  open lib use {World}

  leave_closes :
      (o : Outcome) (w : World) → o ≢ in_operation → opens.is_open (leave lib o w) ≡ false
  leave_closes in_operation w ends = absurd (ends refl)
  leave_closes no_socket w ends = opens.closes w
  leave_closes no_slaves w ends = opens.closes w
  leave_closes not_operational w ends = opens.closes w

  bring_up_closes :
      (slaves : Option (List Identity)) (w : World)
      → (bring_up lib slaves w).0 ≢ in_operation
      → opens.is_open (bring_up lib slaves w).1 ≡ false
  unfolding bring_up
  bring_up_closes none w ends = opens.closes w
  bring_up_closes (some slaves) w ends = leave_closes _ _ ends

  -- When `simpletest` ends behind a successful `ec_init` without having reached its loop, it leaves the
  -- interface closed. When `ec_init` fails it calls nothing more: the interface stays as that call
  -- has left it.
  pub start_up_closes :
      (w : World)
      → (start_up lib w).0 ≢ in_operation
      → ((lib.init w).0 ≡ true → opens.is_open (start_up lib w).1 ≡ false)
        × ((lib.init w).0 ≡ false
            → ((start_up lib w).0 ≡ no_socket) × ((start_up lib w).1 ≡ (lib.init w).1))
  unfolding start_up
  start_up_closes w ends =
      let (slaves, w2) = lib.config_init (lib.init w).1 in
      let after = bring_up_closes slaves w2 in
      (λ opened. ground (arith, after, opened, ends), λ failed. rw failed (refl, refl))
