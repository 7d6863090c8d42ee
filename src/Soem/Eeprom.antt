-- ===== src/Soem/Eeprom.antt =====
-- soem/ethercatmain.c: reading and writing the EEPROM of a slave through its registers. The
-- functions exist twice in the source, for the position and for the configured address of the
-- slave; here they are one, over the primitive that each pair uses.
pub mod Waiting
mod Tests
use bharatiya_beagle_bone.Common.{
  ℕ, ◌+◌, ◌*◌, Bool, true, false, ltb, ◌==◌, ◌&&◌, ◌||◌, not, if◌then◌else◌, List, [], ◌∷◌, ◌++◌,
  bit_and, replicate, Run, do_while,
}
use bharatiya_beagle_bone.Common.Int.{ℤ, pos, negsuc}
use bharatiya_beagle_bone.Soem.Frame.{word_at, word_bytes}
use bharatiya_beagle_bone.Soem.Nic.{Wire, Net, ec_timeoutret}
use bharatiya_beagle_bone.Soem.Base.{positive, ecx_aprd, ecx_apwr, ecx_fprd, ecx_fpwr}
use bharatiya_beagle_bone.Soem.Registers.{
  reg_eepctl, reg_eepstat, reg_eepdat, ecmd_nop, ecmd_read, ecmd_write, estat_r64, estat_busy,
  estat_emask, estat_nack, ec_timeoutret3, ec_timeouteep, ec_localdelay, ec_defaultretries,
}

-- `estat & mask` as a test
abbrev pub has_bits : ℕ → ℕ → Bool
has_bits mask w = not (bit_and w mask == 0)

-- `if (wkc)`
abbrev pub nonzero : ℤ → Bool
nonzero (pos n) = not (n == 0)
nonzero (negsuc n) = true

-- ec_eepromt: the command, the address and a word of zeros.
abbrev pub eeprom_command : ℕ → ℕ → List ℕ
eeprom_command command eeproma = word_bytes command ++ word_bytes eeproma ++ word_bytes 0

-- The primitives of one way to address a slave.
pub record Access (W : Type 0) : Type 0 where
  pub reads : ℕ → ℕ → ℕ → List ℕ → ℕ → Run (Net W) (ℤ × List ℕ)
  pub writes : ℕ → ℕ → ℕ → List ℕ → ℕ → Run (Net W) ℤ

-- What a pass of the wait has found: whether it is the first, the working counter and the status.
pub record Waited : Type 0 where
  pub count : ℕ
  pub wkc : ℤ
  pub estat : ℕ

-- What the passes of a read have found: the refusals in a row, and the eight bytes.
pub record Reading : Type 0 where
  pub nackcnt : ℕ
  pub edat64 : List ℕ
  pub edat32 : List ℕ

-- What the passes of a write have found: the refusals in a row, and the result.
pub record Writing : Type 0 where
  pub nackcnt : ℕ
  pub rval : ℕ

-- `(nackcnt > 0) && (nackcnt < 3)`
abbrev pub refused : ℕ → Bool
refused nackcnt = ltb 0 nackcnt && ltb nackcnt 3

module _ {W : Type 0} (wire : Wire W) where
  abbrev pub by_position : Access W
  by_position = record { reads = ecx_aprd wire; writes = ecx_apwr wire }

  abbrev pub by_address : Access W
  by_address = record { reads = ecx_fprd wire; writes = ecx_fpwr wire }

  abbrev pub sleep : ℕ → Net W → Net W
  sleep us n = record n { world = wire.usleep us n.world }

module _ {W : Type 0} (wire : Wire W) (access : Access W) (adr : ℕ) where
  -- One pass of the loop of `ecx_eeprom_waitnotbusy`.
  unfoldable pub poll_status : Waited → Run (Net W) Waited
  poll_status w n =
      let n1 = if ltb 0 w.count then sleep wire ec_localdelay n else n in
      let (answer, n2) = access.reads adr reg_eepstat 2 (0 ∷ 0 ∷ []) ec_timeoutret n1 in
      (record { count = w.count + 1; wkc = answer.0; estat = word_at answer.1 0 }, n2)

  abbrev pub still_busy : Waited → Bool
  still_busy w = not (positive w.wkc) || has_bits estat_busy w.estat

  -- `ecx_eeprom_waitnotbusyAP` and `…FP`: the result, and the status.
  unfoldable pub waitnotbusy : ℕ → Run (Net W) (Bool × ℕ)
  unfolding poll_status
  waitnotbusy timeout n =
      let start : Waited = record { count = 0; wkc = pos 0; estat = 0 } in
      let (w, n1) = do_while still_busy poll_status (wire.polls timeout n.world) start n in
      ((not (has_bits estat_busy w.estat), w.estat), n1)

  -- A write, and up to three more until one is answered.
  unfoldable pub write_retrying : ℕ → ℕ → List ℕ → Run (Net W) ℤ
  write_retrying ado n bytes =
      do_while (λ wkc. not (positive wkc)) (λ _. access.writes adr ado n bytes ec_timeoutret)
        ec_defaultretries (pos 0)

  -- The same for a read, into a buffer.
  unfoldable pub read_retrying : ℕ → ℕ → List ℕ → Run (Net W) (ℤ × List ℕ)
  read_retrying ado n bytes =
      do_while (λ (r : ℤ × List ℕ). not (positive r.0))
        (λ (r : ℤ × List ℕ). access.reads adr ado n r.1 ec_timeoutret) ec_defaultretries
        (pos 0, bytes)

  -- The error bits are cleared by the command that does nothing.
  unfoldable pub clear_errors : ℕ → Net W → Net W
  clear_errors estat n =
      if has_bits estat_emask estat
      then (access.writes adr reg_eepctl 2 (word_bytes ecmd_nop) ec_timeoutret3 n).1
      else n

  -- The data, once the EEPROM is no longer busy.
  unfoldable pub fetch : ℕ → Reading → Run (Net W) Reading
  unfolding read_retrying
  fetch estat r n =
      let (wide, n8) = read_retrying reg_eepdat 8 r.edat64 n in
      let (narrow, n4) = read_retrying reg_eepdat 4 r.edat32 n in
      if has_bits estat_nack estat
      then (record r { nackcnt = r.nackcnt + 1 }, sleep wire (ec_localdelay * 5) n)
      else if has_bits estat_r64 estat
      then (record r { nackcnt = 0; edat64 = wide.1 }, n8)
      else (record { nackcnt = 0; edat64 = narrow.1 ++ replicate 4 0; edat32 = narrow.1 }, n4)

  -- One pass of the loop of `ecx_readeeprom`.
  unfoldable pub read_pass : ℕ → ℕ → Reading → Run (Net W) Reading
  unfolding write_retrying waitnotbusy fetch
  read_pass eeproma timeout r n =
      let (wkc, n1) = write_retrying reg_eepctl 6 (eeprom_command ecmd_read eeproma) n in
      let (ready, n2) = waitnotbusy timeout (sleep wire ec_localdelay n1) in
      let read = fetch ready.1 r n2 in
      if nonzero wkc then (if ready.0 then read else (r, n2)) else (r, n1)

  -- `ecx_readeepromAP` and `…FP`: the eight bytes of the result, low byte first. `passes` bounds
  -- the passes of the loop, which has no bound of its own.
  unfoldable pub readeeprom_with : ℕ → ℕ → ℕ → Run (Net W) (List ℕ)
  unfolding waitnotbusy clear_errors read_pass
  readeeprom_with passes eeproma timeout n =
      let (ready, n1) = waitnotbusy timeout n in
      let start : Reading = record {
        nackcnt = 0;
        edat64 = replicate 8 0;
        edat32 = replicate 4 0;
      } in
      let (r, n2) =
        do_while (λ (r : Reading). refused r.nackcnt) (read_pass eeproma timeout) passes start
          (clear_errors ready.1 n1) in
      if ready.0 then (r.edat64, n2) else (replicate 8 0, n1)

  -- One pass of the loop of `ecx_writeeeprom`.
  unfoldable pub write_pass : ℕ → ℕ → ℕ → Writing → Run (Net W) Writing
  unfolding write_retrying waitnotbusy
  write_pass eeproma word timeout r n =
      let (_, n1) = write_retrying reg_eepdat 2 (word_bytes word) n in
      let (wkc, n2) = write_retrying reg_eepctl 6 (eeprom_command ecmd_write eeproma) n1 in
      let (ready, n3) = waitnotbusy timeout (sleep wire (ec_localdelay * 2) n2) in
      let done =
        if has_bits estat_nack ready.1
        then (record r { nackcnt = r.nackcnt + 1 }, sleep wire (ec_localdelay * 5) n3)
        else (record { nackcnt = 0; rval = 1 }, n3) in
      if nonzero wkc then (if ready.0 then done else (r, n3)) else (r, n2)

  -- `ecx_writeeepromAP` and `…FP`
  unfoldable pub writeeeprom_with : ℕ → ℕ → ℕ → ℕ → Run (Net W) ℕ
  unfolding waitnotbusy clear_errors write_pass
  writeeeprom_with passes eeproma word timeout n =
      let (ready, n1) = waitnotbusy timeout n in
      let start : Writing = record { nackcnt = 0; rval = 0 } in
      let (r, n2) =
        do_while (λ (r : Writing). refused r.nackcnt) (write_pass eeproma word timeout) passes start
          (clear_errors ready.1 n1) in
      if ready.0 then (r.rval, n2) else (0, n1)

module _ {W : Type 0} (wire : Wire W) where
  -- `ecx_readeeprom1`, the first half of a read that does not wait, for a slave whose EEPROM the
  -- master holds.
  unfoldable pub readeeprom1_at : ℕ → ℕ → Net W → Net W
  unfolding waitnotbusy clear_errors write_retrying
  readeeprom1_at adr eeproma n =
      let (ready, n1) = waitnotbusy wire (by_address wire) adr ec_timeouteep n in
      let n2 = clear_errors wire (by_address wire) adr ready.1 n1 in
      if ready.0
      then (write_retrying wire (by_address wire) adr reg_eepctl 6
          (eeprom_command ecmd_read eeproma) n2).1
      else n1

  -- `ecx_readeeprom2`, the second half: the four bytes of the result.
  unfoldable pub readeeprom2_at : ℕ → ℕ → Run (Net W) (List ℕ)
  unfolding waitnotbusy read_retrying
  readeeprom2_at adr timeout n =
      let (ready, n1) = waitnotbusy wire (by_address wire) adr timeout n in
      let (r, n2) = read_retrying wire (by_address wire) adr reg_eepdat 4 (replicate 4 0) n1 in
      if ready.0 then (r.1, n2) else (replicate 4 0, n1)

  -- The functions of both names, as the source has them.
  unfoldable pub waitnotbusy_ap : ℕ → ℕ → Run (Net W) (Bool × ℕ)
  unfolding waitnotbusy
  waitnotbusy_ap aiadr timeout = waitnotbusy wire (by_position wire) aiadr timeout

  unfoldable pub waitnotbusy_fp : ℕ → ℕ → Run (Net W) (Bool × ℕ)
  unfolding waitnotbusy
  waitnotbusy_fp configadr timeout = waitnotbusy wire (by_address wire) configadr timeout

  unfoldable pub readeeprom_ap : ℕ → ℕ → ℕ → ℕ → Run (Net W) (List ℕ)
  unfolding readeeprom_with
  readeeprom_ap passes aiadr eeproma timeout =
      readeeprom_with wire (by_position wire) aiadr passes eeproma timeout

  unfoldable pub writeeeprom_ap : ℕ → ℕ → ℕ → ℕ → ℕ → Run (Net W) ℕ
  unfolding writeeeprom_with
  writeeeprom_ap passes aiadr eeproma word timeout =
      writeeeprom_with wire (by_position wire) aiadr passes eeproma word timeout

  unfoldable pub writeeeprom_fp : ℕ → ℕ → ℕ → ℕ → ℕ → Run (Net W) ℕ
  unfolding writeeeprom_with
  writeeeprom_fp passes configadr eeproma word timeout =
      writeeeprom_with wire (by_address wire) configadr passes eeproma word timeout
