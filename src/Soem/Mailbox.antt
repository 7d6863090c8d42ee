-- ===== src/Soem/Mailbox.antt =====
-- soem/ethercatmain.c: the mailbox of a slave. The hook for Ethernet over EtherCAT is a parameter.
pub mod Receive
pub mod Counter
pub mod Timed
mod Tests
use bharatiya_beagle_bone.Common.{
  ℕ, zero, suc, ◌+◌, ◌-◌, ◌/◌, Bool, true, false, Option, none, some, ltb, leb, ◌==◌, ◌&&◌, ◌||◌,
  not, if◌then◌else◌, List, [], ◌∷◌, get_or, replicate, u8, bit_and, Run, do_while,
}
use bharatiya_beagle_bone.Common.Int.{ℤ, pos}
use bharatiya_beagle_bone.Soem.Frame.{word_at, word_bytes}
use bharatiya_beagle_bone.Soem.Nic.{Wire, ec_timeoutret}
use bharatiya_beagle_bone.Soem.Base.{positive, ecx_fprd, ecx_fpwr}
use bharatiya_beagle_bone.Soem.Registers.{reg_sm0stat, ec_timeoutret3, ec_localdelay}
use bharatiya_beagle_bone.Soem.Eeprom.{has_bits, sleep}
use bharatiya_beagle_bone.Soem.Slaves.{Slave, Context, slave_of, on_net}

abbrev pub ec_maxmbx : ℕ
ec_maxmbx = 1486

-- The flag of a full mailbox in the status of its sync manager
abbrev pub mailbox_full : ℕ
mailbox_full = 0x08

-- `ec_nextmbxcnt`
unfoldable pub nextmbxcnt : ℕ → ℕ
nextmbxcnt cnt = let next : ℕ = u8 (cnt + 1) in if ltb 7 next then 1 else next

-- `ec_clearmbx`: all but the last byte of the buffer.
unfoldable pub clearmbx : List ℕ → List ℕ
clearmbx mbx = go ec_maxmbx mbx
  where
    go : ℕ → List ℕ → List ℕ
    go zero xs = xs
    go (suc n) [] = []
    go (suc n) (x ∷ xs) = 0 ∷ go n xs

-- The mailbox sizes that are served.
abbrev pub has_mailbox : ℕ → Bool
has_mailbox mbxl = ltb 0 mbxl && leb mbxl ec_maxmbx

module _ {W : Type 0} (wire : Wire W) where
  -- `osal_usleep(EC_LOCALDELAY)`, in a function that was given more time than that.
  abbrev pub pause : ℕ → Context W → Context W
  pause timeout c =
      if ltb ec_localdelay timeout then record c { net = sleep wire ec_localdelay c.net } else c

  -- A poll of the mailbox that the master writes: the working counter and the status.
  unfoldable pub poll_empty : ℕ → ℕ → ℤ × ℕ → Run (Context W) (ℤ × ℕ)
  unfolding ecx_fprd
  poll_empty configadr timeout _ c =
      let (answer, c1) =
        on_net wire (ecx_fprd wire configadr reg_sm0stat 1 (0 ∷ []) ec_timeoutret) c in
      let smstat = get_or answer.1 0 0 in
      ((answer.0, smstat), if has_bits mailbox_full smstat then pause timeout c1 else c1)

  abbrev pub not_empty : ℤ × ℕ → Bool
  not_empty r = not (positive r.0) || has_bits mailbox_full r.1

  -- `ecx_mbxempty`
  unfoldable pub mbxempty : ℕ → ℕ → Run (Context W) Bool
  unfolding poll_empty
  mbxempty slave timeout c =
      let configadr = (slave_of wire c slave).configadr in
      let (r, c1) =
        do_while not_empty (poll_empty configadr timeout) (wire.polls timeout c.net.world)
          (pos 0, 0) c in
      (positive r.0 && not (has_bits mailbox_full r.1), c1)

  -- `ecx_mbxsend`
  unfoldable pub mbxsend : ℕ → List ℕ → ℕ → Run (Context W) ℤ
  unfolding mbxempty ecx_fpwr
  mbxsend slave mbx timeout c =
      let s = slave_of wire c slave in
      let (empty, c1) = mbxempty slave timeout c in
      let sent = on_net wire (ecx_fpwr wire s.configadr s.mbx_wo s.mbx_l mbx ec_timeoutret3) c1 in
      if has_mailbox s.mbx_l then (if empty then sent else (pos 0, c1)) else (pos 0, c)
