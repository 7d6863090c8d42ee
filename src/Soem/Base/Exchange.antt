-- ===== src/Soem/Base/Exchange.antt =====
-- No primitive keeps a frame buffer: the pool of a port is whole again behind each of them.
use native.Mathlib.Decide.{ℕ_discrete}
use bharatiya_beagle_bone.Common.{
  ℕ, ◌≡◌, ◌⊎◌, inl, inr, refl, arith, Bool, true, false, if◌then◌else◌, List, get_or, get_or-set,
  get_or_behind,
}
use bharatiya_beagle_bone.Soem.Frame.{Cmd, Frame, lrw, setup_datagram}
use bharatiya_beagle_bone.Soem.Nic.{
  Wire, Stack, Port, Net, buf_empty, buf_alloc, set_stat, with_stack, frame_of, getindex,
  setbufstat,
}
use bharatiya_beagle_bone.Soem.Nic.Receive.{srconfirm}
use bharatiya_beagle_bone.Soem.Nic.Free.{StackFree, OthersFree}
use bharatiya_beagle_bone.Soem.Nic.Owned.{srconfirm-OthersFree}
use bharatiya_beagle_bone.Soem.Base.{
  lo_word, hi_word, put_frame, prepare, confirm, exchange, ecx_lrwdc,
}

abbrev pub AllOf : Stack → Type 0
AllOf s = (j : ℕ) → get_or s.rxbufstat j 0 ≡ buf_empty

-- Every buffer is free, of both sockets where there are two.
pub record AllFree (p : Port) : Type 0 where
  pub primary_free : AllOf p.primary
  pub secondary_free : (p.redundant ≡ false) ⊎ AllOf p.secondary

released : (idx : ℕ) (s : Stack) → StackFree idx s → AllOf (set_stat idx buf_empty s)
released idx s free j = elim (ℕ_discrete j idx) [
  | yes same ↦
      ground (arith, get_or-set s.rxbufstat idx j buf_empty 0, get_or_behind s.rxbufstat j 0)
  | no differ ↦ ground (arith, get_or-set s.rxbufstat idx j buf_empty 0, free j differ)
]

taken : (idx v : ℕ) (s : Stack) → AllOf s → StackFree idx (set_stat idx v s)
taken idx v s free j differ = ground (arith, get_or-set s.rxbufstat idx j v 0, free j)

-- A change of the secondary socket's stack, where there is one.
where_redundant :
    (b : Bool) (f : Stack → Stack) (p : Port)
    → (if b then with_stack true f p else p)
      ≡ record p { secondary = if b then f p.secondary else p.secondary }
where_redundant true f p = refl
where_redundant false f p = refl

secondary_released :
    (idx : ℕ) (b : Bool) (s : Stack)
    → (b ≡ false) ⊎ StackFree idx s
    → (b ≡ false) ⊎ AllOf (if b then set_stat idx buf_empty s else s)
secondary_released idx true s (inl e) = inl e
secondary_released idx true s (inr free) = inr (released idx s free)
secondary_released idx false s free = inl refl

secondary_taken :
    (idx v : ℕ) (b : Bool) (s : Stack)
    → (b ≡ false) ⊎ AllOf s
    → (b ≡ false) ⊎ StackFree idx (if b then set_stat idx v s else s)
secondary_taken idx v true s (inl e) = inl e
secondary_taken idx v true s (inr free) = inr (taken idx v s free)
secondary_taken idx v false s free = inl refl

setbufstat-AllFree : (idx : ℕ) (p : Port) → OthersFree idx p → AllFree (setbufstat idx buf_empty p)
unfolding setbufstat
setbufstat-AllFree idx p free =
    rw
      (where_redundant p.redundant (set_stat idx buf_empty)
        (with_stack false (set_stat idx buf_empty) p))
      (record {
        primary_free = released idx p.primary free.on_primary;
        secondary_free = secondary_released idx p.redundant p.secondary free.on_secondary;
      })

setbufstat-OthersFree : (idx v : ℕ) (p : Port) → AllFree p → OthersFree idx (setbufstat idx v p)
unfolding setbufstat
setbufstat-OthersFree idx v p free =
    rw (where_redundant p.redundant (set_stat idx v) (with_stack false (set_stat idx v) p))
      (record {
        on_primary = taken idx v p.primary free.primary_free;
        on_secondary = secondary_taken idx v p.redundant p.secondary free.secondary_free;
      })

same_stacks :
    (idx idx' last : ℕ) (f : Frame) (p : Port)
    → OthersFree idx p
    → OthersFree idx (put_frame idx' f (record p { lastidx = last }))
unfolding put_frame
same_stacks idx idx' last f p free = record {
  on_primary = free.on_primary;
  on_secondary = free.on_secondary;
}

module _ {W : Type 0} (wire : Wire W) where
  prepare-OthersFree :
      (cmd : Cmd) (adp ado n : ℕ) (bytes : List ℕ) (net : Net W)
      → AllFree net.port
      → OthersFree
          (prepare wire cmd adp ado n bytes net).0
          (prepare wire cmd adp ado n bytes net).1.port
  unfolding prepare getindex
  prepare-OthersFree cmd adp ado n bytes net free =
      let idx : ℕ = (getindex net.port).0 in
      same_stacks idx idx idx
        (setup_datagram cmd idx adp ado n bytes (frame_of (getindex net.port).1 idx))
        (setbufstat idx buf_alloc net.port) (setbufstat-OthersFree idx buf_alloc net.port free)

  confirm-AllFree :
      (idx timeout : ℕ) (net : Net W)
      → OthersFree idx net.port
      → AllFree (confirm wire idx timeout net).1.port
  unfolding confirm
  confirm-AllFree idx timeout net free =
      setbufstat-AllFree idx (srconfirm wire idx timeout net).1.port
        (srconfirm-OthersFree wire idx timeout net free)

  -- When all buffers of the port are free, they are so again behind the exchange that every
  -- primitive of one datagram makes, whatever the network answers: none is leaked, with redundancy
  -- or without.
  pub exchange-AllFree :
      (cmd : Cmd) (adp ado n : ℕ) (bytes : List ℕ) (timeout : ℕ) (net : Net W)
      → AllFree net.port
      → AllFree (exchange wire cmd adp ado n bytes timeout net).1.port
  unfolding exchange
  exchange-AllFree cmd adp ado n bytes timeout net free =
      let prepared = prepare wire cmd adp ado n bytes net in
      confirm-AllFree prepared.0 timeout prepared.1
        (prepare-OthersFree cmd adp ado n bytes net free)

  -- When all buffers of the port are free, they are so again behind `ecx_LRWDC`, the exchange of process
  -- data together with the clock of the slaves in one frame, whatever the network answers.
  pub ecx_lrwdc-AllFree :
      (pointer_size logadr n : ℕ) (bytes : List ℕ) (dcrs : ℕ) (dctime : List ℕ) (timeout : ℕ)
      (net : Net W)
      → AllFree net.port
      → AllFree (ecx_lrwdc wire pointer_size logadr n bytes dcrs dctime timeout net).1.port
  unfolding ecx_lrwdc put_frame
  ecx_lrwdc-AllFree pointer_size logadr n bytes dcrs dctime timeout net free =
      let prepared = prepare wire lrw (lo_word logadr) (hi_word logadr) n bytes net in
      let kept = prepare-OthersFree lrw (lo_word logadr) (hi_word logadr) n bytes net free in
      confirm-AllFree prepared.0 timeout _
        (record { on_primary = kept.on_primary; on_secondary = kept.on_secondary })
