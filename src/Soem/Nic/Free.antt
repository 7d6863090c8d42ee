-- ===== src/Soem/Nic/Free.antt =====
-- Free buffers: the steps on one socket that leave the buffers beside a call's own free.
use bharatiya_beagle_bone.Common.{
  ℕ, ◌≡◌, ◌≢◌, ◌⊎◌, inl, inr, arith, Bool, true, false, get_or, get_or-set,
}
use bharatiya_beagle_bone.Soem.Nic.{
  buf_empty, buf_rcvd, buf_complete, Stack, Port, with_stack, stack_of, set_stat,
}
use bharatiya_beagle_bone.Soem.Nic.Receive.{file_answer, sort_frame}

-- Every buffer of a socket but one is free.
abbrev pub StackFree : ℕ → Stack → Type 0
StackFree idx s = (j : ℕ) → j ≢ idx → get_or s.rxbufstat j 0 ≡ buf_empty

-- The same of both sockets; without redundancy there is no secondary one.
pub record OthersFree (idx : ℕ) (p : Port) : Type 0 where
  pub on_primary : StackFree idx p.primary
  pub on_secondary : (p.redundant ≡ false) ⊎ StackFree idx p.secondary

pub set_stat-StackFree :
    (idx v : ℕ) (s : Stack) → StackFree idx s → StackFree idx (set_stat idx v s)
set_stat-StackFree idx v s free j differ = ground (arith, get_or-set s.rxbufstat idx j v 0, free j)

-- An answer for another buffer is dropped, since none of them has a frame on its way.
pub sort_frame-StackFree :
    (len : ℕ → ℕ) (idx : ℕ) (s : Stack) → StackFree idx s → StackFree idx (sort_frame len idx s).1
unfolding sort_frame file_answer
sort_frame-StackFree len idx s free j differ =
    let idxf : ℕ = get_or s.tempbuf 17 0 in
    ground (
      arith,
      free j,
      free idxf,
      get_or-set s.rxbufstat idx j buf_complete 0,
      get_or-set s.rxbufstat idxf j buf_rcvd 0,
    )

on_right : {A B C : Type 0} → (B → C) → A ⊎ B → A ⊎ C
on_right f (inl a) = inl a
on_right f (inr b) = inr (f b)

pub with_stack-OthersFree :
    (idx : ℕ) (second : Bool) (f : Stack → Stack) (p : Port)
    → (StackFree idx (stack_of second p) → StackFree idx (f (stack_of second p)))
    → OthersFree idx p
    → OthersFree idx (with_stack second f p)
with_stack-OthersFree idx true f p keeps free = record {
  on_primary = free.on_primary;
  on_secondary = on_right keeps free.on_secondary;
}
with_stack-OthersFree idx false f p keeps free = record {
  on_primary = keeps free.on_primary;
  on_secondary = free.on_secondary;
}
