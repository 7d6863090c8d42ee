-- ===== src/Soem/ProcessData/Segments.antt =====
-- One segment of the outputs: the frame that it goes out in, and what is left.
use bharatiya_beagle_bone.Common.{ℕ, ◌≡◌, ◌<◌, length, get_or}
use bharatiya_beagle_bone.Soem.Frame.{Frame}
use bharatiya_beagle_bone.Soem.Nic.{buf_empty, frame_of}
use bharatiya_beagle_bone.Soem.Slaves.{Context}

-- A port with buffers of their size, of which buffer i is free, and room on the stack.
pub record Ready {W : Type 0} (c : Context W) (i : ℕ) : Type 0 where
  pub inside : i < 16
  pub free : get_or c.net.port.primary.rxbufstat i 0 ≡ buf_empty
  pub last : c.net.port.lastidx < 16
  pub frames : length c.net.port.txframes ≡ 16
  pub buffers : (j : ℕ) → j < 16 → length (frame_of c.net.port j).bytes ≡ 1518
  pub room : c.idxstack.pushed < 16
  pub stack_idx : length c.idxstack.idx ≡ 16
  pub stack_places : length c.idxstack.places ≡ 16
  pub stack_lengths : length c.idxstack.lengths ≡ 16
