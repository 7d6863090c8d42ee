-- ===== src/Soem/Mailbox/Counter.antt =====
-- The counter of the messages to a slave.
use bharatiya_beagle_bone.Common.{ℕ, ◌+◌, ◌%◌, ◌≡◌, ◌≢◌, ◌≤◌, ◌<◌, arith}
use bharatiya_beagle_bone.Soem.Mailbox.{nextmbxcnt}

-- From a count of 0 to 7 the next one is 1 to 7, so never the 0 of a message without a count. It
-- differs from the one before, and modulo 7 it counts on by one.
pub nextmbxcnt_lem :
    (cnt : ℕ)
    → cnt < 8
    → (1 ≤ nextmbxcnt cnt)
      × (nextmbxcnt cnt ≤ 7)
      × (nextmbxcnt cnt ≢ cnt)
      × (nextmbxcnt cnt % 7 ≡ (cnt + 1) % 7)
unfolding nextmbxcnt
nextmbxcnt_lem cnt lt = (ground arith, ground arith, ground arith, ground arith)
