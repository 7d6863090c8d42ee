-- ===== src/Soem/Nic/Tests.antt =====
-- The buffers of a port of which some are in use.
use bharatiya_beagle_bone.Common.{◌≡◌, ◌<◌, refl, arith, [], ◌∷◌, get_or, set}
use bharatiya_beagle_bone.Soem.Nic.{Stack, Port, buf_empty, buf_alloc, getindex}
use bharatiya_beagle_bone.Soem.Nic.Receive.{sort_frame}
use bharatiya_beagle_bone.Soem.Nic.Index.{getindex_lem}
use bharatiya_beagle_bone.Soem.Nic.Filing.{sort_frame-kept}
use bharatiya_beagle_bone.Soem.Samples.{free_port, free_stack}

abbrev busy_stack : Stack
busy_stack = record free_stack {
  rxbufstat = 0 ∷ 2 ∷ 1 ∷ 0 ∷ 0 ∷ 0 ∷ 0 ∷ 0 ∷ 0 ∷ 0 ∷ 0 ∷ 0 ∷ 0 ∷ 0 ∷ 0 ∷ 0 ∷ [];
}

abbrev busy_port : Port
busy_port = record free_port { primary = busy_stack }

getindex_lem_example :
    let r = getindex busy_port in
    (r.0 < 16)
    × (get_or busy_stack.rxbufstat r.0 0 ≡ buf_empty)
    × (r.1.primary.rxbufstat ≡ set busy_stack.rxbufstat r.0 buf_alloc)
    × (r.1.lastidx ≡ r.0)
getindex_lem_example = getindex_lem busy_port 0 (omega arith) (omega arith) refl

sort_frame-kept_example :
    (get_or (sort_frame (λ _. 16) 1 busy_stack).1.rxbuf 2 [] ≡ get_or busy_stack.rxbuf 2 [])
    × (get_or (sort_frame (λ _. 16) 1 busy_stack).1.rxbufstat 2 0 ≡ 1)
sort_frame-kept_example =
    sort_frame-kept (λ _. 16) 1 2 busy_stack (λ e. absurd (omega arith)) (λ e. absurd (omega arith))
