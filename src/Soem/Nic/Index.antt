-- ===== src/Soem/Nic/Index.antt =====
-- The search for a free buffer.
use bharatiya_beagle_bone.Common.{
  ℕ, zero, suc, ◌+◌, ◌-◌, ◌≡◌, ◌<◌, refl, arith, leb, if◌then◌else◌, List, get_or, set,
}
use bharatiya_beagle_bone.Soem.Nic.{
  ec_maxbuf, buf_empty, buf_alloc, Port, next_index, find_empty, setbufstat, getindex,
}

-- How far it is from a buffer to another, forwards.
abbrev steps_to : ℕ → ℕ → ℕ
steps_to idx i = if leb idx i then i - idx else i + 16 - idx

find_empty-free :
    (stat : List ℕ) (i idx left : ℕ)
    → i < 16
    → idx < 16
    → get_or stat i 0 ≡ buf_empty
    → steps_to idx i < left
    → (find_empty stat idx left < 16) × (get_or stat (find_empty stat idx left) 0 ≡ buf_empty)
unfolding find_empty next_index
find_empty-free stat i idx zero li lx free near = absurd (omega arith)
find_empty-free stat i idx (suc left) li lx free near =
    ground (arith, find_empty-free stat i (next_index idx) left li)

-- While one of the 16 buffers is free, the buffer that `ecx_getindex` gives is one of them and was
-- free. Its status becomes that of an allocated one, the others' stay, and the next search begins
-- behind it.
pub getindex_lem :
    (p : Port) (i : ℕ)
    → i < 16
    → p.lastidx < 16
    → get_or p.primary.rxbufstat i 0 ≡ buf_empty
    → let r = getindex p in
      (r.0 < 16)
      × (get_or p.primary.rxbufstat r.0 0 ≡ buf_empty)
      × (r.1.primary.rxbufstat ≡ set p.primary.rxbufstat r.0 buf_alloc)
      × (r.1.lastidx ≡ r.0)
unfolding getindex next_index setbufstat
getindex_lem p i li ll free =
    let found =
      find_empty-free p.primary.rxbufstat i (next_index p.lastidx) ec_maxbuf li (ground arith) free
        (ground arith) in
    (found.0, found.1, ground arith, refl)
