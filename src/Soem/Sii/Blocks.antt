-- ===== src/Soem/Sii/Blocks.antt =====
-- The blocks of the cache: what `store_bytes` flags, and what it copies.
use bharatiya_beagle_bone.Common.{
  ℕ, zero, suc, ◌+◌, ◌-◌, ◌*◌, ◌/◌, ◌≡◌, ◌⊎◌, inl, inr, ◌≤◌, ◌<◌, refl, ap, sym, ◌∙◌, arith, Bool,
  true, false, ltb, if◌then◌else◌, List, length, get_or, set, memcpy, bytes_at, length-set,
  length-bytes_at, get_or-set, memcpy_before, memcpy_after, memcpy_inside, get_or-bytes_at,
}
use bharatiya_beagle_bone.Soem.Sii.{flag, mark}

-- The flags that the loop sets, from the byte of `mapw` and `mapb` on.
mark-set :
    (cnt mapw mapb : ℕ) (map : List Bool) (j : ℕ)
    → mapb < 32
    → get_or (mark cnt mapw mapb map) j false ≡ true
    → (get_or map j false ≡ true) ⊎ ((flag mapw mapb ≤ j) × (j < flag mapw mapb + cnt))
unfolding mark
mark-set zero mapw mapb map j lt e = inl e
mark-set (suc cnt) mapw mapb map j lt e = ground (
  arith,
  mark-set cnt (if ltb 31 (mapb + 1) then mapw + 1 else mapw)
      (if ltb 31 (mapb + 1) then 0 else mapb + 1) (set map (flag mapw mapb) true) j,
  get_or-set map (flag mapw mapb) j true false,
)

pub length-mark :
    (cnt mapw mapb : ℕ) (map : List Bool) → length (mark cnt mapw mapb map) ≡ length map
unfolding mark
length-mark zero mapw mapb map = refl
length-mark (suc cnt) mapw mapb map =
    length-mark cnt (if ltb 31 (mapb + 1) then mapw + 1 else mapw)
      (if ltb 31 (mapb + 1) then 0 else mapb + 1) (set map (flag mapw mapb) true)
    ∙ length-set map (flag mapw mapb) true

module _ (rom : ℕ → ℕ) where
  -- A byte of a block that has been read.
  pub new_byte :
      (cnt start : ℕ) (edat buf : List ℕ) (i j : ℕ)
      → ((i : ℕ) → i < cnt → get_or edat i 0 ≡ rom (start + i))
      → start + cnt ≤ length buf
      → j ≡ start + i
      → i < cnt
      → get_or (memcpy buf start (bytes_at edat 0 cnt)) j 0 ≡ rom j
  new_byte cnt start edat buf i j reads fits e lt =
      let size = length-bytes_at edat 0 cnt in
      memcpy_inside buf start (bytes_at edat 0 cnt) i j e (omega arith) (omega arith)
      ∙ get_or-bytes_at edat 0 cnt i lt
      ∙ ap (λ k. get_or edat k 0) (omega arith)
      ∙ reads i lt
      ∙ ap rom (sym e)

  -- A block of the EEPROM in the buffer, and its bytes flagged.
  pub stored :
      (cnt eadr : ℕ) (edat buf : List ℕ) (map : List Bool) (j : ℕ)
      → ((i : ℕ) → i < cnt → get_or edat i 0 ≡ rom (eadr * 2 + i))
      → ((i : ℕ) → get_or map i false ≡ true → get_or buf i 0 ≡ rom i)
      → eadr * 2 + cnt ≤ length buf
      → get_or (mark cnt (eadr / 16) (eadr * 2 - 32 * (eadr / 16)) map) j false ≡ true
      → get_or (memcpy buf (eadr * 2) (bytes_at edat 0 cnt)) j 0 ≡ rom j
  stored cnt eadr edat buf map j reads old fits flagged =
      let size = length-bytes_at edat 0 cnt in
      elim (position (eadr * 2) j cnt) [
        | inl outside ↦ ground (
          arith,
          mark-set cnt (eadr / 16) (eadr * 2 - 32 * (eadr / 16)) map j (omega arith) flagged,
          old j,
          size,
          memcpy_before buf (eadr * 2) (bytes_at edat 0 cnt) j,
          memcpy_after buf (eadr * 2) (bytes_at edat 0 cnt) j,
        )
        | inr inside ↦
            new_byte cnt (eadr * 2) edat buf (j - eadr * 2) j reads fits (omega arith) (omega arith)
      ]
    where
      position :
          (start j cnt : ℕ) → ((j < start) ⊎ (start + cnt ≤ j)) ⊎ ((start ≤ j) × (j < start + cnt))
      position start j cnt = ground arith
