-- ===== src/Coe/Payload.antt =====
-- Byte sequences that are copied between memories, and the data of a reply of soes/esc_coe.c as the master
-- reads them.
use soes.Base.{
  ℕ, zero, suc, ◌+◌, ◌-◌, ◌*◌, ◌/◌, ◌%◌, ◌<◌, ◌≡◌, ◌⊎◌, u16, refl, ap, ◌∙◌, List, ◌++◌, ◌==◌,
  if◌then◌else◌, arith, leb,
}
use soes.Base.Memory.{Mem, load8, load16, store8, store16, store_low, bytes}
use soes.Slave.{blit}
use soes.Coe.{sdo_header}

pub bytes_congr :
    (f g : Mem) (i j n : ℕ) → ((k : ℕ) → k < n → f (i + k) ≡ g (j + k)) → bytes f i n ≡ bytes g j n
unfolding bytes load8
bytes_congr f g i j zero h = refl
bytes_congr f g i j (suc n) h =
    ground (arith, h 0, bytes_congr f g (i + 1) (j + 1) n (λ k l. ground (arith, h (k + 1))))

pub bytes-blit : (m src : Mem) (at n : ℕ) → bytes (blit m at n src) at n ≡ bytes src 0 n
unfolding blit
bytes-blit m src at n = bytes_congr (blit m at n src) src at 0 n (λ k l. ground arith)

-- The source is a part of another memory.
pub bytes_shift : (m : Mem) (at n : ℕ) → bytes (λ j. m (at + j)) 0 n ≡ bytes m at n
bytes_shift m at n = bytes_congr (λ j. m (at + j)) m 0 at n (λ k l. ground arith)

pub bytes_join : (m : Mem) (at n k : ℕ) → bytes m at n ++ bytes m (at + n) k ≡ bytes m at (n + k)
unfolding bytes
bytes_join m at zero k = ground arith
bytes_join m at (suc n) k =
    let q : bytes m (at + suc n) k ≡ bytes m (at + 1 + n) k =
      ap (λ i. bytes m i k) {y = at + 1 + n} (omega arith) in
    let r : bytes m at (suc n + k) ≡ bytes m at (suc (n + k)) =
      ap (bytes m at) {y = suc (n + k)} (omega arith) in
    ground (arith, q, r, bytes_join m (at + 1) n k)

-- The data of a segment at offset `base`.
abbrev pub segment_length : Mem → ℕ → ℕ
segment_length m base =
    if load16 m base == 10 then 7 - load8 m (base + 8) / 2 % 8 else load16 m base - 3

abbrev pub segment_data : Mem → ℕ → List ℕ
segment_data m base = bytes m (base + 9) (segment_length m base)

abbrev pub is_last : Mem → ℕ → ℕ
is_last m base = load8 m (base + 8) % 2

module _ (m src : Mem) (base index subindex : ℕ) where
  -- A segment that is not the last; `toggle` is the toggle bit.
  abbrev pub middle : (toggle n : ℕ) → Mem
  middle toggle n =
      blit (store16 (sdo_header base 10 3 toggle index subindex m) base (3 + n)) (base + 9) n src

  pub middle-data :
      (toggle n : ℕ)
      → (toggle ≡ 0) ⊎ (toggle ≡ 16)
      → n + 3 < 65536
      → 0 < n
      → (segment_data (middle toggle n) base ≡ bytes src 0 n) × (is_last (middle toggle n) base ≡ 0)
  unfolding sdo_header blit load8 load16 store8 store16 store_low
  middle-data toggle n t h p =
      let l : segment_length (middle toggle n) base ≡ n = ground arith in
      (ap (bytes (middle toggle n) (base + 9)) l ∙ bytes-blit _ src (base + 9) n, ground arith)

  -- A segment whose command and length have been replaced.
  abbrev sealed : (toggle command length n : ℕ) → Mem
  sealed toggle command length n =
      blit
        (store16 (store8 (sdo_header base 10 3 toggle index subindex m) (base + 8) command) base
          length)
        (base + 9) n src

  sealed_command :
      (toggle command length n : ℕ)
      → load8 (sealed toggle command length n) (base + 8) ≡ command % 256
  unfolding sdo_header blit load8 load16 store8 store16 store_low
  sealed_command toggle command length n = ground arith

  sealed_length :
      (toggle command length n : ℕ) → load16 (sealed toggle command length n) base ≡ length % 65536
  unfolding sdo_header blit load8 load16 store8 store16 store_low
  sealed_length toggle command length n = ground arith

  -- The last segment.
  abbrev pub final : (toggle n : ℕ) → Mem
  final toggle n =
      sealed toggle (toggle + 1 + (if leb 7 n then 0 else (7 - n) * 2))
        (if leb 7 n then u16 (3 + n) else 10) n

  final_size :
      (c l n toggle : ℕ)
      → (toggle ≡ 0) ⊎ (toggle ≡ 16)
      → n + 3 < 65536
      → c ≡ (toggle + 1 + (if leb 7 n then 0 else (7 - n) * 2)) % 256
      → l ≡ (if leb 7 n then u16 (3 + n) else 10) % 65536
      → ((if l == 10 then 7 - c / 2 % 8 else l - 3) ≡ n) × (c % 2 ≡ 1)
  final_size c l n toggle t h q r = (ground arith, ground arith)

  pub final-data :
      (toggle n : ℕ)
      → (toggle ≡ 0) ⊎ (toggle ≡ 16)
      → n + 3 < 65536
      → (segment_data (final toggle n) base ≡ bytes src 0 n) × (is_last (final toggle n) base ≡ 1)
  final-data toggle n t h =
      let q =
        final_size (load8 (final toggle n) (base + 8)) (load16 (final toggle n) base) n toggle t h
          (sealed_command toggle _ _ n) (sealed_length toggle _ _ n) in
      (ap (bytes (final toggle n) (base + 9)) (q.0) ∙ bytes-blit _ src (base + 9) n, q.1)
