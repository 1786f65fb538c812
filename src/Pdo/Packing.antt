-- ===== src/Pdo/Packing.antt =====
-- soes/esc_coe.c: process data packed by COE_pdoPack.
use Prim.Native.Nat.{◌^◌}
use soes.Base.{
  ℕ, ◌+◌, ◌*◌, ◌%◌, ◌≤◌, ◌<◌, ◌≡◌, ◌⊎◌, ◌∙◌, sym, ap, Option, none, some, List, [], ◌∷◌, refl,
  arith,
}
use soes.Base.Bits.Digits.{same_bits}
use soes.Base.Memory.{Mem}
use soes.Slave.{Entry, Object, Mapping}
use soes.Pdo.Slices.{bitslice_get, bitslice_set}
use soes.Pdo.Splicing.{map_bit, spliced, bitslice_set_lem}
use soes.Pdo.Slicing.{bitslice_get_bits, bitslice_get-lt, bitslice_get-bitslice_set}
use soes.Pdo.Values.{width_of, get_value}
use soes.Pdo.Values.Stored.{width_bytes}
use soes.Pdo.Pack.{entry_of, pack_entry, pdo_pack}

-- A mapped value has at most 64 bits, no more than its variable, and starts at bit `n` or later.
unfoldable pub FitsAt : (n offset : ℕ) → Option Entry → Type 0
FitsAt n offset none = Unit {0}
FitsAt n offset (some o) =
    (o.bitlength ≤ 64) × (o.bitlength ≤ 8 * width_bytes (width_of o.datatype)) × (n ≤ offset)

-- Where the next value may start.
unfoldable pub after : (n offset : ℕ) → Option Entry → ℕ
after n offset none = n
after n offset (some o) = offset + o.bitlength

-- The mappings lie one after the other from bit `n` on.
unfoldable pub Laid : List Object → ℕ → List Mapping → Type 0
Laid objects n [] = Unit {0}
Laid objects n (x ∷ xs) =
    FitsAt n x.offset (entry_of objects x) × Laid objects (after n x.offset (entry_of objects x)) xs

-- The variables of two entries do not overlap.
unfoldable pub ApartFrom : Entry → Option Entry → Type 0
ApartFrom o none = Unit {0}
ApartFrom o (some q) =
    (o.dataptr + width_bytes (width_of o.datatype) ≤ q.dataptr)
    ⊎ (q.dataptr + width_bytes (width_of q.datatype) ≤ o.dataptr)

unfoldable pub ApartFromAll : List Object → Option Entry → List Mapping → Type 0
ApartFromAll objects none xs = Unit {0}
ApartFromAll objects (some o) [] = Unit {0}
ApartFromAll objects (some o) (x ∷ xs) =
    ApartFrom o (entry_of objects x) × ApartFromAll objects (some o) xs

-- No two mappings name overlapping variables.
unfoldable pub Spread : List Object → List Mapping → Type 0
Spread objects [] = Unit {0}
Spread objects (x ∷ xs) = ApartFromAll objects (entry_of objects x) xs × Spread objects xs

-- A statement about each mapped entry and its offset.
unfoldable pub EachAt : (Entry → ℕ → Type 0) → ℕ → Option Entry → Type 0
EachAt P offset none = Unit {0}
EachAt P offset (some o) = P o offset

unfoldable pub Each : (Entry → ℕ → Type 0) → List Object → List Mapping → Type 0
Each P objects [] = Unit {0}
Each P objects (x ∷ xs) = EachAt P x.offset (entry_of objects x) × Each P objects xs

-- Slices with the same bits are the same.
slice_congr :
    (m n : Mem) (offset len : ℕ)
    → len ≤ 64
    → ((p : ℕ) → p < offset + len → map_bit m p ≡ map_bit n p)
    → bitslice_get m offset len ≡ bitslice_get n offset len
slice_congr m n offset len fits h =
    same_bits len (bitslice_get m offset len) (bitslice_get n offset len)
      (bitslice_get-lt m offset len fits) (bitslice_get-lt n offset len fits)
      (λ i l.
        bitslice_get_bits m offset len fits i l
        ∙ h (offset + i) (omega arith)
        ∙ sym (bitslice_get_bits n offset len fits i l))

pack_short :
    (ram : Mem) (offset : ℕ) (o : Entry) (m : Mem)
    → o.bitlength ≤ 64
    → pack_entry ram offset (some o) m ≡ bitslice_set m offset o.bitlength (get_value ram o)
unfolding pack_entry
pack_short ram offset o m h = ground arith

-- Packing an entry changes no bit before its own.
pack_entry-before :
    (ram : Mem) (n offset : ℕ) (q : Option Entry) (m : Mem) (p : ℕ)
    → FitsAt n offset q
    → p < n
    → map_bit (pack_entry ram offset q m) p ≡ map_bit m p
unfolding FitsAt pack_entry spliced
pack_entry-before ram n offset none m p f h = refl
pack_entry-before ram n offset (some o) m p f h =
    ap (λ t. map_bit t p) (pack_short ram offset o m (f.0))
    ∙ ground (arith, f.2, bitslice_set_lem m offset o.bitlength (get_value ram o) (f.0) p)

after-le : (n offset : ℕ) (q : Option Entry) → FitsAt n offset q → n ≤ after n offset q
unfolding FitsAt after
after-le n offset none f = omega arith
after-le n offset (some o) f = omega (arith, f.2)

module _ (ram : Mem) (objects : List Object) where
  pack-before :
      (xs : List Mapping) (n : ℕ) (m : Mem) (p : ℕ)
      → Laid objects n xs
      → p < n
      → map_bit (pdo_pack ram objects xs m) p ≡ map_bit m p
  unfolding Laid pdo_pack
  pack-before [] n m p l h = refl
  pack-before (x ∷ xs) n m p l h =
      pack-before xs (after n x.offset (entry_of objects x))
        (pack_entry ram x.offset (entry_of objects x) m) p (l.1)
        (omega (arith, after-le n x.offset (entry_of objects x) (l.0)))
      ∙ pack_entry-before ram n x.offset (entry_of objects x) m p (l.0) h

  pack_entry_held :
      (n offset : ℕ) (q : Option Entry) (m t : Mem)
      → FitsAt n offset q
      → ((p : ℕ) → p < after n offset q → map_bit t p ≡ map_bit (pack_entry ram offset q m) p)
      → EachAt (λ o at. bitslice_get t at o.bitlength ≡ get_value ram o % 2 ^ o.bitlength) offset q
  unfolding FitsAt EachAt pack_entry after
  pack_entry_held n offset none m t f h = tt
  pack_entry_held n offset (some o) m t f h =
      slice_congr t (pack_entry ram offset (some o) m) offset o.bitlength (f.0) h
      ∙ ap (λ z. bitslice_get z offset o.bitlength) (pack_short ram offset o m (f.0))
      ∙ bitslice_get-bitslice_set m offset o.bitlength (get_value ram o) (f.0)

  -- COE_pdoPack puts each value in its place.
  pub pack-Each :
      (xs : List Mapping) (n : ℕ) (m : Mem)
      → Laid objects n xs
      → Each
          (λ o at.
            bitslice_get (pdo_pack ram objects xs m) at o.bitlength
            ≡ get_value ram o % 2 ^ o.bitlength)
          objects
          xs
  unfolding Laid Each pdo_pack
  pack-Each [] n m l = tt
  pack-Each (x ∷ xs) n m l =
      let q : Option Entry = entry_of objects x in
      let m' : Mem = pack_entry ram x.offset q m in
      (
        pack_entry_held n x.offset q m (pdo_pack ram objects xs m') (l.0)
            (λ p h. pack-before xs (after n x.offset q) m' p (l.1) h),
        pack-Each xs (after n x.offset q) m' (l.1),
      )
