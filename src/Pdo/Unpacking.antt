-- ===== src/Pdo/Unpacking.antt =====
-- soes/esc_coe.c: what COE_pdoUnpack takes from process data that COE_pdoPack has made.
use Prim.Native.Nat.{◌^◌}
use soes.Base.{ℕ, ◌*◌, ◌%◌, ◌≤◌, ◌≡◌, ◌∙◌, ap, Option, none, some, List, [], ◌∷◌, refl, arith}
use soes.Base.Bits.Digits.{pow_le}
use soes.Base.Memory.{Mem}
use soes.Slave.{Entry, Object, Mapping}
use soes.Pdo.Slices.{bitslice_get}
use soes.Pdo.Slicing.{bitslice_get-lt}
use soes.Pdo.Values.{width_of, get_value, set_value}
use soes.Pdo.Values.Stored.{width_bytes, load_as-store_as, load_as-store_as_apart}
use soes.Pdo.Pack.{entry_of, pdo_pack, unpack_entry, pdo_unpack}
use soes.Pdo.Packing.{pack-Each, FitsAt, after, Laid, ApartFrom, ApartFromAll, Spread, EachAt, Each}

unpack_short :
    (m : Mem) (offset : ℕ) (o : Entry) (ram : Mem)
    → o.bitlength ≤ 64
    → unpack_entry m offset (some o) ram ≡ set_value o (bitslice_get m offset o.bitlength) ram
unfolding unpack_entry
unpack_short m offset o ram h = ground arith

-- Unpacking an entry leaves a variable apart from it alone.
unpack_entry-apart :
    (m : Mem) (n offset : ℕ) (o : Entry) (q : Option Entry) (ram : Mem)
    → FitsAt n offset q
    → ApartFrom o q
    → get_value (unpack_entry m offset q ram) o ≡ get_value ram o
unfolding FitsAt ApartFrom unpack_entry get_value set_value
unpack_entry-apart m n offset o none ram f a = refl
unpack_entry-apart m n offset o (some q) ram f a =
    ap (λ r. get_value r o) (unpack_short m offset q ram (f.0))
    ∙ load_as-store_as_apart (width_of o.datatype) (width_of q.datatype) ram o.dataptr q.dataptr
        (bitslice_get m offset q.bitlength) a

unpack_entry-value :
    (m : Mem) (n offset : ℕ) (o : Entry) (ram : Mem)
    → FitsAt n offset (some o)
    → get_value (unpack_entry m offset (some o) ram) o ≡ bitslice_get m offset o.bitlength
unfolding FitsAt get_value set_value
unpack_entry-value m n offset o ram f =
    ap (λ r. get_value r o) (unpack_short m offset o ram (f.0))
    ∙ load_as-store_as (width_of o.datatype) ram o.dataptr (bitslice_get m offset o.bitlength) (
        omega (
          arith,
          bitslice_get-lt m offset o.bitlength (f.0),
          pow_le o.bitlength (8 * width_bytes (width_of o.datatype)) (f.1),
        ))

module _ (m : Mem) (objects : List Object) where
  unpack-apart :
      (xs : List Mapping) (n : ℕ) (o : Entry) (ram : Mem)
      → Laid objects n xs
      → ApartFromAll objects (some o) xs
      → get_value (pdo_unpack m objects xs ram) o ≡ get_value ram o
  unfolding Laid ApartFromAll pdo_unpack
  unpack-apart [] n o ram l a = refl
  unpack-apart (x ∷ xs) n o ram l a =
      let q : Option Entry = entry_of objects x in
      unpack-apart xs (after n x.offset q) o (unpack_entry m x.offset q ram) (l.1) (a.1)
      ∙ unpack_entry-apart m n x.offset o q ram (l.0) (a.0)

  unpack_head :
      (xs : List Mapping) (n offset : ℕ) (q : Option Entry) (ram : Mem)
      → FitsAt n offset q
      → Laid objects (after n offset q) xs
      → ApartFromAll objects q xs
      → EachAt
          (λ o at.
            get_value (pdo_unpack m objects xs (unpack_entry m offset q ram)) o
            ≡ bitslice_get m at o.bitlength)
          offset
          q
  unfolding EachAt
  unpack_head xs n offset none ram f l a = tt
  unpack_head xs n offset (some o) ram f l a =
      unpack-apart xs (after n offset (some o)) o (unpack_entry m offset (some o) ram) l a
      ∙ unpack_entry-value m n offset o ram f

  -- COE_pdoUnpack gives each variable the value in its place.
  unpack-Each :
      (xs : List Mapping) (n : ℕ) (ram : Mem)
      → Laid objects n xs
      → Spread objects xs
      → Each
          (λ o at. get_value (pdo_unpack m objects xs ram) o ≡ bitslice_get m at o.bitlength)
          objects
          xs
  unfolding Laid Spread Each pdo_unpack
  unpack-Each [] n ram l s = tt
  unpack-Each (x ∷ xs) n ram l s =
      let q : Option Entry = entry_of objects x in
      (
        unpack_head xs n x.offset q ram (l.0) (l.1) (s.0),
        unpack-Each xs (after n x.offset q) (unpack_entry m x.offset q ram) (l.1) (s.1),
      )

EachAt-both :
    (P Q R : Entry → ℕ → Type 0)
    → ((o : Entry) (at : ℕ) → P o at → Q o at → R o at)
    → (at : ℕ) (z : Option Entry) → EachAt P at z
    → EachAt Q at z
    → EachAt R at z
unfolding EachAt
EachAt-both P Q R f at none a b = tt
EachAt-both P Q R f at (some o) a b = f o at a b

Each-both :
    (P Q R : Entry → ℕ → Type 0) (objects : List Object) (xs : List Mapping)
    → ((o : Entry) (at : ℕ) → P o at → Q o at → R o at)
    → Each P objects xs
    → Each Q objects xs
    → Each R objects xs
unfolding Each
Each-both P Q R objects [] f p q = tt
Each-both P Q R objects (x ∷ xs) f p q = (
  EachAt-both P Q R f x.offset (entry_of objects x) (p.0) (q.0),
  Each-both P Q R objects xs f (p.1) (q.1),
)

-- Process data that COE_pdoPack has made from one memory and COE_pdoUnpack takes to another: each
-- mapped variable there has the value that it has here, cut to the mapped length, if the mappings lie
-- one after the other, each of at most 64 bits and no longer than its variable, and the variables do
-- not overlap.
pub pdo_unpack-pdo_pack :
    (here there : Mem) (objects : List Object) (xs : List Mapping) (n : ℕ) (m : Mem)
    → Laid objects n xs
    → Spread objects xs
    → Each
        (λ o at.
          get_value (pdo_unpack (pdo_pack here objects xs m) objects xs there) o
          ≡ get_value here o % 2 ^ o.bitlength)
        objects
        xs
pdo_unpack-pdo_pack here there objects xs n m l s =
    let b : Mem = pdo_pack here objects xs m in
    Each-both (λ o at. get_value (pdo_unpack b objects xs there) o ≡ bitslice_get b at o.bitlength)
      (λ o at. bitslice_get b at o.bitlength ≡ get_value here o % 2 ^ o.bitlength)
      (λ o at. get_value (pdo_unpack b objects xs there) o ≡ get_value here o % 2 ^ o.bitlength)
      objects xs (λ o at p q. p ∙ q) (unpack-Each b objects xs n there l s)
      (pack-Each here objects xs n m l)
