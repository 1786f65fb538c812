-- ===== src/Tests/PackTests.antt =====
-- Process data of a concrete dictionary.
use Prim.Native.Nat.{◌^◌}
use soes.Base.{ℕ, ◌*◌, ◌%◌, ◌≡◌, inl, refl, some, none, List, [], ◌∷◌, arith}
use soes.Base.Bits.{complement, ◌<<<◌, ◌>>>◌}
use soes.Base.Memory.{Mem, load16, load32, store32}
use soes.Slave.{Entry, Object, Mapping}
use soes.Pdo.Slices.{
  load64, store64, word_at, set_word, slice_mask, merge, bitslice_get, bitslice_set,
}
use soes.Pdo.Splicing.{map_bit, spliced, bitslice_set_lem}
use soes.Pdo.Values.{width_of, get_value, load_as}
use soes.Pdo.Values.Stored.{width_bytes}
use soes.Pdo.Pack.{entry_of, pack_entry, pdo_pack, pdo_unpack}
use soes.Pdo.Packing.{Each, Laid, FitsAt, after, Spread, ApartFromAll, ApartFrom}
use soes.Pdo.Unpacking.{pdo_unpack-pdo_pack}

abbrev variable_at : (subindex datatype bitlength dataptr : ℕ) → Entry
variable_at subindex datatype bitlength dataptr = record {
  subindex = subindex;
  datatype = datatype;
  bitlength = bitlength;
  flags = 7;
  name = [];
  value = 0;
  dataptr = dataptr;
}

-- A bit, 16 bits, and 64 bits that begin in the middle of a word.
abbrev variables : List Object
variables =
    record {
      index = 0x7000;
      objtype = 7;
      maxsub = 2;
      name = [];
      entries = variable_at 0 0x30 1 16 ∷ variable_at 1 0x06 16 20 ∷ variable_at 2 0x1b 64 24 ∷ [];
    }
    ∷ []

abbrev mapped : (nsub offset : ℕ) → Mapping
mapped nsub offset = record { obj = some (0, nsub); offset = offset }

abbrev mappings : List Mapping
mappings = mapped 0 0 ∷ record { obj = none; offset = 1 } ∷ mapped 1 3 ∷ mapped 2 19 ∷ []

-- Every byte of this memory is its offset times 37.
abbrev pattern_bytes : Mem
pattern_bytes i = i * 37 % 256

abbrev zero_bytes : Mem
zero_bytes i = 0

packed_value :
    bitslice_get (pdo_pack pattern_bytes variables mappings zero_bytes) 3 16
    ≡ get_value pattern_bytes (variable_at 1 0x06 16 20)
unfolding get_value bitslice_get load_as ◌>>>◌ width_of word_at load16 load64 load32 pdo_pack
    pack_entry entry_of bitslice_set set_word store64 store32 merge complement ◌<<<◌ slice_mask
packed_value = refl

mappings-Laid : Laid variables 0 mappings
unfolding Laid FitsAt after entry_of width_of width_bytes
mappings-Laid = (
  (omega arith, omega arith, omega arith),
  (tt, ((omega arith, omega arith, omega arith), ((omega arith, omega arith, omega arith), tt))),
)

mappings-Spread : Spread variables mappings
unfolding Spread ApartFromAll ApartFrom entry_of width_of width_bytes
mappings-Spread =
    ((tt, (inl (omega arith), (inl (omega arith), tt))), (tt, ((inl (omega arith), tt), (tt, tt))))

pdo_unpack-pdo_pack_example :
    Each
      (λ o at.
        get_value
          (pdo_unpack
            (pdo_pack pattern_bytes variables mappings zero_bytes)
            variables
            mappings
            zero_bytes)
          o
        ≡ get_value pattern_bytes o % 2 ^ o.bitlength)
      variables
      mappings
pdo_unpack-pdo_pack_example =
    pdo_unpack-pdo_pack pattern_bytes zero_bytes variables mappings 0 zero_bytes mappings-Laid
      mappings-Spread

bitslice_set_lem_example :
    map_bit (bitslice_set pattern_bytes 60 16 0xabcd) 66 ≡ spliced 60 16 0xabcd pattern_bytes 66
bitslice_set_lem_example = bitslice_set_lem pattern_bytes 60 16 0xabcd (omega arith) 66
