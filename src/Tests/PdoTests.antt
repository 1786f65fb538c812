-- ===== src/Tests/PdoTests.antt =====
-- The size of the process data of a concrete dictionary.
use soes.Base.{ℕ, ◌≡◌, refl, none, some, List, [], ◌∷◌, length, arith}
use soes.Slave.{Entry, Object}
use soes.Tests.Setup.{no_bytes}
use soes.Pdo.{
  size_of_pdo, rx_pdo_objidx, findobject, findobject_from, findsubindex, seek_subindex,
  mapped_entry, add_mapping, add_pdo, add_pdos, pdo_result,
}
use soes.Pdo.Bounds.{InTable, size_of_pdo-IsBounded}

-- An entry without data: a constant of 32 bits.
abbrev constant : (subindex value : ℕ) → Entry
constant subindex value = record {
  subindex = subindex;
  datatype = 7;
  bitlength = 32;
  flags = 7;
  name = [];
  value = value;
  dataptr = 0;
}

-- 0x1600 maps a 16-bit entry and an 8-bit gap; 0x1C12 assigns it to SM2; 0x7000 holds the entry.
abbrev dictionary : List Object
dictionary =
    record {
      index = 0x1600;
      objtype = 7;
      maxsub = 2;
      name = [];
      entries = constant 0 2 ∷ constant 1 0x70000110 ∷ constant 2 8 ∷ [];
    }
    ∷ record {
      index = 0x1C12;
      objtype = 7;
      maxsub = 1;
      name = [];
      entries = constant 0 1 ∷ constant 1 0x1600 ∷ [];
    }
    ∷ record {
      index = 0x7000;
      objtype = 7;
      maxsub = 1;
      name = [];
      entries = constant 0 1 ∷ constant 1 0 ∷ [];
    }
    ∷ []

three_bytes : (size_of_pdo rx_pdo_objidx none [] 16 no_bytes dictionary).bytes ≡ 3
unfolding size_of_pdo findobject findobject_from findsubindex seek_subindex mapped_entry add_mapping
    add_pdo add_pdos pdo_result
three_bytes = refl

two_mappings : (size_of_pdo rx_pdo_objidx none [] 16 no_bytes dictionary).nmappings ≡ some 2
unfolding size_of_pdo findobject findobject_from findsubindex seek_subindex mapped_entry add_mapping
    add_pdo add_pdos pdo_result
two_mappings = refl

-- A table of one place: the second mapping does not fit, and the first one stays.
full_table : (size_of_pdo rx_pdo_objidx none [] 1 no_bytes dictionary).nmappings ≡ none
unfolding size_of_pdo findobject findobject_from findsubindex seek_subindex mapped_entry add_mapping
    add_pdo add_pdos pdo_result
full_table = refl

one_stored : length (size_of_pdo rx_pdo_objidx none [] 1 no_bytes dictionary).maps ≡ 1
unfolding size_of_pdo findobject findobject_from findsubindex seek_subindex mapped_entry add_mapping
    add_pdo add_pdos pdo_result
one_stored = refl

size_of_pdo-IsBounded_example : InTable 1 (size_of_pdo rx_pdo_objidx none [] 1 no_bytes dictionary)
size_of_pdo-IsBounded_example =
    size_of_pdo-IsBounded rx_pdo_objidx none [] 1 no_bytes dictionary tt (omega arith)
