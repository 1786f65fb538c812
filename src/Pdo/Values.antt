-- ===== src/Pdo/Values.antt =====
-- soes/esc_coe.c: the values of dictionary entries in the application's memory. COE_getValue, COE_setValue,
-- COE_initDefaultValues.
pub mod Stored
use soes.Base.{
  ℕ, ◌-◌, Bool, true, false, ◌&&◌, ◌||◌, Option, none, some, List, [], ◌∷◌, ◌==◌, ltb, leb,
  if◌then◌else◌, u32,
}
use soes.Base.Memory.{Mem, load8, load16, load32, store8, store16, store32}
use soes.Slave.{Entry, Object}
use soes.Pdo.Slices.{load64, store64}

-- How a variable is accessed, by its DTYPE code.
pub data Width : Type 0 where
  byte : Width
  half : Width
  word : Width
  double : Width
  unknown : Width

-- The cases of both switches.
unfoldable pub width_of : ℕ → Width
width_of datatype =
    if (leb 0x30 datatype && leb datatype 0x37)
      || (datatype == 0x01)
      || (datatype == 0x05)
      || (datatype == 0x02)
      || (datatype == 0x2d)
    then Width.byte
    else if (datatype == 0x06) || (datatype == 0x03) || (datatype == 0x2e)
    then Width.half
    else if (datatype == 0x08) || (datatype == 0x07) || (datatype == 0x04) || (datatype == 0x2f)
    then Width.word
    else if (datatype == 0x11) || (datatype == 0x1b) || (datatype == 0x15)
    then Width.double
    else Width.unknown

unfoldable pub load_as : Width → Mem → ℕ → ℕ
load_as Width.byte ram at = load8 ram at
load_as Width.half ram at = load16 ram at
load_as Width.word ram at = load32 ram at
load_as Width.double ram at = load64 ram at
load_as Width.unknown ram at = 0

unfoldable pub store_as : Width → Mem → (at value : ℕ) → Mem
store_as Width.byte ram at value = store8 ram at value
store_as Width.half ram at value = store16 ram at value
store_as Width.word ram at value = store32 ram at value
store_as Width.double ram at value = store64 ram at value
store_as Width.unknown ram at value = ram

-- COE_getValue. The assertion of the default case is taken to be off.
unfoldable pub get_value : Mem → Entry → ℕ
get_value ram o = load_as (width_of o.datatype) ram o.dataptr

-- COE_setValue.
unfoldable pub set_value : Entry → ℕ → Mem → Mem
set_value o value ram = store_as (width_of o.datatype) ram o.dataptr value

-- The loop over the entries of one object: it ends with the entry of the greatest subindex.
unfoldable pub default_entries : List Entry → (maxsub : ℕ) → Mem → Mem
default_entries [] maxsub ram = ram
default_entries (o ∷ os) maxsub ram =
    let ram' = if o.dataptr == 0 then ram else set_value o o.value ram in
    let rest = default_entries os maxsub ram' in if ltb o.subindex maxsub then rest else ram'

unfoldable pub default_objects : List Object → Mem → Mem
default_objects [] ram = ram
default_objects (o ∷ os) ram = default_objects os (default_entries o.entries o.maxsub ram)

-- COE_initDefaultValues, with `skip_default_initialization` and `set_defaults_hook`.
unfoldable pub init_default_values : (skip : Bool) → Option (Mem → Mem) → List Object → Mem → Mem
init_default_values true hook objects ram = ram
init_default_values false none objects ram = default_objects objects ram
init_default_values false (some hook) objects ram = hook (default_objects objects ram)
