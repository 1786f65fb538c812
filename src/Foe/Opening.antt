-- ===== src/Foe/Opening.antt =====
-- FOE_fopen (soes/esc_foe.c) against a search followed by checks.
use soes.Base.{
  ◌⊎◌, suc, zero, true, ◌≢◌, ◌+◌, ℕ, ◌+◌, ◌≡◌, false, some, List, [], ◌∷◌, ◌==◌, if◌then◌else◌,
  arith,
}
use soes.Base.Memory.{Mem, bytes}
use soes.Codes.{esc_boot}
use soes.Codes.FoeErr
use soes.Slave.{Foe, FileCfg, FoeCfg}
use soes.Foe.File.{Request, rrq, wrq, same_prefix, select, find_file, fopen}

-- What strncmp compares of a name: its characters up to a NUL, at most `n`.
abbrev pub initial : ℕ → List ℕ → List ℕ
initial zero name = []
initial (suc n) [] = []
initial (suc n) (x ∷ xs) = if x == 0 then [] else (x ∷ initial n xs)

-- No file of the list has a name that agrees with the first `n` characters of `name`.
abbrev pub NoneAgrees : (n : ℕ) → List ℕ → List FileCfg → Type 0
NoneAgrees n name [] = Unit {0}
NoneAgrees n name (c ∷ cs) = (initial n name ≢ initial n c.name) × NoneAgrees n name cs

-- The first one that does is `c`, at position `i`.
pub data First (n : ℕ) (name : List ℕ) (c : FileCfg) : ℕ → List FileCfg → Type 0 where
  here : (cs : List FileCfg) → initial n name ≡ initial n c.name → First n name c 0 (c ∷ cs)
  there :
      (i : ℕ) (d : FileCfg) (cs : List FileCfg)
      → initial n name ≢ initial n d.name
      → First n name c i cs
      → First n name c (i + 1) (d ∷ cs)

-- The file at position `i` has been opened: it is the current one, its counters are reset and the other
-- files' are kept, and nothing else has changed.
pub record Opened (i : ℕ) (c : FileCfg) (f g : Foe) : Type 0 where
  pub file : g.file ≡ some i
  pub address : g.address_offset i ≡ 0
  pub total : g.total_size i ≡ 0
  pub start : g.fposition ≡ 0
  pub end : g.fend ≡ c.max_data
  pub other_addresses : (j : ℕ) → j ≢ i → g.address_offset j ≡ f.address_offset j
  pub other_totals : (j : ℕ) → j ≢ i → g.total_size j ≡ f.total_size j
  pub name : g.file_name ≡ f.file_name
  pub state : g.state ≡ f.state
  pub packet : g.packet ≡ f.packet
  pub buffer : g.fbuffer ≡ f.fbuffer
  pub position : g.fbufposition ≡ f.fbufposition
  pub flushes : g.flushes ≡ f.flushes

-- The decision on the file `c`: writing it needs bootstrap, or not.
abbrev pub NeedsBoot : Request → FileCfg → Type 0
NeedsBoot rrq c = ⊥
NeedsBoot wrq c = c.write_only_in_boot ≡ true

pub record Decided (pass al_status : ℕ) (op : Request) (i : ℕ) (c : FileCfg) (f : Foe) (r : ℕ × Foe)
    : Type 0 where
  pub wrong_password : pass ≢ c.filepass → r ≡ (FoeErr.no_rights, f)
  pub not_in_boot :
      pass ≡ c.filepass → NeedsBoot op c → al_status ≢ esc_boot → r ≡ (FoeErr.not_in_bootstrap, f)
  pub accepted :
      pass ≡ c.filepass → (NeedsBoot op c → al_status ≡ esc_boot) → (r.0 ≡ 0) × Opened i c f r.1

-- What FOE_fopen comes to, with a list of files whose first one is at position `b`.
abbrev pub Outcome :
    (n : ℕ)
    → List ℕ
    → (pass al_status : ℕ) → Request
    → (b : ℕ) → List FileCfg
    → Foe
    → ℕ × Foe
    → Type 0
Outcome n name pass al_status op b cs f r =
    (NoneAgrees n name cs × (r ≡ (FoeErr.not_found, f)))
    ⊎ ((k : ℕ) × (c : FileCfg) × First n name c k cs × Decided pass al_status op (b + k) c f r)

-- A request with an empty name opens the first file, if its password is right and it may be written
-- in any state.
pub fopen_empty_name :
    (m : Mem) (name al_status : ℕ) (op : Request) (cfg : FoeCfg) (c : FileCfg) (cs : List FileCfg)
    (f : Foe)
    → cfg.files ≡ c ∷ cs
    → c.write_only_in_boot ≡ false
    → ((fopen cfg m name 0 c.filepass al_status op f).0 ≡ 0)
      × ((fopen cfg m name 0 c.filepass al_status op f).1.file ≡ some 0)
unfolding fopen find_file same_prefix select bytes
fopen_empty_name m name al_status op cfg c cs f h b = ground arith
