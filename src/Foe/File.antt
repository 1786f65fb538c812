-- ===== src/Foe/File.antt =====
-- soes/esc_foe.c: the file side. FOE_fopen, FOE_fread, FOE_fwrite, FOE_fclose, FOE_init.
use soes.Base.{
  ℕ, zero, suc, ◌+◌, Bool, true, false, not, ◌&&◌, none, some, List, [], ◌∷◌, ◌==◌, leb, ltb,
  if◌then◌else◌, u16, u32, sub32,
}
use soes.Base.Memory.{Mem, load8, store8, bytes}
use soes.Codes.{esc_boot, foe_fn_max}
use soes.Codes.FoeErr
use soes.Slave.{ready, Flush, Foe, FileCfg, FoeCfg, update}

-- `strncmp (a, b, n) == 0`. The end of a list stands for the terminating NUL.
unfoldable pub same_prefix : ℕ → List ℕ → List ℕ → Bool
same_prefix zero a b = true
same_prefix (suc n) [] [] = true
same_prefix (suc n) [] (y ∷ ys) = y == 0
same_prefix (suc n) (x ∷ xs) [] = x == 0
same_prefix (suc n) (x ∷ xs) (y ∷ ys) =
    let rest = same_prefix n xs ys in if x == y then (if x == 0 then true else rest) else false

-- The operation a file is opened for: FOE_OP_RRQ or FOE_OP_WRQ.
pub data Request : Type 0 where
  rrq wrq : Request

abbrev pub is_wrq : Request → Bool
is_wrq wrq = true
is_wrq rrq = false

-- The file at position `i` is made the current one.
unfoldable pub select : ℕ → FileCfg → Foe → Foe
select i c f = record f {
  file = some i;
  address_offset = update f.address_offset i 0;
  total_size = update f.total_size i 0;
  fposition = 0;
  fend = c.max_data;
}

-- The loop of FOE_fopen over the files from position `i` on: the result and the new state.
unfoldable pub find_file : (n pass al_status : ℕ) → Request → ℕ → List FileCfg → Foe → ℕ × Foe
find_file n pass al_status op i [] f = (FoeErr.not_found, f)
find_file n pass al_status op i (c ∷ cs) f =
    let rest = find_file n pass al_status op (i + 1) cs f in
    if same_prefix n f.file_name c.name
    then (if pass == c.filepass
        then (if is_wrq op && c.write_only_in_boot && not (al_status == esc_boot)
            then (FoeErr.not_in_bootstrap, f)
            else (0, select i c f))
        else (FoeErr.no_rights, f))
    else rest

-- `name` is the pointer to the requested name, an offset in `m`; `num_chars` is its length.
unfoldable pub fopen : FoeCfg → Mem → (name num_chars pass al_status : ℕ) → Request → Foe → ℕ × Foe
fopen cfg m name num_chars pass al_status op f =
    let n = if ltb foe_fn_max num_chars then foe_fn_max else num_chars in
    find_file n pass al_status op 0 cfg.files (record f { file_name = bytes m name n })

-- FOE_fread: at most `maxlength` bytes of the buffer from the file position on are copied to offset
-- `at` of the mailbox memory.
unfoldable pub fread : (maxlength at ncopied : ℕ) → Mem → Foe → ℕ × Mem × Foe
fread zero at ncopied m f = (ncopied, m, f)
fread (suc maxlength) at ncopied m f =
    let rest =
      fread maxlength (at + 1) (u32 (ncopied + 1)) (store8 m at (load8 f.fbuffer f.fposition))
        (record f { fposition = u32 (f.fposition + 1) }) in
    if sub32 f.fend f.fposition == 0 then (ncopied, m, f) else rest

-- The file that `foe_file` points to. There is one whenever the file is written.
abbrev pub current : Foe → ℕ
current f = elim f.file [ some i ↦ i | none ↦ 0 ]

-- `foe_file->write_function (foe_file, fbuffer, fbufposition)`: whether it failed.
unfoldable pub flush : FoeCfg → Foe → Bool × Foe
flush cfg f =
    let call : Flush = record {
      file = current f;
      offset = f.address_offset (current f);
      content = bytes f.fbuffer 0 f.fbufposition;
    } in
    let calls = call ∷ f.flushes in
    (not (cfg.write_function calls == 0), record f { flushes = calls })

-- The full buffer is handed over.
unfoldable pub flush_full : FoeCfg → Foe → Bool × Foe
flush_full cfg f =
    let (failed, g) = flush cfg f in
    let offset = u32 (g.address_offset (current g) + cfg.buffer_size) in
    (
      failed,
      record g { fbufposition = 0; address_offset = update g.address_offset (current g) offset },
    )

-- One byte goes into the buffer, which is handed over when it is full; the file position moves.
unfoldable pub put_byte : FoeCfg → ℕ → Foe → Bool × Foe
put_byte cfg v f =
    let g = record f {
      fbuffer = store8 f.fbuffer f.fbufposition v;
      fbufposition = u16 (f.fbufposition + 1);
    } in
    let (failed, h) = if leb cfg.buffer_size g.fbufposition then flush_full cfg g else (false, g) in
    (failed, record h { fposition = u32 (h.fposition + 1) })

-- The loop of FOE_fwrite. A failed hand-over ends it, and the byte that caused it is not counted.
unfoldable pub fwrite_loop : FoeCfg → Mem → (length at ncopied : ℕ) → Foe → ℕ × Foe
fwrite_loop cfg m zero at ncopied f = (ncopied, f)
fwrite_loop cfg m (suc length) at ncopied f =
    let (failed, g) = put_byte cfg (load8 m at) f in
    let rest = fwrite_loop cfg m length (at + 1) (u32 (ncopied + 1)) g in
    if sub32 f.fend f.fposition == 0 then (ncopied, f) else if failed then (ncopied, g) else rest

unfoldable pub fwrite : FoeCfg → Mem → (at length : ℕ) → Foe → ℕ × Foe
fwrite cfg m at length f =
    let (ncopied, g) = fwrite_loop cfg m length at 0 (record f { fprevposition = f.fposition }) in
    let size = u32 (g.total_size (current g) + ncopied) in
    (ncopied, record g { total_size = update g.total_size (current g) size })

-- FOE_fclose: whether handing over the last bytes failed.
unfoldable pub fclose : FoeCfg → Foe → Bool × Foe
fclose cfg f =
    let (failed, g) = flush cfg f in
    let offset = u32 (g.address_offset (current g) + g.fbufposition) in
    (
      failed,
      record g { address_offset = update g.address_offset (current g) offset; fbufposition = 0 },
    )

-- FOE_init.
unfoldable pub init : Foe → Foe
init f = record f { packet = 0; state = ready; fposition = 0; fprevposition = 0; fbufposition = 0 }
