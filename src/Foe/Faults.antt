-- ===== src/Foe/Faults.antt =====
-- Inputs on which esc_foe.c does not do what it means to.
use soes.Base.{ℕ, zero, suc, ◌+◌, ◌<◌, ◌≡◌, refl, false, u32, arith}
use soes.Base.Memory.{Mem, load8}
use soes.Slave.{FoeCfg, Foe}
use soes.Foe.File.{put_byte, fwrite_loop, fwrite}

put_byte_never_flushes :
    (cfg : FoeCfg) (v : ℕ) (f : Foe)
    → 65535 < cfg.buffer_size
    → ((put_byte cfg v f).1.flushes ≡ f.flushes) × ((put_byte cfg v f).0 ≡ false)
unfolding put_byte
put_byte_never_flushes cfg v f h = ground arith

fwrite_loop_never_flushes :
    (cfg : FoeCfg) (m : Mem) (len at n : ℕ) (f : Foe)
    → 65535 < cfg.buffer_size
    → (fwrite_loop cfg m len at n f).1.flushes ≡ f.flushes
unfolding fwrite_loop
fwrite_loop_never_flushes cfg m zero at n f h = refl
fwrite_loop_never_flushes cfg m (suc len) at n f h =
    let g = (put_byte cfg (load8 m at) f).1 in
    ground (
      arith,
      put_byte_never_flushes cfg (load8 m at) f h,
      fwrite_loop_never_flushes cfg m len (at + 1) (u32 (n + 1)) g h,
    )

-- With a buffer of more than 65535 bytes FOE_fwrite never calls the write function, however
-- much is written, since the 16-bit buffer position wraps before it reaches the size.
pub fwrite_never_flushes :
    (cfg : FoeCfg) (m : Mem) (at len : ℕ) (f : Foe)
    → 65535 < cfg.buffer_size
    → (fwrite cfg m at len f).1.flushes ≡ f.flushes
unfolding fwrite
fwrite_never_flushes cfg m at len f h = fwrite_loop_never_flushes cfg m len at 0 _ h
