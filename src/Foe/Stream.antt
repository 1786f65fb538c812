-- ===== src/Foe/Stream.antt =====
-- FOE_fwrite and FOE_fclose (soes/esc_foe.c) and the stream of bytes of a file.
use soes.Base.{
  ℕ, zero, suc, ◌+◌, ◌≤◌, ◌<◌, ◌≡◌, ◌⊎◌, refl, ap, inl, inr, some, List, [], ◌∷◌, ◌++◌, length,
  ◌==◌, leb, Bool-cases, u16, u32, sub32, arith,
}
use mathlib.Core.List.{append-nil, append_assoc}
use soes.Base.Memory.{Mem, load8, store8, bytes, load8-lt}
use soes.Slave.{FoeState, Flush, Foe, FoeCfg}
use soes.Foe.File.{flush, flush_full, put_byte, fwrite_loop, fwrite, fclose}

-- Since `base` the write function got `xs` for `file`, at consecutive offsets from 0 up to `p`.
pub data Written (base : List Flush) (file : ℕ) : List Flush → ℕ → List ℕ → Type 0 where
  start : Written base file base 0 []
  piece :
      {cs : List Flush} {p p' : ℕ} {xs xs' : List ℕ} (c : Flush)
      → Written base file cs p xs
      → c.file ≡ file
      → c.offset ≡ p
      → p' ≡ p + length c.content
      → xs' ≡ xs ++ c.content
      → Written base file (c ∷ cs) p' xs'

-- `xs` has been received for `file`: `ys` went to the write function, the rest is in the buffer.
pub record Receiving (cfg : FoeCfg) (base : List Flush) (file : ℕ) (xs ys : List ℕ) (f : Foe)
    : Type 0 where
  pub chosen : f.file ≡ some file
  pub buffer_small : cfg.buffer_size < 65536
  pub room : f.fbufposition < cfg.buffer_size
  pub end_small : f.fend < 4294967296
  pub position : f.fposition ≤ f.fend
  pub split : f.address_offset file + f.fbufposition ≡ f.fposition
  pub written : Written base file f.flushes (f.address_offset file) ys
  pub received : xs ≡ ys ++ bytes f.fbuffer 0 f.fbufposition

bytes-zero : (m : Mem) (i : ℕ) → bytes m i 0 ≡ []
unfolding bytes
bytes-zero m i = refl

pub bytes-none : (m : Mem) (i n : ℕ) → n ≡ 0 → bytes m i n ≡ []
unfolding bytes
bytes-none m i zero h = refl
bytes-none m i (suc n) h = absurd (omega arith)

bytes-cons : (m : Mem) (i n : ℕ) → bytes m i (suc n) ≡ load8 m i ∷ bytes m (i + 1) n
unfolding bytes
bytes-cons m i n = refl

length-bytes : (m : Mem) (i n : ℕ) → length (bytes m i n) ≡ n
unfolding bytes
length-bytes m i zero = refl
length-bytes m i (suc n) = ap suc (length-bytes m (i + 1) n)

bytes-store8_above : (m : Mem) (i n j v : ℕ) → i + n ≤ j → bytes (store8 m j v) i n ≡ bytes m i n
unfolding bytes store8 load8
bytes-store8_above m i zero j v h = refl
bytes-store8_above m i (suc n) j v h = ground (arith, bytes-store8_above m (i + 1) n j v)

-- One more byte.
bytes-suc : (m : Mem) (i n : ℕ) → bytes m i (n + 1) ≡ bytes m i n ++ (load8 m (i + n) ∷ [])
unfolding bytes
bytes-suc m i zero = ground arith
bytes-suc m i (suc n) = ground (arith, bytes-suc m (i + 1) n)

bytes-store8 :
    (m : Mem) (n v : ℕ) → v < 256 → bytes (store8 m n v) 0 (n + 1) ≡ bytes m 0 n ++ (v ∷ [])
unfolding load8 store8
bytes-store8 m n v h = ground (arith, bytes-suc (store8 m n v) 0 n, bytes-store8_above m 0 n n v)

-- What a write leaves alone.
abbrev pub SameSession : Foe → Foe → Type 0
SameSession f g = (g.state ≡ f.state) × (g.packet ≡ f.packet) × (g.fend ≡ f.fend)

put_byte-SameSession : (cfg : FoeCfg) (v : ℕ) (f : Foe) → SameSession f (put_byte cfg v f).1
unfolding put_byte flush_full flush
put_byte-SameSession cfg v f = ground arith

fwrite_loop-SameSession :
    (cfg : FoeCfg) (m : Mem) (len at n : ℕ) (f : Foe)
    → SameSession f (fwrite_loop cfg m len at n f).1
unfolding fwrite_loop
fwrite_loop-SameSession cfg m zero at n f = (refl, refl, refl)
fwrite_loop-SameSession cfg m (suc len) at n f =
    let g = (put_byte cfg (load8 m at) f).1 in
    ground (
      arith,
      put_byte-SameSession cfg (load8 m at) f,
      fwrite_loop-SameSession cfg m len (at + 1) (u32 (n + 1)) g,
    )

pub fwrite-SameSession :
    (cfg : FoeCfg) (m : Mem) (at len : ℕ) (f : Foe) → SameSession f (fwrite cfg m at len f).1
unfolding fwrite
fwrite-SameSession cfg m at len f =
    ground
      (arith, fwrite_loop-SameSession cfg m len at 0 (record f { fprevposition = f.fposition }))

module _ (cfg : FoeCfg) (base : List Flush) (file : ℕ) where
  -- A byte that stays in the buffer, or fills it and is handed over with it.
  put_byte-Receiving :
      (v : ℕ) (xs ys : List ℕ) (f : Foe)
      → v < 256
      → f.fposition < f.fend
      → Receiving cfg base file xs ys f
      → (zs : List ℕ) × Receiving cfg base file (xs ++ (v ∷ [])) zs (put_byte cfg v f).1
  unfolding put_byte flush_full flush
  put_byte-Receiving v xs ys f small more r =
      elim (Bool-cases (leb cfg.buffer_size (u16 (f.fbufposition + 1)))) [
        | inr p ↦ (
          ys,
          rw p (record {
            chosen = r.chosen;
            buffer_small = r.buffer_small;
            room = ground (arith, r.room, r.buffer_small);
            end_small = r.end_small;
            position = ground (arith, r.end_small);
            split = ground (arith, r.split, r.room, r.buffer_small, r.end_small);
            written = r.written;
            received = ground (
              arith,
              r.received,
              r.room,
              r.buffer_small,
              bytes-store8 f.fbuffer f.fbufposition v small,
              append_assoc ys (bytes f.fbuffer 0 f.fbufposition) (v ∷ []),
            );
          }),
        )
        | inl p ↦ (
          xs ++ (v ∷ []),
          rw p (record {
            chosen = r.chosen;
            buffer_small = r.buffer_small;
            room = ground (arith, r.room);
            end_small = r.end_small;
            position = ground (arith, r.end_small);
            split = ground (arith, r.chosen, r.split, r.room, r.buffer_small, r.end_small);
            written =
                piece _ r.written (ground (arith, r.chosen)) (ground (arith, r.chosen))
                  (ground (
                    arith,
                    r.chosen,
                    r.split,
                    r.room,
                    r.buffer_small,
                    r.end_small,
                    length-bytes (store8 f.fbuffer f.fbufposition v) 0 (f.fbufposition + 1),
                  ))
                  (ground (
                    arith,
                    r.received,
                    r.room,
                    r.buffer_small,
                    bytes-store8 f.fbuffer f.fbufposition v small,
                    append_assoc ys (bytes f.fbuffer 0 f.fbufposition) (v ∷ []),
                  ));
            received = rw (bytes-zero, append-nil);
          }),
        )
      ]

  -- The loop counts every byte and takes all of them, or it counts fewer.
  fwrite_loop-Receiving :
      (m : Mem) (len at n : ℕ) (xs ys : List ℕ) (f : Foe)
      → n + len < 4294967296
      → Receiving cfg base file xs ys f
      → let (count, g) = fwrite_loop cfg m len at n f in
        ((count ≡ n + len) × ((zs : List ℕ) × Receiving cfg base file (xs ++ bytes m at len) zs g))
        ⊎ (count < n + len)
  unfolding fwrite_loop
  fwrite_loop-Receiving m zero at n xs ys f h r =
      inl (omega arith, (ys, rw (bytes-zero, append-nil) r))
  fwrite_loop-Receiving m (suc len) at n xs ys f h r =
      elim (Bool-cases (sub32 f.fend f.fposition == 0)) [
        | inl p ↦ rw p (inr (omega arith))
        | inr p ↦
            let (zs, t) =
              put_byte-Receiving (load8 m at) xs ys f (load8-lt m at)
                (ground (arith, r.position, r.end_small)) r in
            let g = (put_byte cfg (load8 m at) f).1 in
            elim (Bool-cases (put_byte cfg (load8 m at) f).0) [
              | inl q ↦ rw (p, q) (inr (omega arith))
              | inr q ↦
                  let e : u32 (n + 1) ≡ n + 1 = omega arith in
                  let a : n + 1 + len ≡ n + suc len = omega arith in
                  rw (p, q, e, bytes-cons)
                    (rw (a, append_assoc xs (load8 m at ∷ []) (bytes m (at + 1) len)) at
                      (fwrite_loop-Receiving m len (at + 1) (n + 1) (xs ++ (load8 m at ∷ [])) zs g
                        (omega arith) t))
            ]
      ]

  -- The stream does not depend on the other variables.
  pub Receiving-update :
      (prev packet : ℕ) (size : ℕ → ℕ) (state : FoeState) {xs ys : List ℕ} {f : Foe}
      → Receiving cfg base file xs ys f
      → Receiving cfg base file xs ys
          (record f { fprevposition = prev; packet = packet; total_size = size; state = state })
  Receiving-update prev packet size state r = record {
    chosen = r.chosen;
    buffer_small = r.buffer_small;
    room = r.room;
    end_small = r.end_small;
    position = r.position;
    split = r.split;
    written = r.written;
    received = r.received;
  }

  -- While a file is being received, FOE_fwrite of fewer than 4 GiB takes all the bytes, in
  -- order, and counts them all, or it counts fewer; it never counts more.
  pub fwrite-Receiving :
      (m : Mem) (at len : ℕ) (xs ys : List ℕ) (f : Foe)
      → len < 4294967296
      → Receiving cfg base file xs ys f
      → let (count, g) = fwrite cfg m at len f in
        ((count ≡ len) × ((zs : List ℕ) × Receiving cfg base file (xs ++ bytes m at len) zs g))
        ⊎ (count < len)
  unfolding fwrite
  fwrite-Receiving m at len xs ys f h r =
      elim (fwrite_loop-Receiving m len at 0 xs ys (record f { fprevposition = f.fposition })
        (omega arith) (Receiving-update f.fposition f.packet f.total_size f.state r)) [
          | inl (c, d) ↦ inl (omega (arith, c), (d.0, Receiving-update _ _ _ _ d.1))
          | inr c ↦ inr (omega (arith, c))
        ]

  -- For a file that is being received, FOE_fclose hands over what is left in the buffer: then
  -- the write function has had all that was received, the buffer is empty and the address
  -- offset is the file position.
  pub fclose-Written :
      (xs ys : List ℕ) (f : Foe)
      → Receiving cfg base file xs ys f
      → let g = (fclose cfg f).1 in
        Written base file g.flushes f.fposition xs
        × (g.fbufposition ≡ 0)
        × (g.address_offset file ≡ f.fposition)
  unfolding fclose flush
  fclose-Written xs ys f r = (
    piece _ r.written (ground (arith, r.chosen)) (ground (arith, r.chosen))
        (ground (arith, r.split, length-bytes f.fbuffer 0 f.fbufposition)) r.received,
    refl,
    ground (arith, r.chosen, r.split, r.position, r.end_small),
  )
