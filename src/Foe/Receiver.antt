-- ===== src/Foe/Receiver.antt =====
-- ESC_foeprocess (soes/esc_foe.c) against an abstract receiver of files: idle, or receiving a
-- file of which some bytes have arrived.
use soes.Base.{
  u8, true, some, eq-of-==, ◌-◌, ◌≤◌, ◌≢◌, ◌⊎◌, ◌∙◌, ℕ, ◌+◌, ◌<◌, ◌≡◌, refl, sym, ap, not, ◌&&◌,
  List, [], ◌∷◌, ◌++◌, ◌==◌, if◌then◌else◌, if-elim, u32, arith,
}
use soes.Base.Memory.{bytes, load8, load16, load32, load_low}
use soes.Codes.{foe_header_size}
use soes.Codes.FoeOp
use soes.Codes.MbxType
use soes.Mailbox.{is_inclaim}
use soes.Codes.{esc_boot}
use soes.Slave.{
  MbxState, ◌>>=◌, set_foe, ready, wait_for_data, Flush, Foe, FileCfg, FoeCfg, Env, Slave, M,
  update,
}
use soes.Foe.File.{Request, wrq, is_wrq, fopen, find_file, select, same_prefix, init, fwrite}
use soes.Foe.Reply.{abort, send_ack, foe_data_size}
use soes.Foe.Handlers.{request_length, set_state, is_ready, open_request, foe_write}
use soes.Foe.Stream.{start, bytes-none, Receiving, Receiving-update}
use soes.Foe.Frames.{abort_foe, send_ack_foe, send_ack_available}

-- `base` is what the write function had been given when the file was opened.
pub data Receiver : Type 0 where
  idle : Receiver
  receiving : (base : List Flush) (file : ℕ) (xs : List ℕ) (packet : ℕ) → Receiver

-- The receiver that the FoE variables stand for.
pub data Holds (cfg : FoeCfg) (f : Foe) : Receiver → Type 0 where
  idle_holds : f.state ≡ ready → f.fbufposition ≡ 0 → Holds cfg f idle
  receiving_holds :
      (base : List Flush) (file : ℕ) (xs ys : List ℕ) (packet : ℕ)
      → f.state ≡ wait_for_data
      → f.packet ≡ packet
      → Receiving cfg base file xs ys f
      → Holds cfg f (receiving base file xs packet)

-- The message in the inbox: its operation, its packet number, and the bytes after the FoE header.
abbrev pub opcode_in : Slave → ℕ
opcode_in s = load8 s.mem 6

abbrev pub number_in : Slave → ℕ
number_in s = load32 s.mem 8

abbrev pub payload : Slave → List ℕ
payload s = bytes s.mem 12 (request_length s)

-- A message for FoE is there to be handled.
abbrev pub HasMessage : Slave → Type 0
HasMessage s =
    (s.mbx.run ≡ true)
    × ((s.mbx.xoe ≡ MbxType.foe)
        ⊎ ((s.mbx.xoe ≡ 0) × (is_inclaim (s.control 0) ≡ true) × (load_low s.mem 5 ≡ MbxType.foe)))

-- What FOE_fopen makes of a write request, with the FoE variables reset.
abbrev pub fopened : Env → Slave → ℕ × Foe
fopened e s =
    fopen e.foe s.mem 12 (u8 (request_length s)) (load32 s.mem 8) s.al.status wrq (init s.foe)

-- The data of the message fit into the file.
abbrev pub HasRoom : Slave → Type 0
HasRoom s = u32 (s.foe.fposition + request_length s) ≤ s.foe.fend

-- Why a message ends what a receiver does, or leaves an idle one idle.
pub data Refusal (e : Env) (s : Slave) : Receiver → Type 0 where
  too_short : (r : Receiver) → load16 s.mem 0 < foe_header_size → Refusal e s r
  other_operation :
      (r : Receiver) → opcode_in s ≢ FoeOp.wrq → opcode_in s ≢ FoeOp.dat → Refusal e s r
  not_receiving : opcode_in s ≡ FoeOp.dat → Refusal e s idle
  busy :
      (base : List Flush) (file : ℕ) (xs : List ℕ) (packet : ℕ)
      → opcode_in s ≡ FoeOp.wrq
      → Refusal e s (receiving base file xs packet)
  wrong_number :
      (base : List Flush) (file : ℕ) (xs : List ℕ) (packet : ℕ)
      → opcode_in s ≡ FoeOp.dat
      → number_in s ≢ packet
      → Refusal e s (receiving base file xs packet)
  too_long :
      (base : List Flush) (file : ℕ) (xs : List ℕ) (packet : ℕ)
      → opcode_in s ≡ FoeOp.dat
      → number_in s ≡ packet
      → s.foe.fend < u32 (s.foe.fposition + request_length s)
      → Refusal e s (receiving base file xs packet)
  not_written :
      (base : List Flush) (file : ℕ) (xs : List ℕ) (packet : ℕ)
      → opcode_in s ≡ FoeOp.dat
      → number_in s ≡ packet
      → (fwrite e.foe s.mem 12 (request_length s) s.foe).0 ≢ request_length s
      → Refusal e s (receiving base file xs packet)
  not_opened : opcode_in s ≡ FoeOp.wrq → (fopened e s).0 ≢ 0 → Refusal e s idle
  no_buffer :
      (r : Receiver)
      → ((k : ℕ) → 0 < k → k ≤ e.buffers - 1 → s.control k ≢ MbxState.idle)
      → Refusal e s r

-- What a message does to the receiver: it opens the file that FOE_fopen chooses; or its data, with the
-- number awaited, room for them and of full length, are appended; or they are the last of the file; or the transfer is stopped for a reason.
pub data Next (e : Env) (s : Slave) : Receiver → Receiver → Type 0 where
  opened :
      (file : ℕ)
      → opcode_in s ≡ FoeOp.wrq
      → (fopened e s).0 ≡ 0
      → (fopened e s).1.file ≡ some file
      → Next e s idle (receiving s.foe.flushes file [] 1)
  took :
      (base : List Flush) (file : ℕ) (xs : List ℕ) (packet : ℕ)
      → opcode_in s ≡ FoeOp.dat
      → number_in s ≡ packet
      → request_length s ≡ foe_data_size s
      → HasRoom s
      → Next e s
          (receiving base file xs packet)
          (receiving base file (xs ++ payload s) (u32 (packet + 1)))
  ended :
      (base : List Flush) (file : ℕ) (xs : List ℕ) (packet : ℕ)
      → opcode_in s ≡ FoeOp.dat
      → number_in s ≡ packet
      → (request_length s ≡ 0) ⊎ ((request_length s ≢ foe_data_size s) × HasRoom s)
      → Next e s (receiving base file xs packet) idle
  stop : (r : Receiver) → Refusal e s r → Next e s r idle

-- From the state `s` at the message to the FoE variables `f`.
abbrev pub Steps : Env → Slave → Receiver → Foe → Type 0
Steps e s r f = (r' : Receiver) × Next e s r r' × Holds e.foe f r'

pub abort-Steps :
    (code : ℕ) (e : Env) (t s : Slave) (r : Receiver)
    → Next e s r idle
    → Steps e s r (abort code e t).1.foe
unfolding init
abort-Steps code e t s r n = (idle, n, rw abort_foe (idle_holds refl refl))

-- No acknowledgement goes out only when no buffer is idle.
pub no_ack :
    (e : Env) (t s : Slave)
    → t.control ≡ s.control
    → (send_ack e t).0 ≢ 0
    → (k : ℕ) → 0 < k
    → k ≤ e.buffers - 1
    → s.control k ≢ MbxState.idle
no_ack e t s q h k p l i = h (send_ack_available e t k p l (ap (λ c. c k) q ∙ i))

-- The file sizes are 32-bit numbers, and the buffer is not empty and is counted in 16 bits.
abbrev pub AllFit : List FileCfg → Type 0
AllFit [] = Unit {0}
AllFit (c ∷ cs) = (c.max_data < 4294967296) × AllFit cs

pub record CfgIsValid (cfg : FoeCfg) : Type 0 where
  pub some_buffer : 0 < cfg.buffer_size
  pub buffer_fits : cfg.buffer_size < 65536
  pub files_fit : AllFit cfg.files

abbrev Opens : Foe → ℕ × Foe → Type 0
Opens f r = r.0 ≡ 0 → (k : ℕ) × (c : FileCfg) × (c.max_data < 4294967296) × (r.1 ≡ select k c f)

find_file-Opens :
    (n pass al_status : ℕ) (op : Request) (i : ℕ) (cs : List FileCfg) (f : Foe)
    → AllFit cs
    → Opens f (find_file n pass al_status op i cs f)
unfolding find_file
find_file-Opens n pass al_status op i [] f a = λ h. absurd (omega arith)
find_file-Opens n pass al_status op i (c ∷ cs) f a =
    if-elim (Opens f) (same_prefix n f.file_name c.name)
      (λ _.
        if-elim (Opens f) (pass == c.filepass)
          (λ _.
            if-elim (Opens f) (is_wrq op && c.write_only_in_boot && not (al_status == esc_boot))
              (λ _ h. absurd (omega arith)) (λ _ h. (i, c, a.0, refl)))
          (λ _ h. absurd (omega arith)))
      (λ _. find_file-Opens n pass al_status op (i + 1) cs f a.1)

update_self : (f : ℕ → ℕ) (k v : ℕ) → update f k v k ≡ v
update_self f k v = ground arith

-- Opening for writing starts an empty stream.
pub open_request-Receiving :
    (e : Env) (s : Slave)
    → CfgIsValid e.foe
    → s.foe.fbufposition ≡ 0
    → (open_request wrq e s).0 ≡ 0
    → (k : ℕ) × Receiving e.foe s.foe.flushes k [] [] (open_request wrq e s).1.foe
      × ((open_request wrq e s).1.foe.packet ≡ s.foe.packet)
unfolding open_request fopen select
open_request-Receiving e s v z h =
    let (k, c, small, q) =
      find_file-Opens _ (load32 s.mem 8) s.al.status wrq 0 e.foe.files _ v.files_fit h in
    (
      k,
      rw q (record {
        chosen = refl;
        buffer_small = v.buffer_fits;
        room = ground (arith, v.some_buffer);
        end_small = small;
        position = omega arith;
        split = ground arith;
        written = rw (update_self s.foe.address_offset k 0) start;
        received = sym (bytes-none s.foe.fbuffer 0 s.foe.fbufposition z);
      }),
      rw q refl,
    )

acked-Steps :
    (e : Env) (s at : Slave) (file : ℕ)
    → opcode_in at ≡ FoeOp.wrq
    → (fopened e at).0 ≡ 0
    → (fopened e at).1.file ≡ some file
    → s.control ≡ at.control
    → Receiving e.foe at.foe.flushes file [] [] s.foe
    → s.foe.packet ≡ 0
    → Steps e at idle
        ((send_ack >>= λ sent. if sent == 0 then set_state wait_for_data else abort sent) e s).1.foe
acked-Steps e s at file w o c same r z =
    if-elim (λ (m : M (Unit {0})). Steps e at idle (m e (send_ack e s).1).1.foe)
      ((send_ack e s).0 == 0)
      (λ p.
        let q : (send_ack e s).1.foe ≡ record (s.foe) { packet = 1 } =
          ground (arith, send_ack_foe e s) in
        (
          receiving at.foe.flushes file [] 1,
          opened file w o c,
          receiving_holds at.foe.flushes file [] [] 1 refl (ap (λ f. f.packet) q) (
              rw q (
                Receiving-update e.foe at.foe.flushes file s.foe.fprevposition 1 s.foe.total_size
                  wait_for_data r)),
        ))
      (λ p.
        abort-Steps _ e _ at idle
          (stop idle (no_buffer idle (no_ack e s at same (λ z. ground (arith, p, z))))))

pub foe_write-Steps :
    (e : Env) (s : Slave) (r : Receiver)
    → CfgIsValid e.foe
    → opcode_in s ≡ FoeOp.wrq
    → Holds e.foe s.foe r
    → Steps e s r (foe_write e s).1.foe
unfolding foe_write open_request init
foe_write-Steps e s r v o (receiving_holds base file xs ys packet w k t) =
    if-elim (λ (m : M (Unit {0})). Steps e s r (m e s).1.foe) (is_ready s.foe.state)
      (λ p. absurd (ground arith))
      (λ p. abort-Steps _ e s s r (stop r (busy base file xs packet o)))
foe_write-Steps e s r v o (idle_holds w z) =
    let t = set_foe init s in
    let u = (open_request wrq e t).1 in
    if-elim (λ (m : M (Unit {0})). Steps e s idle (m e s).1.foe) (is_ready s.foe.state)
      (λ _.
        if-elim (λ (m : M (Unit {0})). Steps e s idle (m e u).1.foe) ((open_request wrq e t).0 == 0)
          (λ p.
            let (file, r', k) = open_request-Receiving e t v refl (ground arith) in
            acked-Steps e u s file o (eq-of-== _ _ p) r'.chosen refl r' k)
          (λ p. abort-Steps _ e u s idle (stop idle (not_opened o (λ z. ground (arith, p, z))))))
      (λ p. absurd (ground arith))
