-- ===== src/Slave/Program.antt =====
-- Programs over the slave's state, and the two bus accesses from which all register access is made.
use soes.Base.{ℕ, ◌+◌, ◌-◌, Bool, List, ◌∷◌, ◌&&◌, ltb, leb, ◌==◌, if◌then◌else◌}
use soes.Base.Memory.{Mem}
use soes.Slave.Types.{Access, rd, wr, Slave, Io, Env, SyncManager, MbxState, Mailbox, Foe, Al, Sync}

abbrev pub M : Type 0 → Type 0
M A = Env → Slave → A × Slave

infixl 5 ◌>>=◌ ◌>>◌
abbrev pub ◌>>=◌ : {A B : Type 0} → M A → (A → M B) → M B
◌>>=◌ m f e s = let (a, s') = m e s in f a e s'

abbrev pub ◌>>◌ : {B : Type 0} → M (Unit {0}) → M B → M B
m >> k = m >>= λ _. k

abbrev pub pure : {A : Type 0} → A → M A
pure a e s = (a, s)

abbrev pub gets : {A : Type 0} → (Slave → A) → M A
gets f e s = (f s, s)

abbrev pub asks : {A : Type 0} → (Env → A) → M A
asks f e s = (f e, s)

abbrev pub modify : (Slave → Slave) → M (Unit {0})
modify f e s = (tt, f s)

abbrev pub skip : M (Unit {0})
skip = pure tt

abbrev pub when : Bool → M (Unit {0}) → M (Unit {0})
when b m = if b then m else skip

abbrev pub update {ℓ} : {A : Type ℓ} → (ℕ → A) → ℕ → A → ℕ → A
update f k v j = if k == j then v else f j

abbrev pub set_mbx : (Mailbox → Mailbox) → Slave → Slave
set_mbx f s = record s { mbx = f s.mbx }

abbrev pub set_foe : (Foe → Foe) → Slave → Slave
set_foe f s = record s { foe = f s.foe }

abbrev pub set_al : (Al → Al) → Slave → Slave
set_al f s = record s { al = f s.al }

abbrev pub set_sync : (Sync → Sync) → Slave → Slave
set_sync f s = record s { sync = f s.sync }

abbrev pub set_control : ℕ → MbxState → Slave → Slave
set_control n v s = record s { control = update s.control n v }

abbrev pub set_sm : ℕ → (SyncManager → SyncManager) → Slave → Slave
set_sm n f s = record s { sm = update s.sm n (f (s.sm n)) }

abbrev pub set_mem : (Mem → Mem) → Slave → Slave
set_mem f s = record s { mem = f s.mem }

-- The state after one access.
abbrev pub accessed : Env → Access → Io → Io
accessed e a io = record { log = a ∷ io.log; al_event = e.event (a ∷ io.log) io.al_event }

-- `ESC_read (address, buf, len)`: the bytes that arrive in `buf`, from offset 0.
unfoldable pub esc_read : ℕ → ℕ → M Mem
esc_read address len e s =
    (λ i. e.byte s.io.log (address + i), record s { io = accessed e (rd address len) s.io })

unfoldable pub esc_write : ℕ → List ℕ → M (Unit {0})
esc_write address content e s = (tt, record s { io = accessed e (wr address content) s.io })

-- The call of a hook that only acts outside.
unfoldable pub call_hook : Access → M (Unit {0})
call_hook a e s = (tt, record s { io = record (s.io) { log = a ∷ s.io.log } })

-- `length` bytes of `src` copied to offset `at`.
unfoldable pub blit : Mem → ℕ → ℕ → Mem → Mem
blit m at length src j = if leb at j && ltb j (at + length) then src (j - at) else m j
