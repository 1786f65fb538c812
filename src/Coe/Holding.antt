-- ===== src/Coe/Holding.antt =====
-- The reply to a download that is held back (soes/esc_coe.c): ESC_SDO_complete, and the requests in between.
use soes.Base.{
  ℕ, ◌*◌, ◌<◌, ◌≡◌, sym, ap, eq-of-==, true, false, ◌==◌, if◌then◌else◌, if-elim, arith, Bool-cases,
  inl, inr,
}
use mathlib.Core.Path.{subst}
use soes.Codes.Coe
use soes.Slave.{Env, Slave, M, ◌>>=◌, Held, outreq, skip}
use soes.Mailbox.{claimbuffer, find_idle}
use soes.Coe.{sdo_cancel, sdo_complete, finish_held, sdo_abort, download_response}
use soes.Coe.Content.{Says, Sent, claimed-Sent}

-- The reply of ESC_SDO_complete: the service and the command.
abbrev pub final_service : ℕ → ℕ
final_service code = if code == 0 then Coe.sdo_response else Coe.sdo_request

abbrev pub final_command : ℕ → ℕ
final_command code = if code == 0 then Coe.command_download_response else Coe.command_sdo_abort

abbrev cancelled : Slave → Slave
cancelled s = record s { sdo_held = record (s.sdo_held) { active = false } }

finish_held-Sent :
    (e : Env) (s : Slave) (index subindex code : ℕ)
    → 0 < find_idle e s
    → index < 65536
    → subindex < 256
    → code < 4294967296
    → Sent
        (final_service code)
        (final_command code)
        index
        subindex
        code
        (cancelled s)
        (find_idle e s)
        (finish_held index subindex code e s).1
unfolding finish_held sdo_cancel sdo_abort download_response find_idle
finish_held-Sent e s index subindex code h i k c = elim (Bool-cases (code == 0)) [
  | inl z ↦
      rw (z, if◌then◌else◌)
        (subst
          (λ v.
            Sent Coe.sdo_response Coe.command_download_response index subindex v (cancelled s)
              (find_idle e s)
              ((claimbuffer >>= λ n. if n == 0 then skip else download_response index subindex n) e
                (cancelled s)).1)
          (sym (eq-of-== code 0 z))
          (claimed-Sent skip e (cancelled s) Coe.sdo_response Coe.command_download_response index
            subindex 0 h (omega arith, omega arith, i, k, omega arith)))
  | inr z ↦
      rw (z, if◌then◌else◌)
        (claimed-Sent skip e (cancelled s) Coe.sdo_request Coe.command_sdo_abort index subindex code
          h (omega arith, omega arith, i, k, c))
]

-- While a buffer is idle, ESC_SDO_complete ends a download that is held back: it queues one reply, for
-- the index and the subindex of the download, in the buffer that ESC_claimbuffer gives; a download response
-- for the code 0, else an SDO abort with the code. The application's memory stays, and no further call
-- of ESC_SDO_complete has an effect.
pub sdo_complete_lem :
    (e : Env) (s : Slave) (code : ℕ)
    → s.sdo_held.active ≡ true
    → 0 < find_idle e s
    → s.sdo_held.index < 65536
    → s.sdo_held.subindex < 256
    → code < 4294967296
    → let t = (sdo_complete code e s).1 in
      let n = find_idle e s in
      (t.control n ≡ outreq)
      × Says t.mem
          (n * s.mbx.size)
          (final_service code)
          (final_command code)
          s.sdo_held.index
          s.sdo_held.subindex
          code
      × (t.ram ≡ s.ram)
      × ((later : ℕ) → (sdo_complete later e t).1 ≡ t)
unfolding sdo_complete
sdo_complete_lem e s code a h i k c =
    if-elim
      (λ (m : M (Unit {0})).
        let t = (m e s).1 in
        (t.control (find_idle e s) ≡ outreq)
        × Says t.mem (find_idle e s * s.mbx.size) (final_service code) (final_command code)
            s.sdo_held.index s.sdo_held.subindex code
        × (t.ram ≡ s.ram)
        × ((later : ℕ) → (sdo_complete later e t).1 ≡ t))
      s.sdo_held.active
      (λ _.
        let r = finish_held-Sent e s s.sdo_held.index s.sdo_held.subindex code h i k c in
        (r.0, r.1, r.3, λ later. done later _ (ap (λ (x : Held). x.active) (r.2))))
      (λ z. absurd (ground arith))
  where
    done : (later : ℕ) (t : Slave) → t.sdo_held.active ≡ false → (sdo_complete later e t).1 ≡ t
    done later t q = ground arith
