-- ===== src/Coe/Reply.antt =====
-- soes/esc_coe.c: the replies of the SDO services, the reply that is held back, and the release of the
-- inbox. SDO_abort, ESC_SDO_pending, ESC_SDO_cancel, ESC_SDO_complete, set_state_idle, init_coesdo.
use soes.Base.{ℕ, ◌+◌, ◌*◌, Bool, false, not, ◌==◌, if◌then◌else◌}
use soes.Base.Memory.{Mem, store8, store16, store32, store_low}
use soes.Codes.MbxType
use soes.Codes.Coe
use soes.Slave.{
  idle, outreq, Slave, M, ◌>>=◌, ◌>>◌, pure, skip, when, gets, modify, set_mbx, set_mem,
  set_control,
}
use soes.Mailbox.{claimbuffer}

-- The fields of a `_COEsdo` at offset `base` up to the subindex; `length` is the mailbox length.
unfoldable pub sdo_header : (base length service command index subindex : ℕ) → Mem → Mem
sdo_header base length service command index subindex m =
    let m' =
      store16 (store_low (store16 m base length) (base + 5) MbxType.canopen) (base + 6)
        (service * 4096) in
    store8 (store16 (store8 m' (base + 8) command) (base + 9) index) (base + 11) subindex

-- init_coesdo, on buffer `n`.
unfoldable pub init_coesdo : (n service command index subindex : ℕ) → M (Unit {0})
init_coesdo n service command index subindex =
    modify
      (λ s. set_mem (sdo_header (n * s.mbx.size) Coe.header_size service command index subindex) s)

unfoldable pub set_size : (n size : ℕ) → M (Unit {0})
set_size n size = modify (λ s. set_mem (λ m. store32 m (n * s.mbx.size + 12) size) s)

unfoldable pub queue : ℕ → M (Unit {0})
queue n = modify (set_control n outreq)

-- A reply of default length, in buffer `n`.
unfoldable pub queue_sdo : (service command index subindex size n : ℕ) → M (Unit {0})
queue_sdo service command index subindex size n = do
  init_coesdo n service command index subindex
  set_size n size
  queue n

unfoldable pub sdo_abort : (reusembx index subindex code : ℕ) → M (Unit {0})
sdo_abort reusembx index subindex code = do
  n ← if reusembx == 0 then claimbuffer else pure reusembx
  if n == 0 then skip else queue_sdo Coe.sdo_request Coe.command_sdo_abort index subindex code n

-- The reply to a download.
unfoldable pub download_response : (index subindex n : ℕ) → M (Unit {0})
download_response index subindex n =
    queue_sdo Coe.sdo_response Coe.command_download_response index subindex 0 n

unfoldable pub sdo_pending : Slave → Bool
sdo_pending s = s.sdo_held.active

unfoldable pub sdo_cancel : M (Unit {0})
sdo_cancel = modify (λ s. record s { sdo_held = record (s.sdo_held) { active = false } })

unfoldable pub finish_held : (index subindex code : ℕ) → M (Unit {0})
finish_held index subindex code = do
  sdo_cancel
  if code == 0
      then (do n ← claimbuffer; if n == 0 then skip else download_response index subindex n)
      else sdo_abort 0 index subindex code

unfoldable pub sdo_complete : ℕ → M (Unit {0})
sdo_complete code = do
  held ← gets (λ s. s.sdo_held)
  if held.active then finish_held held.index held.subindex code else skip

-- The message in the inbox has been dealt with.
unfoldable pub release_inbox : M (Unit {0})
release_inbox = do modify (set_control 0 idle); modify (set_mbx (λ b. record b { xoe = 0 }))

unfoldable pub set_state_idle : (reusembx index subindex code : ℕ) → M (Unit {0})
set_state_idle reusembx index subindex code = do
  when (not (code == 0)) (sdo_abort reusembx index subindex code)
  release_inbox
