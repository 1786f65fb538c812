-- ===== src/Coe/Delivery.antt =====
-- A segmented upload of soes/esc_coe.c as a whole: SDO_upload, then SDO_uploadsegment until the last segment.
use soes.Base.{
  ℕ, suc, ◌+◌, ◌-◌, ◌*◌, ◌≤◌, ◌<◌, ◌≡◌, ◌⊎◌, inl, inr, ap, ◌∙◌, List, ◌∷◌, ◌++◌, ◌%◌, refl, zero,
  arith,
}
use mathlib.Core.Path.{ap₂}
use soes.Base.Memory.{Mem, bytes, load8}
use soes.Mailbox.{find_idle}
use soes.Slave.{Env, Slave}
use soes.Coe.{sdo_uploadsegment}
use soes.Coe.Payload.{segment_data, is_last, bytes_join}
use soes.Coe.Sending.{Sending, chunk, to_go, Advances, reply_base, Middle-step, Last-step}
use soes.Coe.Segments.{Accepts}

-- Between two requests for segments the mailbox, the master and the application leave the transfer
-- and the entry's bytes alone, and a buffer is idle again. The rest of the application's memory may change.
pub record Between (e : Env) (t s : Slave) : Type 0 where
  pub same_left : s.mbx.fragsleft ≡ t.mbx.fragsleft
  pub same_frags : s.mbx.frags ≡ t.mbx.frags
  pub same_data : s.mbx.dataptr ≡ t.mbx.dataptr
  pub same_kind : s.mbx.segmented ≡ t.mbx.segmented
  pub same_size : s.mbx.size ≡ t.mbx.size
  pub same_bytes : (j : ℕ) → j < t.mbx.frags → s.ram (t.mbx.dataptr + j) ≡ t.ram (t.mbx.dataptr + j)
  pub idle_again : 0 < find_idle e s

-- The segments that a master requests from a state on, up to the one marked as the last: how many come
-- before that one, and the data of all, joined.
pub data Transfer (e : Env) : Slave → ℕ → List ℕ → Type 0 where
  finish :
      (s : Slave)
      → is_last (sdo_uploadsegment e s).1.mem (reply_base e s) ≡ 1
      → Transfer e s 0 (segment_data (sdo_uploadsegment e s).1.mem (reply_base e s))
  next :
      (s s' : Slave) (k : ℕ) (xs : List ℕ)
      → is_last (sdo_uploadsegment e s).1.mem (reply_base e s) ≡ 0
      → Between e (sdo_uploadsegment e s).1 s'
      → Transfer e s' k xs
      → Transfer e s (suc k) (segment_data (sdo_uploadsegment e s).1.mem (reply_base e s) ++ xs)

-- What is delivered, in how many segments.
abbrev pub Delivers : Slave → ℕ → List ℕ → Type 0
Delivers s k xs =
    (xs ≡ bytes s.ram (s.mbx.dataptr + s.mbx.fragsleft) (to_go s))
    × (k * chunk s < to_go s)
    × (to_go s ≤ suc k * chunk s)

next_Sending :
    (e : Env) (s t s' : Slave)
    → Sending s
    → chunk s < to_go s
    → Advances (chunk s) s t
    → Between e t s'
    → Sending s'
next_Sending e s t s' w g a b = record {
  segmented = b.same_kind ∙ a.same_kind ∙ w.segmented;
  some_left = omega (arith, w.some_left, a.done, a.same_frags, b.same_left, b.same_frags, g);
  in_range = omega (arith, w.in_range, a.same_frags, b.same_frags);
  room = omega (arith, w.room, a.same_size, b.same_size);
  small = omega (arith, w.small, a.same_size, b.same_size);
}

-- Bytes are the same where the memory is.
bytes_congr :
    (m n : Mem) (at len : ℕ)
    → ((j : ℕ) → j < len → m (at + j) ≡ n (at + j))
    → bytes m at len ≡ bytes n at len
unfolding bytes load8
bytes_congr m n at zero h = refl
bytes_congr m n at (suc len) h =
    ap₂ (λ b bs. b ∷ bs)
      (ap (λ i. m i % 256) (omega arith)
        ∙ ap (λ b. b % 256) (h 0 (omega arith))
        ∙ ap (λ i. n i % 256) (omega arith))
      (bytes_congr m n (at + 1) len
        (λ j l. ap m (omega arith) ∙ h (suc j) (omega arith) ∙ ap n (omega arith)))

-- The bytes from offset `from` of the entry on.
pub Between-bytes :
    (e : Env) (t s : Slave) (from len : ℕ)
    → Between e t s
    → from + len ≤ t.mbx.frags
    → bytes s.ram (t.mbx.dataptr + from) len ≡ bytes t.ram (t.mbx.dataptr + from) len
Between-bytes e t s from len b h =
    bytes_congr s.ram t.ram (t.mbx.dataptr + from) len (λ j l.
      ap s.ram (omega arith) ∙ b.same_bytes (from + j) (omega arith) ∙ ap t.ram (omega arith))

compare_lt : (a b : ℕ) → (a < b) ⊎ (b ≤ a)
compare_lt a b = ground arith

count_segments :
    (a b k c c' : ℕ)
    → c' ≡ c
    → b ≡ a - c
    → c < a
    → (k * c' < b) × (b ≤ suc k * c')
    → (suc k * c < a) × (a ≤ suc (suc k) * c)
count_segments a b k c c' p q g h = (grind arith, grind arith)

-- One more segment in front of what is delivered after it.
next-Delivers :
    (s t s' : Slave) (e : Env) (k : ℕ) (xs ys : List ℕ)
    → chunk s < to_go s
    → xs ≡ bytes s.ram (s.mbx.dataptr + s.mbx.fragsleft) (chunk s)
    → Advances (chunk s) s t
    → Between e t s'
    → Delivers s' k ys
    → Delivers s (suc k) (xs ++ ys)
next-Delivers s t s' e k xs ys g q a b d =
    let at = s.mbx.dataptr + s.mbx.fragsleft in
    let left : to_go s' ≡ to_go s - chunk s =
      omega (arith, a.done, a.same_frags, b.same_left, b.same_frags) in
    let from : s'.mbx.dataptr + s'.mbx.fragsleft ≡ at + chunk s =
      omega (arith, a.done, a.same_data, b.same_left, b.same_data) in
    let step : chunk s' ≡ chunk s = omega (arith, a.same_size, b.same_size) in
    let whole : bytes s.ram at (chunk s + (to_go s - chunk s)) ≡ bytes s.ram at (to_go s) =
      ap (bytes s.ram at) (omega arith) in
    let rest : bytes s'.ram (s'.mbx.dataptr + s'.mbx.fragsleft) (to_go s')
        ≡ bytes s.ram (at + chunk s) (to_go s - chunk s) =
      ap₂ (bytes s'.ram) from left
      ∙ ap (λ x. bytes s'.ram x (to_go s - chunk s)) (omega (arith, a.same_data, a.done))
      ∙ Between-bytes e t s' t.mbx.fragsleft (to_go s - chunk s) b
          (omega (arith, a.done, a.same_frags, g))
      ∙ ap (λ x. bytes t.ram x (to_go s - chunk s)) (omega (arith, a.same_data, a.done))
      ∙ ap (λ r. bytes r (at + chunk s) (to_go s - chunk s)) a.same_ram in
    let count = count_segments (to_go s) (to_go s') k (chunk s) (chunk s') step left g (d.1, d.2) in
    (
      ap₂ (λ us vs. us ++ vs) q (d.0 ∙ rest)
          ∙ bytes_join s.ram at (chunk s) (to_go s - chunk s)
          ∙ whole,
      count.0,
      count.1,
    )

pub kept_Sending : (e : Env) (t s : Slave) → Sending t → Between e t s → Sending s
kept_Sending e t s w b = record {
  segmented = b.same_kind ∙ w.segmented;
  some_left = omega (arith, w.some_left, b.same_left, b.same_frags);
  in_range = omega (arith, w.in_range, b.same_frags);
  room = omega (arith, w.room, b.same_size);
  small = omega (arith, w.small, b.same_size);
}

pub Transfer-Delivers :
    (e : Env) (s : Slave) (k : ℕ) (xs : List ℕ)
    → Accepts e
    → Sending s
    → 0 < find_idle e s
    → Transfer e s k xs
    → Delivers s k xs
Transfer-Delivers e _ _ _ acc w h (finish s l) = elim (compare_lt (chunk s) (to_go s)) [
  | inl g ↦ absurd (ground (arith, l, (Middle-step e s w h g).1))
  | inr g ↦ ((Last-step e s w acc h g).0, ground arith, ground arith)
]
Transfer-Delivers e _ _ _ acc w h (next s s' j ys l b r) = elim (compare_lt (chunk s) (to_go s)) [
  | inl g ↦
      let m = Middle-step e s w h g in
      let d = Transfer-Delivers e s' j ys acc (next_Sending e s _ s' w g (m.2) b) b.idle_again r in
      next-Delivers s _ s' e j _ ys g (m.0) (m.2) b d
  | inr g ↦ absurd (ground (arith, l, (Last-step e s w acc h g).1))
]
