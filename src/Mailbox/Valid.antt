-- ===== src/Mailbox/Valid.antt =====
-- The invariant of the mailbox layer (soes/esc.c), and the changes of a state that it allows.
use soes.Base.{
  ℕ, ◌+◌, ◌-◌, ◌≤◌, ◌<◌, ◌≡◌, ◌≢◌, ◌⊎◌, Bool, true, false, ◌==◌, if◌then◌else◌, arith, Bool-cases,
  inl, inr,
}
use soes.Slave.{
  MbxState, idle, inclaim, outclaim, outreq, outpost, backup, again, Mailbox, Env, Slave, update,
  esc_read, esc_write,
}
use soes.Mailbox.Buffers.{writembx, readmbx, ackmbxread}
use soes.Mailbox.Cue.{cued-idle, cued, weight, cued-update, cued-update_zero}

-- The buffer that waits to be read by the master is the posted one, the one kept for a repeat
-- request is the kept one, and `txcue` counts the buffers that wait to be sent.
pub record IsValid (buffers : ℕ) (control : ℕ → MbxState) (m : Mailbox) : Type 0 where
  pub few : buffers ≤ 256
  pub inbox : (control 0 ≡ idle) ⊎ (control 0 ≡ inclaim)
  pub posted_in : m.posted ≤ buffers - 1
  pub kept_in : m.kept ≤ buffers - 1
  pub posted_state : m.posted ≢ 0 → (control m.posted ≡ outpost) ⊎ (control m.posted ≡ again)
  pub kept_state : m.kept ≢ 0 → control m.kept ≡ backup
  pub posted_only :
      (k : ℕ) → k ≤ buffers - 1 → (control k ≡ outpost) ⊎ (control k ≡ again) → k ≡ m.posted
  pub kept_only : (k : ℕ) → k ≤ buffers - 1 → control k ≡ backup → k ≡ m.kept
  pub cue : m.txcue ≡ cued control (buffers - 1)
  pub not_free : m.posted ≢ 0 → m.free ≡ false

-- With every buffer idle and nothing posted, kept or counted, the invariant holds.
pub idle-IsValid :
    (b : ℕ) (control : ℕ → MbxState) (m : Mailbox)
    → 0 < b
    → b ≤ 256
    → ((k : ℕ) → k < b → control k ≡ idle)
    → m.posted ≡ 0
    → m.kept ≡ 0
    → m.txcue ≡ 0
    → IsValid b control m
idle-IsValid b control m p w h q k t = record {
  few = w;
  inbox = inl (h 0 p);
  posted_in = omega arith;
  kept_in = omega arith;
  posted_state = λ y. absurd (y q);
  kept_state = λ y. absurd (y k);
  posted_only = λ j l y. ground (arith, h j);
  kept_only = λ j l y. ground (arith, h j);
  cue = ground (arith, cued-idle control (b - 1) (λ j l. h j (omega arith)));
  not_free = λ y. absurd (y q);
}

pub writembx_lem :
    (n : ℕ) (e : Env) (s : Slave)
    → let t = (writembx n e s).1 in
      (t.control ≡ s.control) × (t.mbx ≡ record (s.mbx) { free = false })
unfolding writembx esc_write
writembx_lem n e s = ground arith

pub ackmbxread_lem :
    (e : Env) (s : Slave)
    → let t = (ackmbxread e s).1 in
      (t.control ≡ s.control) × (t.mbx ≡ record (s.mbx) { free = true })
unfolding ackmbxread esc_write
ackmbxread_lem e s = ground arith

pub readmbx_lem :
    (e : Env) (s : Slave)
    → let t = (readmbx e s).1 in (t.control ≡ update s.control 0 inclaim) × (t.mbx ≡ s.mbx)
unfolding readmbx esc_read
readmbx_lem e s = ground arith

abbrev pub is_plain : MbxState → Bool
is_plain idle = true
is_plain outclaim = true
is_plain outreq = true
is_plain _ = false

module _ (b : ℕ) (control : ℕ → MbxState) (m m' : Mailbox) (v : IsValid b control m) where
  -- A buffer moves between idle, claimed and queued, and `txcue` follows.
  pub recue-IsValid :
      (n : ℕ) (w : MbxState)
      → 0 < n
      → n ≤ b - 1
      → is_plain (control n) ≡ true
      → is_plain w ≡ true
      → m'.posted ≡ m.posted
      → m'.kept ≡ m.kept
      → m'.free ≡ m.free
      → m'.txcue + weight (control n) ≡ m.txcue + weight w
      → IsValid b (update control n w) m'
  recue-IsValid n w p h c d q k f t = record {
    few = v.few;
    inbox = ground (arith, v.inbox);
    posted_in = ground (arith, v.posted_in);
    kept_in = ground (arith, v.kept_in);
    posted_state = λ z. ground (arith, v.posted_state);
    kept_state = λ z. ground (arith, v.kept_state);
    posted_only = λ j l z. ground (arith, v.posted_only j);
    kept_only = λ j l z. ground (arith, v.kept_only j);
    cue = omega (arith, v.cue, cued-update control n (b - 1) w p h);
    not_free = λ z. ground (arith, v.not_free);
  }

  -- The inbox is filled or emptied.
  pub inbox-IsValid :
      (w : MbxState)
      → (w ≡ idle) ⊎ (w ≡ inclaim)
      → m'.posted ≡ m.posted
      → m'.kept ≡ m.kept
      → m'.free ≡ m.free
      → m'.txcue ≡ m.txcue
      → IsValid b (update control 0 w) m'
  inbox-IsValid w c q k f t = record {
    few = v.few;
    inbox = c;
    posted_in = ground (arith, v.posted_in);
    kept_in = ground (arith, v.kept_in);
    posted_state = λ z. ground (arith, v.posted_state);
    kept_state = λ z. ground (arith, v.kept_state);
    posted_only = λ j l z. ground (arith, v.posted_only j);
    kept_only = λ j l z. ground (arith, v.kept_only j);
    cue = omega (arith, v.cue, cued-update_zero control (b - 1) w);
    not_free = λ z. ground (arith, v.not_free);
  }

  -- A queued buffer is posted while none is.
  pub post-IsValid :
      (n : ℕ)
      → 0 < n
      → n ≤ b - 1
      → control n ≡ outreq
      → m.posted ≡ 0
      → m'.posted ≡ n
      → m'.kept ≡ m.kept
      → m'.free ≡ false
      → m'.txcue + 1 ≡ m.txcue
      → IsValid b (update control n outpost) m'
  post-IsValid n p h c z q k f t = record {
    few = v.few;
    inbox = ground (arith, v.inbox);
    posted_in = ground (arith);
    kept_in = ground (arith, v.kept_in);
    posted_state = λ y. ground arith;
    kept_state = λ y. ground (arith, v.kept_state);
    posted_only = λ j l y. ground (arith, v.posted_only j, v.inbox);
    kept_only = λ j l y. ground (arith, v.kept_only j);
    cue = ground (arith, v.cue, cued-update control n (b - 1) outpost p h);
    not_free = λ y. f;
  }

  disposed : ℕ → MbxState
  disposed = if m.kept == 0 then control else update control m.kept idle

  cued-disposed : cued disposed (b - 1) ≡ cued control (b - 1)
  unfolding disposed
  cued-disposed = elim (Bool-cases (m.kept == 0)) [
    | inl p ↦ rw (p, if◌then◌else◌)
    | inr p ↦
        rw (p, if◌then◌else◌)
          (ground (arith, v.kept_state, v.kept_in, cued-update control m.kept (b - 1) idle))
  ]

  disposed_cue :
      m.posted ≢ 0
      → m'.txcue ≡ m.txcue
      → m'.txcue
        ≡ cued
            (update (if m.kept == 0 then control else update control m.kept idle) m.posted backup)
            (b - 1)
  unfolding disposed
  disposed_cue z t = ground (
    arith,
    cued-disposed,
    v.posted_state z,
    v.posted_in,
    v.cue,
    cued-update disposed m.posted (b - 1) backup,
  )

  -- The posted buffer becomes the backup, the old backup having been freed.
  pub rotate-IsValid :
      m.posted ≢ 0
      → m'.posted ≡ 0
      → m'.kept ≡ m.posted
      → m'.txcue ≡ m.txcue
      → IsValid b
          (update (if m.kept == 0 then control else update control m.kept idle) m.posted backup)
          m'
  rotate-IsValid z q k t = record {
    few = v.few;
    inbox = ground (arith, v.inbox);
    posted_in = ground (arith, v.posted_in);
    kept_in = ground (arith, v.posted_in);
    posted_state = λ y. ground arith;
    kept_state = λ y. ground arith;
    posted_only = λ j l y. ground (arith, v.posted_only j, v.inbox);
    kept_only = λ j l y. ground (arith, v.kept_only j);
    cue = disposed_cue z t;
    not_free = λ y. ground arith;
  }

  -- The posted buffer is marked to be sent again.
  pub again-IsValid :
      m.posted ≢ 0
      → m'.posted ≡ m.posted
      → m'.kept ≡ m.kept
      → m'.free ≡ false
      → m'.txcue ≡ m.txcue
      → IsValid b (update control m.posted again) m'
  again-IsValid z q k f t = record {
    few = v.few;
    inbox = ground (arith, v.inbox);
    posted_in = ground (arith, v.posted_in);
    kept_in = ground (arith, v.kept_in);
    posted_state = λ y. ground arith;
    kept_state = λ y. ground (arith, v.kept_state, v.posted_state);
    posted_only = λ j l y. ground (arith, v.posted_only j);
    kept_only = λ j l y. ground (arith, v.kept_only j);
    cue =
        ground
          (arith, v.cue, v.posted_state z, v.posted_in, cued-update control m.posted (b - 1) again);
    not_free = λ y. f;
  }

  -- No buffer changes state.
  pub same-IsValid :
      m'.posted ≡ m.posted
      → m'.kept ≡ m.kept
      → (m'.free ≡ m.free) ⊎ (m'.free ≡ false)
      → m'.txcue ≡ m.txcue
      → IsValid b control m'
  same-IsValid q k f t = record {
    few = v.few;
    inbox = v.inbox;
    posted_in = ground (arith, v.posted_in);
    kept_in = ground (arith, v.kept_in);
    posted_state = λ y. ground (arith, v.posted_state);
    kept_state = λ y. ground (arith, v.kept_state);
    posted_only = λ j l y. ground (arith, v.posted_only j);
    kept_only = λ j l y. ground (arith, v.kept_only j);
    cue = ground (arith, v.cue);
    not_free = λ y. ground (arith, v.not_free);
  }
