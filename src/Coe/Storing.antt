-- ===== src/Coe/Storing.antt =====
-- A download that one message carries (SDO_download of soes/esc_coe.c): what it leaves in the application's memory.
use soes.Base.{ℕ, ◌+◌, ◌≡◌, refl, sym, ◌∙◌, true, false, none, List, if-elim, arith}
use mathlib.Core.Path.{subst}
use soes.Base.Memory.{Mem, bytes}
use soes.Mailbox.{claimbuffer, claimed}
use soes.Pdo.{entry_at}
use soes.Slave.{Entry, Object, Env, Slave, M, ◌>>=◌, ◌>>◌, blit}
use soes.Coe.{
  is_mapping_object, download_pre, download_hook, download_post, download_response, queue_sdo,
  init_coesdo, set_size, queue, release_inbox, pad, is_longer, whole_message, copy_in, respond,
  finish_store, store, download_answered, qualify, download_sized, download_entry, download_located,
  sdo_download, write_access, mismatches, data_at, stated_size, locate, found, index_in,
  subindex_in, Located, bits_to_bytes,
}
use soes.Coe.Opening.{no_hook}

-- The application has no handlers for downloads.
pub record Plain (e : Env) : Type 0 where
  pub no_pre : e.sdo.pre_object_download_hook ≡ none
  pub no_post : e.sdo.post_object_download_hook ≡ none

download_post-none :
    (e : Env) (s : Slave) (index subindex flags : ℕ)
    → Plain e
    → download_post index subindex flags e s ≡ (0, s)
unfolding download_post
download_post-none e s index subindex flags p =
    no_hook e.sdo.post_object_download_hook (λ h ram. h ram index subindex flags) 0 e s p.no_post

download_hook-none :
    (e : Env) (s : Slave) (index subindex : ℕ) (content : List ℕ) (flags : ℕ)
    → Plain e
    → download_hook index subindex content flags e s ≡ (0, s)
unfolding download_hook
download_hook-none e s index subindex content flags p =
    no_hook e.sdo.pre_object_download_hook (λ h ram. h ram index subindex content flags) 0 e s
      p.no_pre

download_pre-none :
    (e : Env) (s : Slave) (index subindex : ℕ) (content : List ℕ) (flags : ℕ)
    → Plain e
    → is_mapping_object index ≡ false
    → download_pre index subindex content flags e s ≡ (0, s)
unfolding download_pre
download_pre-none e s index subindex content flags p q =
    ground (arith, download_hook-none e s index subindex content flags p)

finish_store-ram :
    (e : Env) (s : Slave) (index subindex flags n : ℕ)
    → Plain e
    → (finish_store index subindex flags n e s).1.ram ≡ s.ram
unfolding finish_store
finish_store-ram e s index subindex flags n p =
    ground (arith, download_post-none e s index subindex flags p)

respond-ram :
    (e : Env) (s : Slave) (index subindex : ℕ) → (respond index subindex e s).1.ram ≡ s.ram
unfolding respond claimbuffer claimed download_response queue_sdo init_coesdo set_size queue
respond-ram e s index subindex = ground arith

-- What the message says, in the application's memory.
abbrev pub stored : Slave → Entry → ℕ → Mem
stored s o size = blit s.ram o.dataptr size (λ j. s.mem (data_at s + j))

store-ram :
    (e : Env) (s : Slave) (index subindex : ℕ) (o : Entry) (size : ℕ)
    → Plain e
    → is_longer size s ≡ false
    → (store index subindex o size e s).1.ram ≡ stored s o size
unfolding store whole_message copy_in
store-ram e s index subindex o size p q =
    let c = (copy_in o.dataptr (data_at s) size e (whole_message size e s).1).1 in
    let r = respond index subindex e c in
    if-elim
      (λ (m : M ℕ).
        ((copy_in o.dataptr (data_at s) (m e s).0
            >> (respond index subindex >>= finish_store index subindex o.flags))
          e (m e s).1).1.ram
        ≡ stored s o size)
      (is_longer size s) (λ z. absurd (ground arith))
      (λ _.
        finish_store-ram e (r.1) index subindex o.flags (r.0) p ∙ respond-ram e c index subindex)

release-ram : (e : Env) (s : Slave) → (release_inbox e s).1.ram ≡ s.ram
unfolding release_inbox
release-ram e s = refl

qualify-ram :
    (e : Env) (s : Slave) (index subindex : ℕ) (o : Entry) (size : ℕ)
    → Plain e
    → is_mapping_object index ≡ false
    → is_longer size s ≡ false
    → (qualify index subindex o size e s).1.ram ≡ stored s o size
unfolding qualify download_answered
qualify-ram e s index subindex o size p i q =
    subst
      (λ (r : ℕ × Slave).
        ((download_answered index subindex o size (r.0) >> release_inbox) e (r.1)).1.ram
        ≡ stored s o size)
      (sym (download_pre-none e s index subindex (bytes s.mem (data_at s) size) o.flags p i))
      (release-ram e (store index subindex o size e s).1 ∙ store-ram e s index subindex o size p q)

-- A download of an entry that is writable in this state, whose size is the entry's, and that the message
-- carries as a whole.
pub record Writes (e : Env) (s : Slave) (x : Entry) (o : Object) (nsub : ℕ) : Type 0 where
  pub located : locate (index_in s) (subindex_in s) s.objects ≡ found o nsub
  pub entry : entry_at o.entries nsub ≡ x
  pub writable : write_access x.flags s.al.status ≡ true
  pub fits : stated_size s ≡ bits_to_bytes x.bitlength
  pub carried : is_longer (stated_size s) s ≡ false
  pub ordinary : is_mapping_object (index_in s) ≡ false

sized-ram :
    (e : Env) (s : Slave) (x : Entry) (o : Object) (nsub : ℕ)
    → Plain e
    → Writes e s x o nsub
    → (download_sized (index_in s) (subindex_in s) x (stated_size s) e s).1.ram
      ≡ stored s x (stated_size s)
unfolding download_sized mismatches pad
sized-ram e s x o nsub p w = ground (
  arith,
  w.fits,
  qualify-ram e s (index_in s) (subindex_in s) x (stated_size s) p w.ordinary w.carried,
)

pub sdo_download-ram :
    (e : Env) (s : Slave) (x : Entry) (o : Object) (nsub : ℕ)
    → Plain e
    → Writes e s x o nsub
    → (sdo_download e s).1.ram ≡ stored s x (stated_size s)
unfolding sdo_download download_located download_entry
sdo_download-ram e s x o nsub p w =
    subst
      (λ (l : Located).
        (download_located (index_in s) (subindex_in s) l e s).1.ram ≡ stored s x (stated_size s))
      (sym w.located)
      (subst
        (λ (y : Entry).
          (download_entry (index_in s) (subindex_in s) y e s).1.ram ≡ stored s x (stated_size s))
        (sym w.entry)
        (if-elim (λ (m : M (Unit {0})). (m e s).1.ram ≡ stored s x (stated_size s))
          (write_access x.flags s.al.status) (λ _. sized-ram e s x o nsub p w)
          (λ z. absurd (ground (arith, w.writable)))))
