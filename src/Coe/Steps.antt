-- ===== src/Coe/Steps.antt =====
-- The steps of soes/esc_coe.c that leave the states of the mailbox buffers alone, and the object
-- handlers of soes/ecat_slv.c.
use soes.Base.{ℕ, refl, not, ◌&&◌, Option, none, some, List, ◌==◌, if◌then◌else◌, ltb, has_bit}
use soes.Base.Memory.{Mem}
use soes.Slave.Hoare.{Takes, Holds, pure-Takes, branch-Takes}
use soes.Coe.{
  call_hook, is_mapping_object, complete_access_flag, max_sub, download_pre, download_hook,
  download_post, upload_pre, upload_post, init_coesdo, set_size, set_length, set_command, copy_out,
  copy_in, fill, start_segments, no_segments,
}
use soes.Coe.Claims.{IsSteady, steady-Takes}

module _ {P : Holds} (h : IsSteady P) where
  pub init_coesdo-Takes :
      (n service command index subindex : ℕ)
      → Takes P (init_coesdo n service command index subindex) P
  unfolding init_coesdo
  init_coesdo-Takes n service command index subindex = steady-Takes h (λ e s. refl)

  pub set_size-Takes : (n size : ℕ) → Takes P (set_size n size) P
  unfolding set_size
  set_size-Takes n size = steady-Takes h (λ e s. refl)

  pub set_length-Takes : (n length : ℕ) → Takes P (set_length n length) P
  unfolding set_length
  set_length-Takes n length = steady-Takes h (λ e s. refl)

  pub set_command-Takes : (n command : ℕ) → Takes P (set_command n command) P
  unfolding set_command
  set_command-Takes n command = steady-Takes h (λ e s. refl)

  pub copy_out-Takes : (n at source size : ℕ) → Takes P (copy_out n at source size) P
  unfolding copy_out
  copy_out-Takes n at source size = steady-Takes h (λ e s. refl)

  pub copy_in-Takes : (to at size : ℕ) → Takes P (copy_in to at size) P
  unfolding copy_in
  copy_in-Takes to at size = steady-Takes h (λ e s. refl)

  pub fill-Takes : (n : ℕ) (f : ℕ → Mem → Mem) → Takes P (fill n f) P
  unfolding fill
  fill-Takes n f = steady-Takes h (λ e s. refl)

  pub start_segments-Takes : (dataptr flags : ℕ) → Takes P (start_segments dataptr flags) P
  unfolding start_segments
  start_segments-Takes dataptr flags = steady-Takes h (λ e s. refl)

  pub no_segments-Takes : (size : ℕ) → Takes P (no_segments size) P
  unfolding no_segments
  no_segments-Takes size = steady-Takes h (λ e s. refl)

  call_hook-Takes :
      {A : Type 0} (a : A) (hook : Option (Mem → A × Mem)) → Takes P (call_hook a hook) P
  unfolding call_hook
  call_hook-Takes a none = steady-Takes h (λ e s. refl)
  call_hook-Takes a (some f) = steady-Takes h (λ e s. refl)

  pub upload_pre-Takes :
      (index subindex dataptr size flags : ℕ)
      → Takes P (upload_pre index subindex dataptr size flags) P
  unfolding upload_pre
  upload_pre-Takes index subindex dataptr size flags = record {
    after = λ e s p. (call_hook-Takes (0, size) _).after e s p;
  }

  pub upload_post-Takes : (index subindex flags : ℕ) → Takes P (upload_post index subindex flags) P
  unfolding upload_post
  upload_post-Takes index subindex flags = record {
    after = λ e s p. (call_hook-Takes 0 _).after e s p;
  }

  download_hook-Takes :
      (index subindex : ℕ) (content : List ℕ) (flags : ℕ)
      → Takes P (download_hook index subindex content flags) P
  unfolding download_hook
  download_hook-Takes index subindex content flags = record {
    after = λ e s p. (call_hook-Takes 0 _).after e s p;
  }

  pub download_pre-Takes :
      (index subindex : ℕ) (content : List ℕ) (flags : ℕ)
      → Takes P (download_pre index subindex content flags) P
  unfolding download_pre
  download_pre-Takes index subindex content flags = record {
    after = λ e s p.
        (branch-Takes
            (is_mapping_object index
              && ltb (if has_bit flags complete_access_flag then 1 else 0) subindex
              && not (max_sub s.ram s.objects index == 0))
            pure-Takes (download_hook-Takes index subindex content flags)).after
          e s p;
  }

  pub download_post-Takes :
      (index subindex flags : ℕ) → Takes P (download_post index subindex flags) P
  unfolding download_post
  download_post-Takes index subindex flags = record {
    after = λ e s p. (call_hook-Takes 0 _).after e s p;
  }
