-- ===== src/Tlm/Guard.antt =====
-- The guard of `access`: the pointer, the length and the range of a request.
use qbox_platform.Prelude.{
  List, Option, some, ◌∙◌, refl, ℕ, ◌+◌, ◌^◌, ◌≤◌, ◌<◌, ◌≡◌, ◌≢◌, ◌↔◌, ◌⊎◌, arith, true, false,
  none,
}
use qbox_platform.Tlm.{
  Command, ignore, read, write, is_ok, Payload, Target, is_supported_length, in_bounds, perform,
  check, access,
}

-- The range test passes exactly when the request ends in the block or its end wraps into it.
pub in_bounds_iff :
    (size offset len : ℕ)
    → size < 2 ^ 64
    → offset < 2 ^ 64
    → len < 2 ^ 32
    → (in_bounds size offset len ≡ true)
      ↔ ((offset + len ≤ size) ⊎ (2 ^ 64 ≤ offset + len) × (offset + len ≤ 2 ^ 64 + size))
unfolding in_bounds
in_bounds_iff size offset len hs ho hl = (λ h. ground arith, λ h. ground arith)

module _ {S : Type 0} (t : Target S) (s : S) (p : Payload) where
  -- An access that fails leaves the component as it was.
  access_failed_unchanged : (access t s p).2 ≡ false → (access t s p).0 ≡ s
  unfolding access
  access_failed_unchanged h = ground arith

  -- The returned flag and the response status agree.
  access_ok_iff : is_ok (access t s p).1.response ≡ (access t s p).2
  unfolding access
  access_ok_iff = ground arith

  -- An access succeeds only on a read or a write of 1, 2, 4 or 8 bytes through a pointer that is not null.
  access_succeeds :
      (access t s p).2 ≡ true
      → ((p.command ≡ read) ⊎ (p.command ≡ write))
        × (p.bytes ≢ none)
        × ((p.data_length ≡ 1) ⊎ (p.data_length ≡ 2) ⊎ (p.data_length ≡ 4) ⊎ (p.data_length ≡ 8))
        × (in_bounds t.size p.address p.data_length ≡ true)
  unfolding access is_supported_length
  access_succeeds h = ground arith

module _ {S A : Type 0} (t : Target S) (f : S → A)
    (update_keeps : (s : S) (o : ℕ) (bs : List ℕ) (len : ℕ) → f (t.update s o bs len) ≡ f s)
    (trace_keeps : (s : S) (c : Command) (o len : ℕ) → f (t.trace s c o len) ≡ f s) where
  perform_frame : (s : S) (p : Payload) (c : Command) (bs : List ℕ) → f (perform t s p c bs).0 ≡ f s
  unfolding perform
  perform_frame s p read bs = trace_keeps s read p.address p.data_length
  perform_frame s p write bs =
      trace_keeps (t.update s p.address bs p.data_length) write p.address p.data_length
      ∙ update_keeps s p.address bs p.data_length
  perform_frame s p ignore bs = refl

  check_frame : (s : S) (p : Payload) (payload : Option (List ℕ)) → f (check t s p payload).0 ≡ f s
  unfolding check
  check_frame s p none = refl
  check_frame s p (some bs) = ground (arith, perform_frame s p p.command bs)

  -- What neither a write nor the trace changes, an access does not change.
  pub access_frame : (s : S) (p : Payload) → f (access t s p).0 ≡ f s
  unfolding access
  access_frame s p = check_frame s p p.bytes
