-- ===== src/Atu/Translate/Forward.antt =====
-- Transactions through the translation socket of rse_atu.h.
use qbox_platform.Prelude.{
  ℕ, ◌<◌, ◌≡◌, ◌≢◌, ◌∙◌, ◌⊎◌, inl, inr, sym, arith, true, false, none, some, List, Bool-cases,
  Option-cases, ℕ_discrete,
}
use qbox_platform.Tlm.{Payload, is_ok, address_error}
use qbox_platform.Atu.{Config, Atu, Info, supported_region_count}
use qbox_platform.Atu.Trace.{trace_translation}
use qbox_platform.Atu.Translate.{
  Downstream, translate_range, forward_translation, resolve, access_length,
}
use qbox_platform.Atu.Translate.Visit.{admits, Translated}
use qbox_platform.Atu.Translate.Search.{NoneBefore, translate_range_first, translate_range_sound}

-- The code asks for no translation.
abbrev pub IsUnready : Config → Payload → Type 0
IsUnready c p = (c.initiator_bound ≡ false) ⊎ (p.bytes ≡ none) ⊎ (p.data_length ≡ 0)

abbrev pub IsReady : Config → Payload → Type 0
IsReady c p = (c.initiator_bound ≡ true) × (p.bytes ≢ none) × (p.data_length ≢ 0)

module _ (c : Config) (downstream : Downstream) (s : Atu) (p : Payload) where
  -- Whatever happens, the payload comes back with the address that it had, and the returned flag
  -- is the one that its response status shows.
  pub forward_keeps_address :
      ((forward_translation c downstream s p).1.address ≡ p.address)
      × (is_ok (forward_translation c downstream s p).1.response
          ≡ (forward_translation c downstream s p).2)
  unfolding forward_translation
  forward_keeps_address = ground arith

  sent :
      (payload : List ℕ)
      → c.initiator_bound ≡ true
      → p.bytes ≡ some payload
      → p.data_length ≢ 0
      → (translate_range c s.regs p.address p.data_length true).2 ≡ true
      → let (m, info, found) = translate_range c s.regs p.address p.data_length true in
        let answer = downstream (record p { address = info.physical }) in
        ((forward_translation c downstream s p).0.regs ≡ m)
        × ((forward_translation c downstream s p).1 ≡ record answer { address = p.address })
        × ((forward_translation c downstream s p).2 ≡ is_ok answer.response)
  unfolding forward_translation trace_translation
  sent payload b e n found = ground arith

  failed :
      (payload : List ℕ)
      → c.initiator_bound ≡ true
      → p.bytes ≡ some payload
      → p.data_length ≢ 0
      → (translate_range c s.regs p.address p.data_length true).2 ≡ false
      → ((forward_translation c downstream s p).1 ≡ record p { response = address_error })
        × ((forward_translation c downstream s p).2 ≡ false)
  unfolding forward_translation trace_translation
  failed payload b e n fault = ground arith

  unready_then :
      IsUnready c p
      → ((forward_translation c downstream s p).0.regs ≡ s.regs)
        × ((forward_translation c downstream s p).1 ≡ record p { response = address_error })
        × ((forward_translation c downstream s p).2 ≡ false)
  unfolding forward_translation trace_translation
  unready_then (inl unbound) = ground arith
  unready_then (inr (inl null)) = ground arith
  unready_then (inr (inr empty)) = ground arith

  -- The lowest region that admits the request, if any does, does not translate it.
  abbrev pub Untranslated : Type 0
  Untranslated =
      (j : ℕ)
      → j < supported_region_count s.regs
      → admits s.regs p.address (access_length p.data_length) j ≡ true
      → NoneBefore s.regs p.address (access_length p.data_length) 0 j
      → (resolve c s.regs p.address j).1 ≡ false

  -- The request was sent on to the address that the lowest region that admits it gives.
  abbrev pub Delivered : Type 0
  Delivered =
      (info : Info) × IsReady c p
      × Translated c s.regs p.address (access_length p.data_length) info
      × NoneBefore s.regs p.address (access_length p.data_length) 0 info.region
      × (info.region < supported_region_count s.regs)
      × (let answer = downstream (record p { address = info.physical }) in
          let (s', p', done) = forward_translation c downstream s p in
          (s'.regs ≡ s.regs)
          × (p' ≡ record answer { address = p.address })
          × (done ≡ is_ok answer.response))

  abbrev pub Refused : Type 0
  Refused =
      let (s', p', done) = forward_translation c downstream s p in
      (IsUnready c p × (s'.regs ≡ s.regs) ⊎ Untranslated)
      × (p' ≡ record p { response = address_error })
      × (done ≡ false)

  ready_answer :
      (payload : List ℕ)
      → c.initiator_bound ≡ true
      → p.bytes ≡ some payload
      → p.data_length ≢ 0
      → Delivered ⊎ Refused
  ready_answer payload b e n =
      elim (Bool-cases (translate_range c s.regs p.address p.data_length true).2) [
        | inl found ↦
            let (translated, lt, before, kept) =
              translate_range_sound c s.regs p.address p.data_length true found in
            let (regs, answered, flag) = sent payload b e n found in
            inl (_, (b, (λ z. cc (z, e)), n), translated, before, lt, (regs ∙ kept, answered, flag))
        | inr fault ↦
            let (answered, flag) = failed payload b e n fault in
            inr (
              inr (λ j lt admitted before.
                  sym
                    (translate_range_first c s.regs p.address p.data_length true j lt admitted
                      before).1
                  ∙ fault),
              answered,
              flag,
            )
      ]

  refused : IsUnready c p → Delivered ⊎ Refused
  refused unready =
      let (kept, answered, flag) = unready_then unready in inr (inl (unready, kept), answered, flag)

  -- A request through the socket is either delivered or refused. It is delivered, with the registers as
  -- they were, at the address that the lowest region that admits it gives, and comes back with the
  -- answer and its own address. It is refused with an address error where no initiator is bound, it has
  -- no data pointer or no length, or that region, if there is one, does not translate it.
  pub forward_delivers : Delivered ⊎ Refused
  forward_delivers = elim (Bool-cases c.initiator_bound) [
    | inl b ↦ elim (Option-cases p.bytes) [
      | inl null ↦ refused (inr (inl null))
      | inr (payload, e) ↦ elim (ℕ_discrete p.data_length 0) [
        | yes empty ↦ refused (inr (inr empty))
        | no n ↦ ready_answer payload b e n
      ]
    ]
    | inr unbound ↦ refused (inl unbound)
  ]
