-- ===== src/Device/Io/Framing.antt =====
-- What io.c sends to the host.
use ledger_app_neo.Prelude.{
  ℕ, zero, suc, ◌+◌, ◌-◌, ◌≤◌, ◌≡◌, refl, ap, ◌∙◌, arith, false, List, [], ◌∷◌, ◌++◌, take, length,
  ltb, le→ltb,
}
use ledger_app_neo.Word.{u8, ◌>>>◌}
use ledger_app_neo.Sdk.{Sdk}
use ledger_app_neo.Common.Buffer.{Buffer, buffer_copy, memmove}
use ledger_app_neo.Common.Buffer.View.{IsValid, remaining, left-eq, length-remaining}
use ledger_app_neo.Common.Buffer.Moves.{take-memmove_at, length-memmove}
use ledger_app_neo.Common.Write.{write_u16_be}
use ledger_app_neo.Device.Context.{Device, waiting}
use ledger_app_neo.Device.Io.{io_send_response, finish_response, deliver}

-- A status word, most significant byte first.
abbrev pub status_bytes : ℕ → List ℕ
status_bytes sw = u8 (sw >>> 8) ∷ u8 (sw >>> 0) ∷ []

take-write_u16_be :
    (xs : List ℕ) (n sw : ℕ)
    → n + 2 ≤ length xs
    → take (n + 2) (write_u16_be xs n sw) ≡ take n xs ++ status_bytes sw
unfolding write_u16_be
take-write_u16_be [] n sw h = absurd (omega arith)
take-write_u16_be (x ∷ []) zero sw h = absurd (omega arith)
take-write_u16_be (x ∷ y ∷ xs) zero sw h = refl
take-write_u16_be (x ∷ xs) (suc n) sw h =
    let next : suc n + 2 ≡ suc (n + 2) = omega arith in
    let e0 : suc n + 0 ≡ suc (n + 0) = omega arith in
    let e1 : suc n + 1 ≡ suc (n + 1) = omega arith in
    rw (next, e0, e1) (ap (◌∷◌ x) (take-write_u16_be xs n sw (omega arith)))

module _ (sdk : Sdk) where
  finish_response-waiting :
      (n sw : ℕ) (d : Device)
      → d.io_state ≡ waiting
      → n + 2 ≤ length d.apdu_buffer
      → (finish_response sdk n sw d).1.transmitted
        ≡ (take n d.apdu_buffer ++ status_bytes sw) ∷ d.transmitted
  unfolding finish_response deliver
  finish_response-waiting n sw d w h = rw (w, take-write_u16_be d.apdu_buffer n sw h)

  module _ (rdata : Buffer) (v : IsValid rdata) (d : Device)
      (fits : length (remaining rdata) + 2 ≤ sdk.io_apdu_buffer_size)
      (memory : sdk.io_apdu_buffer_size ≤ length d.apdu_buffer) where
    -- Where the host waits for the reply, and the unread bytes of a valid buffer and two more fit into the
    -- APDU buffer, what is sent is these bytes followed by the status word, most significant byte first,
    -- and nothing else is sent.
    pub io_send_response_sends :
        (sw : ℕ)
        → d.io_state ≡ waiting
        → (io_send_response sdk rdata sw d).1.transmitted
          ≡ (remaining rdata ++ status_bytes sw) ∷ d.transmitted
    unfolding io_send_response buffer_copy
    io_send_response_sends sw w =
        let n = rdata.size - rdata.offset in
        let room : ltb (sdk.io_apdu_buffer_size - 2) n ≡ false =
          le→ltb _ n (omega (arith, length-remaining v)) in
        let copies : ltb sdk.io_apdu_buffer_size n ≡ false =
          le→ltb _ n (omega (arith, length-remaining v)) in
        let buffer = memmove d.apdu_buffer 0 (remaining rdata) in
        let taken : take n buffer ≡ remaining rdata =
          take-memmove_at d.apdu_buffer 0 (remaining rdata) n (omega (arith, length-remaining v))
            (omega (arith, length-remaining v)) in
        rw (left-eq v, room, copies)
          (finish_response-waiting n sw (record d { apdu_buffer = buffer }) w
              (omega (arith, length-remaining v, length-memmove d.apdu_buffer 0 (remaining rdata)))
            ∙ ap (λ xs. (xs ++ status_bytes sw) ∷ d.transmitted) taken)
