-- ===== src/Device/Io/Kept.antt =====
-- What the replies of io.c leave alone: everything but the APDU buffer and what is transmitted.
use ledger_app_neo.Prelude.{ℕ, ◌-◌, ◌≡◌, refl, ap, not, ◌||◌, ltb, Bool-cases, inl, inr}
use ledger_app_neo.Sdk.{Sdk}
use ledger_app_neo.Common.Buffer.{Buffer, left, buffer_copy}
use ledger_app_neo.Device.Context.{
  Device, Context, Callback, Screens, Flow, IoState, ready, received, waiting,
}
use ledger_app_neo.Device.Io.{deliver, finish_response, io_send_sw, io_send_response}

abbrev pub Inner : Type 0
Inner = Context × Callback × Screens × Flow

abbrev pub inner : Device → Inner
inner d = (d.context, d.callback, d.screens, d.flow)

module _ (sdk : Sdk) where
  inner-deliver : (s : IoState) (d : Device) → inner (deliver sdk s d).1 ≡ inner d
  unfolding deliver
  inner-deliver ready d = refl
  inner-deliver received d = refl
  inner-deliver waiting d = refl

  pub inner-io_send_sw : (sw : ℕ) (d : Device) → inner (io_send_sw sdk sw d).1 ≡ inner d
  unfolding io_send_sw finish_response
  inner-io_send_sw sw d = inner-deliver d.io_state _

  pub inner-io_send_response :
      (b : Buffer) (sw : ℕ) (d : Device) → inner (io_send_response sdk b sw d).1 ≡ inner d
  unfolding io_send_response finish_response
  inner-io_send_response b sw d =
      elim (Bool-cases (
        ltb (sdk.io_apdu_buffer_size - 2) (left b)
        || not (buffer_copy b d.apdu_buffer 0 sdk.io_apdu_buffer_size).0)) [
          | inl refused ↦ rw refused (inner-io_send_sw _ d)
          | inr sent ↦ rw sent (inner-deliver d.io_state _)
        ]

  pub io_send_sw_context : (sw : ℕ) (d : Device) → (io_send_sw sdk sw d).1.context ≡ d.context
  io_send_sw_context sw d = ap (λ (x : Inner). x.0) (inner-io_send_sw sw d)

  pub io_send_response_context :
      (b : Buffer) (sw : ℕ) (d : Device) → (io_send_response sdk b sw d).1.context ≡ d.context
  io_send_response_context b sw d = ap (λ (x : Inner). x.0) (inner-io_send_response b sw d)

  pub io_send_sw_flow : (sw : ℕ) (d : Device) → (io_send_sw sdk sw d).1.flow ≡ d.flow
  io_send_sw_flow sw d = ap (λ (x : Inner). x.3) (inner-io_send_sw sw d)

  pub io_send_response_flow :
      (b : Buffer) (sw : ℕ) (d : Device) → (io_send_response sdk b sw d).1.flow ≡ d.flow
  io_send_response_flow b sw d = ap (λ (x : Inner). x.3) (inner-io_send_response b sw d)
