-- ===== src/Device/Sound.antt =====
-- The memory behind the global variables: its sizes never change, the raw transaction fits into it, and
-- the callback belongs to the flow that is shown.
use ledger_app_neo.Prelude.{
  ℕ, ◌+◌, ◌-◌, ◌≤◌, ◌≡◌, ◌∙◌, List, length, ltb, Bool, true, false, if◌then◌else◌, Bool-cases, inl,
  inr, length-set, take, drop,
}
use ledger_app_neo.Sdk.{Sdk}
use ledger_app_neo.Common.Buffer.{Buffer, left, buffer_copy, memmove}
use ledger_app_neo.Common.Buffer.Moves.{length-memmove}
use ledger_app_neo.Common.Write.{write_u16_be}
use ledger_app_neo.Device.Context.{Device, Callback, Flow, IoState, ready, received, waiting}
use ledger_app_neo.Device.Io.{Reply, deliver, finish_response, io_send_sw, io_send_response}

-- The callback is the one of the flow that is shown.
abbrev pub Matches : Callback → Flow → Type 0
Matches c Flow.menu_flow = Unit
Matches c Flow.about_flow = Unit
Matches c Flow.pubkey_flow = c ≡ Callback.validate_pubkey
Matches c Flow.abort_flow = c ≡ Callback.validate_transaction
Matches c Flow.transaction_flow = c ≡ Callback.validate_transaction

-- The sizes of `raw_tx`, `hash`, `signature` and the APDU buffer, and the filled part of the first.
pub record Memory (size : ℕ) (raw_tx : List ℕ) (raw_tx_len : ℕ)
    (hash signature apdu_buffer : List ℕ) (callback : Callback) (flow : Flow) : Type 0 where
  pub raw_tx_size : length raw_tx ≡ 1024
  pub filled : raw_tx_len ≤ 1024
  pub hash_size : length hash ≡ 32
  pub signature_size : length signature ≡ 72
  pub apdu_size : length apdu_buffer ≡ size
  pub matched : Matches callback flow

abbrev pub Sound : ℕ → Device → Type 0
Sound size d =
    Memory size d.context.raw_tx d.context.raw_tx_len d.context.hash d.context.signature
      d.apdu_buffer d.callback d.flow

-- Another flow is shown.
pub in_flow :
    {size : ℕ} {raw_tx : List ℕ} {raw_tx_len : ℕ} {hash signature apdu_buffer : List ℕ}
    {c : Callback} {flow : Flow} (flow' : Flow)
    → Matches c flow'
    → Memory size raw_tx raw_tx_len hash signature apdu_buffer c flow
    → Memory size raw_tx raw_tx_len hash signature apdu_buffer c flow'
in_flow flow' matched h = record {
  raw_tx_size = h.raw_tx_size;
  filled = h.filled;
  hash_size = h.hash_size;
  signature_size = h.signature_size;
  apdu_size = h.apdu_size;
  matched = matched;
}

-- The menu has no callback.
pub in_menu :
    {size : ℕ} {raw_tx : List ℕ} {raw_tx_len : ℕ} {hash signature apdu_buffer : List ℕ}
    {c : Callback} {flow : Flow}
    → Memory size raw_tx raw_tx_len hash signature apdu_buffer c flow
    → Memory size raw_tx raw_tx_len hash signature apdu_buffer c Flow.menu_flow
in_menu h = in_flow Flow.menu_flow tt h

pub with_apdu :
    {size : ℕ} (d : Device) (bytes : List ℕ)
    → length bytes ≡ length d.apdu_buffer
    → Sound size d
    → Sound size (record d { apdu_buffer = bytes })
with_apdu d bytes e h = record {
  raw_tx_size = h.raw_tx_size;
  filled = h.filled;
  hash_size = h.hash_size;
  signature_size = h.signature_size;
  apdu_size = e ∙ h.apdu_size;
  matched = h.matched;
}

-- A handler or a display that leaves the memory sound.
abbrev pub KeepsSound : ℕ → (Device → Reply) → Type 0
KeepsSound size next = (d : Device) → Sound size d → Sound size (next d).1

pub if-Sound :
    (size : ℕ) (test : Bool) (r s : Reply)
    → Sound size r.1
    → Sound size s.1
    → Sound size (if test then r else s).1
if-Sound size true r s h k = h
if-Sound size false r s h k = k

length-write_u16_be : (xs : List ℕ) (i n : ℕ) → length (write_u16_be xs i n) ≡ length xs
unfolding write_u16_be
length-write_u16_be xs i n = length-set _ _ _ ∙ length-set _ _ _

module _ (sdk : Sdk) (size : ℕ) where
  deliver-Sound : (s : IoState) (d : Device) → Sound size d → Sound size (deliver sdk s d).1
  unfolding deliver
  deliver-Sound ready d h = h
  deliver-Sound received d h = h
  deliver-Sound waiting d h = h

  finish_response-Sound :
      (n sw : ℕ) (d : Device) → Sound size d → Sound size (finish_response sdk n sw d).1
  unfolding finish_response
  finish_response-Sound n sw d h =
      deliver-Sound d.io_state
        (record d { apdu_buffer = write_u16_be d.apdu_buffer n sw; output_len = n + 2 })
        (with_apdu d (write_u16_be d.apdu_buffer n sw) (length-write_u16_be d.apdu_buffer n sw) h)

  pub io_send_sw-Sound : (sw : ℕ) (d : Device) → Sound size d → Sound size (io_send_sw sdk sw d).1
  unfolding io_send_sw
  io_send_sw-Sound sw d h = finish_response-Sound 0 sw d h

  pub io_send_response-Sound :
      (b : Buffer) (sw : ℕ) (d : Device) → Sound size d → Sound size (io_send_response sdk b sw d).1
  unfolding io_send_response buffer_copy
  io_send_response-Sound b sw d h =
      let bytes = take (left b) (drop b.offset b.ptr) in
      let copied = memmove d.apdu_buffer 0 bytes in
      elim (Bool-cases (ltb (sdk.io_apdu_buffer_size - 2) (left b))) [
        | inl large ↦ rw large (io_send_sw-Sound _ d h)
        | inr small ↦ rw small (elim (Bool-cases (ltb sdk.io_apdu_buffer_size (left b))) [
          | inl large ↦ rw large (io_send_sw-Sound _ d h)
          | inr fits ↦ rw fits (
              finish_response-Sound (left b) sw (record d { apdu_buffer = copied })
                (with_apdu d copied (length-memmove d.apdu_buffer 0 bytes) h))
        ])
      ]
