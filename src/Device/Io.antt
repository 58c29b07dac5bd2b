-- ===== src/Device/Io.antt =====
-- io.c: how a response is laid out, queued or sent, and how a command is received.
pub mod Framing
pub mod Kept
pub mod Events
use ledger_app_neo.Prelude.{
  ℕ, ◌+◌, ◌-◌, ◌||◌, ◌&&◌, not, length as len, Bool, true, false, Option, none, some, List, [], ◌∷◌,
  take, ltb, if◌then◌else◌, ℤ, pos, negsuc,
}
use ledger_app_neo.Sdk.{Sdk, Call, returns, throws}
use ledger_app_neo.Common.Buffer.{Buffer, left, buffer_copy, memmove}
use ledger_app_neo.Common.Write.{write_u16_be}
use ledger_app_neo.Device.Context.{
  Device, IoState, ready, received, waiting, sw_wrong_response_length,
}

-- What a function with an `int` result leaves.
abbrev pub Reply : Type 0
Reply = ℤ × Device

-- A buffer over whole bytes.
abbrev pub over : List ℕ → ℕ → Buffer
over bytes size = record { ptr = bytes; size = size; offset = 0 }

module _ (sdk : Sdk) where
  -- `switch (G_io_state)` of `io_send_response`: queued behind the running exchange, or sent at once.
  unfoldable pub deliver : IoState → Device → Reply
  deliver ready d = (negsuc 0, d)
  deliver received d = (pos 0, record d { io_state = ready })
  deliver waiting d =
      let sent = take d.output_len d.apdu_buffer in
      (
        sdk.io_exchange_reply sent,
        record d { transmitted = sent ∷ d.transmitted; output_len = 0; io_state = ready },
      )

  -- The status word behind the data that is in the buffer.
  unfoldable pub finish_response : ℕ → ℕ → Device → Reply
  unfolding deliver
  finish_response length sw d =
      deliver d.io_state
        (record d { apdu_buffer = write_u16_be d.apdu_buffer length sw; output_len = length + 2 })

  unfoldable pub io_send_sw : ℕ → Device → Reply
  unfolding finish_response
  io_send_sw sw d = finish_response 0 sw d

  unfoldable pub io_send_response : Buffer → ℕ → Device → Reply
  unfolding io_send_sw
  io_send_response rdata sw d =
      let (copied, buffer) = buffer_copy rdata d.apdu_buffer 0 sdk.io_apdu_buffer_size in
      if ltb (sdk.io_apdu_buffer_size - 2) (left rdata) || not copied
      then io_send_sw sw_wrong_response_length d
      else finish_response (left rdata) sw (record d { apdu_buffer = buffer })

-- A call that returns with the state after it, or an exception with the state that it leaves.
abbrev pub Waiting : Type 0
Waiting = Call (Unit {0}) × Device

-- The next command is put into the buffer, unless an event threw.
abbrev pub take_command : List ℕ → Waiting → Waiting
take_command command (throws e, d) = (throws e, d)
take_command command (returns _, d) =
    (returns tt, record d { apdu_buffer = memmove d.apdu_buffer 0 command })

-- `io_exchange` sends what is queued, but not where the reply is to come later (`asynch`), and then
-- waits for a command. `during` is what the events do that it handles while it waits, such as an answer
-- of the user.
abbrev pub exchange : Bool → (Device → Waiting) → List ℕ → Device → Waiting
exchange asynch during command d =
    let sent = take d.output_len d.apdu_buffer in
    take_command command (
      during (record d {
        transmitted =
            if ltb 0 d.output_len && not asynch then sent ∷ d.transmitted else d.transmitted;
      }))

-- The returned length, once the exchange has returned.
abbrev pub received_command : ℕ → (Device → Device) → Waiting → Call ℤ × Device
received_command length after (throws e, d) = (throws e, d)
received_command length after (returns _, d) = (returns (pos length), after d)

-- `command` is the next command of the host.
unfoldable pub io_recv_command : IoState → (Device → Waiting) → List ℕ → Device → Call ℤ × Device
io_recv_command ready during command d =
    received_command (len command) (λ d'. d')
      (exchange false during command (record d { io_state = received }))
io_recv_command received during command d =
    received_command (len command) (λ d'. record d' { io_state = received })
      (exchange true during command (record d { io_state = waiting }))
io_recv_command waiting during command d = (returns (negsuc 0), record d { io_state = ready })
