-- ===== src/Tests/Commands.antt =====
-- The commands, at concrete ones.
use ledger_app_neo.Prelude.{ℕ, ◌≡◌, ◌↔◌, refl, true, some, length, List, [], ◌∷◌, replicate, arith}
use ledger_app_neo.Common.Buffer.{Buffer}
use ledger_app_neo.Common.Buffer.View.{IsValid}
use ledger_app_neo.Common.Bip44.{buffer_read_and_validate_bip44}
use ledger_app_neo.Common.Bip44.Accepts.{IsNeoPath, bip44_accepts, bip44_stores}
use ledger_app_neo.Device.Context.{
  Device, Context, waiting, Callback, Flow, zero_context, sw_bad_state,
}
use ledger_app_neo.Device.Io.{over, io_send_sw, io_send_response}
use ledger_app_neo.Device.Io.Framing.{io_send_response_sends}
use ledger_app_neo.Device.Crypto.{signed_data}
use ledger_app_neo.Device.Crypto.Message.{signed_data_lem}
use ledger_app_neo.Device.Handlers.{append_chunk, handler_sign_tx, handler_get_public_key}
use ledger_app_neo.Device.Handlers.Chunks.{Holds, received_bytes, append_chunk_fits}
use ledger_app_neo.Device.Handlers.Order.{
  handler_sign_tx-handler_get_public_key, chunk-after-sign_path,
}
use ledger_app_neo.Ui.Signers.{reset_signer_display_state}
use ledger_app_neo.Apdu.Parser.{Command, apdu_parser}
use ledger_app_neo.Apdu.Parser.RoundTrip.{encode, data_of, apdu_parser-encode, apdu_parser-some}
use ledger_app_neo.Tests.Inputs.{test_sdk, all_bytes_lem}

-- m/44'/888'/0'/0/0.
abbrev pub path_bytes : List ℕ
path_bytes =
    0x80 ∷ 0 ∷ 0 ∷ 0x2C ∷ 0x80 ∷ 0 ∷ 3 ∷ 0x78 ∷ 0x80 ∷ 0 ∷ 0 ∷ 0 ∷ 0 ∷ 0 ∷ 0 ∷ 0 ∷ 0 ∷ 0 ∷ 0 ∷ 0
    ∷ []

path-IsValid : IsValid (over path_bytes 20)
path-IsValid = record {
  in_size = omega arith;
  in_memory = omega arith;
  addressable = omega arith;
  bytes = all_bytes_lem path_bytes refl;
}

bip44_accepts_example :
    ((buffer_read_and_validate_bip44 (over path_bytes 20) (replicate 5 0) 0).success ≡ true)
    ↔ IsNeoPath path_bytes
bip44_accepts_example = bip44_accepts path-IsValid (omega arith) (replicate 5 0) 0

path_accepted :
    (buffer_read_and_validate_bip44 (over path_bytes 20) (replicate 5 0) 0).success ≡ true
unfolding buffer_read_and_validate_bip44 ledger_app_neo.Common.Buffer.buffer_read_u32
    ledger_app_neo.Common.Buffer.buffer_seek_cur ledger_app_neo.Common.Read.read_u32_be
path_accepted = refl

bip44_stores_example :
    (buffer_read_and_validate_bip44 (over path_bytes 20) (replicate 5 0) 0).path
    ≡ 0x8000_002C ∷ 0x8000_0378 ∷ 0x8000_0000 ∷ 0 ∷ 0 ∷ []
bip44_stores_example = bip44_stores path-IsValid (omega arith) (replicate 5 0) 0 refl path_accepted

abbrev pub device : Device
device = record {
  context = zero_context;
  io_state = waiting;
  output_len = 0;
  apdu_buffer = replicate 260 0;
  transmitted = [];
  callback = Callback.no_callback;
  screens = record {
    address = [];
    text = [];
    network = [];
    system_fee = [];
    network_fee = [];
    total_fees = [];
    valid_until_block = [];
  };
  flow = Flow.menu_flow;
  display = reset_signer_display_state;
}

abbrev chunk : List ℕ
chunk = 1 ∷ 2 ∷ 3 ∷ []

zero-Holds : Holds zero_context
zero-Holds = record { capacity = refl; filled = omega arith }

append_chunk_fits_example :
    ((append_chunk test_sdk (over chunk 3) zero_context).0 ≡ true)
    × (received_bytes (append_chunk test_sdk (over chunk 3) zero_context).1 ≡ chunk)
    × Holds (append_chunk test_sdk (over chunk 3) zero_context).1
append_chunk_fits_example =
    append_chunk_fits test_sdk chunk 3 (omega arith) (omega arith) (all_bytes_lem chunk refl)
      zero-Holds (omega arith)

abbrev full_context : Context
full_context = record zero_context { raw_tx_len = 1022 }

handler_sign_tx-handler_get_public_key_example :
    handler_sign_tx test_sdk
      (over chunk 3)
      1
      true
      (handler_get_public_key test_sdk (over path_bytes 20) true device).1
    ≡ io_send_sw test_sdk sw_bad_state
        (handler_get_public_key test_sdk (over path_bytes 20) true device).1
handler_sign_tx-handler_get_public_key_example =
    handler_sign_tx-handler_get_public_key test_sdk (over path_bytes 20) true (over chunk 3) 0 true
      device

chunk-after-sign_path_example :
    received_bytes
      (handler_sign_tx test_sdk
        (over chunk 3)
        2
        true
        (handler_sign_tx test_sdk (over path_bytes 4) 0 true device).1).1.context
    ≡ chunk
chunk-after-sign_path_example =
    chunk-after-sign_path test_sdk (over path_bytes 4) chunk 0 device (omega arith)
      (all_bytes_lem chunk refl)

signed_data_lem_example :
    signed_data test_sdk (record zero_context { network_magic = 0x0102_0304 })
    ≡ 4 ∷ 3 ∷ 2 ∷ 1 ∷ replicate 32 0
signed_data_lem_example =
    signed_data_lem test_sdk (record zero_context { network_magic = 0x0102_0304 }) refl

chunk-IsValid : IsValid (over chunk 3)
chunk-IsValid = record {
  in_size = omega arith;
  in_memory = omega arith;
  addressable = omega arith;
  bytes = all_bytes_lem chunk refl;
}

io_send_response_sends_example :
    (io_send_response test_sdk (over chunk 3) 0x9000 device).1.transmitted
    ≡ (1 ∷ 2 ∷ 3 ∷ 0x90 ∷ 0 ∷ []) ∷ []
io_send_response_sends_example =
    io_send_response_sends test_sdk (over chunk 3) chunk-IsValid device (omega arith) (omega arith)
      0x9000 refl

apdu_parser-encode_example :
    apdu_parser (0x80 ∷ 2 ∷ 0 ∷ 0x80 ∷ 3 ∷ chunk) 8
    ≡ some (record { cla = 0x80; ins = 2; p1 = 0; p2 = 0x80; lc = 3; cdata = some chunk })
apdu_parser-encode_example = apdu_parser-encode 0x80 2 0 0x80 chunk

abbrev sign_command : Command
sign_command = record { cla = 0x80; ins = 2; p1 = 0; p2 = 0x80; lc = 3; cdata = some chunk }

apdu_parser-some_example :
    (bytes : List ℕ) × (0x80 ∷ 2 ∷ 0 ∷ 0x80 ∷ 3 ∷ chunk ≡ encode 0x80 2 0 0x80 bytes)
    × (3 ≡ length bytes)
    × (some chunk ≡ data_of bytes)
apdu_parser-some_example =
    apdu_parser-some (0x80 ∷ 2 ∷ 0 ∷ 0x80 ∷ 3 ∷ chunk) {cmd = sign_command}
      apdu_parser-encode_example
