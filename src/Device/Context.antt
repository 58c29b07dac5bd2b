-- ===== src/Device/Context.antt =====
-- types.h, globals.h and sw.h: the global state of the application, and the status words.
use ledger_app_neo.Prelude.{ℕ, List, take, replicate}
use ledger_app_neo.Transaction.Types.{Transaction, empty_transaction}
use ledger_app_neo.Ui.Signers.{DisplayCtx}

pub data IoState : Type 0 where
  ready received waiting : IoState

pub data State : Type 0 where
  state_none state_bip44_ok state_magic_ok state_parsed state_approved : State

pub data RequestType : Type 0 where
  confirm_address confirm_transaction : RequestType

-- `G_context`. The public key and the transaction share their memory: the key is the first 64 bytes
-- of `raw_tx`.
pub record Context : Type 0 where
  pub state : State
  pub raw_tx : List ℕ
  pub raw_tx_len : ℕ
  pub transaction : Transaction
  pub hash : List ℕ
  pub signature : List ℕ
  pub signature_len : ℕ
  pub network_magic : ℕ
  pub req_type : RequestType
  pub bip44_path : List ℕ

-- `explicit_bzero (&G_context, sizeof (G_context))`.
abbrev pub zero_context : Context
zero_context = record {
  state = state_none;
  raw_tx = replicate 1024 0;
  raw_tx_len = 0;
  transaction = empty_transaction;
  hash = replicate 32 0;
  signature = replicate 72 0;
  signature_len = 0;
  network_magic = 0;
  req_type = confirm_address;
  bip44_path = replicate 5 0;
}

abbrev pub raw_public_key : Context → List ℕ
raw_public_key c = take 64 c.raw_tx

-- The callback that the approve and reject screens call.
pub data Callback : Type 0 where
  no_callback validate_pubkey validate_transaction : Callback

-- The texts on the screens, without their terminating NULs.
pub record Screens : Type 0 where
  pub address : List ℕ
  pub text : List ℕ
  pub network : List ℕ
  pub system_fee : List ℕ
  pub network_fee : List ℕ
  pub total_fees : List ℕ
  pub valid_until_block : List ℕ

-- The flows that the device can show.
pub data Flow : Type 0 where
  menu_flow about_flow pubkey_flow abort_flow transaction_flow : Flow

-- The global variables; `transmitted` is what the host was sent, the latest first.
pub record Device : Type 0 where
  pub context : Context
  pub io_state : IoState
  pub output_len : ℕ
  pub apdu_buffer : List ℕ
  pub transmitted : List (List ℕ)
  pub callback : Callback
  pub screens : Screens
  pub flow : Flow
  pub display : DisplayCtx

abbrev pub with_context : (Context → Context) → Device → Device
with_context f d = record d { context = f d.context }

abbrev pub set_state : State → Device → Device
set_state s d = with_context (λ c. record c { state = s }) d

abbrev pub sw_ok : ℕ
sw_ok = 0x9000

abbrev pub sw_deny : ℕ
sw_deny = 0x6985

abbrev pub sw_wrong_p1p2 : ℕ
sw_wrong_p1p2 = 0x6A86

abbrev pub sw_ins_not_supported : ℕ
sw_ins_not_supported = 0x6D00

abbrev pub sw_cla_not_supported : ℕ
sw_cla_not_supported = 0x6E00

abbrev pub sw_wrong_response_length : ℕ
sw_wrong_response_length = 0xB000

abbrev pub sw_wrong_tx_length : ℕ
sw_wrong_tx_length = 0xB001

abbrev pub sw_tx_parsing_fail : ℕ
sw_tx_parsing_fail = 0xB002

abbrev pub sw_bad_state : ℕ
sw_bad_state = 0xB004

abbrev pub sw_sign_fail : ℕ
sw_sign_fail = 0xB005

abbrev pub sw_magic_parsing_fail : ℕ
sw_magic_parsing_fail = 0xB106

abbrev pub sw_display_system_fee_fail : ℕ
sw_display_system_fee_fail = 0xB107

abbrev pub sw_display_network_fee_fail : ℕ
sw_display_network_fee_fail = 0xB108

abbrev pub sw_display_total_fee_fail : ℕ
sw_display_total_fee_fail = 0xB109

abbrev pub sw_display_token_transfer_amount_fail : ℕ
sw_display_token_transfer_amount_fail = 0xB10A

abbrev pub sw_convert_to_address_fail : ℕ
sw_convert_to_address_fail = 0xB200
