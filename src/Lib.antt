-- ===== src/Lib.antt =====
-- The NEO N3 application for Ledger devices: what it does between the bytes of a command and its reply.
--
-- The host sends a command (an APDU). The main loop (src/main.c, Apdu/Loop) receives it (src/io.c,
-- Device/Io), splits it into its fields (src/apdu/parser.c, Apdu/Parser) and gives it to a handler
-- (src/apdu/dispatcher.c, Apdu/Dispatcher). A handler (src/handler/, src/helper/, Device/Handlers) reads a
-- derivation path (src/common/bip44.c, Common/Bip44), the network magic or a part of the transaction; with
-- the last part the transaction is parsed (src/transaction/deserialize.c, Transaction/Deserialize), its
-- script is compared with that of a transfer (src/transaction/tx_utils.c, Transaction/Transfer), and it is
-- shown (src/ui/display.c, Ui/Display, Ui/Steps, Ui/Signers, Ui/Navigation). The user's answer
-- (src/ui/action/validate.c, Device/Handlers) sends an address or signs (src/crypto.c, Device/Crypto), and
-- the menu (src/ui/menu.c, Ui/Menu) comes back.
--
-- Everything is read through a cursor over bytes (src/common/buffer.c, Common/Buffer, with
-- src/common/read.c, src/common/write.c and src/common/varint.c in Common/Read, Common/Write and
-- Common/Varint). Texts are made by src/common/format.c (Common/Format), src/common/base58.c
-- (Common/Base58) and src/ui/utils.c (Ui/Utils).
--
-- State. `Device` (Device/Context) is the global variables: G_context, G_io_state, G_output_len, the APDU
-- buffer, what was transmitted, the shown flow with its callback, and the screens' texts. The public key
-- is the first 64 bytes of the raw transaction, since both are members of one union. A handler is a
-- function from a device to its result and the device after it; a call of the SDK that throws is a
-- value of `Call`.
--
-- Parsers. Deserialize and Transfer are written in a small monad (Transaction/Monad) over the buffer and
-- the transaction that is filled, in which `stop` is an early return. Transaction/Monad/Inversion says
-- what a run that goes on has consumed, Transaction/Monad/Keeps which parts of the transaction a run
-- leaves alone. Transaction/Deserialize/Runs goes through the stages once, for any relation of the states
-- before and after that their reads and stores keep. A pointer into the raw transaction is its offset.
--
-- Runs. Device/Handlers/Session puts the commands of a signature one after the other, Apdu/Session sends
-- them through the dispatcher. Apdu/Loop/Session has
-- the runs of the whole application: rounds of the main loop, in each of which the user may press buttons
-- of the shown flow any number of times while the next command is waited for, a button's call or the
-- device may throw, and restarts.
--
-- Numbers. Casts and shifts are arithmetic modulo a power of two (Word); `size_t` has 32 bits, as on the
-- device; an int64_t is an integer of Prelude/Int. Memory is a list of bytes: reads beyond it give 0 and
-- writes beyond it are dropped.
--
-- Fuel. The loops run on their number of rounds: the digits of a uint64_t are at most 20, those of a
-- uint32_t at most 10; base58_decode moves past one letter in each round. `next_prop` and `prev_prop`
-- call themselves once at most, since a signer always has a property to stop at, so two levels are
-- given.
--
-- The SDK of the device (Sdk) is a parameter: comparison of memory, SHA-256, RIPEMD-160, key derivation,
-- key pairs, signatures, and the exchange of buffers. Only the documented behaviour of the comparison is
-- assumed, as `Compares`, where a theorem names it.
--
-- Not modelled: the boot code of src/main.c, which only calls the SDK; what the SDK does with an event that
-- src/io.c gives to it (Device/Io/Events), how it draws a step, and that it takes the user from step to step.
pub mod Prelude
pub mod Word
pub mod Sdk
pub mod Common
pub mod Ui
pub mod Transaction
pub mod Device
pub mod Apdu
mod Tests
