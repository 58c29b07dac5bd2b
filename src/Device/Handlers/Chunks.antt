-- ===== src/Device/Handlers/Chunks.antt =====
-- `append_chunk` of handler/sign_tx.c: the raw transaction is the concatenation of the chunks.
use ledger_app_neo.Prelude.{
  ℕ, ◌+◌, ◌≤◌, ◌<◌, ◌≡◌, refl, ap, ◌∙◌, arith, true, List, ◌++◌, take, length, length-take, All,
  le→ltb,
}
use ledger_app_neo.Word.{IsByte}
use ledger_app_neo.Sdk.{Sdk}
use ledger_app_neo.Common.Buffer.{buffer_move, memmove}
use ledger_app_neo.Common.Buffer.View.{IsValid, remaining, ahead}
use ledger_app_neo.Common.Buffer.Moves.{buffer_move_all, take-memmove_at, length-memmove}
use ledger_app_neo.Device.Context.{Context}
use ledger_app_neo.Device.Io.{over}
use ledger_app_neo.Device.Handlers.{append_chunk}

-- The bytes of the transaction that have been received.
abbrev pub received_bytes : Context → List ℕ
received_bytes c = take c.raw_tx_len c.raw_tx

-- The memory for the raw transaction, and how much of it is filled.
pub record Holds (c : Context) : Type 0 where
  pub capacity : length c.raw_tx ≡ 1024
  pub filled : c.raw_tx_len ≤ 1024

-- The data of a command is a valid buffer.
pub over-IsValid :
    (bytes : List ℕ) (size : ℕ)
    → size ≤ length bytes
    → size < 256
    → All IsByte bytes
    → IsValid (over bytes size)
over-IsValid bytes size fits small ok = record {
  in_size = omega arith;
  in_memory = fits;
  addressable = omega arith;
  bytes = ok;
}

module _ (sdk : Sdk) (bytes : List ℕ) (size : ℕ) (fits : size ≤ length bytes) (small : size < 256)
    (ok : All IsByte bytes) {c : Context} (h : Holds c) where
  chunk_remaining : remaining (over bytes size) ≡ take size bytes
  chunk_remaining = ap (λ n. take n bytes) (omega arith)

  moves :
      buffer_move (over bytes size) c.raw_tx c.raw_tx_len size
      ≡ (true, memmove c.raw_tx c.raw_tx_len (take size bytes), ahead (over bytes size) size)
  moves = rw (← chunk_remaining) (
      buffer_move_all (over-IsValid bytes size fits small ok) c.raw_tx c.raw_tx_len size
        (omega arith))

  pub append_chunk_lem :
      c.raw_tx_len + size ≤ 1024
      → append_chunk sdk (over bytes size) c ≡ (
        true,
        record c {
          raw_tx = memmove c.raw_tx c.raw_tx_len (take size bytes);
          raw_tx_len = c.raw_tx_len + size;
        },
      )
  unfolding append_chunk
  append_chunk_lem room = rw (moves, le→ltb 1024 _ room)

  -- Where the 1024 bytes of memory hold the bytes received so far, and the data of a command, `size`
  -- < 256 bytes of `bytes`, still fits behind them: the chunk is taken, the received bytes are then
  -- those from before followed by the chunk, and the memory still holds them.
  pub append_chunk_fits :
      c.raw_tx_len + size ≤ 1024
      → ((append_chunk sdk (over bytes size) c).0 ≡ true)
        × (received_bytes (append_chunk sdk (over bytes size) c).1
            ≡ received_bytes c ++ take size bytes)
        × Holds (append_chunk sdk (over bytes size) c).1
  unfolding append_chunk
  append_chunk_fits room =
      let chunk_length : length (take size bytes) ≡ size = omega (arith, length-take size bytes) in
      rw (moves, le→ltb 1024 _ room)
        (
          refl,
          take-memmove_at c.raw_tx c.raw_tx_len (take size bytes) (c.raw_tx_len + size)
              (omega (arith, chunk_length)) (omega (arith, h)),
          record {
            capacity = length-memmove c.raw_tx c.raw_tx_len (take size bytes) ∙ h.capacity;
            filled = room;
          },
        )
