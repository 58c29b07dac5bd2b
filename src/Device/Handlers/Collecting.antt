-- ===== src/Device/Handlers/Collecting.antt =====
-- The commands of handler/sign_tx.c before the last one: the path, the network magic and the chunks.
use ledger_app_neo.Prelude.{
  All-take, ℕ, zero, suc, ◌+◌, ◌≤◌, ◌<◌, ◌≡◌, refl, ap, ◌∙◌, arith, true, List, [], ◌++◌, take,
  take_all, length, length-take, replicate, All, Bool-cases, inl, inr, Bool, false, leb, le→leb,
  not, ◌&&◌, if_false, if◌then◌else◌,
}
use mathlib.Core.Path.{subst⁻¹}
use ledger_app_neo.Word.{IsByte}
use ledger_app_neo.Sdk.{Sdk}
use ledger_app_neo.Common.Buffer.{Buffer, le, buffer_read_u32, memmove}
use ledger_app_neo.Common.Buffer.View.{number_le}
use ledger_app_neo.Common.Buffer.Reads.{buffer_read_u32-Refines}
use ledger_app_neo.Common.Buffer.Moves.{All-memmove, length-memmove, take-memmove_at}
use ledger_app_neo.Common.Bip44.{buffer_read_and_validate_bip44}
use ledger_app_neo.Transaction.Types.{empty_transaction}
use ledger_app_neo.Device.Context.{
  Context, Device, State, RequestType, Flow, zero_context, sw_ok, sw_wrong_tx_length,
}
use ledger_app_neo.Device.Io.{over, io_send_sw}
use ledger_app_neo.Device.Io.Kept.{Inner, inner, inner-io_send_sw}
use ledger_app_neo.Device.Handlers.{
  append_chunk, sign_path, sign_magic, sign_chunk, is_magic_ok, parse_and_show,
}
use ledger_app_neo.Ui.Display.{is_transaction}
use ledger_app_neo.Device.Handlers.Chunks.{Holds, received_bytes, over-IsValid, append_chunk_lem}

-- A signature for that network is in progress, these bytes of the transaction have been received, and
-- nothing has been shown.
pub record Collecting (magic : ℕ) (bytes : List ℕ) (x : Inner) : Type 0 where
  pub request : x.0.req_type ≡ RequestType.confirm_transaction
  pub holds : Holds x.0
  pub all_bytes : All IsByte x.0.raw_tx
  pub received : received_bytes x.0 ≡ bytes
  pub unparsed : x.0.transaction ≡ empty_transaction
  pub hash_length : length x.0.hash ≡ 32
  pub magic_eq : x.0.network_magic ≡ magic
  pub menu : x.3 ≡ Flow.menu_flow

pub length-received :
    {magic : ℕ} {bytes : List ℕ} {x : Inner}
    → Collecting magic bytes x
    → x.0.raw_tx_len ≡ length bytes
length-received {x = x} h =
    omega (arith, ap length h.received, length-take x.0.raw_tx_len x.0.raw_tx, h.holds)

zero_bytes : (n : ℕ) → All IsByte (replicate n 0)
zero_bytes zero = tt
zero_bytes (suc n) = (omega arith, zero_bytes n)

module _ (sdk : Sdk) where
  fresh :
      (d : Device) (path : List ℕ) (state : State)
      → d.flow ≡ Flow.menu_flow
      → Collecting 0 [] (
        record zero_context {
          req_type = RequestType.confirm_transaction;
          bip44_path = path;
          state = state;
        },
        d.callback,
        d.screens,
        d.flow,
      )
  fresh d path state h = record {
    request = refl;
    holds = record { capacity = refl; filled = omega arith };
    all_bytes = zero_bytes 1024;
    received = refl;
    unparsed = refl;
    hash_length = refl;
    magic_eq = refl;
    menu = h;
  }

  pub sign_path-Collecting :
      (path : Buffer) (d : Device)
      → d.flow ≡ Flow.menu_flow
      → Collecting 0 [] (inner (sign_path sdk path d).1)
  unfolding sign_path
  sign_path-Collecting path d menu =
      elim (Bool-cases (buffer_read_and_validate_bip44 path (replicate 5 0) 0).success) [
        | inl ok ↦ rw ok (subst⁻¹ (Collecting 0 []) (inner-io_send_sw sdk _ _) (fresh d _ _ menu))
        | inr bad ↦ rw bad (subst⁻¹ (Collecting 0 []) (inner-io_send_sw sdk _ _) (fresh d _ _ menu))
      ]

  module _ {m : ℕ} {bytes : List ℕ} (d : Device) (h : Collecting m bytes (inner d)) where
    read_magic :
        (magic : List ℕ)
        → length magic ≡ 4
        → All IsByte magic
        → ((buffer_read_u32 (over magic 4) le).success ≡ true)
          × ((buffer_read_u32 (over magic 4) le).value ≡ number_le 4 magic)
    read_magic magic four ok =
        let r =
          buffer_read_u32-Refines (over-IsValid magic 4 (omega (arith, four)) (omega arith) ok)
            le in
        let all : take 4 magic ≡ magic = take_all 4 magic (omega (arith, four)) in
        let long : leb 4 (length magic) ≡ true = le→leb 4 _ (omega (arith, four)) in
        let seen = rw long at (rw all at r.seen) in
        (ap (λ (t : Bool × ℕ × List ℕ). t.0) seen, ap (λ (t : Bool × ℕ × List ℕ). t.1) seen)

    pub sign_magic-Collecting :
        (magic : List ℕ)
        → length magic ≡ 4
        → All IsByte magic
        → Collecting (number_le 4 magic) bytes (inner (sign_magic sdk (over magic 4) d).1)
    unfolding sign_magic
    sign_magic-Collecting magic four ok =
        let (success, value) = read_magic magic four ok in
        rw (h.request, success)
          (subst⁻¹ (Collecting (number_le 4 magic) bytes) (inner-io_send_sw sdk _ _) (record {
            request = refl;
            holds = record { capacity = h.holds.capacity; filled = h.holds.filled };
            all_bytes = h.all_bytes;
            received = h.received;
            unparsed = h.unparsed;
            hash_length = h.hash_length;
            magic_eq = value;
            menu = h.menu;
          }))

    module _ (chunk : List ℕ) (small : length chunk < 256) (ok : All IsByte chunk)
        (room : length bytes + length chunk ≤ 1024) where
      -- The context with the chunk behind the received bytes.
      abbrev pub appended : Context
      appended = record (d.context) {
        raw_tx = memmove d.context.raw_tx d.context.raw_tx_len (take (length chunk) chunk);
        raw_tx_len = d.context.raw_tx_len + length chunk;
      }

      fits : d.context.raw_tx_len + length chunk ≤ 1024
      fits = omega (arith, length-received h, room)

      pub append_chunk-appended :
          append_chunk sdk (over chunk (length chunk)) d.context ≡ (true, appended)
      append_chunk-appended =
          append_chunk_lem sdk chunk (length chunk) (omega arith) small ok h.holds fits

      pub appended-Collecting :
          Collecting m (bytes ++ chunk) (appended, d.callback, d.screens, d.flow)
      appended-Collecting =
          let whole : take (length chunk) chunk ≡ chunk =
            take_all (length chunk) chunk (omega arith) in
          record {
            request = h.request;
            holds = record {
              capacity =
                  length-memmove d.context.raw_tx d.context.raw_tx_len (take (length chunk) chunk)
                  ∙ h.holds.capacity;
              filled = fits;
            };
            all_bytes =
                All-memmove d.context.raw_tx d.context.raw_tx_len (take (length chunk) chunk)
                  h.all_bytes (All-take IsByte (length chunk) chunk ok);
            received =
                take-memmove_at d.context.raw_tx d.context.raw_tx_len (take (length chunk) chunk)
                  (d.context.raw_tx_len + length chunk) (omega (arith, ap length whole))
                  (omega (arith, h.holds, ap length whole, fits))
                ∙ (ap (λ xs. received_bytes d.context ++ xs) whole
                    ∙ ap (λ xs. xs ++ chunk) h.received);
            unparsed = h.unparsed;
            hash_length = h.hash_length;
            magic_eq = h.magic_eq;
            menu = h.menu;
          }

      -- A chunk that fits, before the last one and as the last one.
      pub sign_chunk_eq :
          (more : Bool)
          → sign_chunk sdk (over chunk (length chunk)) more d ≡ (
              if more
              then io_send_sw sdk sw_ok (record d { context = appended })
              else parse_and_show sdk (record d { context = appended }))
      unfolding sign_chunk
      sign_chunk_eq more =
          let asked : not (is_transaction sdk d.context.req_type) ≡ false =
            ap (λ q. not (is_transaction sdk q)) h.request in
          if_false
            (not (is_transaction sdk d.context.req_type) && not (is_magic_ok sdk d.context.state)) _
            _ (ap (λ b. b && not (is_magic_ok sdk d.context.state)) asked)
          ∙ ap
              (λ (r : Bool × Context).
                let d' = record d { context = r.1 } in
                if r.0
                then (if more then io_send_sw sdk sw_ok d' else parse_and_show sdk d')
                else io_send_sw sdk sw_wrong_tx_length d')
              append_chunk-appended

      pub sign_chunk-Collecting :
          Collecting m
            (bytes ++ chunk)
            (inner (sign_chunk sdk (over chunk (length chunk)) true d).1)
      sign_chunk-Collecting =
          rw (sign_chunk_eq true)
            (subst⁻¹ (Collecting m (bytes ++ chunk)) (inner-io_send_sw sdk _ _) appended-Collecting)
