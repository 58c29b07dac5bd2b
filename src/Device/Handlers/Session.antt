-- ===== src/Device/Handlers/Session.antt =====
-- A whole signature through handler/sign_tx.c: the path, the network magic and the chunks of the
-- transaction, up to what is shown with the last one.
use ledger_app_neo.Prelude.{
  ℕ, suc, ◌+◌, ◌≤◌, ◌<◌, ◌≡◌, refl, ap, ◌∙◌, arith, Bool, true, false, List, [], ◌∷◌, ◌++◌,
  append_assoc, append-nil, length, All, ◌==◌, ℤ, length-append,
}
use mathlib.Core.Path.{subst, subst⁻¹}
use ledger_app_neo.Word.{IsByte}
use ledger_app_neo.Sdk.{Sdk, Compares}
use ledger_app_neo.Common.Buffer.{Buffer}
use ledger_app_neo.Common.Buffer.View.{number_le}
use ledger_app_neo.Device.Context.{Device, Flow}
use ledger_app_neo.Device.Io.{over}
use ledger_app_neo.Device.Io.Kept.{inner}
use ledger_app_neo.Device.Handlers.Offers.{parse_and_show-offers}
use ledger_app_neo.Transaction.Transfer.Script.{IsTransfer}
use ledger_app_neo.Transaction.Deserialize.Layout.{TransactionCode}
use ledger_app_neo.Device.Handlers.{
  parse_and_show, sign_chunk, handler_sign_tx, sign_path, sign_magic,
}
use ledger_app_neo.Device.Handlers.Collecting.{
  Collecting, sign_path-Collecting, sign_magic-Collecting, appended, appended-Collecting,
  sign_chunk_eq, sign_chunk-Collecting,
}
use ledger_app_neo.Device.Handlers.Presented.{Presented}

-- The data of a command.
abbrev pub IsChunk : List ℕ → Type 0
IsChunk xs = (length xs < 256) × All IsByte xs

abbrev pub joined : List (List ℕ) → List ℕ
joined [] = []
joined (xs ∷ xss) = xs ++ joined xss

module _ (sdk : Sdk) where
  -- The chunks before the last one, from the number `n` on.
  abbrev pub send_chunks : ℕ → List (List ℕ) → Device → Device
  send_chunks n [] d = d
  send_chunks n (xs ∷ xss) d =
      send_chunks (suc n) xss (handler_sign_tx sdk (over xs (length xs)) n true d).1

  -- The commands of a signature, in order.
  abbrev pub sign_session : Buffer → List ℕ → List (List ℕ) → List ℕ → Device → Device
  sign_session path magic chunks last d =
      let d0 = (handler_sign_tx sdk path 0 true d).1 in
      let d1 = (handler_sign_tx sdk (over magic 4) 1 true d0).1 in
      let d2 = send_chunks 2 chunks d1 in
      (handler_sign_tx sdk (over last (length last)) (suc (suc (length chunks))) false d2).1

  handler_chunk :
      (cdata : Buffer) (n : ℕ) (more : Bool) (d : Device)
      → handler_sign_tx sdk cdata (suc (suc n)) more d ≡ sign_chunk sdk cdata more d
  unfolding handler_sign_tx
  handler_chunk cdata n more d =
      let not_first : (suc (suc n) == 0) ≡ false = ground arith in
      let not_second : (suc (suc n) == 1) ≡ false = ground arith in rw (not_first, not_second)

  send_chunks-Collecting :
      {m : ℕ} (chunks : List (List ℕ)) (n : ℕ) (bytes : List ℕ) (d : Device)
      → Collecting m bytes (inner d)
      → All IsChunk chunks
      → length bytes + length (joined chunks) ≤ 1024
      → Collecting m (bytes ++ joined chunks) (inner (send_chunks (suc (suc n)) chunks d))
  send_chunks-Collecting {m} [] n bytes d h ok room =
      subst⁻¹ (λ xs. Collecting m xs (inner d)) (append-nil bytes) h
  send_chunks-Collecting {m} (xs ∷ xss) n bytes d h ok room =
      let sum = length-append xs (joined xss) in
      let next =
        subst⁻¹ (Collecting m (bytes ++ xs))
          (ap (λ (r : ℤ × Device). inner r.1) (handler_chunk (over xs (length xs)) n true d))
          (sign_chunk-Collecting sdk d h xs ok.0.0 ok.0.1 (omega (arith, sum, room))) in
      subst (λ ys. Collecting m ys (inner (send_chunks (suc (suc n)) (xs ∷ xss) d)))
        (append_assoc bytes xs (joined xss))
        (send_chunks-Collecting xss (suc n) (bytes ++ xs) _ next ok.1
          (omega (arith, sum, length-append bytes xs, room)))

module _ (sdk : Sdk) (compares : Compares sdk) where
  handler_path :
      (path : Buffer) (more : Bool) (d : Device)
      → handler_sign_tx sdk path 0 more d ≡ sign_path sdk path d
  unfolding handler_sign_tx
  handler_path path more d = refl

  handler_magic :
      (magic : Buffer) (more : Bool) (d : Device)
      → handler_sign_tx sdk magic 1 more d ≡ sign_magic sdk magic d
  unfolding handler_sign_tx
  handler_magic magic more d = refl

  -- What the last command works on: the received bytes.
  record Sent (magic bytes : List ℕ) (d : Device) : Type 0 where
    before : Device
    collected : Collecting (number_le 4 magic) bytes (inner before)
    result_eq : d ≡ (parse_and_show sdk before).1

  sign_session-Sent :
      (path : Buffer) (magic : List ℕ) (chunks : List (List ℕ)) (last : List ℕ) (d : Device)
      → length magic ≡ 4
      → All IsByte magic
      → All IsChunk chunks
      → IsChunk last
      → length (joined chunks ++ last) ≤ 1024
      → d.flow ≡ Flow.menu_flow
      → Sent magic (joined chunks ++ last) (sign_session sdk path magic chunks last d)
  sign_session-Sent path magic chunks last d four ok chunks_ok last_ok room menu =
      let sum = length-append (joined chunks) last in
      let d0 = (handler_sign_tx sdk path 0 true d).1 in
      let d1 = (handler_sign_tx sdk (over magic 4) 1 true d0).1 in
      let d2 = send_chunks sdk 2 chunks d1 in
      let m = number_le 4 magic in
      let h0 =
        subst⁻¹ (Collecting 0 []) (ap (λ (r : ℤ × Device). inner r.1) (handler_path path true d))
          (sign_path-Collecting sdk path d menu) in
      let h1 =
        subst⁻¹ (Collecting m [])
          (ap (λ (r : ℤ × Device). inner r.1) (handler_magic (over magic 4) true d0))
          (sign_magic-Collecting sdk d0 h0 magic four ok) in
      let h2 = send_chunks-Collecting sdk chunks 0 [] d1 h1 chunks_ok (omega (arith, sum, room)) in
      let fits : length (joined chunks) + length last ≤ 1024 = omega (arith, sum, room) in
      record {
        before = record d2 { context = appended sdk d2 h2 last last_ok.0 last_ok.1 fits };
        collected = appended-Collecting sdk d2 h2 last last_ok.0 last_ok.1 fits;
        result_eq =
            ap (λ (r : ℤ × Device). r.1)
              (handler_chunk sdk (over last (length last)) (length chunks) false d2
                ∙ sign_chunk_eq sdk d2 h2 last last_ok.0 last_ok.1 fits false);
      }

  -- With a comparison that behaves as documented, from the menu, for a network magic of four bytes and chunks
  -- of fewer than 256 bytes and 1024 in all: where the concatenated chunks have the layout of a
  -- transaction whose script is a transfer of NEO or GAS, the commands of a signature end with the
  -- flow that can be approved.
  pub sign_session-offers :
      (path : Buffer) (magic : List ℕ) (chunks : List (List ℕ)) (last : List ℕ) (d : Device)
      (script : List ℕ) (amount : ℤ) (destination : List ℕ) (neo : Bool)
      → length magic ≡ 4
      → All IsByte magic
      → All IsChunk chunks
      → IsChunk last
      → length (joined chunks ++ last) ≤ 1024
      → d.flow ≡ Flow.menu_flow
      → TransactionCode (joined chunks ++ last) script
      → IsTransfer script amount destination neo
      → (sign_session sdk path magic chunks last d).flow ≡ Flow.transaction_flow
  sign_session-offers path magic chunks last d script amount destination neo four ok chunks_ok
        last_ok room menu code transfer =
      let s = sign_session-Sent path magic chunks last d four ok chunks_ok last_ok room menu in
      ap (λ (d : Device). d.flow) s.result_eq
      ∙ parse_and_show-offers sdk compares s.before script amount destination neo s.collected code
          transfer
