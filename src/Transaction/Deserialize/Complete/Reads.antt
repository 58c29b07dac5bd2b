-- ===== src/Transaction/Deserialize/Complete/Reads.antt =====
-- The reads of transaction/deserialize.c on bytes of the layout: numbers of variable length, and the header.
use ledger_app_neo.Prelude.{
  ℕ, suc, ◌^◌, ◌<◌, ◌≡◌, refl, ap, arith, true, false, List, [], ◌∷◌, ◌++◌, drop, length, ltb, ◌==◌,
  ℤ, pos, signed, is_negative,
}
use ledger_app_neo.Common.Buffer.{
  le, buffer_read_u8, buffer_read_u32, buffer_read_s64, buffer_read_varint,
}
use ledger_app_neo.Common.Buffer.View.{number_le}
use ledger_app_neo.Common.Buffer.Reads.{
  list_read, buffer_read_u8-Refines, buffer_read_u32-Refines, buffer_read_s64-Refines,
}
use ledger_app_neo.Common.Buffer.Varints.{list_varint, list_word, buffer_read_varint-Refines}
use ledger_app_neo.Common.Buffer.Cursor.{
  buffer_read_u8-ReadMoves, buffer_read_u32-ReadMoves, buffer_read_s64-ReadMoves,
  buffer_read_varint-ReadMoves,
}
use ledger_app_neo.Transaction.Types.{Transaction, ParserStatus}
use ledger_app_neo.Transaction.Monad.{Parse, ◌>>=◌, ◌>>◌, pure, stop_if, read_to}
use ledger_app_neo.Transaction.Monad.Forward.{
  At, Goes, >>=-Goes, stop_if-Goes, read_to-Goes, list_read_ahead, number_le-append,
}
use ledger_app_neo.Transaction.Deserialize.{Stage, read_varint, parse_header}
use ledger_app_neo.Transaction.Deserialize.Layout.{Varint, one, two, four, eight}

length_ne_zero : (x : ℕ) (xs : List ℕ) → (length (x ∷ xs) == 0) ≡ false
length_ne_zero x xs = ground arith

below_prefixes :
    (n : ℕ) → n < 0xFD → ((n == 0xFD) ≡ false) × ((n == 0xFE) ≡ false) × ((n == 0xFF) ≡ false)
below_prefixes n h = (ground arith, ground arith, ground arith)

word_ahead :
    (n prefix : ℕ) (xs rest : List ℕ)
    → length xs ≡ n
    → list_word n (prefix ∷ (xs ++ rest)) ≡ (true, number_le n xs, rest)
word_ahead n prefix xs rest long =
    list_read_ahead (suc n) 0 (λ ys. number_le n (drop 1 ys)) (prefix ∷ xs) rest (omega arith)
      (number_le-append n xs rest long)

list_varint-Varint :
    {code : List ℕ} {n : ℕ} (rest : List ℕ)
    → Varint code n
    → list_varint (code ++ rest) ≡ (true, n, rest)
list_varint-Varint rest (one n small) =
    let (fd, fe, ff) = below_prefixes n small in rw (length_ne_zero n rest, fd, fe, ff) refl
list_varint-Varint rest (two xs long) =
    rw (length_ne_zero 0xFD (xs ++ rest)) (word_ahead 2 0xFD xs rest long)
list_varint-Varint rest (four xs long) =
    rw (length_ne_zero 0xFE (xs ++ rest)) (word_ahead 4 0xFE xs rest long)
list_varint-Varint rest (eight xs long) =
    rw (length_ne_zero 0xFF (xs ++ rest)) (word_ahead 8 0xFF xs rest long)

module _ (memory : List ℕ) (size : ℕ) {P : Transaction → Type 0} where
  pub varint-Goes :
      (e : ParserStatus) {p : Parse} {code : List ℕ} {n : ℕ} (rest : List ℕ)
      → Varint code n
      → At memory size p (code ++ rest) P
      → Goes memory size (read_varint e p) n rest P
  varint-Goes e {p} rest is at =
      read_to-Goes memory size (λ b. buffer_read_varint b 0) (λ _ tx. tx) e list_varint
        (buffer_read_varint-Refines at.valid 0) (buffer_read_varint-ReadMoves 0 p.buf)
        (list_varint-Varint rest is) (λ t h. h) at

  pub byte-Goes :
      (store : ℕ → Transaction → Transaction) (e : ParserStatus) {p : Parse} (byte : ℕ)
      (rest : List ℕ)
      → ((t : Transaction) → P t → P (store byte t))
      → At memory size p (byte ∷ rest) P
      → Goes memory size (read_to buffer_read_u8 store e p) byte rest P
  byte-Goes store e {p} byte rest keep at =
      read_to-Goes memory size buffer_read_u8 store e (list_read 1 0 (number_le 1))
        (buffer_read_u8-Refines at.valid) (buffer_read_u8-ReadMoves p.buf)
        (list_read_ahead 1 0 (number_le 1) (byte ∷ []) rest refl (omega arith)) keep at

  u32-Goes :
      (store : ℕ → Transaction → Transaction) (e : ParserStatus) {p : Parse} (xs rest : List ℕ)
      → ((a : ℕ) (t : Transaction) → P t → P (store a t))
      → length xs ≡ 4
      → At memory size p (xs ++ rest) P
      → Goes memory size (read_to (λ b. buffer_read_u32 b le) store e p) (number_le 4 xs) rest P
  u32-Goes store e {p} xs rest keep long at =
      read_to-Goes memory size (λ b. buffer_read_u32 b le) store e (list_read 4 0 (number_le 4))
        (buffer_read_u32-Refines at.valid le) (buffer_read_u32-ReadMoves le p.buf)
        (list_read_ahead 4 0 (number_le 4) xs rest long (number_le-append 4 xs rest long))
        (keep (number_le 4 xs)) at

  s64-Goes :
      (store : ℤ → Transaction → Transaction) (e : ParserStatus) {p : Parse} (xs rest : List ℕ)
      → ((a : ℤ) (t : Transaction) → P t → P (store a t))
      → length xs ≡ 8
      → At memory size p (xs ++ rest) P
      → Goes memory size
          (read_to (λ b. buffer_read_s64 b le) store e p)
          (signed (2 ^ 63) (number_le 8 xs))
          rest
          P
  s64-Goes store e {p} xs rest keep long at =
      read_to-Goes memory size (λ b. buffer_read_s64 b le) store e
        (list_read 8 (pos 0) (λ ys. signed (2 ^ 63) (number_le 8 ys)))
        (buffer_read_s64-Refines at.valid) (buffer_read_s64-ReadMoves le p.buf)
        (list_read_ahead 8 (pos 0) (λ ys. signed (2 ^ 63) (number_le 8 ys)) xs rest long
          (ap (signed (2 ^ 63)) (number_le-append 8 xs rest long)))
        (keep (signed (2 ^ 63) (number_le 8 xs))) at

positive : (n : ℕ) → n < 2 ^ 63 → is_negative (signed (2 ^ 63) n) ≡ false
positive n h = ground arith

-- Room for two signers, and no attribute yet.
abbrev pub Fresh : Transaction → Type 0
Fresh tx = (length tx.signers ≡ 2) × (tx.attributes ≡ 0 ∷ 0 ∷ [])

module _ (memory : List ℕ) (size : ℕ) where
  abbrev from_until : Stage (Unit {0})
  from_until =
      read_to (λ b. buffer_read_u32 b le) (λ v tx. record tx { valid_until_block = v })
        ParserStatus.valid_until_block_parsing_error
      >>= λ valid_until. pure tt

  abbrev from_network_fee : Stage (Unit {0})
  from_network_fee =
      read_to (λ b. buffer_read_s64 b le) (λ v tx. record tx { network_fee = v })
        ParserStatus.network_fee_parsing_error
      >>= λ fee. stop_if (is_negative fee) ParserStatus.network_fee_value_error >> from_until

  abbrev from_system_fee : Stage (Unit {0})
  from_system_fee =
      read_to (λ b. buffer_read_s64 b le) (λ v tx. record tx { system_fee = v })
        ParserStatus.system_fee_parsing_error
      >>= λ fee. stop_if (is_negative fee) ParserStatus.system_fee_value_error >> from_network_fee

  abbrev from_nonce : Stage (Unit {0})
  from_nonce =
      read_to (λ b. buffer_read_u32 b le) (λ v tx. record tx { nonce = v })
        ParserStatus.nonce_parsing_error
      >>= λ nonce. from_system_fee

  -- The header, where the fees are not negative.
  pub header-Goes :
      {p : Parse} (nonce system_fee network_fee valid_until rest : List ℕ)
      → length nonce ≡ 4
      → length system_fee ≡ 8
      → number_le 8 system_fee < 2 ^ 63
      → length network_fee ≡ 8
      → number_le 8 network_fee < 2 ^ 63
      → length valid_until ≡ 4
      → At memory size p
          (0 ∷ (nonce ++ (system_fee ++ (network_fee ++ (valid_until ++ rest)))))
          Fresh
      → Goes memory size (parse_header p) tt rest Fresh
  unfolding parse_header
  header-Goes {p} nonce system_fee network_fee valid_until rest l1 l2 s2 l3 s3 l4 at =
      >>=-Goes memory size
        (read_to buffer_read_u8 (λ v tx. record tx { version = v })
          ParserStatus.version_parsing_error)
        (λ version. stop_if (ltb 0 version) ParserStatus.version_value_error >> from_nonce) p
        (byte-Goes memory size (λ v tx. record tx { version = v }) _ 0 _ (λ t h. h) at)
        λ p1 a1.
          >>=-Goes memory size (stop_if false ParserStatus.version_value_error) (λ _. from_nonce) p1
            (stop_if-Goes memory size false ParserStatus.version_value_error refl a1)
            λ p2 a2.
              >>=-Goes memory size
                (read_to (λ b. buffer_read_u32 b le) (λ v tx. record tx { nonce = v })
                  ParserStatus.nonce_parsing_error)
                (λ _. from_system_fee) p2
                (u32-Goes memory size (λ v tx. record tx { nonce = v }) _ nonce _ (λ a t h. h) l1
                  a2)
                λ p3 a3.
                  >>=-Goes memory size
                    (read_to (λ b. buffer_read_s64 b le) (λ v tx. record tx { system_fee = v })
                      ParserStatus.system_fee_parsing_error)
                    (λ fee.
                      stop_if (is_negative fee) ParserStatus.system_fee_value_error
                      >> from_network_fee)
                    p3
                    (s64-Goes memory size (λ v tx. record tx { system_fee = v }) _ system_fee _
                      (λ a t h. h) l2 a3)
                    λ p4 a4.
                      >>=-Goes memory size
                        (stop_if (is_negative (signed (2 ^ 63) (number_le 8 system_fee)))
                          ParserStatus.system_fee_value_error)
                        (λ _. from_network_fee) p4 (stop_if-Goes memory size _ _ (positive _ s2) a4)
                        λ p5 a5.
                          >>=-Goes memory size
                            (read_to (λ b. buffer_read_s64 b le)
                              (λ v tx. record tx { network_fee = v })
                              ParserStatus.network_fee_parsing_error)
                            (λ fee.
                              stop_if (is_negative fee) ParserStatus.network_fee_value_error
                              >> from_until)
                            p5
                            (s64-Goes memory size (λ v tx. record tx { network_fee = v }) _
                              network_fee _ (λ a t h. h) l3 a5)
                            λ p6 a6.
                              >>=-Goes memory size
                                (stop_if (is_negative (signed (2 ^ 63) (number_le 8 network_fee)))
                                  ParserStatus.network_fee_value_error)
                                (λ _. from_until) p6
                                (stop_if-Goes memory size _ _ (positive _ s3) a6)
                                λ p7 a7.
                                  >>=-Goes memory size
                                    (read_to (λ b. buffer_read_u32 b le)
                                      (λ v tx. record tx { valid_until_block = v })
                                      ParserStatus.valid_until_block_parsing_error)
                                    (λ _. pure tt) p7
                                    (u32-Goes memory size
                                      (λ v tx. record tx { valid_until_block = v }) _ valid_until
                                      rest (λ a t h. h) l4 a7)
                                    λ p8 a8. record { state = p8; goes = refl; at = a8 }
