-- ===== src/Transaction/Deserialize/Complete/Tail.antt =====
-- The attributes of the layout are read, and its script.
use ledger_app_neo.Prelude.{
  ℕ, ◌≤◌, ◌≡◌, refl, sym, ap, ◌∙◌, arith, false, not, ◌||◌, List, [], ◌∷◌, ◌++◌, append-nil,
  append_assoc, take, drop, length, set, ltb, ◌==◌,
}
use mathlib.Core.Path.{subst}
use ledger_app_neo.Word.{u8, u16}
use ledger_app_neo.Common.Buffer.{buffer_read_u8}
use ledger_app_neo.Transaction.Types.{Transaction, ParserStatus, max_attributes, high_priority}
use ledger_app_neo.Transaction.Monad.{Parse, ◌>>=◌, ◌>>◌, stop_if, modify, get, read_value, skip}
use ledger_app_neo.Transaction.Monad.Forward.{
  At, Goes, >>=-Goes, stop_if-Goes, modify-Goes, skip-Goes, ahead_bytes, room,
}
use ledger_app_neo.Transaction.Deserialize.{
  Stage, read_varint, attribute_seen, parse_attributes_loop, parse_attributes, parse_script,
}
use ledger_app_neo.Transaction.Deserialize.Layout.{Varint, AttributesCode, none, priority}
use ledger_app_neo.Transaction.Deserialize.Complete.Reads.{varint-Goes, byte-Goes, Fresh}

abbrev Sized : Transaction → Type 0
Sized tx = (tx.attributes_size ≡ 1) × (tx.attributes ≡ 0 ∷ 0 ∷ [])

abbrev pub Any : Transaction → Type 0
Any tx = Unit {0}

not_seen : (tx : Transaction) → Sized tx → attribute_seen tx.attributes_size 0 1 tx ≡ false
unfolding attribute_seen
not_seen tx h = rw (h.0, h.1) refl

-- The bytes that the transaction says are its script.
abbrev pub script_of : List ℕ → Transaction → List ℕ
script_of memory tx = take tx.script_size (drop tx.script memory)

module _ (memory : List ℕ) (size : ℕ) where
  counted-Goes :
      (n : ℕ) {p : Parse} {prefix : List ℕ} (rest after : List ℕ) {Q : Transaction → Type 0}
      → (ltb max_attributes n || ltb 2 n) ≡ false
      → Varint prefix n
      → ((t : Transaction) → Fresh t → Q (record t { attributes_size = u8 n }))
      → ((q : Parse)
          → At memory size q rest Q
          → Goes memory size (parse_attributes_loop (u8 n) 0 q) tt after Any)
      → At memory size p (prefix ++ rest) Fresh
      → Goes memory size (parse_attributes p) tt after Any
  unfolding parse_attributes
  counted-Goes n {p} rest after allowed counted sized attributes at =
      let status = ParserStatus.attributes_length_value_error in
      let store = λ (tx : Transaction). record tx { attributes_size = u8 n } in
      >>=-Goes memory size (read_varint ParserStatus.attributes_length_parsing_error)
        (λ n.
          stop_if (ltb max_attributes n || ltb 2 n) status
          >> (modify (λ tx. record tx { attributes_size = u8 n })
              >> parse_attributes_loop (u8 n) 0))
        p (varint-Goes memory size _ rest counted at)
        λ p1 a1.
          >>=-Goes memory size (stop_if (ltb max_attributes n || ltb 2 n) status)
            (λ _. modify store >> parse_attributes_loop (u8 n) 0) p1
            (stop_if-Goes memory size _ status allowed a1)
            λ p2 a2.
              >>=-Goes memory size (modify store) (λ _. parse_attributes_loop (u8 n) 0) p2
                (modify-Goes memory size store sized a2) attributes

  abbrev last : ℕ → Stage (Unit {0})
  last type =
      modify (λ tx. record tx { attributes = set tx.attributes 0 type })
      >> parse_attributes_loop 0 1

  abbrev from_duplicate : ℕ → Stage (Unit {0})
  from_duplicate type = get >>= λ q.
      stop_if (attribute_seen q.tx.attributes_size 0 type q.tx)
        ParserStatus.attributes_duplicate_type
      >> last type

  abbrev from_type : ℕ → Stage (Unit {0})
  from_type type =
      stop_if (not (type == high_priority)) ParserStatus.attributes_unsupported_type
      >> from_duplicate type

  priority-Goes :
      {p : Parse} (rest : List ℕ)
      → At memory size p (high_priority ∷ rest) Sized
      → Goes memory size (parse_attributes_loop 1 0 p) tt rest Any
  unfolding parse_attributes_loop
  priority-Goes {p} rest at =
      let store = λ (tx : Transaction). record tx { attributes = set tx.attributes 0 1 } in
      >>=-Goes memory size (read_value buffer_read_u8 ParserStatus.attributes_unsupported_type)
        from_type p (byte-Goes memory size (λ _ tx. tx) _ high_priority rest (λ t h. h) at)
        λ p1 a1.
          >>=-Goes memory size (stop_if false ParserStatus.attributes_unsupported_type)
            (λ _. from_duplicate 1) p1
            (stop_if-Goes memory size false ParserStatus.attributes_unsupported_type refl a1)
            λ p2 a2.
              >>=-Goes memory size
                (stop_if (attribute_seen p2.tx.attributes_size 0 1 p2.tx)
                  ParserStatus.attributes_duplicate_type)
                (λ _. last 1) p2
                (stop_if-Goes memory size _ ParserStatus.attributes_duplicate_type
                  (not_seen p2.tx a2.holds) a2)
                λ p3 a3.
                  >>=-Goes memory size (modify store) (λ _. parse_attributes_loop 0 1) p3
                    (modify-Goes memory size store {Q = Any} (λ t h. tt) a3)
                    λ p4 a4. record { state = p4; goes = refl; at = a4 }

  pub attributes-Goes :
      {p : Parse} {code : List ℕ} (rest : List ℕ)
      → AttributesCode code
      → At memory size p (code ++ rest) Fresh
      → Goes memory size (parse_attributes p) tt rest Any
  unfolding parse_attributes_loop
  attributes-Goes rest (none prefix counted) at =
      counted-Goes 0 rest rest {Q = Any} refl counted (λ t h. tt)
        (λ q b. record { state = q; goes = refl; at = b }) at
  attributes-Goes {p} rest (priority prefix counted) at =
      counted-Goes 1 (high_priority ∷ rest) rest {Q = Sized} refl counted (λ t h. (refl, h.1))
        (λ q b. priority-Goes rest b)
        (subst (λ xs. At memory size p xs Fresh) (append_assoc prefix (high_priority ∷ []) rest) at)

  script_allowed : (n : ℕ) → 1 ≤ n → n ≤ 1024 → ((ltb 0xFFFF n || n == 0) ≡ false) × (u16 n ≡ n)
  script_allowed n some few = (ground arith, ground arith)

  -- The script is the rest of the transaction.
  pub script-Goes :
      {p : Parse} {prefix : List ℕ} (script : List ℕ)
      → size ≤ 1024
      → Varint prefix (length script)
      → 1 ≤ length script
      → At memory size p (prefix ++ script) Any
      → Goes memory size (parse_script p) tt [] (λ t. script_of memory t ≡ script)
  unfolding parse_script
  script-Goes {p} {prefix} script short counted some at =
      let n = length script in
      let status = ParserStatus.script_length_value_error in
      >>=-Goes memory size (read_varint ParserStatus.script_length_parsing_error)
        (λ n. get >>= λ start.
          modify (λ tx. record tx { script = start.buf.offset })
          >> (stop_if (ltb 0xFFFF n || n == 0) status
              >> (skip n status >> modify (λ tx. record tx { script_size = u16 n }))))
        p (varint-Goes memory size _ script counted at)
        λ p1 a1.
          let store = λ (tx : Transaction). record tx { script = p1.buf.offset } in
          let a1' : At memory size p1 (script ++ []) Any =
            subst (λ xs. At memory size p1 xs Any) (sym (append-nil script)) a1 in
          let few : n ≤ 1024 = omega (arith, room memory size n script [] refl a1', a1.size_eq) in
          let (allowed, whole) = script_allowed n some few in
          let there : take n (drop p1.buf.offset memory) ≡ script =
            ap (λ xs. take n (drop p1.buf.offset xs)) (sym a1.memory_eq)
            ∙ ahead_bytes memory size n script [] refl a1' in
          >>=-Goes memory size (modify store)
            (λ _.
              stop_if (ltb 0xFFFF n || n == 0) status
              >> (skip n status >> modify (λ tx. record tx { script_size = u16 n })))
            p1 (modify-Goes memory size store {Q = λ t. t.script ≡ p1.buf.offset} (λ t h. refl) a1')
            λ p2 a2.
              >>=-Goes memory size (stop_if (ltb 0xFFFF n || n == 0) status)
                (λ _. skip n status >> modify (λ tx. record tx { script_size = u16 n })) p2
                (stop_if-Goes memory size _ status allowed a2)
                λ p3 a3.
                  >>=-Goes memory size (skip n status)
                    (λ _. modify (λ tx. record tx { script_size = u16 n })) p3
                    (skip-Goes memory size n script [] refl a3 status)
                    λ p4 a4.
                      modify-Goes memory size (λ tx. record tx { script_size = u16 n })
                        (λ t h.
                          ap (λ k. take k (drop t.script memory)) whole
                          ∙ ap (λ k. take n (drop k memory)) h
                          ∙ there)
                        a4
