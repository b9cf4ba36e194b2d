-- ===== src/Uvm/Laws/Storage.antt =====
-- SSTORE and SLOAD, TSTORE and TLOAD.
use slura_chain.Base.{
  ℕ, ◌+◌, ◌*◌, ◌<◌, ◌≡◌, refl, ap, inl, inr, Bool, true, false, ◌||◌, Option, none, some, List, [],
  ◌∷◌, arith, String, ltb, leb, nat_beq, if◌then◌else◌, length, nat_eq, string_eq, Bool-cases,
}
use slura_chain.Base.Outcome.{and_then}
use slura_chain.Base.Map.{Map, lookup, insert, lookup-insert_self}
use slura_chain.Uvm.Word.{word_modulus, to_big_endian, from_big_endian, value_from}
use slura_chain.Uvm.Word.Bytes.{from_big_endian-to_big_endian, length-to_big_endian}
use slura_chain.Uvm.Machine.{
  Machine, Context, Host, UvmWorldState, advance, push_result, push_value, consume_gas_amount,
}
use slura_chain.Uvm.State.{
  op_sload, op_sstore, loaded, word_of, get_storage, set_storage, is_hash_key, is_zero_bytes,
  is_zero_word, stored_slot, slot_of, or_empty,
}

slot_found :
    (slots : Map String (List ℕ)) (slot : String) (value : List ℕ)
    → lookup slot slots ≡ some value
    → slot_of (some slots) slot ≡ value
slot_found slots slot value found = rw (found, slot_of) refl

-- What was stored under a key of 64 hexadecimal digits is what is read.
pub get_storage-set_storage :
    (host : Host) (w : UvmWorldState) (contract slot : String) (value : List ℕ)
    → is_hash_key slot ≡ true
    → get_storage host (set_storage w contract slot value) contract slot ≡ value
unfolding get_storage set_storage
get_storage-set_storage host w contract slot value key =
    let slots = insert slot value (or_empty (lookup contract w.storage)) in
    rw (key, lookup-insert_self contract slots w.storage)
      (slot_found slots slot value
        (lookup-insert_self slot value (or_empty (lookup contract w.storage))))

zero_bytes-value :
    (acc : ℕ) (xs : List ℕ) → acc ≡ 0 → is_zero_bytes xs ≡ true → value_from acc xs ≡ 0
zero_bytes-value acc [] start h = start
zero_bytes-value acc (x ∷ xs) start h =
    zero_bytes-value (acc * 256 + x) xs (ground (arith, h)) (ground (arith, h))

-- The bytes of a word above 0 are not all 0.
nonzero_word : (v : ℕ) → v < word_modulus → 0 < v → is_zero_word (to_big_endian v) ≡ false
nonzero_word v h pos = elim (Bool-cases (is_zero_bytes (to_big_endian v))) [
  | inl zeros ↦
      let none_left : from_big_endian (to_big_endian v) ≡ 0 =
        zero_bytes-value 0 (to_big_endian v) refl zeros in
      absurd (omega (arith, none_left, from_big_endian-to_big_endian v h))
  | inr some_left ↦ rw (length-to_big_endian v, some_left) refl
]

loaded_kept :
    (host : Host) (contract slot : String) (w : UvmWorldState) (bytes : List ℕ)
    → get_storage host w contract slot ≡ bytes
    → is_zero_word bytes ≡ false
    → loaded host contract slot w ≡ (bytes, w)
loaded_kept host contract slot w bytes e h = rw (e, h) refl

loaded_stale :
    (host : Host) (contract slot : String) (w : UvmWorldState) (value bytes : List ℕ)
    → get_storage host w contract slot ≡ value
    → is_zero_word value ≡ true
    → stored_slot host contract slot ≡ some bytes
    → loaded host contract slot w ≡ (bytes, set_storage w contract slot bytes)
loaded_stale host contract slot w value bytes e h stored = rw (e, h, stored) refl

zero_word : is_zero_word (to_big_endian 0) ≡ true
unfolding to_big_endian
zero_word = refl

pub word_of_word : (v : ℕ) → v < word_modulus → word_of (to_big_endian v) ≡ some v
word_of_word v h = rw (length-to_big_endian v, from_big_endian-to_big_endian v h) refl

-- The machine after SSTORE.
abbrev after_store : Context → String → ℕ → List ℕ → Machine → Machine
after_store c slot v rest m = record m {
  evm_stack = rest;
  gas_used = m.gas_used + 100;
  temp_storage_writes = insert slot (to_big_endian v) m.temp_storage_writes;
  world_state =
      set_storage m.world_state c.interpreter_args.contract_address slot (to_big_endian v);
}

store_step :
    (c : Context) (m : Machine) (key v : ℕ) (rest : List ℕ)
    → m.evm_stack ≡ key ∷ v ∷ rest
    → m.gas_used + 100 < word_modulus
    → op_sstore c m ≡ advance 1 (after_store c (c.host.lower_hex key) v rest m)
unfolding op_sstore consume_gas_amount
store_step c m key v rest e gas =
    let counted : ltb (m.gas_used + 100) word_modulus ≡ true = ground arith in rw (e, counted) refl

-- On a stack with a key and a word above 0 on top, with a gas counter that does not overflow and keys printed as 64 hexadecimal digits, SSTORE takes both values and goes on, records the 32 bytes of the word among the writes of the run, and SLOAD of the same key then pushes that word and changes nothing else but the gas counter.
pub op_sload-op_sstore :
    (c : Context) (m : Machine) (key v : ℕ) (rest : List ℕ)
    → m.evm_stack ≡ key ∷ v ∷ rest
    → v < word_modulus
    → 0 < v
    → m.gas_used + 100 < word_modulus
    → is_hash_key (c.host.lower_hex key) ≡ true
    → (after : Machine) × (op_sstore c m ≡ advance 1 after)
      × (after.evm_stack ≡ rest)
      × (lookup (c.host.lower_hex key) after.temp_storage_writes ≡ some (to_big_endian v))
      × (op_sload c (push_value key after) ≡ push_result 100 v after)
unfolding op_sload
op_sload-op_sstore c m key v rest e hv pos gas hashed =
    let slot = c.host.lower_hex key in
    let contract = c.interpreter_args.contract_address in
    let after = after_store c slot v rest m in
    let kept =
      loaded_kept c.host contract slot after.world_state (to_big_endian v)
        (get_storage-set_storage c.host m.world_state contract slot (to_big_endian v) hashed)
        (nonzero_word v hv pos) in
    (
      after,
      store_step c m key v rest e gas,
      refl,
      lookup-insert_self slot (to_big_endian v) m.temp_storage_writes,
      rw (kept, word_of_word v hv) refl,
    )

-- A number that has a byte above 0 is above 0.
value_from-pos : (acc : ℕ) (xs : List ℕ) → 0 < acc → 0 < value_from acc xs
value_from-pos acc [] h = h
value_from-pos acc (x ∷ xs) h = value_from-pos (acc * 256 + x) xs (omega arith)

nonzero_bytes-value : (acc : ℕ) (xs : List ℕ) → is_zero_bytes xs ≡ false → 0 < value_from acc xs
nonzero_bytes-value acc [] h = ground (arith, h)
nonzero_bytes-value acc (x ∷ xs) h = elim (Bool-cases (nat_beq x 0)) [
  | inl zero_byte ↦ nonzero_bytes-value (acc * 256 + x) xs (ground (arith, h, zero_byte))
  | inr some_byte ↦ value_from-pos (acc * 256 + x) xs (ground (arith, some_byte))
]

abbrev or_else_nil : Option (List ℕ) → List ℕ
or_else_nil none = []
or_else_nil (some bytes) = bytes

kept_slot :
    (b : Bool) (bytes other : List ℕ)
    → (if b then none else some other) ≡ some bytes
    → (b ≡ false) × (other ≡ bytes)
kept_slot true bytes other e = cc e
kept_slot false bytes other e = (refl, ap (λ o. or_else_nil o) e)

-- What the database has for a slot is never 32 bytes of 0.
stored_nonzero :
    (o : Option (List ℕ)) (bytes : List ℕ)
    → and_then o (λ b. if nat_beq (length b) 0 || is_zero_word b then none else some b) ≡ some bytes
    → is_zero_word bytes ≡ false
stored_nonzero none bytes e = cc e
stored_nonzero (some b) bytes e =
    let (kept, same) = kept_slot (nat_beq (length b) 0 || is_zero_word b) bytes b e in
    rw⁻¹ same (ground (arith, kept))

managed :
    (manager : Option (String → Option (List ℕ))) (key : String) (bytes : List ℕ)
    → and_then manager (λ read.
      and_then (read key) (λ b. if nat_beq (length b) 0 || is_zero_word b then none else some b))
      ≡ some bytes
    → is_zero_word bytes ≡ false
managed none key bytes e = cc e
managed (some read) key bytes e = stored_nonzero (read key) bytes e

stored_slot-pos :
    (host : Host) (contract slot : String) (bytes : List ℕ)
    → stored_slot host contract slot ≡ some bytes
    → length bytes ≡ 32
    → 0 < from_big_endian bytes
stored_slot-pos host contract slot bytes stored word =
    nonzero_bytes-value 0 bytes (ground (arith, managed host.storage_manager _ bytes stored, word))

-- Once 0 was stored under a key for which the database has a word of 32 bytes that is not 0, SLOAD does not read the 0: with a gas counter that does not overflow and keys printed as 64 hexadecimal digits, SSTORE goes on and records the 0 among the writes of the run, and SLOAD of the same key then pushes the number of the database, which is above 0, and puts its bytes back into the world, changing nothing else but the gas counter.
pub op_sload-stale :
    (c : Context) (m : Machine) (key : ℕ) (bytes rest : List ℕ)
    → m.evm_stack ≡ key ∷ 0 ∷ rest
    → m.gas_used + 100 < word_modulus
    → is_hash_key (c.host.lower_hex key) ≡ true
    → stored_slot c.host c.interpreter_args.contract_address (c.host.lower_hex key) ≡ some bytes
    → length bytes ≡ 32
    → (after : Machine) × (op_sstore c m ≡ advance 1 after)
      × (after.evm_stack ≡ rest)
      × (lookup (c.host.lower_hex key) after.temp_storage_writes ≡ some (to_big_endian 0))
      × (op_sload c (push_value key after)
          ≡ push_result 100 (from_big_endian bytes) (record after {
            world_state =
                set_storage after.world_state c.interpreter_args.contract_address
                  (c.host.lower_hex key)
                  bytes;
          }))
      × (0 < from_big_endian bytes)
unfolding op_sload
op_sload-stale c m key bytes rest e gas hashed stored word =
    let slot = c.host.lower_hex key in
    let contract = c.interpreter_args.contract_address in
    let after = after_store c slot 0 rest m in
    let found =
      loaded_stale c.host contract slot after.world_state (to_big_endian 0) bytes
        (get_storage-set_storage c.host m.world_state contract slot (to_big_endian 0) hashed)
        zero_word stored in
    let short : leb (length bytes) 32 ≡ true = ground arith in
    (
      after,
      store_step c m key 0 rest e gas,
      refl,
      lookup-insert_self slot (to_big_endian 0) m.temp_storage_writes,
      rw (found, short) refl,
      stored_slot-pos c.host contract slot bytes stored word,
    )
