-- ===== src/Uvm/State.antt =====
-- Storage, accounts and addresses, and their instructions.
use Prim.Native.Char.{code}
use slura_chain.Base.{
  ℕ, Bool, true, false, ◌&&◌, ◌||◌, Option, none, some, List, [], ◌∷◌, ◌++◌, String, leb, nat_beq,
  if◌then◌else◌, length, nat_eq, string_eq,
}
use slura_chain.Base.Outcome.{and_then}
use slura_chain.Base.Map.{Map, lookup, insert, erase}
use slura_chain.Base.Slices.{repeat}
use slura_chain.Base.Text.{join, parse_u64}
use slura_chain.Uvm.Word.{from_big_endian, to_big_endian}
use slura_chain.Uvm.Machine.{
  Machine, Context, Host, UvmWorldState, AccountState, Step, advance, charge, pop_one, pop_two,
  push_result, push_checked,
}

-- `is_ascii_hexdigit`
abbrev is_ascii_hexdigit : ℕ → Bool
is_ascii_hexdigit c =
    (leb b'0' c && leb c b'9') || ((leb b'a' c && leb c b'f') || (leb b'A' c && leb c b'F'))

abbrev pub chars : String → List ℕ
chars String.[] = []
chars (String.◌∷◌ c s) = code c ∷ chars s

abbrev all_hex : List ℕ → Bool
all_hex [] = true
all_hex (c ∷ cs) = let rest = all_hex cs in is_ascii_hexdigit c && rest

-- 64 hexadecimal digits: where all are digits, the bytes of `len()` are the characters.
unfoldable pub is_hash_key : String → Bool
is_hash_key slot = nat_beq (length (chars slot)) 64 && all_hex (chars slot)

-- `split_once('|')`
abbrev split_bar : String → Option (String × String)
split_bar String.[] = none
split_bar (String.◌∷◌ c s) =
    let rest = split_bar s in
    if nat_beq (code c) b'|'
    then some ("", s)
    else (and_then rest λ (before, after). some (String.◌∷◌ c before, after))

-- `addr[2..]` after `starts_with("0x")`
abbrev pub after_0x : String → Option String
after_0x String.[] = none
after_0x (String.◌∷◌ a String.[]) = none
after_0x (String.◌∷◌ a (String.◌∷◌ b s)) =
    if nat_beq (code a) b'0' && nat_beq (code b) b'x' then some s else none

-- The 20 bytes of `0x` and 40 digits. Text with other characters is no hexadecimal text, so that
-- `hex_decode` refuses it, and its length in bytes does not matter.
abbrev pub address_bytes : Host → String → Option (List ℕ)
address_bytes host addr =
    if nat_beq (length (chars addr)) 42
    then (and_then (after_0x addr) λ digits. host.hex_decode digits)
    else none

abbrev bytes_of : Option (List ℕ) → List ℕ
bytes_of none = repeat 20 0
bytes_of (some bytes) = bytes

abbrev zeros : List ℕ
zeros = repeat 32 0

abbrev pub slot_of : Option (Map String (List ℕ)) → String → List ℕ
slot_of none slot = zeros
slot_of (some slots) slot = elim (lookup slot slots) [ none ↦ zeros | some bytes ↦ bytes ]

abbrev or_zero : Option ℕ → ℕ
or_zero none = 0
or_zero (some n) = n

-- The key of a mapping entry `address|slot`.
abbrev mapping_key : Host → String → String → String
mapping_key host addr mapping_slot = host.hex_encode (
    host.keccak_hash (
      repeat 12 0
      ++ (bytes_of (address_bytes host addr) ++ to_big_endian (or_zero (parse_u64 mapping_slot)))))

unfoldable pub get_storage : Host → UvmWorldState → String → String → List ℕ
get_storage host w contract slot =
    if is_hash_key slot then slot_of (lookup contract w.storage) slot else (elim (split_bar slot) [
      | some (addr, mapping_slot) ↦
          slot_of (lookup contract w.storage) (mapping_key host addr mapping_slot)
      | none ↦ slot_of (lookup contract w.storage) slot
    ])

-- `entry(contract).or_insert_with(HashMap::new)`
abbrev pub or_empty : Option (Map String (List ℕ)) → Map String (List ℕ)
or_empty none = []
or_empty (some slots) = slots

unfoldable pub set_storage : UvmWorldState → String → String → List ℕ → UvmWorldState
set_storage w contract slot value = record w {
  storage = insert contract (insert slot value (or_empty (lookup contract w.storage))) w.storage;
}

abbrev balance_of : Option AccountState → ℕ
balance_of none = 0
balance_of (some account) = account.balance

unfoldable pub get_balance : UvmWorldState → String → ℕ
get_balance w address = balance_of (lookup address w.accounts)

abbrev new_account : AccountState
new_account = record { balance = 0; nonce = 0; code = []; storage_root = ""; is_contract = false }

abbrev pub or_new : Option AccountState → AccountState
or_new none = new_account
or_new (some account) = account

unfoldable pub set_balance : UvmWorldState → String → ℕ → UvmWorldState
set_balance w address balance = record w {
  accounts =
      insert address (record (or_new (lookup address w.accounts)) { balance = balance }) w.accounts;
}

abbrev code_length : Option AccountState → ℕ
code_length none = 0
code_length (some account) = length account.code

unfoldable pub get_codesize : UvmWorldState → String → ℕ
get_codesize w address = code_length (lookup address w.accounts)

abbrev pub is_zero_bytes : List ℕ → Bool
is_zero_bytes [] = true
is_zero_bytes (b ∷ bs) = let rest = is_zero_bytes bs in nat_beq b 0 && rest

-- `value_bytes == vec![0u8; 32]`
abbrev pub is_zero_word : List ℕ → Bool
is_zero_word bytes = nat_beq (length bytes) 32 && is_zero_bytes bytes

abbrev storage_key : String → String → String
storage_key contract slot = join (join (join "storage:" contract) ":") slot

-- What the database holds for a slot, where it is more than zeros.
abbrev pub stored_slot : Host → String → String → Option (List ℕ)
stored_slot host contract slot = and_then host.storage_manager λ read.
    and_then (read (storage_key contract slot))
      λ bytes. if nat_beq (length bytes) 0 || is_zero_word bytes then none else some bytes

-- The value of a slot and the world after it is cached.
abbrev pub loaded : Host → String → String → UvmWorldState → List ℕ × UvmWorldState
loaded host contract slot w =
    let value = get_storage host w contract slot in
    if is_zero_word value
    then (elim (stored_slot host contract slot) [
      | none ↦ (value, w)
      | some bytes ↦ (bytes, set_storage w contract slot bytes)
    ])
    else (value, w)

-- `from_big_endian` panics for more than 32 bytes.
abbrev pub word_of : List ℕ → Option ℕ
word_of bytes = if leb (length bytes) 32 then some (from_big_endian bytes) else none

unfoldable pub op_sload : Context → Machine → Step
op_sload c m = pop_one "Stack underflow on SLOAD" m λ key m.
    let found =
      loaded c.host c.interpreter_args.contract_address (c.host.lower_hex key) m.world_state in
    push_checked 100 (word_of found.0) (record m { world_state = found.1 })

unfoldable pub op_sstore : Context → Machine → Step
op_sstore c m = pop_two "Stack underflow on SSTORE" m λ key value m.
    let slot = c.host.lower_hex key in
    charge 100
      (record m {
        temp_storage_writes = insert slot (to_big_endian value) m.temp_storage_writes;
        world_state =
            set_storage m.world_state c.interpreter_args.contract_address slot
              (to_big_endian value);
      })
      (advance 1)

-- The 32 bytes of a key are those of one word, so the map is keyed by the word.
unfoldable pub op_tload : Machine → Step
op_tload m = pop_one "Stack underflow on TLOAD" m λ key m.
    push_result 100
      (elim (lookup key m.world_state.transient_storage) [
        | none ↦ 0
        | some bytes ↦ from_big_endian bytes
      ])
      m

abbrev pub with_transient : Map ℕ (List ℕ) → Machine → Machine
with_transient t m = record m { world_state = record m.world_state { transient_storage = t } }

-- The value is on top, then the key.
unfoldable pub op_tstore : Machine → Step
op_tstore m = pop_two "Stack underflow on TSTORE" m λ value key m.
    charge 100
      (with_transient
        (if nat_beq value 0
          then erase key m.world_state.transient_storage
          else insert key (to_big_endian value) m.world_state.transient_storage)
        m)
      (advance 1)
