-- ===== src/Uvm/Address.antt =====
-- Addresses as words and as text, the owner of a contract, and the instructions on accounts.
use Prim.Native.Nat.{bit_xor}
use Prim.Native.Char.{code}
use slura_chain.Base.{
  ℕ, ◌+◌, ◌/◌, ◌%◌, Bool, true, Option, none, some, List, [], ◌∷◌, ◌++◌, String, ltb, leb, nat_beq,
  if◌then◌else◌, length, any, ◌==◌, nat_eq, string_eq,
}
use slura_chain.Base.Outcome.{and_then}
use slura_chain.Base.Map.{lookup}
use slura_chain.Base.Slices.{take, drop, repeat}
use slura_chain.Base.Text.{join}
use slura_chain.Base.Word.{wrapping_mul}
use slura_chain.Uvm.Word.{from_big_endian, to_big_endian}
use slura_chain.Uvm.Machine.{
  Machine, Context, Host, UvmWorldState, InterpreterArgs, Step, pop_one, push_result,
}
use slura_chain.Uvm.State.{
  chars, after_0x, get_storage, set_storage, get_balance, get_codesize, is_zero_bytes, word_of,
}

-- The UTF-8 bytes of a character.
abbrev utf8 : ℕ → List ℕ
utf8 c =
    if ltb c 0x80
    then c ∷ []
    else if ltb c 0x800
    then (0xc0 + c / 64) ∷ (0x80 + c % 64) ∷ []
    else if ltb c 0x10000
    then (0xe0 + c / 4096) ∷ (0x80 + c / 64 % 64) ∷ (0x80 + c % 64) ∷ []
    else (0xf0 + c / 262144) ∷ (0x80 + c / 4096 % 64) ∷ (0x80 + c / 64 % 64) ∷ (0x80 + c % 64) ∷ []

abbrev all_bytes : List ℕ → List ℕ
all_bytes [] = []
all_bytes (c ∷ cs) = utf8 c ++ all_bytes cs

-- `bytes()` of a text
abbrev pub bytes : String → List ℕ
bytes s = all_bytes (chars s)

-- The FNV-1a hash of the bytes of an address.
abbrev hash_bytes : ℕ → List ℕ → ℕ
hash_bytes h [] = h
hash_bytes h (b ∷ bs) = hash_bytes (wrapping_mul (bit_xor h b) 1099511628211) bs

-- `encode_address_to_u64`
unfoldable pub encode_address_to_u64 : String → ℕ
encode_address_to_u64 addr = hash_bytes 14695981039346656037 (bytes addr)

abbrev twenty_or_zero : Option (List ℕ) → List ℕ
twenty_or_zero none = repeat 20 0
twenty_or_zero (some addr_bytes) =
    if nat_beq (length addr_bytes) 20 then addr_bytes else repeat 20 0

-- The digits after `0x`, for a text of 42 bytes.
abbrev ethereum_digits : String → Option String
ethereum_digits addr = if nat_beq (length (bytes addr)) 42 then after_0x addr else none

unfoldable pub encode_address_to_u256 : Host → String → ℕ
encode_address_to_u256 host addr = elim (ethereum_digits addr) [
  | some digits ↦ from_big_endian (repeat 12 0 ++ twenty_or_zero (host.hex_decode digits))
  | none ↦ encode_address_to_u64 addr
]

unfoldable pub u256_to_address : Host → ℕ → String
u256_to_address host addr = join "0x" (host.hex_encode (drop 12 (to_big_endian addr)))

unfoldable pub extract_function_selector : Host → List ℕ → Option String
extract_function_selector host calldata =
    if leb 4 (length calldata) then some (join "0x" (host.hex_encode (take 4 calldata))) else none

abbrev pub owner_slot : String
owner_slot = "0000000000000000000000000000000000000000000000000000000000000000"

unfoldable pub ensure_contract_owner_initialized :
    Host → UvmWorldState → String → String → UvmWorldState
ensure_contract_owner_initialized host w contract caller =
    if is_zero_bytes (get_storage host w contract owner_slot)
    then set_storage w contract owner_slot (to_big_endian (encode_address_to_u256 host caller))
    else w

abbrev pub protected_functions : List String
protected_functions = "0x8da5cb5b" ∷ "0xf2fde38b" ∷ "0x715018a6" ∷ "0x9623609d" ∷ []

-- The owner is compared as a word; `none` is the panic of `from_big_endian` for more than 32 bytes.
unfoldable pub auto_validate_owner_permission :
    Host → UvmWorldState → String → String → String → Option Bool
auto_validate_owner_permission host w contract caller selector =
    if any (λ f. f == selector) protected_functions
    then and_then (word_of (get_storage host w contract owner_slot))
        (λ stored_owner. some (nat_beq stored_owner (encode_address_to_u256 host caller)))
    else some true

abbrev push_address : (InterpreterArgs → String) → Context → Machine → Step
push_address field c m = push_result 2 (encode_address_to_u256 c.host (field c.interpreter_args)) m

unfoldable pub op_address : Context → Machine → Step
op_address c m = push_address (λ args. args.contract_address) c m

unfoldable pub op_origin : Context → Machine → Step
op_origin c m = push_address (λ args. args.origin) c m

unfoldable pub op_caller : Context → Machine → Step
op_caller c m = push_address (λ args. args.caller) c m

unfoldable pub op_balance : Context → Machine → Step
op_balance c m =
    pop_one "Stack underflow on BALANCE" m
      λ address m. push_result 100 (get_balance m.world_state (u256_to_address c.host address)) m

unfoldable pub op_selfbalance : Context → Machine → Step
op_selfbalance c m = push_result 5 (get_balance m.world_state c.interpreter_args.contract_address) m

unfoldable pub op_extcodesize : Context → Machine → Step
op_extcodesize c m =
    pop_one "Stack underflow on EXTCODESIZE" m
      λ address m. push_result 100 (get_codesize m.world_state (u256_to_address c.host address)) m

abbrev hash_word : Host → List ℕ → ℕ
hash_word host code = from_big_endian (host.keccak_hash code)

-- An account, then the cache of code, then 0. Empty code is hashed as it is.
abbrev code_hash : Host → UvmWorldState → String → ℕ
code_hash host w address = elim (lookup address w.accounts) [
  | some account ↦ hash_word host account.code
  | none ↦ elim (lookup address w.code) [ some code ↦ hash_word host code | none ↦ 0 ]
]

unfoldable pub op_extcodehash : Context → Machine → Step
op_extcodehash c m =
    pop_one "Stack underflow on EXTCODEHASH" m λ address m.
      push_result 100 (code_hash c.host m.world_state (u256_to_address c.host address)) m
