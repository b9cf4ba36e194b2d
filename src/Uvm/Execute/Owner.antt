-- ===== src/Uvm/Execute/Owner.antt =====
-- Who may call the functions that are reserved for the owner of a contract.
use slura_chain.Base.{
  ℕ, ◌<◌, ◌≡◌, refl, ◌≢◌, inl, inr, true, false, ap, length, leb, ◌≤◌, Option, none, some, List,
  arith, String, nat_beq, any, ◌==◌, nat_eq, string_eq, beq_self, Bool-cases,
}
use slura_chain.Uvm.Word.{word_modulus, to_big_endian, from_big_endian}
use slura_chain.Uvm.Machine.{Context, UvmWorldState}
use slura_chain.Uvm.State.{get_storage, is_zero_bytes, is_hash_key}
use slura_chain.Uvm.Laws.Storage.{get_storage-set_storage, word_of_word}
use slura_chain.Uvm.Address.{
  encode_address_to_u256, extract_function_selector, ensure_contract_owner_initialized,
  auto_validate_owner_permission, owner_slot, protected_functions,
}
use slura_chain.Uvm.Execute.{prepare, first_machine, unauthorized, owned_world, allowed}

-- The bytes at slot 0 of the contract that runs.
abbrev pub owner_bytes : Context → UvmWorldState → List ℕ
owner_bytes c w = get_storage c.host w c.interpreter_args.contract_address owner_slot

abbrev pub caller_word : Context → ℕ
caller_word c = encode_address_to_u256 c.host c.interpreter_args.caller

slot_key : is_hash_key owner_slot ≡ true
unfolding is_hash_key
slot_key = refl

-- A contract with an owner refuses every other caller the reserved functions: where slot 0 holds at most 32 bytes that are not all 0 and whose number is not that of the caller, and the call data begins with a reserved selector, the run ends at once with the error `OwnableUnauthorizedAccount` of the caller.
pub prepare-unauthorized :
    (c : Context) (w : UvmWorldState) (selector : String)
    → extract_function_selector c.host c.interpreter_args.state_data ≡ some selector
    → any (λ f. f == selector) protected_functions ≡ true
    → is_zero_bytes (owner_bytes c w) ≡ false
    → length (owner_bytes c w) ≤ 32
    → from_big_endian (owner_bytes c w) ≢ caller_word c
    → prepare c w ≡ some (inl (unauthorized c))
unfolding prepare ensure_contract_owner_initialized auto_validate_owner_permission
prepare-unauthorized c w selector called reserved owned short other =
    let word : leb (length (owner_bytes c w)) 32 ≡ true = ground arith in
    let refused : nat_beq (from_big_endian (owner_bytes c w)) (caller_word c) ≡ false =
      ground arith in
    rw (called, owned, reserved, word, refused) refl

-- The owner may call every function.
owner_allowed :
    (c : Context) (w : UvmWorldState) (selector : Option String)
    → owner_bytes c w ≡ to_big_endian (caller_word c)
    → caller_word c < word_modulus
    → allowed c w selector ≡ some true
unfolding auto_validate_owner_permission
owner_allowed c w none owner fits = refl
owner_allowed c w (some selector) owner fits =
    elim (Bool-cases (any (λ f. f == selector) protected_functions)) [
      | inr free ↦ rw free refl
      | inl reserved ↦
          rw (reserved, owner, word_of_word (caller_word c) fits)
            (ap some (beq_self (caller_word c)))
    ]

owned_bytes :
    (c : Context) (w : UvmWorldState)
    → is_zero_bytes (owner_bytes c w) ≡ true
    → owner_bytes c (owned_world c w) ≡ to_big_endian (caller_word c)
unfolding ensure_contract_owner_initialized
owned_bytes c w free = rw free (
    get_storage-set_storage c.host w c.interpreter_args.contract_address owner_slot
      (to_big_endian (caller_word c)) slot_key)

-- The first caller of a contract without an owner becomes its owner and may call every function: where slot 0 holds bytes that are all 0 and the address of the caller is encoded as a word, the run starts, in a world whose slot 0 holds the number of the caller.
pub prepare-first_caller :
    (c : Context) (w : UvmWorldState)
    → is_zero_bytes (owner_bytes c w) ≡ true
    → caller_word c < word_modulus
    → (prepare c w ≡ some (inr (first_machine c (owned_world c w))))
      × (owner_bytes c (owned_world c w) ≡ to_big_endian (caller_word c))
unfolding prepare
prepare-first_caller c w free fits =
    let owner = owned_bytes c w free in
    (
      rw
          (owner_allowed c (owned_world c w)
            (extract_function_selector c.host c.interpreter_args.state_data) owner fits)
          refl,
      owner,
    )
