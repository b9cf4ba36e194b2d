-- ===== src/Ipc/Ring.antt =====
-- `SharedRingBuffer` and `push`. One writer moves `head`; the two counters are 64-bit words that
-- wrap around.
use slura_chain.Base.{
  ℕ, ◌+◌, ◌-◌, ◌/◌, ◌%◌, Option, none, some, List, [], ◌∷◌, length, ◌==◌, nat_eq, ltb,
  if◌then◌else◌,
}
use slura_chain.Base.Word.{modulus, wrapping_add}

abbrev pub buffer_size : ℕ
buffer_size = 65536

-- The bytes by index.
pub record SharedRingBuffer : Type 0 where
  pub head : ℕ
  pub tail : ℕ
  pub buffer : ℕ → ℕ

unfoldable pub new_ring : SharedRingBuffer
new_ring = record { head = 0; tail = 0; buffer = λ _. 0 }

abbrev pub wrapping_sub : ℕ → ℕ → ℕ
wrapping_sub a b = (a + modulus - b) % modulus

abbrev pub write_byte : ℕ → ℕ → (ℕ → ℕ) → ℕ → ℕ
write_byte idx byte buffer k = if idx == k then byte else buffer k

-- `(head + i) % BUFFER_SIZE`
abbrev pub index : ℕ → ℕ → ℕ
index head i = wrapping_add head i % buffer_size

-- The loops that write bytes from the offset `i` on.
unfoldable pub write_bytes : ℕ → ℕ → List ℕ → (ℕ → ℕ) → ℕ → ℕ
write_bytes head i [] buffer = buffer
write_bytes head i (byte ∷ bytes) buffer =
    write_bytes head (i + 1) bytes (write_byte (index head i) byte buffer)

-- `(data.len() as u16).to_le_bytes()`
abbrev pub length_bytes : ℕ → List ℕ
length_bytes n = (n % 65536 % 256) ∷ (n % 65536 / 256) ∷ []

-- `none` is `Err(())`.
unfoldable pub push : List ℕ → SharedRingBuffer → Option SharedRingBuffer
unfolding write_bytes
push bytes r =
    let available = wrapping_sub buffer_size (wrapping_sub r.head r.tail) in
    if ltb available (length bytes + 2)
    then none
    else some (record r {
      head = wrapping_add r.head (2 + length bytes);
      buffer =
          write_bytes r.head 2 bytes (write_bytes r.head 0 (length_bytes (length bytes)) r.buffer);
    })
