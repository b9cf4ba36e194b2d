-- ===== src/Ipc/Frames.antt =====
-- What a reader finds after `push`, and what `push` leaves alone.
use slura_chain.Base.{
  ℕ, zero, suc, ◌+◌, ◌-◌, ◌*◌, ◌%◌, ◌/◌, ◌<◌, ◌≤◌, ◌≡◌, ◌≢◌, refl, ap, sym, ◌∙◌, false, Option,
  none, some, List, [], ◌∷◌, length, nat_eq, nat_beq_iff, ltb, arith, Bool-cases, inl, inr,
}
use mathlib.Core.Path.{ap₂}
use slura_chain.Base.Word.{modulus, wrapping_add}
use slura_chain.Ipc.Ring.{
  SharedRingBuffer, buffer_size, wrapping_sub, write_byte, index, write_bytes, length_bytes, push,
}

index-apart : (head i j : ℕ) → i < j → j < i + 65536 → index head i ≢ index head j
index-apart head i j below near same = omega arith

-- Bytes written from the offset `i` on do not touch an offset of the same window.
write_bytes_below :
    (head i j : ℕ) (bytes : List ℕ) (buffer : ℕ → ℕ)
    → j < i
    → i + length bytes ≤ j + 65536
    → write_bytes head i bytes buffer (index head j) ≡ buffer (index head j)
unfolding write_bytes
write_bytes_below head i j [] buffer below near = refl
write_bytes_below head i j (b ∷ bytes) buffer below near =
    write_bytes_below head (i + 1) j bytes (write_byte (index head i) b buffer) (omega arith)
      (omega arith)
    ∙ ground (arith, index-apart head j i below (omega arith))

write_bytes_above :
    (head i j : ℕ) (bytes : List ℕ) (buffer : ℕ → ℕ)
    → i + length bytes ≤ j
    → j < i + 65536
    → write_bytes head i bytes buffer (index head j) ≡ buffer (index head j)
unfolding write_bytes
write_bytes_above head i j [] buffer above near = refl
write_bytes_above head i j (b ∷ bytes) buffer above near =
    write_bytes_above head (i + 1) j bytes (write_byte (index head i) b buffer) (omega arith)
      (omega arith)
    ∙ ground (arith, index-apart head i j (omega arith) near)

-- What a reader takes from the offset `i` on.
abbrev pub read_bytes : ℕ → ℕ → ℕ → (ℕ → ℕ) → List ℕ
read_bytes head i zero buffer = []
read_bytes head i (suc n) buffer = buffer (index head i) ∷ read_bytes head (i + 1) n buffer

read_bytes-write_bytes :
    (head i : ℕ) (bytes : List ℕ) (buffer : ℕ → ℕ)
    → length bytes ≤ 65536
    → read_bytes head i (length bytes) (write_bytes head i bytes buffer) ≡ bytes
unfolding write_bytes
read_bytes-write_bytes head i [] buffer fits = refl
read_bytes-write_bytes head i (b ∷ bytes) buffer fits =
    let written = write_byte (index head i) b buffer in
    let here = write_bytes_below head (i + 1) i bytes written (omega arith) (omega arith) in
    let rest = read_bytes-write_bytes head (i + 1) bytes written (omega arith) in
    let kept : write_bytes head (i + 1) bytes written (index head i) ≡ b =
      here ∙ ground (arith, nat_beq_iff (index head i) (index head i)) in
    ap₂ (λ x xs. x ∷ xs) kept rest

-- The bytes that no reader has taken yet, counted from `tail`.
abbrev pub unread : SharedRingBuffer → ℕ
unread r = wrapping_sub r.head r.tail

-- The offset of an unread byte from `head`, once round the buffer.
index-unread :
    (head tail k : ℕ)
    → head < modulus
    → tail < modulus
    → wrapping_sub head tail ≤ 65536
    → k < wrapping_sub head tail
    → index tail k ≡ index head (65536 - wrapping_sub head tail + k)
index-unread head tail k h t fits below = omega arith

length_written :
    (head n : ℕ) (buffer : ℕ → ℕ)
    → let started = write_bytes head 0 (length_bytes n) buffer in
      (started (index head 0) ≡ n % 65536 % 256) × (started (index head 1) ≡ n % 65536 / 256)
unfolding write_bytes
length_written head n buffer = (
  ground (
    arith,
    index-apart head 0 1 (omega arith) (omega arith),
    nat_beq_iff (index head 0) (index head 0),
  ),
  ground (arith, nat_beq_iff (index head 1) (index head 1)),
)

-- If the counters are 64-bit words, and the unread bytes leave room in the buffer for the message
-- and its two bytes of length, the message is accepted. A reader at the old head then finds its
-- length, low byte first, and after it its bytes; and there are as many more unread bytes as were
-- written.
pub push_frame :
    (bytes : List ℕ) (r : SharedRingBuffer)
    → r.head < modulus
    → r.tail < modulus
    → unread r + (length bytes + 2) ≤ buffer_size
    → (r' : SharedRingBuffer) × (push bytes r ≡ some r')
      × (r'.buffer (index r.head 0) + 256 * r'.buffer (index r.head 1) ≡ length bytes)
      × (read_bytes r.head 2 (length bytes) r'.buffer ≡ bytes)
      × (unread r' ≡ unread r + (length bytes + 2))
unfolding push
push_frame bytes r h t room =
    let lengths = length_bytes (length bytes) in
    let started = write_bytes r.head 0 lengths r.buffer in
    let accept : ltb (wrapping_sub buffer_size (unread r)) (length bytes + 2) ≡ false =
      ground arith in
    let (low, high) = length_written r.head (length bytes) r.buffer in
    let low_kept = write_bytes_below r.head 2 0 bytes started (omega arith) (omega arith) in
    let high_kept = write_bytes_below r.head 2 1 bytes started (omega arith) (omega arith) in
    (
      record r {
        head = wrapping_add r.head (2 + length bytes);
        buffer = write_bytes r.head 2 bytes started;
      },
      rw accept refl,
      omega (arith, low, high, low_kept, high_kept),
      read_bytes-write_bytes r.head 2 bytes started (omega arith),
      omega arith,
    )

abbrev buffer_of : Option SharedRingBuffer → ℕ → ℕ
buffer_of none = λ _. 0
buffer_of (some r) = r.buffer

-- If the counters are 64-bit words and the unread bytes fit the buffer, a message that is
-- accepted overwrites no byte that is still unread.
pub push_keeps_unread :
    (bytes : List ℕ) (r r' : SharedRingBuffer) (k : ℕ)
    → r.head < modulus
    → r.tail < modulus
    → unread r ≤ buffer_size
    → push bytes r ≡ some r'
    → k < unread r
    → r'.buffer (index r.tail k) ≡ r.buffer (index r.tail k)
unfolding push
push_keeps_unread bytes r r' k h t fits accepted below =
    elim (Bool-cases (ltb (wrapping_sub buffer_size (unread r)) (length bytes + 2))) [
      | inl refuse ↦ ground (arith, refuse, accepted)
      | inr accept ↦
          let lengths = length_bytes (length bytes) in
          let j = 65536 - unread r + k in
          let room : length bytes + 2 ≤ 65536 - unread r = ground (arith, accept) in
          let payload_apart =
            write_bytes_above r.head 2 j bytes (write_bytes r.head 0 lengths r.buffer) (omega arith)
              (omega arith) in
          let length_apart =
            write_bytes_above r.head 0 j lengths r.buffer (omega arith) (omega arith) in
          let place = index-unread r.head r.tail k h t fits below in
          let made : buffer_of (push bytes r)
              ≡ write_bytes r.head 2 bytes (write_bytes r.head 0 lengths r.buffer) =
            rw accept refl in
          ap (λ (buffer : ℕ → ℕ). buffer (index r.tail k)) (sym (ap buffer_of accepted) ∙ made)
          ∙ ap (write_bytes r.head 2 bytes (write_bytes r.head 0 lengths r.buffer)) place
          ∙ payload_apart
          ∙ length_apart
          ∙ ap r.buffer (sym place)
    ]
