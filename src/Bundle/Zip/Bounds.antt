-- ===== src/Bundle/Zip/Bounds.antt =====
-- No index of the reader lies beyond the data, and its loop ends.
use slura_chain.Base.{
  ℕ, zero, suc, ◌+◌, ◌-◌, ◌*◌, ◌^◌, ◌≤◌, ◌<◌, ◌≡◌, refl, inl, inr, Bool, true, false, Option, none,
  some, List, arith, ltb, if◌then◌else◌, length, nat_eq, string_eq, Bool-cases,
}
use slura_chain.Base.Slices.{get_elem?-lt, take, drop}
use slura_chain.Base.Word.{saturating_add, saturating_sub}
use slura_chain.Base.Outcome.{Result, ok, err}
use slura_chain.Bundle.Zip.{
  BundleError, invalid_zip, Read, gives, panics, unfinished, ◌>>=◌, byte_at, r_u16, r_u32,
  find_eocd_loop, find_eocd, ZipReader, opened, new, return_if, extract_or, slice,
  raw_data_from_local, names_match, Entry, entry_at, after_entry, visit, extract_loop, extract_file,
}

-- A read that gives a value.
abbrev pub Gives : {A : Type 0} → Read A → Type 0
Gives {A} r = (a : A) × (r ≡ gives a)

-- Steps one after the other give a value when each does.
pub then-Gives :
    {A B : Type 0} (r : Read A) (f : A → Read B)
    → Gives r
    → ((a : A) → r ≡ gives a → Gives (f a))
    → Gives (r >>= f)
then-Gives (gives a) f h k = k a refl
then-Gives panics f (a, e) k = cc e
then-Gives unfinished f (a, e) k = cc e

byte_at-Gives : (bytes : List ℕ) (i : ℕ) → i < length bytes → Gives (byte_at bytes i)
unfolding byte_at
byte_at-Gives bytes i h = let (b, e) = get_elem?-lt bytes i h in (b, rw (e, byte_at) refl)

pub r_u16-Gives : (bytes : List ℕ) (off : ℕ) → off + 2 ≤ length bytes → Gives (r_u16 bytes off)
unfolding r_u16
r_u16-Gives bytes off h =
    then-Gives (byte_at bytes off) _ (byte_at-Gives bytes off (omega arith)) λ a _.
      then-Gives (byte_at bytes (off + 1)) _ (byte_at-Gives bytes (off + 1) (omega arith))
        λ b _. (a + 256 * b, refl)

pub r_u32-Gives : (bytes : List ℕ) (off : ℕ) → off + 4 ≤ length bytes → Gives (r_u32 bytes off)
unfolding r_u32
r_u32-Gives bytes off h =
    then-Gives (byte_at bytes off) _ (byte_at-Gives bytes off (omega arith)) λ a _.
      then-Gives (byte_at bytes (off + 1)) _ (byte_at-Gives bytes (off + 1) (omega arith)) λ b _.
        then-Gives (byte_at bytes (off + 2)) _ (byte_at-Gives bytes (off + 2) (omega arith)) λ c _.
          then-Gives (byte_at bytes (off + 3)) _ (byte_at-Gives bytes (off + 3) (omega arith))
            λ d _. (_, refl)

pub slice-Gives :
    (bytes : List ℕ) (from to : ℕ)
    → from ≤ to
    → to ≤ length bytes
    → slice bytes from to ≡ gives (take (to - from) (drop from bytes))
unfolding slice
slice-Gives bytes from to h k = ground arith

pub entry_at-Gives :
    (bytes : List ℕ) (pos : ℕ) → pos + 46 ≤ length bytes → Gives (entry_at bytes pos)
unfolding entry_at
entry_at-Gives bytes pos h =
    then-Gives (r_u16 bytes (pos + 10)) _ (r_u16-Gives bytes (pos + 10) (omega arith)) λ a _.
      then-Gives (r_u32 bytes (pos + 20)) _ (r_u32-Gives bytes (pos + 20) (omega arith)) λ b _.
        then-Gives (r_u32 bytes (pos + 24)) _ (r_u32-Gives bytes (pos + 24) (omega arith)) λ c _.
          then-Gives (r_u16 bytes (pos + 28)) _ (r_u16-Gives bytes (pos + 28) (omega arith)) λ d _.
            then-Gives (r_u16 bytes (pos + 30)) _ (r_u16-Gives bytes (pos + 30) (omega arith))
              λ e _.
                then-Gives (r_u16 bytes (pos + 32)) _ (r_u16-Gives bytes (pos + 32) (omega arith))
                  λ f _.
                    then-Gives (r_u32 bytes (pos + 42)) _
                      (r_u32-Gives bytes (pos + 42) (omega arith)) λ g _. (_, refl)

-- An early return before a call that gives a value.
pub return_if-Gives :
    {A : Type 0} (b : Bool) (a : A) (later : Read A)
    → (b ≡ false → Gives later)
    → Gives (return_if b a later)
unfolding return_if
return_if-Gives true a later k = (a, refl)
return_if-Gives false a later k = k refl

-- The data of an entry is read without a panic, from any offset.
pub raw_data_from_local-Gives :
    (bytes : List ℕ) (local_off size : ℕ)
    → length bytes < 2 ^ 63
    → Gives (raw_data_from_local bytes local_off size)
unfolding raw_data_from_local
raw_data_from_local-Gives bytes local_off size fits = return_if-Gives _ _ _ λ inside.
    then-Gives (r_u32 bytes local_off) _ (r_u32-Gives bytes local_off (ground (arith, inside)))
      λ sig _. return_if-Gives _ _ _ λ _.
        then-Gives (r_u16 bytes (local_off + 26)) _
          (r_u16-Gives bytes (local_off + 26) (ground (arith, inside)))
          λ fname_len _.
            then-Gives (r_u16 bytes (local_off + 28)) _
              (r_u16-Gives bytes (local_off + 28) (ground (arith, inside)))
              λ extra_len _. return_if-Gives _ _ _ λ enough.
                let start = local_off + 30 + fname_len + extra_len in
                then-Gives (slice bytes start (start + size)) _
                  (_, slice-Gives bytes start (start + size) (omega arith) (ground (arith, enough)))
                  λ raw _. (ok raw, refl)

-- A read that gives a value with a property.
abbrev pub GivesWith : {A : Type 0} → (A → Type 0) → Read A → Type 0
GivesWith {A} P r = (a : A) × (r ≡ gives a) × P a

then-GivesWith :
    {A B : Type 0} (P : B → Type 0) (r : Read A) (f : A → Read B)
    → Gives r
    → ((a : A) → GivesWith P (f a))
    → GivesWith P (r >>= f)
then-GivesWith P (gives a) f h k = k a
then-GivesWith P panics f (a, e) k = cc e
then-GivesWith P unfinished f (a, e) k = cc e

return_if-GivesWith :
    {A : Type 0} (P : A → Type 0) (b : Bool) (a : A) (later : Read A)
    → P a
    → (b ≡ false → GivesWith P later)
    → GivesWith P (return_if b a later)
unfolding return_if
return_if-GivesWith P true a later h k = (a, refl, h)
return_if-GivesWith P false a later h k = k refl

-- What `find_eocd` finds begins 22 bytes of the data at least.
abbrev IsInside : List ℕ → Option ℕ → Type 0
IsInside bytes none = Unit
IsInside bytes (some i) = i + 22 ≤ length bytes

find_eocd_loop-Gives :
    (rounds search_from : ℕ) (bytes : List ℕ)
    → search_from + rounds + 21 ≤ length bytes
    → GivesWith (IsInside bytes) (find_eocd_loop rounds search_from bytes)
unfolding find_eocd_loop
find_eocd_loop-Gives zero search_from bytes h = (none, refl, tt)
find_eocd_loop-Gives (suc rounds) search_from bytes h =
    then-GivesWith (IsInside bytes) (r_u32 bytes (search_from + rounds)) _
      (r_u32-Gives bytes (search_from + rounds) (omega arith))
      λ sig.
        return_if-GivesWith (IsInside bytes) _ _ _ (omega arith)
          λ _. find_eocd_loop-Gives rounds search_from bytes (omega arith)

find_eocd-Gives : (bytes : List ℕ) → GivesWith (IsInside bytes) (find_eocd bytes)
unfolding find_eocd
find_eocd-Gives bytes =
    let search_from = saturating_sub (length bytes) (65535 + 22) in
    return_if-GivesWith (IsInside bytes) _ _ _ tt λ long.
      find_eocd_loop-Gives (length bytes - 22 + 1 - search_from) search_from bytes
        (ground (arith, long))

-- A directory that lies within the data.
abbrev pub IsWellFormed : ZipReader → Type 0
IsWellFormed zip = zip.cd_offset + zip.cd_size ≤ length zip.bytes

abbrev pub IsOpened : List ℕ → Result ZipReader BundleError → Type 0
IsOpened bytes (err x) = x ≡ invalid_zip
IsOpened bytes (ok zip) = (zip.bytes ≡ bytes) × IsWellFormed zip

IsOpened-checked :
    (bytes : List ℕ) (cd_offset cd_size : ℕ)
    → length bytes < 2 ^ 63
    → IsOpened bytes (
        if ltb (length bytes) (saturating_add cd_offset cd_size)
        then err invalid_zip
        else ok (record { bytes = bytes; cd_offset = cd_offset; cd_size = cd_size }))
IsOpened-checked bytes cd_offset cd_size fits =
    elim (Bool-cases (ltb (length bytes) (saturating_add cd_offset cd_size))) [
      | inl beyond ↦ rw beyond refl
      | inr inside ↦ rw inside (refl, ground (arith, inside))
    ]

opened-Gives :
    (bytes : List ℕ) (o : Option ℕ)
    → length bytes < 2 ^ 63
    → IsInside bytes o
    → GivesWith (IsOpened bytes) (opened bytes o)
opened-Gives bytes none fits h = (err invalid_zip, refl, refl)
opened-Gives bytes (some eocd) fits h =
    then-GivesWith (IsOpened bytes) (r_u32 bytes (eocd + 12)) _
      (r_u32-Gives bytes (eocd + 12) (omega arith))
      λ cd_size.
        then-GivesWith (IsOpened bytes) (r_u32 bytes (eocd + 16)) _
          (r_u32-Gives bytes (eocd + 16) (omega arith))
          λ cd_offset. (_, refl, IsOpened-checked bytes cd_offset cd_size fits)

-- Opening any data ends without a panic, in the error `InvalidZip` or in a reader of these data whose directory lies within them: for data of less than 2^63 bytes.
pub new-IsOpened : (bytes : List ℕ) → length bytes < 2 ^ 63 → GivesWith (IsOpened bytes) (new bytes)
unfolding new
new-IsOpened bytes fits =
    let (o, found, inside) = find_eocd-Gives bytes in rw found (opened-Gives bytes o fits inside)

module _ (decompress : List ℕ → ℕ → Option (List ℕ)) (zip : ZipReader) (name : List ℕ) where
  extract_or-Gives :
      (b : Bool) (e : Entry) (later : Read (Result (List ℕ) BundleError))
      → length zip.bytes < 2 ^ 63
      → Gives later
      → Gives (extract_or decompress b zip e later)
  extract_or-Gives true e later fits h =
      then-Gives (raw_data_from_local zip.bytes e.local_off e.comp_size) _
        (raw_data_from_local-Gives zip.bytes e.local_off e.comp_size fits) λ raw _. (_, refl)
  extract_or-Gives false e later fits h = h

  visit-Gives :
      (pos : ℕ) (e : Entry) (later : Read (Result (List ℕ) BundleError))
      → length zip.bytes < 2 ^ 63
      → Gives later
      → Gives (visit decompress zip name pos e later)
  visit-Gives pos e later fits h = return_if-Gives _ _ _ λ inside.
      then-Gives (slice zip.bytes (pos + 46) (pos + 46 + e.fname_len)) _
        (
          _,
          slice-Gives zip.bytes (pos + 46) (pos + 46 + e.fname_len) (omega arith)
              (ground (arith, inside)),
        )
        λ entry_name _. extract_or-Gives (names_match entry_name name) e later fits h

  extract_loop-Gives :
      (fuel pos : ℕ)
      → length zip.bytes < 2 ^ 63
      → IsWellFormed zip
      → zip.cd_offset + zip.cd_size ≤ pos + fuel
      → Gives (extract_loop decompress (suc fuel) zip name pos)
  unfolding extract_loop
  extract_loop-Gives zero pos fits well enough =
      return_if-Gives _ _ _ λ inside. absurd (ground (arith, inside))
  extract_loop-Gives (suc fuel) pos fits well enough = return_if-Gives _ _ _ λ inside.
      then-Gives (r_u32 zip.bytes pos) _ (r_u32-Gives zip.bytes pos (ground (arith, inside)))
        λ sig _. return_if-Gives _ _ _ λ _.
          then-Gives (entry_at zip.bytes pos) _
            (entry_at-Gives zip.bytes pos (ground (arith, inside)))
            λ e _.
              visit-Gives pos e _ fits
                (extract_loop-Gives fuel (after_entry pos e) fits well (ground (arith, inside)))

-- Extraction ends without a panic for every name: in a reader whose directory lies within its data of less than 2^63 bytes, whatever the headers in it say and whatever the decompressor answers.
pub extract_file-Gives :
    (decompress : List ℕ → ℕ → Option (List ℕ)) (zip : ZipReader) (name : List ℕ)
    → length zip.bytes < 2 ^ 63
    → IsWellFormed zip
    → Gives (extract_file decompress zip name)
unfolding extract_file
extract_file-Gives decompress zip name fits well =
    extract_loop-Gives decompress zip name (length zip.bytes) zip.cd_offset fits well (omega arith)
