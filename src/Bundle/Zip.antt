-- ===== src/Bundle/Zip.antt =====
-- zip_reader.rs: finding the directory of an archive and the data of its entries.
pub mod Names
pub mod Bounds
pub mod Listing
pub mod Listed
use slura_chain.Base.{
  ℕ, zero, suc, ◌+◌, ◌-◌, ◌*◌, ◌/◌, ◌%◌, ◌^◌, ◌≤◌, ◌<◌, ◌≡◌, refl, sym, ap, ◌∙◌, ◌≢◌, ◌↔◌, ◌⊎◌, inl,
  inr, Bool, true, false, ◌&&◌, ◌||◌, not, Option, none, some, List, [], ◌∷◌, ◌++◌, map, arith,
  String, ltb, leb, nat_beq, if◌then◌else◌, length, length-append, All, Member, last, first, keep,
  find, any, ◌==◌, nat_eq, string_eq, beq_self, Bool-cases, Option-cases, is_some,
}
use slura_chain.Base.Outcome.{and_then}
use slura_chain.Base.Slices.{get_elem?, take, drop}
use slura_chain.Base.Word.{modulus, saturating_add, saturating_sub}
use slura_chain.Base.Outcome.{Result, ok, err}

-- The errors of `BundleError` that the reader gives.
pub data BundleError : Type 0 where
  invalid_zip file_not_found compressed_not_supported : BundleError

-- A call gives a value, panics at an index beyond the data, or is a loop that the fuel does not end.
pub data Read (A : Type 0) : Type 0 where
  gives : A → Read A
  panics : Read A
  unfinished : Read A

infixl 5 ◌>>=◌
abbrev pub ◌>>=◌ : {A B : Type 0} → Read A → (A → Read B) → Read B
gives a >>= f = f a
panics >>= f = panics
unfinished >>= f = unfinished

-- `if b { return a; }` before the rest.
unfoldable pub return_if : {A : Type 0} → Bool → A → Read A → Read A
return_if true a later = gives a
return_if false a later = later

abbrev sig_local : ℕ
sig_local = 0x04034b50

abbrev pub sig_central : ℕ
sig_central = 0x02014b50

abbrev sig_eocd : ℕ
sig_eocd = 0x06054b50

-- `data[i]`
unfoldable pub byte_at : List ℕ → ℕ → Read ℕ
byte_at bytes i = elim (get_elem? bytes i) [ some b ↦ gives b | none ↦ panics ]

unfoldable pub r_u16 : List ℕ → ℕ → Read ℕ
r_u16 bytes off = do a ← byte_at bytes off; b ← byte_at bytes (off + 1); gives (a + 256 * b)

unfoldable pub r_u32 : List ℕ → ℕ → Read ℕ
r_u32 bytes off = do
  a ← byte_at bytes off
  b ← byte_at bytes (off + 1)
  c ← byte_at bytes (off + 2)
  d ← byte_at bytes (off + 3)
  gives (a + 256 * b + 65536 * c + 16777216 * d)

-- `for i in (search_from..=len - 22).rev()`: `rounds` indices are left, and the next is `search_from
-- + rounds - 1`.
unfoldable pub find_eocd_loop : ℕ → ℕ → List ℕ → Read (Option ℕ)
find_eocd_loop zero search_from bytes = gives none
find_eocd_loop (suc rounds) search_from bytes =
    let rest = find_eocd_loop rounds search_from bytes in
    r_u32 bytes (search_from + rounds) >>= λ sig.
    return_if (nat_beq sig sig_eocd) (some (search_from + rounds)) rest

unfoldable pub find_eocd : List ℕ → Read (Option ℕ)
find_eocd bytes =
    let search_from = saturating_sub (length bytes) (65535 + 22) in
    return_if (ltb (length bytes) 22) none
      (find_eocd_loop (length bytes - 22 + 1 - search_from) search_from bytes)

pub record ZipReader : Type 0 where
  pub bytes : List ℕ
  pub cd_offset : ℕ
  pub cd_size : ℕ

abbrev pub opened : List ℕ → Option ℕ → Read (Result ZipReader BundleError)
opened bytes none = gives (err invalid_zip)
opened bytes (some eocd) = r_u32 bytes (eocd + 12) >>= λ cd_size.
    r_u32 bytes (eocd + 16) >>= λ cd_offset. gives (
      if ltb (length bytes) (saturating_add cd_offset cd_size)
      then err invalid_zip
      else ok (record { bytes = bytes; cd_offset = cd_offset; cd_size = cd_size }))

-- `ZipReader::new`
unfoldable pub new : List ℕ → Read (Result ZipReader BundleError)
new bytes = find_eocd bytes >>= opened bytes

-- `data[from..to]`, which panics where the range is none of the data.
unfoldable pub slice : List ℕ → ℕ → ℕ → Read (List ℕ)
slice bytes from to =
    if leb from to && leb to (length bytes)
    then gives (take (to - from) (drop from bytes))
    else panics

unfoldable pub raw_data_from_local : List ℕ → ℕ → ℕ → Read (Result (List ℕ) BundleError)
raw_data_from_local bytes local_off size =
    return_if (ltb (length bytes) (local_off + 30)) (err invalid_zip) (
      r_u32 bytes local_off >>= λ sig. return_if (not (nat_beq sig sig_local)) (err invalid_zip) (
        r_u16 bytes (local_off + 26) >>= λ fname_len. r_u16 bytes (local_off + 28) >>= λ extra_len.
        let data_start = local_off + 30 + fname_len + extra_len in
        return_if (ltb (length bytes) (saturating_add data_start size)) (err invalid_zip)
          (slice bytes data_start (data_start + size) >>= λ raw. gives (ok raw))))

abbrev pub slash : ℕ → ℕ
slash b = if nat_beq b b'\\' then b'/' else b

abbrev pub same_bytes : List ℕ → List ℕ → Bool
same_bytes [] ys = true
same_bytes (x ∷ xs) [] = true
same_bytes (x ∷ xs) (y ∷ ys) =
    let rest = same_bytes xs ys in if nat_beq (slash x) (slash y) then rest else false

unfoldable pub names_match : List ℕ → List ℕ → Bool
names_match a b = if nat_beq (length a) (length b) then same_bytes a b else false

-- The fields of a header of the central directory.
pub record Entry : Type 0 where
  pub compress : ℕ
  pub comp_size : ℕ
  pub uncomp_size : ℕ
  pub fname_len : ℕ
  pub extra_len : ℕ
  pub comment_len : ℕ
  pub local_off : ℕ

unfoldable pub entry_at : List ℕ → ℕ → Read Entry
entry_at bytes pos = do
  compress ← r_u16 bytes (pos + 10)
  comp_size ← r_u32 bytes (pos + 20)
  uncomp_size ← r_u32 bytes (pos + 24)
  fname_len ← r_u16 bytes (pos + 28)
  extra_len ← r_u16 bytes (pos + 30)
  comment_len ← r_u16 bytes (pos + 32)
  local_off ← r_u32 bytes (pos + 42)
  gives (record {
    compress = compress;
    comp_size = comp_size;
    uncomp_size = uncomp_size;
    fname_len = fname_len;
    extra_len = extra_len;
    comment_len = comment_len;
    local_off = local_off;
  })

-- The position behind an entry.
abbrev pub after_entry : ℕ → Entry → ℕ
after_entry pos e = pos + (46 + e.fname_len + e.extra_len + e.comment_len)

-- `inflate_raw` rests on miniz_oxide: `none` is a status other than `Done`.
module _ (decompress : List ℕ → ℕ → Option (List ℕ)) where
  unfoldable pub inflate_raw : List ℕ → ℕ → Result (List ℕ) BundleError
  inflate_raw compressed expected_size =
      elim (decompress compressed (if ltb expected_size 1 then 1 else expected_size)) [
        | some output ↦ ok output
        | none ↦ err invalid_zip
      ]

  abbrev pub unpacked : Entry → Result (List ℕ) BundleError → Result (List ℕ) BundleError
  unpacked e (err x) = err x
  unpacked e (ok raw) =
      if nat_beq e.compress 0
      then ok raw
      else if nat_beq e.compress 8
      then inflate_raw raw e.uncomp_size
      else err compressed_not_supported

  abbrev pub extract_or :
      Bool
      → ZipReader
      → Entry
      → Read (Result (List ℕ) BundleError)
      → Read (Result (List ℕ) BundleError)
  extract_or true zip e later =
      raw_data_from_local zip.bytes e.local_off e.comp_size >>= λ raw. gives (unpacked e raw)
  extract_or false zip e later = later

  abbrev pub visit :
      ZipReader
      → List ℕ
      → ℕ
      → Entry
      → Read (Result (List ℕ) BundleError)
      → Read (Result (List ℕ) BundleError)
  visit zip name pos e later =
      return_if (ltb (length zip.bytes) (pos + 46 + e.fname_len)) (err file_not_found) (
        slice zip.bytes (pos + 46) (pos + 46 + e.fname_len) >>= λ entry_name.
        extract_or (names_match entry_name name) zip e later)

  -- `while pos + CD_HEADER_SIZE <= end`
  unfoldable pub extract_loop : ℕ → ZipReader → List ℕ → ℕ → Read (Result (List ℕ) BundleError)
  extract_loop zero zip name pos = unfinished
  extract_loop (suc fuel) zip name pos =
      return_if (ltb (zip.cd_offset + zip.cd_size) (pos + 46)) (err file_not_found) (
        r_u32 zip.bytes pos >>= λ sig.
        return_if (not (nat_beq sig sig_central)) (err file_not_found) (
          entry_at zip.bytes pos >>= λ e.
          visit zip name pos e (extract_loop fuel zip name (after_entry pos e))))

  -- Each round moves on by 46 bytes at least, so as many rounds as there are bytes end the loop.
  unfoldable pub extract_file : ZipReader → List ℕ → Read (Result (List ℕ) BundleError)
  extract_file zip name = extract_loop (suc (length zip.bytes)) zip name zip.cd_offset
