-- ===== src/Bundle/Zip/Listing.antt =====
-- zip_reader.rs: the name of the application and the modules of an archive, from the names of its
-- entries.
use slura_chain.Base.{
  ℕ, zero, suc, ◌+◌, ◌-◌, ◌≡◌, refl, Bool, true, false, ◌&&◌, ◌||◌, not, Option, none, some, List,
  [], ◌∷◌, ◌++◌, map, ltb, leb, nat_beq, if◌then◌else◌, length, nat_eq, string_eq,
}
use slura_chain.Base.Slices.{drop}
use slura_chain.Bundle.Zip.{
  Read, gives, unfinished, ◌>>=◌, ZipReader, r_u16, r_u32, slice, return_if, sig_central, slash,
  BundleError, Entry, entry_at, raw_data_from_local, unpacked,
}
use slura_chain.Base.Outcome.{Result, ok, err}

-- What the next bytes of UTF-8 text must be: how many belong to the character that has begun, and
-- the range of the next one.
pub record Expected : Type 0 where
  pub left : ℕ
  pub low : ℕ
  pub high : ℕ

abbrev between : ℕ → ℕ → ℕ → Bool
between low high b = leb low b && leb b high

abbrev expects : ℕ → ℕ → ℕ → Option Expected
expects left low high = some (record { left = left; low = low; high = high })

-- The first byte of a character.
abbrev first_byte : ℕ → Option Expected
first_byte b =
    if ltb b 0x80
    then expects 0 0x80 0xbf
    else if between 0xc2 0xdf b
    then expects 1 0x80 0xbf
    else if between 0xe0 0xe0 b
    then expects 2 0xa0 0xbf
    else if between 0xed 0xed b
    then expects 2 0x80 0x9f
    else if between 0xe1 0xef b
    then expects 2 0x80 0xbf
    else if between 0xf0 0xf0 b
    then expects 3 0x90 0xbf
    else if between 0xf1 0xf3 b
    then expects 3 0x80 0xbf
    else if between 0xf4 0xf4 b
    then expects 3 0x80 0x8f
    else none

abbrev next_byte : Expected → ℕ → Option Expected
next_byte e b =
    if nat_beq e.left 0
    then first_byte b
    else if between e.low e.high b
    then expects (e.left - 1) 0x80 0xbf
    else none

utf8_from : Option Expected → List ℕ → Bool
utf8_from none bs = false
utf8_from (some e) [] = nat_beq e.left 0
utf8_from (some e) (b ∷ bs) = utf8_from (next_byte e b) bs

-- `core::str::from_utf8(bytes).is_ok()`
unfoldable pub is_utf8 : List ℕ → Bool
unfolding utf8_from
is_utf8 bs = utf8_from (expects 0 0x80 0xbf) bs

-- `\` becomes `/`; both are single bytes of UTF-8.
abbrev pub norm : List ℕ → List ℕ
norm bs = map slash bs

abbrev pub starts_with : List ℕ → List ℕ → Bool
starts_with [] bs = true
starts_with (p ∷ ps) [] = false
starts_with (p ∷ ps) (b ∷ bs) = let rest = starts_with ps bs in nat_beq p b && rest

-- `ends_with`: the bytes from the right distance of the end on.
abbrev pub ends_with : List ℕ → List ℕ → Bool
ends_with ps bs = leb (length ps) (length bs) && starts_with ps (drop (length bs - length ps) bs)

-- "base/" and ".ovc"
abbrev pub base_prefix : List ℕ
base_prefix = b'b' ∷ b'a' ∷ b's' ∷ b'e' ∷ b'/' ∷ []

abbrev pub ovc_suffix : List ℕ
ovc_suffix = b'.' ∷ b'o' ∷ b'v' ∷ b'c' ∷ []

abbrev pub is_nil : List ℕ → Bool
is_nil [] = true
is_nil (_ ∷ _) = false

-- What an entry name adds to the list of modules: `&norm["base/".len()..norm.len() - ".ovc".len()]`
-- panics where that range is none.
unfoldable pub module_name : List ℕ → Read (List (List ℕ))
module_name name =
    if starts_with base_prefix name && ends_with ovc_suffix name
    then (slice name 5 (length name - 4) >>= λ stem. gives (if is_nil stem then [] else stem ∷ []))
    else gives []

abbrev pub module_of : List ℕ → Read (List (List ℕ))
module_of raw = if is_utf8 raw then module_name (norm raw) else gives []

-- The names that one entry adds; one that reaches beyond the data adds none.
abbrev pub entry_modules : ZipReader → ℕ → ℕ → Read (List (List ℕ))
entry_modules zip pos name_end =
    return_if (ltb (length zip.bytes) name_end) []
      (slice zip.bytes (pos + 46) name_end >>= λ raw. module_of raw)

-- The loop of the listings: what each entry adds, from its position and the end of its name.
module _ {A : Type 0} (visit : ℕ → ℕ → Read (List A)) where
  unfoldable pub list_loop : ℕ → ZipReader → ℕ → Read (List A)
  list_loop zero zip pos = unfinished
  list_loop (suc fuel) zip pos = return_if (ltb (zip.cd_offset + zip.cd_size) (pos + 46)) [] (
      r_u32 zip.bytes pos >>= λ sig. return_if (not (nat_beq sig sig_central)) [] (
        r_u16 zip.bytes (pos + 28) >>= λ fname_len. r_u16 zip.bytes (pos + 30) >>= λ extra_len.
        r_u16 zip.bytes (pos + 32) >>= λ comment_len. visit pos (pos + 46 + fname_len) >>= λ found.
        list_loop fuel zip (pos + (46 + fname_len + extra_len + comment_len)) >>= λ rest.
        gives (found ++ rest)))

unfoldable pub list_ovc_modules : ZipReader → Read (List (List ℕ))
list_ovc_modules zip = list_loop (entry_modules zip) (suc (length zip.bytes)) zip zip.cd_offset

abbrev same_list : List ℕ → List ℕ → Bool
same_list a b = nat_beq (length a) (length b) && starts_with a b

-- "Maraset.yaml" and "RAbstractallowing.xml"
abbrev maraset_yaml : List ℕ
maraset_yaml =
    b'M' ∷ b'a' ∷ b'r' ∷ b'a' ∷ b's' ∷ b'e' ∷ b't' ∷ b'.' ∷ b'y' ∷ b'a' ∷ b'm' ∷ b'l' ∷ []

abbrev allowing_xml : List ℕ
allowing_xml =
    b'R' ∷ b'A' ∷ b'b' ∷ b's' ∷ b't' ∷ b'r' ∷ b'a' ∷ b'c' ∷ b't' ∷ b'a' ∷ b'l' ∷ b'l' ∷ b'o' ∷ b'w'
    ∷ b'i' ∷ b'n' ∷ b'g' ∷ b'.' ∷ b'x' ∷ b'm' ∷ b'l' ∷ []

-- Directories, modules, metadata and empty names are no assets.
unfoldable pub is_asset : List ℕ → Bool
is_asset name = not (
    ends_with (b'/' ∷ []) name
    || ((starts_with base_prefix name && ends_with ovc_suffix name)
        || ((same_list name maraset_yaml || same_list name allowing_xml) || is_nil name)))

module _ (decompress : List ℕ → ℕ → Option (List ℕ)) where
  abbrev pub asset_data : List ℕ → Entry → Result (List ℕ) BundleError → List (List ℕ × List ℕ)
  asset_data name e raw = elim (unpacked decompress e raw) [
    | ok bytes ↦ (name, bytes) ∷ []
    | err x ↦ []
  ]

  abbrev pub asset_of : ZipReader → Entry → List ℕ → Bool → Read (List (List ℕ × List ℕ))
  asset_of zip e name true = do
    raw ← raw_data_from_local zip.bytes e.local_off e.comp_size
    gives (asset_data name e raw)
  asset_of zip e name false = gives []

  abbrev pub entry_assets : ZipReader → ℕ → ℕ → Read (List (List ℕ × List ℕ))
  entry_assets zip pos name_end = entry_at zip.bytes pos >>= λ e.
      return_if (ltb (length zip.bytes) name_end) [] (
        slice zip.bytes (pos + 46) name_end >>= λ raw.
        asset_of zip e (norm raw) (is_utf8 raw && is_asset (norm raw)))

  unfoldable pub list_all_assets : ZipReader → Read (List (List ℕ × List ℕ))
  list_all_assets zip = list_loop (entry_assets zip) (suc (length zip.bytes)) zip zip.cd_offset

utf8_test :
    (is_utf8 (0x61 ∷ 0xc3 ∷ 0xa9 ∷ []) ≡ true)
    × (is_utf8 (0xc3 ∷ []) ≡ false)
    × (is_utf8 (0xed ∷ 0xa0 ∷ 0x80 ∷ []) ≡ false)
    × (is_utf8 (0xf0 ∷ 0x9f ∷ 0x98 ∷ 0x80 ∷ []) ≡ true)
unfolding is_utf8
utf8_test = (refl, refl, refl, refl)
