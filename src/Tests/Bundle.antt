-- ===== src/Tests/Bundle.antt =====
-- The archive reader at concrete inputs.
use slura_chain.Base.{
  ℕ, ◌≡◌, refl, ◌↔◌, true, Option, none, List, [], ◌∷◌, ◌++◌, map, arith, nat_eq, string_eq,
}
use slura_chain.Base.Outcome.{err, ok}
use slura_chain.Bundle.Zip.{
  file_not_found, gives, ZipReader, new, extract_file, names_match, slash, find_eocd,
  find_eocd_loop, r_u16, r_u32, byte_at, return_if, extract_loop, entry_at, raw_data_from_local,
  slice,
}
use slura_chain.Bundle.Zip.Bounds.{Gives, GivesWith, IsOpened, new-IsOpened, extract_file-Gives}
use slura_chain.Bundle.Zip.Listing.{list_ovc_modules, list_all_assets}
use slura_chain.Bundle.Zip.Listed.{listings-Gives}
use slura_chain.Bundle.Zip.Names.{names_match_iff}

-- An archive with one stored entry `a`: its local header with the two bytes, the directory and its
-- end.
abbrev local_part : List ℕ
local_part =
    80 ∷ 75 ∷ 3 ∷ 4 ∷ 0 ∷ 0 ∷ 0 ∷ 0 ∷ 0 ∷ 0 ∷ 0 ∷ 0 ∷ 0 ∷ 0 ∷ 0 ∷ 0 ∷ 0 ∷ 0 ∷ 2 ∷ 0 ∷ 0 ∷ 0 ∷ 2 ∷ 0
    ∷ 0 ∷ 0 ∷ 1 ∷ 0 ∷ 0 ∷ 0 ∷ 97 ∷ 65 ∷ 66 ∷ []

abbrev central_part : List ℕ
central_part =
    80 ∷ 75 ∷ 1 ∷ 2 ∷ 0 ∷ 0 ∷ 0 ∷ 0 ∷ 0 ∷ 0 ∷ 0 ∷ 0 ∷ 0 ∷ 0 ∷ 0 ∷ 0 ∷ 0 ∷ 0 ∷ 0 ∷ 0 ∷ 2 ∷ 0 ∷ 0 ∷ 0
    ∷ 2 ∷ 0 ∷ 0 ∷ 0 ∷ 1 ∷ 0 ∷ 0 ∷ 0 ∷ 0 ∷ 0 ∷ 0 ∷ 0 ∷ 0 ∷ 0 ∷ 0 ∷ 0 ∷ 0 ∷ 0 ∷ 0 ∷ 0 ∷ 0 ∷ 0 ∷ 97
    ∷ []

abbrev end_part : List ℕ
end_part =
    80 ∷ 75 ∷ 5 ∷ 6 ∷ 0 ∷ 0 ∷ 0 ∷ 0 ∷ 0 ∷ 0 ∷ 0 ∷ 0 ∷ 47 ∷ 0 ∷ 0 ∷ 0 ∷ 33 ∷ 0 ∷ 0 ∷ 0 ∷ 0 ∷ 0 ∷ []

abbrev archive : List ℕ
archive = local_part ++ (central_part ++ end_part)

abbrev reader : ZipReader
reader = record { bytes = archive; cd_offset = 33; cd_size = 47 }

abbrev no_inflate : List ℕ → ℕ → Option (List ℕ)
no_inflate compressed size = none

new-IsOpened_example : GivesWith (IsOpened archive) (new archive)
new-IsOpened_example = new-IsOpened archive (omega arith)

extract_file-Gives_example : Gives (extract_file no_inflate reader (b'a' ∷ []))
extract_file-Gives_example =
    extract_file-Gives no_inflate reader (b'a' ∷ []) (omega arith) (omega arith)

listings-Gives_example : Gives (list_ovc_modules reader) × Gives (list_all_assets no_inflate reader)
listings-Gives_example = listings-Gives no_inflate reader (omega arith) (omega arith)

names_match_iff_example :
    (names_match (b'a' ∷ b'/' ∷ []) (b'a' ∷ b'\\' ∷ []) ≡ true)
    ↔ (map slash (b'a' ∷ b'/' ∷ []) ≡ map slash (b'a' ∷ b'\\' ∷ []))
names_match_iff_example = names_match_iff (b'a' ∷ b'/' ∷ []) (b'a' ∷ b'\\' ∷ [])

new_test : new archive ≡ gives (ok reader)
unfolding new find_eocd find_eocd_loop r_u32 byte_at return_if
new_test = refl

extract_test :
    (extract_file no_inflate reader (b'a' ∷ []) ≡ gives (ok (65 ∷ 66 ∷ [])))
    × (extract_file no_inflate reader (b'b' ∷ []) ≡ gives (err file_not_found))
unfolding extract_file extract_loop entry_at raw_data_from_local names_match slice r_u16 r_u32
    byte_at return_if
extract_test = (refl, refl)
