-- ===== src/Bundle/Zip/Listed.antt =====
-- The list of modules is made without a panic.
use slura_chain.Base.{
  ℕ, zero, suc, ◌+◌, ◌-◌, ◌^◌, ◌≤◌, ◌<◌, ◌≡◌, refl, inl, inr, Bool, true, false, ◌&&◌, Option, List,
  [], ◌∷◌, arith, if◌then◌else◌, length, nat_eq, string_eq, Bool-cases,
}
use slura_chain.Bundle.Zip.{
  Read, gives, ZipReader, r_u16, r_u32, slice, Entry, entry_at, raw_data_from_local,
}
use slura_chain.Bundle.Zip.Bounds.{
  Gives, IsWellFormed, then-Gives, return_if-Gives, r_u16-Gives, r_u32-Gives, slice-Gives,
  entry_at-Gives, raw_data_from_local-Gives,
}
use slura_chain.Bundle.Zip.Listing.{
  starts_with, ends_with, base_prefix, ovc_suffix, module_name, module_of, entry_modules, is_utf8,
  list_loop, list_ovc_modules, norm, asset_of, entry_assets, list_all_assets, is_asset,
}

-- The prefix and the suffix of a module cannot overlap.
module_length :
    (name : List ℕ)
    → starts_with base_prefix name ≡ true
    → ends_with ovc_suffix name ≡ true
    → 9 ≤ length name
module_length [] s e = absurd (ground (arith, s))
module_length (a ∷ []) s e = absurd (ground (arith, s))
module_length (a ∷ b ∷ []) s e = absurd (ground (arith, s))
module_length (a ∷ b ∷ c ∷ []) s e = absurd (ground (arith, s))
module_length (a ∷ b ∷ c ∷ d ∷ []) s e = absurd (ground (arith, s))
module_length (a ∷ b ∷ c ∷ d ∷ f ∷ []) s e = absurd (ground (arith, s, e))
module_length (a ∷ b ∷ c ∷ d ∷ f ∷ g ∷ []) s e = absurd (ground (arith, s, e))
module_length (a ∷ b ∷ c ∷ d ∷ f ∷ g ∷ h ∷ []) s e = absurd (ground (arith, s, e))
module_length (a ∷ b ∷ c ∷ d ∷ f ∷ g ∷ h ∷ i ∷ []) s e = absurd (ground (arith, s, e))
module_length (a ∷ b ∷ c ∷ d ∷ f ∷ g ∷ h ∷ i ∷ j ∷ rest) s e = omega arith

both : (a b : Bool) → (a && b) ≡ true → (a ≡ true) × (b ≡ true)
both true true h = (refl, refl)
both true false h = cc h
both false b h = cc h

-- The name of a module is cut out of every name without a panic.
pub module_name-Gives : (name : List ℕ) → Gives (module_name name)
unfolding module_name
module_name-Gives name =
    elim (Bool-cases (starts_with base_prefix name && ends_with ovc_suffix name)) [
      | inr other ↦ rw other ([], refl)
      | inl matched ↦
          let (s, e) = both (starts_with base_prefix name) (ends_with ovc_suffix name) matched in
          let long = module_length name s e in
          rw (matched, slice-Gives name 5 (length name - 4) (omega arith) (omega arith)) (_, refl)
    ]

module_of-Gives : (raw : List ℕ) → Gives (module_of raw)
module_of-Gives raw = by_utf8 (is_utf8 raw)
  where
    by_utf8 : (b : Bool) → Gives (if b then module_name (norm raw) else gives [])
    by_utf8 true = module_name-Gives (norm raw)
    by_utf8 false = ([], refl)

entry_modules-Gives :
    (zip : ZipReader) (pos name_end : ℕ)
    → pos + 46 ≤ name_end
    → Gives (entry_modules zip pos name_end)
entry_modules-Gives zip pos name_end h = return_if-Gives _ _ _ λ inside.
    then-Gives (slice zip.bytes (pos + 46) name_end) _
      (_, slice-Gives zip.bytes (pos + 46) name_end h (ground (arith, inside)))
      λ raw _. module_of-Gives raw

module _ {A : Type 0} (visit : ℕ → ℕ → Read (List A)) (zip : ZipReader)
    (visited : (pos name_end : ℕ)
      → pos + 46 ≤ length zip.bytes
      → pos + 46 ≤ name_end
      → Gives (visit pos name_end)) where
  list_loop-Gives :
      (fuel pos : ℕ)
      → IsWellFormed zip
      → zip.cd_offset + zip.cd_size ≤ pos + fuel
      → Gives (list_loop visit (suc fuel) zip pos)
  unfolding list_loop
  list_loop-Gives zero pos well enough =
      return_if-Gives _ _ _ λ inside. absurd (ground (arith, inside))
  list_loop-Gives (suc fuel) pos well enough = return_if-Gives _ _ _ λ inside.
      then-Gives (r_u32 zip.bytes pos) _ (r_u32-Gives zip.bytes pos (ground (arith, inside)))
        λ sig _. return_if-Gives _ _ _ λ _.
          then-Gives (r_u16 zip.bytes (pos + 28)) _
            (r_u16-Gives zip.bytes (pos + 28) (ground (arith, inside)))
            λ fname_len _.
              then-Gives (r_u16 zip.bytes (pos + 30)) _
                (r_u16-Gives zip.bytes (pos + 30) (ground (arith, inside)))
                λ extra_len _.
                  then-Gives (r_u16 zip.bytes (pos + 32)) _
                    (r_u16-Gives zip.bytes (pos + 32) (ground (arith, inside)))
                    λ comment_len _.
                      then-Gives (visit pos (pos + 46 + fname_len)) _
                        (visited pos (pos + 46 + fname_len) (ground (arith, inside)) (omega arith))
                        λ found _.
                          then-Gives
                            (list_loop visit (suc fuel) zip
                              (pos + (46 + fname_len + extra_len + comment_len)))
                            _
                            (list_loop-Gives fuel (pos + (46 + fname_len + extra_len + comment_len))
                              well (omega (arith, enough)))
                            λ rest _. (_, refl)

asset_of-Gives :
    (decompress : List ℕ → ℕ → Option (List ℕ)) (zip : ZipReader) (e : Entry) (name : List ℕ)
    (b : Bool)
    → length zip.bytes < 2 ^ 63
    → Gives (asset_of decompress zip e name b)
asset_of-Gives decompress zip e name true fits =
    then-Gives (raw_data_from_local zip.bytes e.local_off e.comp_size) _
      (raw_data_from_local-Gives zip.bytes e.local_off e.comp_size fits) λ raw _. (_, refl)
asset_of-Gives decompress zip e name false fits = ([], refl)

-- The modules and the assets of every archive are listed without a panic and in finitely many rounds: in a reader whose directory lies within its data of less than 2^63 bytes, whatever the names and the headers of the entries are and whatever the decompressor answers.
pub listings-Gives :
    (decompress : List ℕ → ℕ → Option (List ℕ)) (zip : ZipReader)
    → length zip.bytes < 2 ^ 63
    → IsWellFormed zip
    → Gives (list_ovc_modules zip) × Gives (list_all_assets decompress zip)
unfolding list_ovc_modules list_all_assets
listings-Gives decompress zip fits well = (
  list_loop-Gives (entry_modules zip) zip
      (λ pos name_end _ h. entry_modules-Gives zip pos name_end h) (length zip.bytes) zip.cd_offset
      well (omega arith),
  list_loop-Gives (entry_assets decompress zip) zip assets (length zip.bytes) zip.cd_offset well
      (omega arith),
)
  where
    assets :
        (pos name_end : ℕ)
        → pos + 46 ≤ length zip.bytes
        → pos + 46 ≤ name_end
        → Gives (entry_assets decompress zip pos name_end)
    assets pos name_end h k =
        then-Gives (entry_at zip.bytes pos) _ (entry_at-Gives zip.bytes pos h) λ e _.
          return_if-Gives _ _ _ λ inside.
            then-Gives (slice zip.bytes (pos + 46) name_end) _
              (_, slice-Gives zip.bytes (pos + 46) name_end k (ground (arith, inside)))
              λ raw _.
                asset_of-Gives decompress zip e (norm raw) (is_utf8 raw && is_asset (norm raw)) fits
