-- ===== src/Apps/Menu.antt =====
-- app_registry.rs: the manifests of applications and the items of their menus. The text of the items
-- is a list of code points; the bytes that end it for the reader in C are left out.
pub mod Parts
use Prim.Native.Char.{code}
use slura_chain.Base.{
  ℕ, Bool, true, false, ◌&&◌, ◌||◌, Option, none, some, List, [], ◌∷◌, ◌++◌, String, leb, nat_beq,
  if◌then◌else◌, find, nat_eq, string_eq, is_some,
}
use slura_chain.Base.Outcome.{and_then}

pub record AppManifest : Type 0 where
  pub folder_name : String
  pub display_name : String
  pub icon_rel : String
  pub srid : String
  pub diamond_color : ℕ
  pub dock_menu_items : List ℕ

pub record MenuItem : Type 0 where
  pub label : List ℕ
  pub submenu : List (List ℕ)

abbrev pub code_points : String → List ℕ
code_points String.[] = []
code_points (String.◌∷◌ c s) = code c ∷ code_points s

abbrev pub same_text : List ℕ → List ℕ → Bool
same_text [] [] = true
same_text [] (y ∷ ys) = false
same_text (x ∷ xs) [] = false
same_text (x ∷ xs) (y ∷ ys) = let rest = same_text xs ys in nat_beq x y && rest

abbrev pub is_empty_text : List ℕ → Bool
is_empty_text [] = true
is_empty_text (_ ∷ _) = false

-- `char::is_whitespace`
unfoldable pub is_whitespace : ℕ → Bool
is_whitespace c =
    ((leb 9 c && leb c 13) || (nat_beq c 0x20 || nat_beq c 0x85))
    || ((nat_beq c 0xa0 || nat_beq c 0x1680)
        || ((leb 0x2000 c && leb c 0x200a)
            || ((nat_beq c 0x2028 || nat_beq c 0x2029)
                || (nat_beq c 0x202f || (nat_beq c 0x205f || nat_beq c 0x3000)))))

abbrev trim_start : List ℕ → List ℕ
trim_start [] = []
trim_start (c ∷ cs) = let rest = trim_start cs in if is_whitespace c then rest else c ∷ cs

abbrev trim_end : List ℕ → List ℕ
trim_end [] = []
trim_end (c ∷ cs) =
    let rest = trim_end cs in if is_whitespace c && is_empty_text rest then [] else c ∷ rest

unfoldable pub trim : List ℕ → List ℕ
trim text = trim_end (trim_start text)

abbrev onto_first : ℕ → List (List ℕ) → List (List ℕ)
onto_first c [] = (c ∷ []) ∷ []
onto_first c (part ∷ parts) = (c ∷ part) ∷ parts

-- `split(separator)`
unfoldable pub split : ℕ → List ℕ → List (List ℕ)
split separator [] = [] ∷ []
split separator (c ∷ cs) =
    let rest = split separator cs in if nat_beq c separator then [] ∷ rest else onto_first c rest

-- `split_once(separator)`
unfoldable pub split_once : ℕ → List ℕ → Option (List ℕ × List ℕ)
split_once separator [] = none
split_once separator (c ∷ cs) =
    let rest = split_once separator cs in
    if nat_beq c separator
    then some ([], cs)
    else (and_then rest λ (before, after). some (c ∷ before, after))

-- The trimmed parts that are not empty.
abbrev submenu_of : List (List ℕ) → List (List ℕ)
submenu_of [] = []
submenu_of (part ∷ parts) =
    let rest = submenu_of parts in
    let sub = trim part in if is_empty_text sub then rest else sub ∷ rest

abbrev label_and_subs : List ℕ → Option (List ℕ × List ℕ) → List ℕ × List ℕ
label_and_subs part none = (part, [])
label_and_subs part (some (l, s)) = (trim l, s)

abbrev labelled : List ℕ × List ℕ → List MenuItem
labelled (label, subs) =
    if is_empty_text label
    then []
    else record { label = label; submenu = submenu_of (split b',' subs) } ∷ []

-- `Label` or `Label>sub,sub`; without a label it adds nothing.
unfoldable pub own_item : List ℕ → List MenuItem
own_item part = labelled (label_and_subs part (split_once b'>' part))

-- What follows `@`.
abbrev reference_of : List ℕ → Option (List ℕ)
reference_of [] = none
reference_of (c ∷ cs) = if nat_beq c b'@' then some cs else none

abbrev raw_part : List ℕ → List MenuItem
raw_part part = if is_empty_text part || is_some (reference_of part) then [] else own_item part

abbrev raw_parts : List (List ℕ) → List MenuItem
raw_parts [] = []
raw_parts (part ∷ parts) = raw_part (trim part) ++ raw_parts parts

unfoldable pub parse_dock_menu_items_raw : List ℕ → List MenuItem
parse_dock_menu_items_raw raw = raw_parts (split b'|' raw)

abbrev items_of : Option AppManifest → List MenuItem
items_of none = []
items_of (some a) = parse_dock_menu_items_raw a.dock_menu_items

-- The items of the application that a reference names, without their own references.
unfoldable pub resolve_menu_ref : List ℕ → List AppManifest → List MenuItem
resolve_menu_ref name apps =
    items_of (find (λ (a : AppManifest). same_text (code_points a.folder_name) name) apps)

abbrev menu_part : List AppManifest → List ℕ → List MenuItem
menu_part apps part = if is_empty_text part then [] else (elim (reference_of part) [
  | some name ↦ resolve_menu_ref (trim name) apps
  | none ↦ own_item part
])

abbrev menu_parts : List AppManifest → List (List ℕ) → List MenuItem
menu_parts apps [] = []
menu_parts apps (part ∷ parts) = menu_part apps (trim part) ++ menu_parts apps parts

unfoldable pub parse_dock_menu_items : List ℕ → List AppManifest → List MenuItem
parse_dock_menu_items raw apps = menu_parts apps (split b'|' raw)
