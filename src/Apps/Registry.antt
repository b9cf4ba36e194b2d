-- ===== src/Apps/Registry.antt =====
-- app_registry.rs: the registry that the dock reads. A pointer to a text is the text, and `none` is
-- the null pointer; the index -1 is `none` too.
pub mod Pinned
pub mod Publish
use slura_chain.Base.{
  ℕ, zero, suc, ◌+◌, ◌-◌, ◌*◌, ◌/◌, ◌%◌, ◌^◌, ◌≤◌, ◌<◌, ◌≡◌, refl, sym, ap, ◌∙◌, ◌≢◌, ◌↔◌, ◌⊎◌, inl,
  inr, Bool, true, false, ◌&&◌, ◌||◌, not, Option, none, some, List, [], ◌∷◌, ◌++◌, map, arith,
  String, ltb, leb, nat_beq, if◌then◌else◌, length, length-append, All, Member, last, first, keep,
  find, any, ◌==◌, nat_eq, string_eq, beq_self, Bool-cases, Option-cases, is_some,
}
use slura_chain.Base.Outcome.{and_then}
use slura_chain.Base.Slices.{get_elem?, set_elem}
use slura_chain.Base.Text.{join}
use slura_chain.Apps.Menu.{AppManifest, MenuItem, parse_dock_menu_items}

pub record RegEntry : Type 0 where
  pub name : String
  pub icon : Option String
  pub display : String
  pub diamond_color : ℕ
  pub pinned : Bool
  pub menu_items : List MenuItem

abbrev pub default_diamond_color : ℕ
default_diamond_color = 0x33b9b9b9

abbrev pub pinned_defaults : List String
pinned_defaults = "ShiLooker" ∷ []

unfoldable pub make_entry :
    String → String → String → ℕ → Bool → List ℕ → List AppManifest → RegEntry
make_entry folder icon_rel display diamond_color pinned dock_menu_items apps = record {
  name = folder;
  icon =
      if icon_rel == "" then none else some (join (join (join "SDC:/apps/" folder) "/") icon_rel);
  display = if display == "" then folder else display;
  diamond_color = diamond_color;
  pinned = pinned;
  menu_items = parse_dock_menu_items dock_menu_items apps;
}

abbrev default_icon : String → String
default_icon folder = join (join (join folder ".slasset/") folder) ".png"

-- The manifest that was found, or what stands for it.
abbrev default_entry : String → List AppManifest → Option AppManifest → RegEntry
default_entry folder apps none =
    make_entry folder (default_icon folder) "" default_diamond_color true [] apps
default_entry folder apps (some a) =
    make_entry folder (if a.icon_rel == "" then default_icon folder else a.icon_rel) a.display_name
      a.diamond_color true a.dock_menu_items apps

abbrev pub default_entries : List String → List AppManifest → List RegEntry
default_entries [] apps = []
default_entries (folder ∷ folders) apps =
    default_entry folder apps (find (λ (a : AppManifest). a.folder_name == folder) apps)
    ∷ default_entries folders apps

abbrev pub other_entry : List AppManifest → AppManifest → RegEntry
other_entry apps a =
    make_entry a.folder_name a.icon_rel a.display_name a.diamond_color false a.dock_menu_items apps

abbrev pub other_entries : List AppManifest → List AppManifest → List RegEntry
other_entries apps [] = []
other_entries apps (a ∷ rest) =
    let others = other_entries apps rest in
    if a.folder_name == "ShiLauncher"
    then others
    else if any (λ (p : String). p == a.folder_name) pinned_defaults
    then others
    else other_entry apps a ∷ others

unfoldable pub publish_registry : List AppManifest → List RegEntry
publish_registry apps = default_entries pinned_defaults apps ++ other_entries apps apps

unfoldable pub registry_count : List RegEntry → ℕ
registry_count registry = length registry

unfoldable pub registry_name_ptr : List RegEntry → ℕ → Option String
registry_name_ptr registry i = and_then (get_elem? registry i) λ e. some e.name

unfoldable pub registry_icon_ptr : List RegEntry → ℕ → Option String
registry_icon_ptr registry i = and_then (get_elem? registry i) λ e. e.icon

abbrev named : String → List RegEntry → Option RegEntry
named folder registry = find (λ (e : RegEntry). e.name == folder) registry

unfoldable pub registry_name_icon_for : List RegEntry → String → Option String × Option String
registry_name_icon_for registry folder = elim (named folder registry) [
  | none ↦ (none, none)
  | some e ↦ (some e.name, e.icon)
]

unfoldable pub registry_display_ptr_for : List RegEntry → String → Option String
registry_display_ptr_for registry folder = and_then (named folder registry) λ e. some e.display

abbrev color_of : Option RegEntry → ℕ
color_of none = default_diamond_color
color_of (some e) = e.diamond_color

unfoldable pub registry_diamond_color : List RegEntry → ℕ → ℕ
registry_diamond_color registry i = color_of (get_elem? registry i)

unfoldable pub registry_diamond_color_for : List RegEntry → String → ℕ
registry_diamond_color_for registry folder = color_of (named folder registry)

abbrev pub pinned_of : Option RegEntry → Bool
pinned_of none = false
pinned_of (some e) = e.pinned

unfoldable pub registry_get_pinned : List RegEntry → ℕ → Bool
registry_get_pinned registry i = pinned_of (get_elem? registry i)

-- The answer is whether the index was in range, 0 or -1 in the source.
unfoldable pub registry_set_pinned : List RegEntry → ℕ → Bool → Bool × List RegEntry
registry_set_pinned registry i pinned = elim (get_elem? registry i) [
  | none ↦ (false, registry)
  | some e ↦ (true, set_elem i (record e { pinned = pinned }) registry)
]

unfoldable pub registry_pinned_count : List RegEntry → ℕ
registry_pinned_count registry = length (keep (λ (e : RegEntry). e.pinned) registry)

-- The loop at the index `idx`, after `count` pinned entries.
abbrev pub pinned_from : ℕ → ℕ → ℕ → List RegEntry → Option ℕ
pinned_from idx count i [] = none
pinned_from idx count i (e ∷ rest) =
    let counted = pinned_from (idx + 1) (count + 1) i rest in
    let skipped = pinned_from (idx + 1) count i rest in
    if e.pinned then (if nat_beq count i then some idx else counted) else skipped

unfoldable pub registry_pinned_index : List RegEntry → ℕ → Option ℕ
registry_pinned_index registry i = pinned_from 0 0 i registry

abbrev menu_item : List RegEntry → ℕ → ℕ → Option MenuItem
menu_item registry i j = and_then (get_elem? registry i) λ e. get_elem? e.menu_items j

abbrev count_of : Option (List MenuItem) → ℕ
count_of none = 0
count_of (some items) = length items

unfoldable pub registry_menu_item_count : List RegEntry → ℕ → ℕ
registry_menu_item_count registry i =
    count_of (and_then (get_elem? registry i) λ e. some e.menu_items)

unfoldable pub registry_menu_item_label_ptr : List RegEntry → ℕ → ℕ → Option (List ℕ)
registry_menu_item_label_ptr registry i j = and_then (menu_item registry i j) λ m. some m.label

abbrev submenu_count : Option MenuItem → ℕ
submenu_count none = 0
submenu_count (some m) = length m.submenu

unfoldable pub registry_menu_item_submenu_count : List RegEntry → ℕ → ℕ → ℕ
registry_menu_item_submenu_count registry i j = submenu_count (menu_item registry i j)

unfoldable pub registry_menu_item_submenu_label_ptr : List RegEntry → ℕ → ℕ → ℕ → Option (List ℕ)
registry_menu_item_submenu_label_ptr registry i j k =
    and_then (menu_item registry i j) λ m. get_elem? m.submenu k
