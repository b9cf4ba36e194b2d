-- ===== src/Apps/Menu/Parts.antt =====
-- Menus part by part.
use slura_chain.Base.{
  ℕ, ◌≡◌, refl, sym, ◌≢◌, inl, inr, Bool, true, false, Option, none, some, List, [], ◌∷◌, ◌++◌,
  arith, nat_beq, if◌then◌else◌, All, nat_eq, string_eq, Bool-cases,
}
use mathlib.Core.List.{append_assoc}
use slura_chain.Apps.Menu.{
  AppManifest, MenuItem, is_empty_text, trim, onto_first, split, split_once, submenu_of,
  label_and_subs, own_item, reference_of, raw_part, raw_parts, parse_dock_menu_items_raw, items_of,
  resolve_menu_ref, menu_part, menu_parts, parse_dock_menu_items,
}

onto_first-append :
    (c : ℕ) (xs ys : List (List ℕ)) → xs ≢ [] → onto_first c (xs ++ ys) ≡ onto_first c xs ++ ys
onto_first-append c [] ys h = absurd (h refl)
onto_first-append c (x ∷ xs) ys h = refl

if_nonempty :
    (b : Bool) (c : ℕ) (parts : List (List ℕ)) → (if b then [] ∷ parts else onto_first c parts) ≢ []
if_nonempty true c parts = λ e. cc e
if_nonempty false c [] = λ e. cc e
if_nonempty false c (part ∷ parts) = λ e. cc e

split_nonempty : (separator : ℕ) (text : List ℕ) → split separator text ≢ []
unfolding split
split_nonempty separator [] = λ e. cc e
split_nonempty separator (c ∷ cs) = if_nonempty (nat_beq c separator) _ _

split-append :
    (separator : ℕ) (before after : List ℕ)
    → split separator (before ++ separator ∷ after)
      ≡ split separator before ++ split separator after
unfolding split
split-append separator [] after = ground (arith, (nat_eq.beq_iff separator separator).1 refl)
split-append separator (c ∷ cs) after = elim (Bool-cases (nat_beq c separator)) [
  | inl e ↦ rw (split-append separator cs after, e) refl
  | inr e ↦
      rw (split-append separator cs after, e)
        (onto_first-append c _ _ (split_nonempty separator cs))
]

menu_parts-append :
    (apps : List AppManifest) (xs ys : List (List ℕ))
    → menu_parts apps (xs ++ ys) ≡ menu_parts apps xs ++ menu_parts apps ys
menu_parts-append apps [] ys = refl
menu_parts-append apps (x ∷ xs) ys =
    rw (menu_parts-append apps xs ys) (sym (append_assoc (menu_part apps (trim x)) _ _))

-- The items of a text with a `|` are those of the text before it, then those of the text after it.
pub parse_dock_menu_items-append :
    (before after : List ℕ) (apps : List AppManifest)
    → parse_dock_menu_items (before ++ b'|' ∷ after) apps
      ≡ parse_dock_menu_items before apps ++ parse_dock_menu_items after apps
unfolding parse_dock_menu_items
parse_dock_menu_items-append before after apps =
    rw (split-append b'|' before after) (menu_parts-append apps _ _)

-- A text of a menu is never empty.
abbrev IsText : List ℕ → Type 0
IsText text = is_empty_text text ≡ false

-- An item that can be shown: its label is not empty, nor is a label of its submenu.
abbrev pub IsShown : MenuItem → Type 0
IsShown item = IsText item.label × All IsText item.submenu

module _ {A : Type 0} (P : A → Type 0) where
  All-append : (xs ys : List A) → All P xs → All P ys → All P (xs ++ ys)
  All-append [] ys h k = k
  All-append (x ∷ xs) ys (px, h) k = (px, All-append xs ys h k)

  All-if_nil : (b : Bool) (xs : List A) → All P xs → All P (if b then [] else xs)
  All-if_nil true xs h = tt
  All-if_nil false xs h = h

submenu_turn-IsText :
    (empty : Bool) (sub : List ℕ) (rest : List (List ℕ))
    → is_empty_text sub ≡ empty
    → All IsText rest
    → All IsText (if empty then rest else sub ∷ rest)
submenu_turn-IsText true sub rest e h = h
submenu_turn-IsText false sub rest e h = (e, h)

submenu_of-IsText : (parts : List (List ℕ)) → All IsText (submenu_of parts)
submenu_of-IsText [] = tt
submenu_of-IsText (part ∷ parts) =
    submenu_turn-IsText (is_empty_text (trim part)) (trim part) _ refl (submenu_of-IsText parts)

labelled_turn-IsShown :
    (empty : Bool) (label : List ℕ) (submenu : List (List ℕ))
    → is_empty_text label ≡ empty
    → All IsText submenu
    → All IsShown (if empty then [] else record { label = label; submenu = submenu } ∷ [])
labelled_turn-IsShown true label submenu e h = tt
labelled_turn-IsShown false label submenu e h = ((e, h), tt)

own_item-IsShown : (part : List ℕ) → All IsShown (own_item part)
unfolding own_item
own_item-IsShown part =
    let (label, subs) = label_and_subs part (split_once b'>' part) in
    labelled_turn-IsShown (is_empty_text label) label _ refl (submenu_of-IsText (split b',' subs))

raw_parts-IsShown : (parts : List (List ℕ)) → All IsShown (raw_parts parts)
raw_parts-IsShown [] = tt
raw_parts-IsShown (part ∷ parts) =
    All-append IsShown (raw_part (trim part)) (raw_parts parts)
      (All-if_nil IsShown _ (own_item (trim part)) (own_item-IsShown (trim part)))
      (raw_parts-IsShown parts)

items_of-IsShown : (o : Option AppManifest) → All IsShown (items_of o)
unfolding parse_dock_menu_items_raw
items_of-IsShown none = tt
items_of-IsShown (some a) = raw_parts-IsShown (split b'|' a.dock_menu_items)

referred-IsShown :
    (apps : List AppManifest) (part : List ℕ) (o : Option (List ℕ))
    → All IsShown (elim o [ some name ↦ resolve_menu_ref (trim name) apps | none ↦ own_item part ])
unfolding resolve_menu_ref
referred-IsShown apps part none = own_item-IsShown part
referred-IsShown apps part (some name) = items_of-IsShown _

menu_parts-IsShown :
    (apps : List AppManifest) (parts : List (List ℕ)) → All IsShown (menu_parts apps parts)
menu_parts-IsShown apps [] = tt
menu_parts-IsShown apps (part ∷ parts) =
    All-append IsShown (menu_part apps (trim part)) (menu_parts apps parts)
      (All-if_nil IsShown _ _ (referred-IsShown apps (trim part) (reference_of (trim part))))
      (menu_parts-IsShown apps parts)

-- Whatever the text, and whatever applications it refers to, no item of a menu has an empty label,
-- nor has its submenu an empty one.
pub parse_dock_menu_items-IsShown :
    (raw : List ℕ) (apps : List AppManifest) → All IsShown (parse_dock_menu_items raw apps)
unfolding parse_dock_menu_items
parse_dock_menu_items-IsShown raw apps = menu_parts-IsShown apps (split b'|' raw)
