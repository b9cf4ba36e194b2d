-- ===== src/Apps/Registry/Publish.antt =====
-- What `publish_registry` puts in the dock.
use slura_chain.Base.{
  ◌≡◌, refl, sym, ap, Bool, true, false, ◌&&◌, ◌||◌, not, Option, none, some, String, List, [], ◌∷◌,
  arith, if◌then◌else◌, any, ◌==◌, string_eq,
}
use slura_chain.Apps.Menu.{AppManifest}
use slura_chain.Apps.Registry.{
  RegEntry, make_entry, default_entry, other_entry, other_entries, publish_registry,
  registry_name_ptr, registry_get_pinned, registry_pinned_count,
}

abbrev pub has_entry : String → List RegEntry → Bool
has_entry folder registry = any (λ (e : RegEntry). e.name == folder) registry

abbrev pub is_installed : String → List AppManifest → Bool
is_installed folder apps = any (λ (a : AppManifest). a.folder_name == folder) apps

abbrev is_other : String → Bool
is_other folder = not (folder == "ShiLauncher") && not ("ShiLooker" == folder)

same_other : (folder name : String) → (name == folder) ≡ true → is_other folder ≡ is_other name
same_other folder name h = ap is_other (sym ((string_eq.beq_iff name folder).0 h))

-- One turn of the loop over the manifests, with its tests as Booleans.
has_entry-turn :
    (folder : String) (e : RegEntry) (others : List RegEntry)
    → (shell looker same other installed : Bool) → (e.name == folder) ≡ same
    → (same ≡ true → other ≡ not shell && not looker)
    → has_entry folder others ≡ other && installed
    → has_entry folder
        (if shell then others else if (if looker then true else false) then others else e ∷ others)
      ≡ other && (if same then true else installed)
has_entry-turn folder e others true looker true other installed s o h = ground (arith, h, o refl)
has_entry-turn folder e others true looker false other installed s o h = h
has_entry-turn folder e others false true true other installed s o h = ground (arith, h, o refl)
has_entry-turn folder e others false true false other installed s o h = h
has_entry-turn folder e others false false true other installed s o h = ground (arith, s, o refl)
has_entry-turn folder e others false false false other installed s o h = rw s h

has_entry-other_entries :
    (folder : String) (apps rest : List AppManifest)
    → has_entry folder (other_entries apps rest) ≡ is_other folder && is_installed folder rest
unfolding make_entry
has_entry-other_entries folder apps [] = ground arith
has_entry-other_entries folder apps (a ∷ rest) =
    has_entry-turn folder (other_entry apps a) (other_entries apps rest)
      (a.folder_name == "ShiLauncher") ("ShiLooker" == a.folder_name) (a.folder_name == folder)
      (is_other folder) (is_installed folder rest) refl (same_other folder a.folder_name)
      (has_entry-other_entries folder apps rest)

count-other_entries :
    (apps rest : List AppManifest) → registry_pinned_count (other_entries apps rest) ≡ 0
unfolding registry_pinned_count make_entry
count-other_entries apps [] = refl
count-other_entries apps (a ∷ rest) = ground (arith, count-other_entries apps rest)

default_entry_lem :
    (folder : String) (apps : List AppManifest) (found : Option AppManifest)
    → ((default_entry folder apps found).name ≡ folder)
      × ((default_entry folder apps found).pinned ≡ true)
unfolding make_entry
default_entry_lem folder apps none = (refl, refl)
default_entry_lem folder apps (some a) = (refl, refl)

-- The dock that `publish_registry` makes: ShiLooker comes first and is the only pinned entry, and
-- a folder has an entry exactly when it is ShiLooker, or is installed and not ShiLauncher.
abbrev pub IsDock : List AppManifest → List RegEntry → Type 0
IsDock apps registry =
    (registry_name_ptr registry 0 ≡ some "ShiLooker")
    × (registry_get_pinned registry 0 ≡ true)
    × (registry_pinned_count registry ≡ 1)
    × ((folder : String)
        → has_entry folder registry ≡ (
            ("ShiLooker" == folder) || (not (folder == "ShiLauncher") && is_installed folder apps)))

first_entry-has_entry :
    (looker launcher installed others : Bool)
    → others ≡ (not launcher && not looker) && installed
    → (if looker then true else others) ≡ looker || (not launcher && installed)
first_entry-has_entry true launcher installed others h = refl
first_entry-has_entry false true installed others h = h
first_entry-has_entry false false installed others h = h

first_entry-IsDock :
    (apps : List AppManifest) (e : RegEntry)
    → e.name ≡ "ShiLooker"
    → e.pinned ≡ true
    → IsDock apps (e ∷ other_entries apps apps)
unfolding registry_name_ptr registry_get_pinned registry_pinned_count
first_entry-IsDock apps e n p = (
  ap some n,
  p,
  ground (arith, p, count-other_entries apps apps),
  λ folder. rw n (
      first_entry-has_entry ("ShiLooker" == folder) (folder == "ShiLauncher") _ _
        (has_entry-other_entries folder apps apps)),
)

-- `publish_registry` always puts ShiLooker first and pins it alone; besides it, a folder has an
-- entry exactly when it is installed and is not ShiLauncher.
pub publish_registry-IsDock : (apps : List AppManifest) → IsDock apps (publish_registry apps)
unfolding publish_registry
publish_registry-IsDock apps =
    let (n, p) = default_entry_lem "ShiLooker" apps _ in first_entry-IsDock apps _ n p
