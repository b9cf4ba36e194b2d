-- ===== src/Tests/Apps.antt =====
-- The application registry at concrete inputs.
use slura_chain.Apps.Menu.{
  AppManifest, code_points, parse_dock_menu_items, resolve_menu_ref, parse_dock_menu_items_raw,
  own_item, trim, split, split_once, is_whitespace,
}
use slura_chain.Base.{◌≡◌, refl, true, List, [], ◌∷◌, ◌++◌, All, nat_eq, string_eq}
use slura_chain.Apps.Menu.Parts.{
  IsShown, parse_dock_menu_items-append, parse_dock_menu_items-IsShown,
}
use slura_chain.Apps.Registry.{
  RegEntry, publish_registry, registry_set_pinned, registry_pinned_index, registry_count,
}
use slura_chain.Apps.Registry.Pinned.{
  IsNumbered, IsRepinned, registry_pinned_index-IsNumbered, registry_set_pinned-IsRepinned,
}
use slura_chain.Apps.Registry.Publish.{IsDock, publish_registry-IsDock}

abbrev shell : AppManifest
shell = record {
  folder_name = "ShiLauncher";
  display_name = "Shell";
  icon_rel = "";
  srid = "";
  diamond_color = 1;
  dock_menu_items = code_points "New File>txt, md|@ShiLauncher|About";
}

abbrev editor : AppManifest
editor = record {
  folder_name = "Editor";
  display_name = "";
  icon_rel = "e.png";
  srid = "";
  diamond_color = 2;
  dock_menu_items = code_points "Open | @ShiLauncher|>no label";
}

abbrev apps : List AppManifest
apps = shell ∷ editor ∷ []

abbrev dock : List RegEntry
dock = publish_registry apps

-- The items of the shell take the place of the reference to it, and a part without a label goes.
editor_menu :
    parse_dock_menu_items editor.dock_menu_items apps
    ≡ record { label = code_points "Open"; submenu = [] }
      ∷ record {
        label = code_points "New File";
        submenu = code_points "txt" ∷ code_points "md" ∷ [];
      }
      ∷ record { label = code_points "About"; submenu = [] }
      ∷ []
unfolding parse_dock_menu_items resolve_menu_ref parse_dock_menu_items_raw own_item trim split
    split_once is_whitespace
editor_menu = refl

-- The shell is not in its own dock.
dock_count : registry_count dock ≡ 2
unfolding registry_count publish_registry
dock_count = refl

publish_registry-IsDock_example : IsDock apps (publish_registry apps)
publish_registry-IsDock_example = publish_registry-IsDock apps

registry_pinned_index-IsNumbered_example : IsNumbered dock 0 (registry_pinned_index dock 0)
registry_pinned_index-IsNumbered_example = registry_pinned_index-IsNumbered dock 0

registry_set_pinned-IsRepinned_example : IsRepinned dock 1 true (registry_set_pinned dock 1 true)
registry_set_pinned-IsRepinned_example = registry_set_pinned-IsRepinned dock 1 true

parse_dock_menu_items-append_example :
    parse_dock_menu_items (code_points "Open|@ShiLauncher" ++ b'|' ∷ code_points "Close") apps
    ≡ parse_dock_menu_items (code_points "Open|@ShiLauncher") apps
      ++ parse_dock_menu_items (code_points "Close") apps
parse_dock_menu_items-append_example =
    parse_dock_menu_items-append (code_points "Open|@ShiLauncher") (code_points "Close") apps

parse_dock_menu_items-IsShown_example :
    All IsShown (parse_dock_menu_items editor.dock_menu_items apps)
parse_dock_menu_items-IsShown_example = parse_dock_menu_items-IsShown editor.dock_menu_items apps
