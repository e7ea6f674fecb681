-- ===== src/Routes/Tables.antt =====
-- The tables of routes: server/internal/httpapi/router.go (NewRouter), server/internal/admin/admin.go
-- (NewHandler), server/internal/web/web.go (NewHandler) and run of server/cmd/remotelauncher/main.go.
use remote_app_start_my_linu.Prelude.{
  codes, Bool, true, false, if◌then◌else◌, List, [], ◌∷◌, ◌++◌, String,
}
use remote_app_start_my_linu.Routes.Mux.{Part, literal, wildcard, Pattern}

module _ {A : Type 0} where
  -- A path without a slash at its end, and one with it.
  abbrev exactly : String → List Part → A → Pattern A
  exactly method path target = record {
    method = codes method;
    path = path;
    subtree = false;
    target = target;
  }

  abbrev below : String → List Part → A → Pattern A
  below method path target = record {
    method = codes method;
    path = path;
    subtree = true;
    target = target;
  }

abbrev text : String → Part
text s = literal (codes s)

abbrev api_apps_path : List Part
api_apps_path = text "api" ∷ text "apps" ∷ []

-- The REST API.
pub data ApiRoute : Type 0 where
  get_status post_pair get_apps get_app_icon post_app_launch : ApiRoute

abbrev pub launch_pattern : Pattern ApiRoute
launch_pattern = exactly "POST" (api_apps_path ++ wildcard ∷ text "launch" ∷ []) post_app_launch

unfoldable pub api_table : List (Pattern ApiRoute)
api_table =
    exactly "GET" (text "api" ∷ text "status" ∷ []) get_status
    ∷ exactly "POST" (text "api" ∷ text "pair" ∷ []) post_pair
    ∷ exactly "GET" api_apps_path get_apps
    ∷ exactly "GET" (api_apps_path ++ wildcard ∷ text "icon" ∷ []) get_app_icon
    ∷ launch_pattern
    ∷ []

-- The endpoints that both admin servers have, below a prefix.
pub data SharedRoute : Type 0 where
  list_all icon_of read_shortcuts write_shortcuts write_visibility : SharedRoute

pub data AdminRoute : Type 0 where
  spa : AdminRoute
  guarded : SharedRoute → AdminRoute

abbrev admin_api : List Part → List Part
admin_api rest = text "admin" ∷ text "api" ∷ rest

unfoldable pub admin_table : List (Pattern AdminRoute)
admin_table =
    exactly "GET" (admin_api (text "apps" ∷ [])) (guarded list_all)
    ∷ exactly "GET" (admin_api (text "apps" ∷ wildcard ∷ text "icon" ∷ [])) (guarded icon_of)
    ∷ exactly "GET" (admin_api (text "shortcuts" ∷ [])) (guarded read_shortcuts)
    ∷ exactly "PUT" (admin_api (text "shortcuts" ∷ [])) (guarded write_shortcuts)
    ∷ exactly "PUT" (admin_api (text "visibility" ∷ [])) (guarded write_visibility)
    ∷ below "GET" (text "admin" ∷ []) spa
    ∷ []

pub data LocalRoute : Type 0 where
  static_file read_pin renew_pin : LocalRoute
  open_to_all : SharedRoute → LocalRoute

abbrev pin_routes : List (Pattern LocalRoute)
pin_routes =
    exactly "GET" (text "api" ∷ text "pin" ∷ []) read_pin
    ∷ exactly "POST" (text "api" ∷ text "pin" ∷ []) renew_pin
    ∷ []

-- The loopback server; its routes for the PIN are there if it has a session.
unfoldable pub local_table : Bool → List (Pattern LocalRoute)
local_table has_session =
    exactly "GET" api_apps_path (open_to_all list_all)
    ∷ exactly "GET" (api_apps_path ++ wildcard ∷ text "icon" ∷ []) (open_to_all icon_of)
    ∷ exactly "PUT" (text "api" ∷ text "visibility" ∷ []) (open_to_all write_visibility)
    ∷ exactly "GET" (text "api" ∷ text "shortcuts" ∷ []) (open_to_all read_shortcuts)
    ∷ exactly "PUT" (text "api" ∷ text "shortcuts" ∷ []) (open_to_all write_shortcuts)
    ∷ ((if has_session then pin_routes else []) ++ below "GET" [] static_file ∷ [])

-- The TLS server: the admin UI, the terminal and the API.
pub data TopRoute : Type 0 where
  to_admin to_terminal_socket to_terminal_page to_api : TopRoute

unfoldable pub top_table : List (Pattern TopRoute)
top_table =
    below "" (text "admin" ∷ []) to_admin
    ∷ exactly "GET" (text "terminal" ∷ text "ws" ∷ []) to_terminal_socket
    ∷ below "GET" (text "terminal" ∷ []) to_terminal_page
    ∷ below "" [] to_api
    ∷ []
