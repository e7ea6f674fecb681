-- ===== src/Web.antt =====
-- server/internal/web: the handlers of the admin UI, which server/internal/admin serves too, behind
-- the token. A store that may be nil is an Option; a body is what the JSON decoder yields, or the
-- text of its error.
pub mod Toggles
use remote_app_start_my_linu.Prelude.{
  ℕ, Bytes, codes, is_empty, Bool, true, false, not, List, [], ◌∷◌, ◌++◌, map, Option, none, some,
  ℤ, Result, ok, err,
}
use remote_app_start_my_linu.Auth.Pin.{PinSession, is_expired, regenerate}
use remote_app_start_my_linu.Catalog.{AppInfo, Catalog}
use remote_app_start_my_linu.Httpapi.Response.{Response, failure, success}
use remote_app_start_my_linu.Launcher.Launch.{supported_terminals}
use remote_app_start_my_linu.Shortcuts
use remote_app_start_my_linu.Shortcuts.{Shortcut, ReplaceError, prefixed_id}
use remote_app_start_my_linu.Storage.{Disk, Grants}
use remote_app_start_my_linu.Visibility
use remote_app_start_my_linu.Visibility.{is_hidden}

-- `AppDTO`
pub record AppDto : Type 0 where
  pub id : Bytes
  pub name : Bytes
  pub comment : Bytes
  pub has_icon : Bool
  pub hidden : Bool
  pub shortcut : Bool

-- `visStore.IsHidden`, for a store that may be nil.
abbrev hidden_in : Option Visibility.Store → Bytes → Bool
hidden_in none id = false
hidden_in (some v) id = is_hidden v id

unfoldable pub app_dto : Option Visibility.Store → AppInfo → AppDto
app_dto v a = record {
  id = a.id;
  name = a.name;
  comment = a.comment;
  has_icon = not (is_empty a.icon);
  hidden = hidden_in v a.id;
  shortcut = false;
}

unfoldable pub shortcut_dto : Option Visibility.Store → Shortcut → AppDto
shortcut_dto v sc = record {
  id = prefixed_id sc.id;
  name = sc.name;
  comment = sc.command;
  has_icon = false;
  hidden = hidden_in v (prefixed_id sc.id);
  shortcut = true;
}

-- `NewAppsHandler`
unfoldable pub list_apps : Catalog → Option Visibility.Store → Option Shortcuts.Store → List AppDto
unfolding app_dto shortcut_dto
list_apps c v none = map (app_dto v) c.list
list_apps c v (some s) = map (app_dto v) c.list ++ map (shortcut_dto v) (Shortcuts.list s)

-- The answers to the two updates.
pub record HiddenAnswer : Type 0 where
  pub hidden : List Bytes
  pub count : ℕ

pub record ShortcutsAnswer : Type 0 where
  pub shortcuts : List Shortcut
  pub count : ℕ

abbrev bad_body : {A : Type 0} → Bytes → Response A
bad_body text = failure 400 (codes "bad_request") (codes "invalid JSON body: " ++ text)

-- `NewVisibilityHandler`
unfoldable pub put_visibility :
    Grants
    → Bytes
    → Disk (List Bytes)
    → Option Visibility.Store
    → Result Bytes (List Bytes)
    → Option Visibility.Store × Disk (List Bytes) × Response HiddenAnswer
put_visibility g tmp disk none body =
    (none, disk, failure 500 (codes "not_configured") (codes "visibility store not wired"))
put_visibility g tmp disk (some v) (err text) = (some v, disk, bad_body text)
put_visibility g tmp disk (some v) (ok ids) =
    let (v', disk', result) = Visibility.set_hidden g tmp disk v ids in
    (
      some v',
      disk',
      elim result [
        | err _ ↦ failure 500 (codes "persist_failed") (codes "failed to save visibility")
        | ok _ ↦
            success (record { hidden = Visibility.hidden_list v'; count = Visibility.count v' })
      ],
    )

-- `NewUpdateShortcutsHandler`; `text` is the text of an error.
unfoldable pub put_shortcuts :
    (ReplaceError → Bytes)
    → Grants
    → Bytes
    → Disk (List Shortcut)
    → Option Shortcuts.Store
    → Result Bytes (List Shortcut)
    → Option Shortcuts.Store × Disk (List Shortcut) × Response ShortcutsAnswer
put_shortcuts text g tmp disk none body =
    (none, disk, failure 500 (codes "not_configured") (codes "shortcut store not wired"))
put_shortcuts text g tmp disk (some s) (err e) = (some s, disk, bad_body e)
put_shortcuts text g tmp disk (some s) (ok scs) =
    let (s', disk', result) = Shortcuts.replace g tmp disk s scs in
    (
      some s',
      disk',
      elim result [
        | err e ↦ failure 400 (codes "bad_request") (text e)
        | ok _ ↦ success (record { shortcuts = Shortcuts.list s'; count = Shortcuts.count s' })
      ],
    )

-- `NewShortcutsHandler`
pub record ShortcutsPage : Type 0 where
  pub shortcuts : List Shortcut
  pub supported : List Bytes
  pub default_terminal : Bytes

unfoldable pub get_shortcuts : Option Shortcuts.Store → Bytes → Response ShortcutsPage
get_shortcuts none default_terminal =
    failure 500 (codes "not_configured") (codes "shortcut store not wired")
get_shortcuts (some s) default_terminal = success (record {
  shortcuts = Shortcuts.list s;
  supported = map (λ t. t.0) supported_terminals;
  default_terminal = default_terminal;
})

pub record PinResponse : Type 0 where
  pub pin : Bytes
  pub expires_at : ℕ
  pub consumed : Bool
  pub expired : Bool

-- `pinJSON`, which is also the answer to GET /api/pin.
unfoldable pub pin_json : PinSession → ℕ → PinResponse
unfolding is_expired
pin_json s now = record {
  pin = s.pin;
  expires_at = s.expires_at;
  consumed = s.consumed;
  expired = is_expired s now;
}

-- POST /api/pin; `none` is the status 500 with the text of the error.
unfoldable pub post_pin : PinSession → Option ℕ → ℤ → ℕ → ℕ → PinSession × Option PinResponse
unfolding pin_json regenerate
post_pin s random ttl now answered =
    let (s', renewed) = regenerate s random ttl now in
    (s', elim renewed [ true ↦ some (pin_json s' answered) | false ↦ none ])
