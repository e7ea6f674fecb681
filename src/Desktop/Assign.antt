-- ===== src/Desktop/Assign.antt =====
-- server/internal/desktop/parse.go, `assignKey`: one key of the [Desktop Entry] section.
use remote_app_start_my_linu.Prelude.{Bytes, codes, eq_bytes, if◌then◌else◌, Result, ok, ◌>>=◌}
use remote_app_start_my_linu.Desktop.Entry.{Entry}
use remote_app_start_my_linu.Desktop.Text.{
  ValueError, parse_bool, unescape_string, parse_string_list,
}

-- The keys that hold a string, in the order of the switch.
unfoldable pub assign_string :
    Entry → Bytes → Bytes → Result ValueError Entry → Result ValueError Entry
assign_string e key value other =
    if eq_bytes key (codes "Name")
    then (do s ← unescape_string value; ok (record e { name = s }))
    else if eq_bytes key (codes "GenericName")
    then (do s ← unescape_string value; ok (record e { generic_name = s }))
    else if eq_bytes key (codes "Comment")
    then (do s ← unescape_string value; ok (record e { comment = s }))
    else if eq_bytes key (codes "Exec")
    then (do s ← unescape_string value; ok (record e { exec = s }))
    else if eq_bytes key (codes "TryExec")
    then (do s ← unescape_string value; ok (record e { try_exec = s }))
    else if eq_bytes key (codes "Icon")
    then (do s ← unescape_string value; ok (record e { icon = s }))
    else if eq_bytes key (codes "Type")
    then (do s ← unescape_string value; ok (record e { type = s }))
    else if eq_bytes key (codes "Path")
    then (do s ← unescape_string value; ok (record e { path = s }))
    else if eq_bytes key (codes "URL")
    then (do s ← unescape_string value; ok (record e { url = s }))
    else if eq_bytes key (codes "StartupWMClass")
    then (do s ← unescape_string value; ok (record e { startup_wm_class = s }))
    else other

-- The keys that hold a boolean.
unfoldable pub assign_bool :
    Entry → Bytes → Bytes → Result ValueError Entry → Result ValueError Entry
assign_bool e key value other =
    if eq_bytes key (codes "Terminal")
    then (do b ← parse_bool value; ok (record e { terminal = b }))
    else if eq_bytes key (codes "NoDisplay")
    then (do b ← parse_bool value; ok (record e { no_display = b }))
    else if eq_bytes key (codes "Hidden")
    then (do b ← parse_bool value; ok (record e { hidden = b }))
    else if eq_bytes key (codes "StartupNotify")
    then (do b ← parse_bool value; ok (record e { startup_notify = b }))
    else other

-- The keys that hold a list.
unfoldable pub assign_list :
    Entry → Bytes → Bytes → Result ValueError Entry → Result ValueError Entry
assign_list e key value other =
    if eq_bytes key (codes "Categories")
    then (do list ← parse_string_list value; ok (record e { categories = list }))
    else if eq_bytes key (codes "Keywords")
    then (do list ← parse_string_list value; ok (record e { keywords = list }))
    else if eq_bytes key (codes "OnlyShowIn")
    then (do list ← parse_string_list value; ok (record e { only_show_in = list }))
    else if eq_bytes key (codes "NotShowIn")
    then (do list ← parse_string_list value; ok (record e { not_show_in = list }))
    else other

-- A key that the switch does not name is ignored.
unfoldable pub assign_key : Entry → Bytes → Bytes → Result ValueError Entry
unfolding assign_string assign_bool assign_list
assign_key e key value =
    assign_string e key value (assign_bool e key value (assign_list e key value (ok e)))
