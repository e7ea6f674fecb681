-- ===== src/Httpapi/Icons.antt =====
-- server/internal/httpapi/icons.go: GET /api/apps/{id}/icon. The query's `size` is empty when it is
-- not given. `open_file` is `os.Open` with `Stat` and `http.ServeContent`.
pub mod Served
mod Tests
use remote_app_start_my_linu.Prelude.{
  ℕ, Bytes, codes, is_empty, Bool, true, false, if◌then◌else◌, Option, none, some, ℤ, pos, ltb_ℤ,
}
use remote_app_start_my_linu.Catalog.{Catalog, get}
use remote_app_start_my_linu.Desktop.Entry.{Entry}
use remote_app_start_my_linu.Httpapi.Response.{Response, failure, success}
use remote_app_start_my_linu.Icons.Pick.{Format, svg, png, xpm, unknown}
use remote_app_start_my_linu.Icons.Size.{atoi}
use remote_app_start_my_linu.Icons.Finder.{Finder, Found, hit, not_found, out_of_fuel}

abbrev default_icon_size : ℤ
default_icon_size = pos 64

abbrev pub min_icon_size : ℤ
min_icon_size = pos 16

abbrev pub max_icon_size : ℤ
max_icon_size = pos 512

unfoldable pub clamp_int : ℤ → ℤ → ℤ → ℤ
clamp_int v lo hi = if ltb_ℤ v lo then lo else if ltb_ℤ hi v then hi else v

unfoldable pub content_type_for_format : Format → Bytes
content_type_for_format png = codes "image/png"
content_type_for_format svg = codes "image/svg+xml"
content_type_for_format xpm = codes "image/x-xpixmap"
content_type_for_format unknown = codes "application/octet-stream"

abbrev pub clamp_size : Option ℤ → Option ℤ
clamp_size none = none
clamp_size (some n) = some (clamp_int n min_icon_size max_icon_size)

-- The size that the query asks for; `none` when it is no integer.
unfoldable pub icon_size : Bytes → Option ℤ
unfolding atoi clamp_int
icon_size raw = if is_empty raw then some default_icon_size else clamp_size (atoi raw)

pub data OpenedFile : Type 0 where
  open_failed stat_failed : OpenedFile
  content : Bytes → OpenedFile

pub record IconReply : Type 0 where
  pub content_type : Bytes
  pub cache_control : Bytes
  pub body : Bytes

abbrev pub icon_cache_control : Bytes
icon_cache_control = codes "public, max-age=3600"

abbrev no_icon : Bytes → Response IconReply
no_icon message = failure 404 (codes "not_found") message

abbrev icon_error : Bytes → Response IconReply
icon_error message = failure 500 (codes "internal_error") message

unfoldable pub serve_file : Format → OpenedFile → Response IconReply
serve_file format open_failed = icon_error (codes "failed to open icon file")
serve_file format stat_failed = icon_error (codes "failed to stat icon file")
serve_file format (content body) = success (record {
  content_type = content_type_for_format format;
  cache_control = icon_cache_control;
  body = body;
})

module _ (find : Finder → Bytes → ℤ → Found × Finder) (open_file : Bytes → OpenedFile) where
  -- An error other than `ErrIconNotFound` stands for a search that does not end.
  unfoldable pub icon_answer : Found → Response IconReply
  unfolding serve_file
  icon_answer (hit path format) = serve_file format (open_file path)
  icon_answer not_found = no_icon (codes "icon file not found")
  icon_answer out_of_fuel = icon_error (codes "failed to locate icon")

  unfoldable pub entry_icon : Finder → ℤ → Option Entry → Response IconReply × Finder
  unfolding icon_answer
  entry_icon f size none = (no_icon (codes "app not found"), f)
  entry_icon f size (some e) =
      if is_empty e.icon
      then (no_icon (codes "app has no icon"), f)
      else (icon_answer (find f e.icon size).0, (find f e.icon size).1)

  unfoldable pub sized_icon : Finder → Option Entry → Option ℤ → Response IconReply × Finder
  unfolding entry_icon
  sized_icon f o none = (failure 400 (codes "bad_request") (codes "size must be integer"), f)
  sized_icon f o (some size) = entry_icon f size o

  -- The handler, with the finder that it leaves.
  unfoldable pub get_icon : Catalog → Finder → Bytes → Bytes → Response IconReply × Finder
  unfolding icon_size sized_icon
  get_icon c f id raw = sized_icon f (get c id) (icon_size raw)
