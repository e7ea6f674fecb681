-- ===== src/Httpapi/Icons/Tests.antt =====
-- The icon handler of server/internal/httpapi at a concrete request.
use remote_app_start_my_linu.Prelude.{Bytes, codes, eq_bytes, [], ◌∷◌, none, ℤ, ◌≡◌, refl}
use remote_app_start_my_linu.Prelude.Assoc.{lookup}
use remote_app_start_my_linu.Catalog.{Catalog, get}
use remote_app_start_my_linu.Desktop.Entry.{Entry, empty_entry}
use remote_app_start_my_linu.Httpapi.Response.{success}
use remote_app_start_my_linu.Icons.Pick.{png}
use remote_app_start_my_linu.Icons.Finder.{Finder, Found, hit}
use remote_app_start_my_linu.Httpapi.Icons.{
  OpenedFile, content, IconReply, get_icon, icon_cache_control, content_type_for_format,
}
use remote_app_start_my_linu.Httpapi.Icons.Served.{IsServed, get_icon-Served}

abbrev vi : Entry
vi = record empty_entry { id = codes "vi"; icon = codes "vi" }

abbrev one_app : Catalog
one_app = record { paths = []; by_id = (codes "vi", vi) ∷ []; list = [] }

abbrev finder : Finder
finder = record { base_dirs = []; theme = codes "hicolor"; themes = none }

abbrev found : Finder → Bytes → ℤ → Found × Finder
found f icon size = (hit (codes "/vi.png") png, f)

abbrev opened : Bytes → OpenedFile
opened path = content (codes "bytes")

abbrev reply : IconReply
reply = record {
  content_type = codes "image/png";
  cache_control = icon_cache_control;
  body = codes "bytes";
}

serves : (get_icon found opened one_app finder (codes "vi") (codes "9999")).0 ≡ success reply
unfolding get_icon get lookup eq_bytes content_type_for_format
serves = refl

get_icon-Served_example : IsServed found opened (get one_app (codes "vi")) finder reply
get_icon-Served_example =
    get_icon-Served found opened one_app finder (codes "vi") (codes "9999") reply serves
