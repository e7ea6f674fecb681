-- ===== src/Web/Toggles.antt =====
-- What the admin UI shows and changes against what the phone is shown.
use remote_app_start_my_linu.Prelude.{
  Bytes, is_empty, Bool, not, ◌&&◌, List, [], ◌∷◌, ◌++◌, map, Option, none, some, ok, keep_if, ◌≡◌,
  refl, sym, ap, ◌∙◌, arith,
}
use remote_app_start_my_linu.Catalog.{AppInfo, Catalog}
use remote_app_start_my_linu.Httpapi.Apps.{merged, visible, shortcut_info}
use remote_app_start_my_linu.Shortcuts
use remote_app_start_my_linu.Shortcuts.{Shortcut}
use remote_app_start_my_linu.Storage.{Disk, Grants}
use remote_app_start_my_linu.Visibility
use remote_app_start_my_linu.Visibility.Laws.{listed, is_hidden-set_hidden}
use remote_app_start_my_linu.Web.{AppDto, app_dto, shortcut_dto, list_apps, put_visibility}

abbrev app_id : AppInfo → Bytes
app_id a = a.id

abbrev dto_id : AppDto → Bytes
dto_id d = d.id

-- The ids that are not switched off in the admin UI.
abbrev switched_on : List AppDto → List Bytes
switched_on ds = map dto_id (keep_if (λ d. not d.hidden) ds)

apps_on :
    (v : Visibility.Store) (apps : List AppInfo)
    → switched_on (map (app_dto (some v)) apps) ≡ map app_id (visible (some v) apps)
unfolding visible app_dto
apps_on v [] = refl
apps_on v (a ∷ apps) = ground (arith, apps_on v apps)

shortcuts_on :
    (v : Visibility.Store) (scs : List Shortcut)
    → switched_on (map (shortcut_dto (some v)) scs)
      ≡ map app_id (visible (some v) (map shortcut_info scs))
unfolding visible shortcut_dto shortcut_info
shortcuts_on v [] = refl
shortcuts_on v (a ∷ scs) = ground (arith, shortcuts_on v scs)

on_append : (ds es : List AppDto) → switched_on (ds ++ es) ≡ switched_on ds ++ switched_on es
on_append [] es = refl
on_append (d ∷ ds) es = ground (arith, on_append ds es)

visible_append :
    (v : Visibility.Store) (xs ys : List AppInfo)
    → map app_id (visible (some v) (xs ++ ys))
      ≡ map app_id (visible (some v) xs) ++ map app_id (visible (some v) ys)
unfolding visible
visible_append v [] ys = refl
visible_append v (x ∷ xs) ys = ground (arith, visible_append v xs ys)

-- The admin UI shows as switched on what the phone is shown, in the same order.
list_apps-visible :
    (c : Catalog) (v : Visibility.Store) (p : Option Shortcuts.Store)
    → switched_on (list_apps c (some v) p) ≡ map app_id (visible (some v) (merged c p))
unfolding list_apps merged
list_apps-visible c v none = apps_on v c.list
list_apps-visible c v (some s) =
    on_append (map (app_dto (some v)) c.list) (map (shortcut_dto (some v)) (Shortcuts.list s))
    ∙ (ap (λ z. z ++ switched_on (map (shortcut_dto (some v)) (Shortcuts.list s)))
          (apps_on v c.list)
        ∙ (ap (λ z. map app_id (visible (some v) c.list) ++ z) (shortcuts_on v (Shortcuts.list s))
            ∙ sym (visible_append v c.list (map shortcut_info (Shortcuts.list s)))))

-- The ids that a request asks to hide.
abbrev pub asked : List Bytes → Bytes → Bool
asked ids k = not (is_empty k) && listed k ids

visible_of :
    (v : Visibility.Store) (hidden : Bytes → Bool) (apps : List AppInfo)
    → ((k : Bytes) → Visibility.is_hidden v k ≡ hidden k)
    → visible (some v) apps ≡ keep_if (λ a. not (hidden a.id)) apps
unfolding visible
visible_of v hidden [] h = refl
visible_of v hidden (a ∷ apps) h = ground (arith, visible_of v hidden apps h, h a.id)

-- When the admin UI has sent a list of ids to hide and the body could be read, then, whatever has
-- become of the file, both servers work with the new list: the phone is shown exactly the
-- applications and shortcuts whose ids are not in it, in their order, and the ones that the admin
-- UI shows as switched on are the same.
pub put_visibility-visible :
    (g : Grants) (tmp : Bytes) (disk : Disk (List Bytes)) (v : Visibility.Store) (ids : List Bytes)
    (c : Catalog) (p : Option Shortcuts.Store)
    → (visible (put_visibility g tmp disk (some v) (ok ids)).0 (merged c p)
        ≡ keep_if (λ a. not (asked ids a.id)) (merged c p))
      × (switched_on (list_apps c (put_visibility g tmp disk (some v) (ok ids)).0 p)
          ≡ map app_id (keep_if (λ a. not (asked ids a.id)) (merged c p)))
unfolding put_visibility
put_visibility-visible g tmp disk v ids c p =
    let v' = (Visibility.set_hidden g tmp disk v ids).0 in
    let shown = visible_of v' (asked ids) (merged c p) (is_hidden-set_hidden g tmp disk v ids) in
    (shown, list_apps-visible c v' p ∙ ap (map app_id) shown)
