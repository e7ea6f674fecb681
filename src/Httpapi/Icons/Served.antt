-- ===== src/Httpapi/Icons/Served.antt =====
-- What the icon handler serves.
use remote_app_start_my_linu.Prelude.{
  Bytes, is_empty, false, Option, none, some, ℤ, ltb_ℤ, ◌≡◌, ◌≢◌, refl, subst, arith, Bool-cases,
  inl, inr, [], ◌∷◌,
}
use remote_app_start_my_linu.Catalog.{Catalog, get}
use remote_app_start_my_linu.Desktop.Entry.{Entry}
use remote_app_start_my_linu.Httpapi.Response.{success}
use remote_app_start_my_linu.Icons.Pick.{Format}
use remote_app_start_my_linu.Icons.Size.{atoi}
use remote_app_start_my_linu.Icons.Finder.{Finder, Found, hit, not_found, out_of_fuel}
use remote_app_start_my_linu.Httpapi.Icons.{
  OpenedFile, content, open_failed, stat_failed, IconReply, serve_file, icon_answer, entry_icon,
  icon_size, get_icon, clamp_int, clamp_size, sized_icon, min_icon_size, max_icon_size,
  content_type_for_format,
}

-- A size that the handler may ask for.
abbrev InRange : ℤ → Type 0
InRange n = (ltb_ℤ n min_icon_size ≡ false) × (ltb_ℤ max_icon_size n ≡ false)

clamp_int-InRange : (n : ℤ) → InRange (clamp_int n min_icon_size max_icon_size)
unfolding clamp_int
clamp_int-InRange n = ground arith

injective : (a b : ℤ) → (some a ≡ some b) → a ≡ b
injective a b h = ground arith

clamp_size-InRange : (o : Option ℤ) (n : ℤ) → clamp_size o ≡ some n → InRange n
clamp_size-InRange none n h = absurd (ground arith)
clamp_size-InRange (some m) n h = subst InRange (injective _ _ h) (clamp_int-InRange m)

icon_size-InRange : (raw : Bytes) (n : ℤ) → icon_size raw ≡ some n → InRange n
unfolding icon_size
icon_size-InRange [] n h = subst InRange (injective _ _ h) (refl, refl)
icon_size-InRange (c ∷ cs) n h = clamp_size-InRange (atoi (c ∷ cs)) n h

module _ (find : Finder → Bytes → ℤ → Found × Finder) (open_file : Bytes → OpenedFile) where
  -- How an icon comes to be served.
  pub record IsServed (o : Option Entry) (f : Finder) (reply : IconReply) : Type 0 where
    pub entry : Entry
    pub size : ℤ
    pub path : Bytes
    pub format : Format
    pub listed : o ≡ some entry
    pub named : entry.icon ≢ []
    pub in_range : InRange size
    pub found : (find f entry.icon size).0 ≡ hit path format
    pub opened : open_file path ≡ content reply.body
    pub typed : reply.content_type ≡ content_type_for_format format

  serve_file-Served :
      (format : Format) (o : OpenedFile) (reply : IconReply)
      → serve_file format o ≡ success reply
      → (o ≡ content reply.body) × (reply.content_type ≡ content_type_for_format format)
  unfolding serve_file
  serve_file-Served format open_failed reply h = absurd (ground arith)
  serve_file-Served format stat_failed reply h = absurd (ground arith)
  serve_file-Served format (content body) reply h = ground arith

  answer-Served :
      (found : Found) (reply : IconReply)
      → icon_answer find open_file found ≡ success reply
      → (path : Bytes) × (format : Format) × (found ≡ hit path format)
        × (open_file path ≡ content reply.body)
        × (reply.content_type ≡ content_type_for_format format)
  unfolding icon_answer
  answer-Served (hit path format) reply h =
      let (a, b) = serve_file-Served format (open_file path) reply h in (path, format, refl, a, b)
  answer-Served not_found reply h = absurd (ground arith)
  answer-Served out_of_fuel reply h = absurd (ground arith)

  entry-Served :
      (f : Finder) (size : ℤ) (o : Option Entry) (reply : IconReply)
      → InRange size
      → (entry_icon find open_file f size o).0 ≡ success reply
      → IsServed o f reply
  unfolding entry_icon
  entry-Served f size none reply r h = absurd (ground arith)
  entry-Served f size (some e) reply r h = elim (Bool-cases (is_empty e.icon)) [
    | inl k ↦ absurd (ground arith)
    | inr k ↦
        let (path, format, a, b, t) = answer-Served (find f e.icon size).0 reply (ground arith) in
        record {
          entry = e;
          size = size;
          path = path;
          format = format;
          listed = refl;
          named = λ z. ground arith;
          in_range = r;
          found = a;
          opened = b;
          typed = t;
        }
  ]

  sized-Served :
      (f : Finder) (o : Option Entry) (s : Option ℤ) (reply : IconReply)
      → ((n : ℤ) → s ≡ some n → InRange n)
      → (sized_icon find open_file f o s).0 ≡ success reply
      → IsServed o f reply
  unfolding sized_icon
  sized-Served f o none reply r h = absurd (ground arith)
  sized-Served f o (some n) reply r h = entry-Served f n o reply (r n refl) h

  -- The icon handler answers with bytes only for an application of the catalog that names an icon:
  -- the finder was asked for this name at a size from 16 to 512, the bytes are those of the file
  -- that it found, and the content type is that of the format that it found. For whatever text
  -- the query gives as the size.
  pub get_icon-Served :
      (c : Catalog) (f : Finder) (id raw : Bytes) (reply : IconReply)
      → (get_icon find open_file c f id raw).0 ≡ success reply
      → IsServed (get c id) f reply
  unfolding get_icon
  get_icon-Served c f id raw reply h =
      sized-Served f (get c id) (icon_size raw) reply (icon_size-InRange raw) h
