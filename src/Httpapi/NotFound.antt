-- ===== src/Httpapi/NotFound.antt =====
-- server/internal/httpapi/router.go, wrapNotFoundJSON and notFoundInterceptor, with writeJSON and
-- writeError of server/internal/httpapi/json.go: what becomes of what a handler writes. `encode` is
-- the JSON text of an error with its code and message. The names of the headers are canonical.
pub mod Transparent
use remote_app_start_my_linu.Prelude.{
  ℕ, Bytes, codes, has_prefix, Bool, true, false, not, ◌&&◌, ◌==◌, if◌then◌else◌, List, [], ◌∷◌,
  ◌++◌, Option, none, some,
}
use remote_app_start_my_linu.Prelude.Assoc.{lookup, insert}

abbrev pub Headers : Type 0
Headers = List (Bytes × Bytes)

-- A `http.ResponseWriter`: the headers so far; the status and the headers that were sent; the body.
pub record Writer : Type 0 where
  pub header : Headers
  pub sent : Option (ℕ × Headers)
  pub body : Bytes

-- What a handler does with one.
pub data Action : Type 0 where
  set_header : Bytes → Bytes → Action
  write_header : ℕ → Action
  write : Bytes → Action

-- net/http sends the first status and ignores the others.
unfoldable pub send : Writer → ℕ → Writer
send w code = elim w.sent [ none ↦ record w { sent = some (code, w.header) } | some s ↦ w ]

-- A write sends 200 where no status was sent.
unfoldable pub append : Writer → Bytes → Writer
unfolding send
append w b = let w' = send w 200 in record w' { body = w'.body ++ b }

-- The writer without the interceptor.
unfoldable pub act : Writer → Action → Writer
act w (set_header k v) = record w { header = insert k v w.header }
act w (write_header code) = send w code
act w (write b) = append w b

unfoldable pub act_all : Writer → List Action → Writer
unfolding act
act_all w [] = w
act_all w (a ∷ as') = act_all (act w a) as'

abbrev pub json_type : Bytes
json_type = codes "application/json; charset=utf-8"

-- `writeJSON` with an encoded payload.
unfoldable pub write_json : Writer → ℕ → Bytes → Writer
write_json w code payload =
    let headers =
      insert (codes "Cache-Control") (codes "no-store")
        (insert (codes "Content-Type") json_type w.header) in
    append (send (record w { header = headers }) code) payload

abbrev header_value : Option Bytes → Bytes
header_value none = []
header_value (some v) = v

-- The content type is that of an error that the handler itself has written.
unfoldable pub is_json : Headers → Bool
is_json h = has_prefix (header_value (lookup (codes "Content-Type") h)) (codes "application/json")

pub record Interceptor : Type 0 where
  pub writer : Writer
  pub intercepted : Bool

module _ (encode : Bytes → Bytes → Bytes) (path : Bytes) where
  -- `writeError` of the interceptor.
  unfoldable pub write_not_found : Writer → Writer
  unfolding write_json
  write_not_found w =
      write_json (record w { header = [] }) 404
        (encode (codes "not_found") (codes "route not found: " ++ path))

  -- The `Header`, `WriteHeader` and `Write` of the interceptor.
  unfoldable pub intercept : Interceptor → Action → Interceptor
  unfolding write_not_found is_json
  intercept n (set_header k v) = record n { writer = act n.writer (set_header k v) }
  intercept n (write_header code) =
      if code == 404 && not (is_json n.writer.header)
      then record { writer = write_not_found n.writer; intercepted = true }
      else record n { writer = send n.writer code }
  intercept n (write b) = if n.intercepted then n else record n { writer = append n.writer b }

  unfoldable pub intercept_all : Interceptor → List Action → Interceptor
  unfolding intercept
  intercept_all n [] = n
  intercept_all n (a ∷ as') = intercept_all (intercept n a) as'

  -- `wrapNotFoundJSON` around a handler that does these things.
  unfoldable pub wrap_not_found_json : Writer → List Action → Writer
  unfolding intercept_all
  wrap_not_found_json w as' =
      (intercept_all (record { writer = w; intercepted = false }) as').writer
