-- ===== src/Httpapi/Tests.antt =====
-- The pairing handler at concrete requests.
use remote_app_start_my_linu.Prelude.{
  none, ◌++◌, has_prefix, ℕ, ◌*◌, ◌≤◌, Bytes, codes, true, false, List, [], ◌∷◌, Option, some,
  length, keep_if, ◌≡◌, refl, arith, eq_bytes,
}
use remote_app_start_my_linu.Prelude.Assoc.{lookup, insert}
use remote_app_start_my_linu.Auth.Pin.{current, consume}
use remote_app_start_my_linu.Auth.RateLimit.{new_rate_limiter, roll, bucket_of, allow}
use remote_app_start_my_linu.Auth.RateLimit.PerAddress.{new_rate_limiter-WithinBudget}
use remote_app_start_my_linu.Auth.Store.{new_store, Write, issue}
use remote_app_start_my_linu.Catalog.{AppInfo}
use remote_app_start_my_linu.Httpapi.Response.{success}
use remote_app_start_my_linu.Httpapi.NotFound.{
  Writer, Action, set_header, write_header, write, act, act_all, json_type, is_json,
  wrap_not_found_json,
}
use remote_app_start_my_linu.Httpapi.NotFound.Transparent.{
  own_only, not_found_body, not_found_headers, wrap_not_found_json-not_found,
  wrap_not_found_json-act_all,
}
use remote_app_start_my_linu.Httpapi.Pair.{
  Arrival, Pairing, pair_device, pair, pair_limited, answers,
}
use remote_app_start_my_linu.Httpapi.Pair.OneShot.{Paired, pair_limited-Paired}
use remote_app_start_my_linu.Httpapi.Pair.Guessing.{is_looked_at, RefusedUnread, looked_at-le}

abbrev marked : Bytes → Bytes
marked s = b'#' ∷ s

abbrev granted : Write
granted = record {
  grants = record {
    mkdirs = true;
    marshals = true;
    creates = true;
    writes = true;
    chmods = true;
    syncs = true;
    closes = true;
    renames = true;
    removes = true;
  };
  tmp = codes "t.tmp";
}

abbrev start_state : Pairing
start_state = record {
  limiter = new_rate_limiter 5 20 60;
  session = record { pin = codes "123456"; consumed = false; expires_at = 100 };
  server = record { store = new_store; disk = []; logged = [] };
}

-- A request from the address `host` with a PIN at a time.
abbrev request : Bytes → Bytes → ℕ → Arrival
request host pin now = record {
  remote_host = host;
  forwarded_for = [];
  body = some (record { pin = pin; device_label = codes "phone" });
  now = now;
  random = some (codes "token");
  write = granted;
}

abbrev right : Arrival
right = request (codes "a") (codes "123456") 10

abbrev behind : Pairing × Option ℕ
behind = ((pair_limited marked start_state right).0, (pair_limited marked start_state right).2)

right-pairs : pair_limited marked start_state right ≡ (behind.0, success (codes "token"), behind.1)
unfolding pair_limited pair pair_device allow consume issue eq_bytes new_rate_limiter roll bucket_of
    lookup current
right-pairs = refl

pair_limited-Paired_example : Paired marked start_state right behind.0 (codes "token")
pair_limited-Paired_example =
    pair_limited-Paired marked start_state right behind.0 (codes "token") behind.1 right-pairs

-- A wrong PIN, the right one, and the right one from elsewhere.
abbrev requests : List Arrival
requests =
    request (codes "a") (codes "000000") 9 ∷ right ∷ request (codes "b") (codes "123456") 11 ∷ []

looked_at-le_example :
    (length (keep_if is_looked_at (answers marked start_state requests))
      ≤ 2 * start_state.limiter.global_max)
    × RefusedUnread marked start_state requests
unfolding new_rate_limiter
looked_at-le_example =
    looked_at-le marked requests start_state 9 (new_rate_limiter-WithinBudget 5 20 60) (
      (ground arith, ground arith),
      ((ground arith, ground arith), ((ground arith, ground arith), tt)),
    )

-- An application with a live process and a dead one, and one that is hidden.
abbrev app : Bytes → AppInfo
app id = record {
  id = id;
  name = id;
  comment = [];
  icon = [];
  categories = [];
  running = false;
  no_display = false;
}

-- An error is encoded as its message.
abbrev message_of : Bytes → Bytes → Bytes
message_of code message = message

abbrev fresh : Writer
fresh = record { header = []; sent = none; body = [] }

-- What net/http does for a path that no route has.
abbrev front : List Action
front = set_header (codes "Content-Type") (codes "text/plain; charset=utf-8") ∷ []

abbrev rest : List Action
rest = write (codes "404 page not found") ∷ []

front-foreign : is_json (act_all fresh front).header ≡ false
unfolding act_all is_json insert lookup has_prefix eq_bytes
front-foreign = refl

wrap_not_found_json-not_found_example :
    ((wrap_not_found_json message_of (codes "/x") fresh (front ++ write_header 404 ∷ rest)).sent
      ≡ some (404, not_found_headers message_of (codes "/x")))
    × ((wrap_not_found_json message_of (codes "/x") fresh (front ++ write_header 404 ∷ rest)).body
        ≡ not_found_body message_of (codes "/x"))
wrap_not_found_json-not_found_example =
    wrap_not_found_json-not_found message_of (codes "/x") front rest fresh refl refl refl
      front-foreign refl

-- An error of a handler of its own.
abbrev own : List Action
own = set_header (codes "Content-Type") json_type ∷ write_header 404 ∷ write (codes "no app") ∷ []

own-passes : own_only fresh own ≡ true
unfolding act is_json insert lookup has_prefix eq_bytes
own-passes = refl

wrap_not_found_json-act_all_example :
    wrap_not_found_json message_of (codes "/x") fresh own ≡ act_all fresh own
wrap_not_found_json-act_all_example =
    wrap_not_found_json-act_all message_of (codes "/x") own fresh own-passes
