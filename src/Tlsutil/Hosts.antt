-- ===== src/Tlsutil/Hosts.antt =====
-- Which addresses the certificate is made out to.
use remote_app_start_my_linu.Prelude.{
  Bytes, eq_bytes, Bool, false, not, ◌&&◌, ◌||◌, List, [], ◌∷◌, Option, none, some, any_of, ◌≡◌,
}
use remote_app_start_my_linu.Prelude.Assoc.{has}
use remote_app_start_my_linu.Tlsutil.Addresses.{Net, is_skipped}

module _ {Ip : Type 0} (net : Net Ip) where
  -- An address of that text is in a list.
  abbrev pub is_among : List Ip → Bytes → Bool
  is_among ips k = any_of (λ ip. eq_bytes (net.text ip) k) ips

  -- No two addresses have the same text; read from the end, as the code adds them.
  abbrev pub Unique : List Ip → Type 0
  Unique [] = Unit
  Unique (ip ∷ ips) = (is_among ips (net.text ip) ≡ false) × Unique ips

  -- The text belongs to an address of an interface that is a global unicast one and no loopback.
  abbrev pub is_offered : List (Option Ip) → Bytes → Bool
  is_offered [] k = false
  is_offered (none ∷ addrs) k = is_offered addrs k
  is_offered (some ip ∷ addrs) k =
      (not (is_skipped net ip) && eq_bytes (net.text ip) k) || is_offered addrs k

  -- The set of the loop has the texts of the addresses collected so far.
  abbrev Agree : List (Bytes × Bool) → List Ip → Type 0
  Agree seen ips = (k : Bytes) → has k seen ≡ is_among ips k

  -- What the loop makes of a list.
  abbrev Collected : List Ip → List (Option Ip) → List Ip → Type 0
  Collected ips addrs out =
      Unique out × ((k : Bytes) → is_among out k ≡ (is_among ips k || is_offered addrs k))

  abbrev pub addresses_of : Option (List (Option Ip)) → List (Option Ip)
  addresses_of none = []
  addresses_of (some addrs) = addrs
