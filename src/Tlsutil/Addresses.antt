-- ===== src/Tlsutil/Addresses.antt =====
-- server/internal/tlsutil/cert.go, collectIPs: the addresses that the certificate is made out to. An
-- address is any type with what the code asks of a `net.IP`; an interface's address that carries none
-- is `none`.
use remote_app_start_my_linu.Prelude.{
  Bytes, Bool, true, not, ◌||◌, if◌then◌else◌, List, [], ◌∷◌, ◌++◌, Option, none, some,
}
use remote_app_start_my_linu.Prelude.Assoc.{insert, has}

-- `String`, `IsLoopback` and `IsGlobalUnicast`, and the two loopback addresses.
pub record Net (Ip : Type 0) : Type 0 where
  pub text : Ip → Bytes
  pub is_loopback : Ip → Bool
  pub is_global_unicast : Ip → Bool
  pub loopback_v4 : Ip
  pub loopback_v6 : Ip

module _ {Ip : Type 0} (net : Net Ip) where
  -- The addresses that the loop passes over.
  unfoldable pub is_skipped : Ip → Bool
  is_skipped ip = net.is_loopback ip || not (net.is_global_unicast ip)

  -- The loop, with the set of the texts seen.
  unfoldable pub collect : List (Bytes × Bool) → List Ip → List (Option Ip) → List Ip
  unfolding is_skipped
  collect seen ips [] = ips
  collect seen ips (none ∷ addrs) = collect seen ips addrs
  collect seen ips (some ip ∷ addrs) =
      let rest = collect seen ips addrs in
      let added = collect (insert (net.text ip) true seen) (ips ++ ip ∷ []) addrs in
      if is_skipped ip then rest else if has (net.text ip) seen then rest else added

  abbrev pub loopbacks : List Ip
  loopbacks = net.loopback_v4 ∷ net.loopback_v6 ∷ []

  abbrev pub seen_loopbacks : List (Bytes × Bool)
  seen_loopbacks =
      insert (net.text net.loopback_v6) true (insert (net.text net.loopback_v4) true [])

  -- `collectIPs`; `none` stands for an error of `net.InterfaceAddrs`.
  unfoldable pub collect_ips : Option (List (Option Ip)) → List Ip
  unfolding collect
  collect_ips none = loopbacks
  collect_ips (some addrs) = collect seen_loopbacks loopbacks addrs
