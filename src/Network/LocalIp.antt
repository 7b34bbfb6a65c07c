-- ===== src/Network/LocalIp.antt =====
-- Which address `get_local_ip` of src/network_utils.cpp finds, on both systems.
use streaming_server.Base.{
  ◌≡◌, refl, ap, ◌∙◌, Bool, true, false, not, ◌&&◌, List, [], ◌∷◌, ◌++◌, Option, none, some,
  if◌then◌else◌, Bool-cases, inl, inr, arith,
}
use streaming_server.Text.{Bytes}
use streaming_server.Network.{
  Addresses, Interface, Adapter, no_error, buffer_overflow, failed, loopback, or_loopback, is_real,
  Search, returns, goes_on, is_preferred, host_of, take_host, find_host, get_local_ip_linux,
  scan_unicast, searched, then_search, scan_adapters, answer, get_local_ip_windows,
}

-- The first text, or the empty one.
abbrev pub first : List Bytes → Bytes
first [] = []
first (b ∷ bs) = b

-- Of some texts the first that is preferred, or else the last.
abbrev pub preferred : List Bytes → Option Bytes
preferred [] = none
preferred (x ∷ xs) = let rest = preferred xs in if is_preferred x then some x else rest

abbrev pub last : Bytes → List Bytes → Bytes
last ip [] = ip
last ip (x ∷ xs) = last x xs

abbrev pub or_last : Option Bytes → Bytes → Bytes
or_last (some x) ip = x
or_last none ip = or_loopback ip

-- The search over plain texts.
abbrev chosen : Bytes → List Bytes → Search
chosen ip [] = goes_on ip
chosen ip (x ∷ xs) = let rest = chosen x xs in if is_preferred x then returns x else rest

module _ (sys : Addresses) where
  open sys use {SockAddr, is_inet, getnameinfo, inet_ntop}

  abbrev if_host : Option Bytes → List Bytes → List Bytes
  if_host none hosts = hosts
  if_host (some host) hosts = host ∷ hosts

  -- The hosts of all interfaces that the search does not leave out.
  abbrev pub hosts : List (Interface SockAddr) → List Bytes
  hosts [] = []
  hosts (i ∷ is) =
      let rest = hosts is in
      if is_real i.ifa_name then if_host (host_of sys i.ifa_addr) rest else rest

  take_host-first :
      (o : Option Bytes) (real : Bool) (rest : List Bytes)
      → take_host sys o real (first rest) ≡ first (if real then if_host o rest else rest)
  take_host-first none real rest = ground arith
  take_host-first (some host) true rest = refl
  take_host-first (some host) false rest = refl

  find_host-first :
      (interfaces : List (Interface SockAddr)) → find_host sys interfaces ≡ first (hosts interfaces)
  unfolding find_host
  find_host-first [] = refl
  find_host-first (i ∷ is) =
      ap (take_host sys (host_of sys i.ifa_addr) (is_real i.ifa_name)) (find_host-first is)
      ∙ take_host-first (host_of sys i.ifa_addr) (is_real i.ifa_name) (hosts is)

  -- The texts of the AF_INET addresses of an adapter.
  abbrev pub texts : List SockAddr → List Bytes
  texts [] = []
  texts (a ∷ others) = let rest = texts others in if is_inet a then inet_ntop a ∷ rest else rest

  -- Those of all adapters that are up and no loopback.
  abbrev pub adapter_texts : List (Adapter SockAddr) → List Bytes
  adapter_texts [] = []
  adapter_texts (a ∷ others) =
      (if a.is_up && not a.is_loopback then texts a.unicast else []) ++ adapter_texts others

  chosen-append :
      (ip : Bytes) (xs ys : List Bytes)
      → chosen ip (xs ++ ys) ≡ then_search sys (chosen ip xs) (λ ip. chosen ip ys)
  chosen-append ip [] ys = refl
  chosen-append ip (x ∷ xs) ys = elim (Bool-cases (is_preferred x)) [
    | inl stops ↦ rw stops refl
    | inr more ↦ rw more (chosen-append x xs ys)
  ]

  scan_unicast-chosen :
      (addresses : List SockAddr) (ip : Bytes)
      → scan_unicast sys addresses ip ≡ chosen ip (texts addresses)
  unfolding scan_unicast
  scan_unicast-chosen [] ip = refl
  scan_unicast-chosen (a ∷ others) ip = elim (Bool-cases (is_inet a)) [
    | inl inet ↦ rw (inet, scan_unicast-chosen others (inet_ntop a)) refl
    | inr another ↦ rw another (scan_unicast-chosen others ip)
  ]

  searched-chosen :
      (active : Bool) (addresses : List SockAddr) (ip : Bytes)
      → searched sys active addresses ip ≡ chosen ip (if active then texts addresses else [])
  searched-chosen true addresses ip = scan_unicast-chosen addresses ip
  searched-chosen false addresses ip = refl

  then_search_eq :
      {f g : Bytes → Search}
      → ((ip : Bytes) → f ip ≡ g ip)
      → (s : Search) → then_search sys s f ≡ then_search sys s g
  then_search_eq e (returns ip) = refl
  then_search_eq e (goes_on ip) = e ip

  scan_adapters-chosen :
      (adapters : List (Adapter SockAddr)) (ip : Bytes)
      → scan_adapters sys adapters ip ≡ chosen ip (adapter_texts adapters)
  unfolding scan_adapters
  scan_adapters-chosen [] ip = refl
  scan_adapters-chosen (a ∷ others) ip =
      rw
        (
          searched-chosen (a.is_up && not a.is_loopback) a.unicast ip,
          chosen-append ip (if a.is_up && not a.is_loopback then texts a.unicast else [])
              (adapter_texts others),
        )
        (then_search_eq (λ ip'. scan_adapters-chosen others ip')
          (chosen ip (if a.is_up && not a.is_loopback then texts a.unicast else [])))

  answer-chosen :
      (ip : Bytes) (xs : List Bytes)
      → answer sys (chosen ip xs) ≡ or_last (preferred xs) (last ip xs)
  answer-chosen ip [] = refl
  answer-chosen ip (x ∷ xs) = elim (Bool-cases (is_preferred x)) [
    | inl stops ↦ rw stops refl
    | inr more ↦ rw more (answer-chosen x xs)
  ]

  -- On Linux the local address is the host of the first interface with an AF_INET address and a name
  -- that the search does not leave out. On Windows it is, among the AF_INET addresses of the adapters
  -- that are up and no loopback, the first that is not 127.0.0.1 and does not begin with 169, or
  -- else the last of all. Where there is none, or the system reports an error, it is 127.0.0.1.
  pub get_local_ip_lem :
      (interfaces : List (Interface SockAddr)) (adapters : List (Adapter SockAddr))
      → (get_local_ip_linux sys (some interfaces) ≡ or_loopback (first (hosts interfaces)))
        × (get_local_ip_linux sys none ≡ loopback)
        × (get_local_ip_windows sys buffer_overflow (no_error adapters)
            ≡ or_last (preferred (adapter_texts adapters)) (last [] (adapter_texts adapters)))
        × (get_local_ip_windows sys failed (no_error adapters) ≡ loopback)
        × (get_local_ip_windows sys buffer_overflow failed ≡ loopback)
  unfolding get_local_ip_linux get_local_ip_windows
  get_local_ip_lem interfaces adapters = (
    ap or_loopback (find_host-first interfaces),
    refl,
    ap (answer sys) (scan_adapters-chosen adapters []) ∙ answer-chosen [] (adapter_texts adapters),
    refl,
    refl,
  )
