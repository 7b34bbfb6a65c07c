-- ===== src/Network.antt =====
-- src/network_utils.cpp: the addresses of the host, and the test of a port. What the system calls
-- and libcurl give are arguments. `*_windows` and `*_linux` are the two branches of a function.
pub mod LocalIp
pub mod Calls
pub mod Examples
use streaming_server.Base.{
  ℕ, zero, ◌+◌, ◌-◌, ◌*◌, ◌%◌, ◌^◌, Bool, true, false, not, ◌&&◌, List, [], ◌∷◌, ◌++◌, Option, none,
  some, ◌==◌, if◌then◌else◌, take,
}
use streaming_server.Base.Int.{ℤ, pos, negsuc}
use streaming_server.Text.{Bytes, codes, bytes_eq}
use streaming_server.Text.Search.{contains}

-- The socket addresses of the system: whether the family is AF_INET, and the numeric text that
-- `getnameinfo` (if it succeeds) and `inet_ntop` give.
pub record Addresses : Type 1 where
  pub SockAddr : Type 0
  pub is_inet : SockAddr → Bool
  pub getnameinfo : SockAddr → Option Bytes
  pub inet_ntop : SockAddr → Bytes

-- `struct ifaddrs`
pub record Interface (A : Type 0) : Type 0 where
  pub ifa_name : Bytes
  pub ifa_addr : Option A

-- `IP_ADAPTER_ADDRESSES`
pub record Adapter (A : Type 0) : Type 0 where
  pub is_up : Bool
  pub is_loopback : Bool
  pub unicast : List A

-- What a call of `GetAdaptersAddresses` returns.
pub data AdaptersResult (A : Type 0) : Type 0 where
  no_error : List (Adapter A) → AdaptersResult A
  buffer_overflow : AdaptersResult A
  failed : AdaptersResult A

abbrev pub loopback : Bytes
loopback = codes "127.0.0.1"

abbrev pub or_loopback : Bytes → Bytes
or_loopback [] = loopback
or_loopback (b ∷ ip) = b ∷ ip

-- The names that the search leaves out.
unfoldable pub is_real : Bytes → Bool
is_real name =
    not (bytes_eq name (codes "lo"))
    && not (contains (codes "docker") name)
    && not (contains (codes "veth") name)

-- What the search over the adapters has so far, or returns.
pub data Search : Type 0 where
  returns : Bytes → Search
  goes_on : Bytes → Search

-- An address of which the search returns at once.
unfoldable pub is_preferred : Bytes → Bool
is_preferred ip = not (bytes_eq ip loopback) && not (bytes_eq (take 3 ip) (codes "169"))

module _ (sys : Addresses) where
  open sys use {SockAddr, is_inet, getnameinfo, inet_ntop}

  -- The numeric host of an entry, if there is one.
  abbrev pub host_of : Option SockAddr → Option Bytes
  host_of none = none
  host_of (some addr) = if is_inet addr then getnameinfo addr else none

  abbrev pub take_host : Option Bytes → Bool → Bytes → Bytes
  take_host none real rest = rest
  take_host (some host) real rest = if real then host else rest

  -- The loop over the interfaces, which a host ends.
  unfoldable pub find_host : List (Interface SockAddr) → Bytes
  find_host [] = []
  find_host (i ∷ is) =
      let rest = find_host is in take_host (host_of i.ifa_addr) (is_real i.ifa_name) rest

  -- `none` when `getifaddrs` fails.
  unfoldable pub get_local_ip_linux : Option (List (Interface SockAddr)) → Bytes
  unfolding find_host
  get_local_ip_linux none = loopback
  get_local_ip_linux (some interfaces) = or_loopback (find_host interfaces)

  -- The inner loop.
  unfoldable pub scan_unicast : List SockAddr → Bytes → Search
  scan_unicast [] ip = goes_on ip
  scan_unicast (a ∷ others) ip =
      let before = scan_unicast others ip in
      let behind = scan_unicast others (inet_ntop a) in
      if is_inet a
      then (if is_preferred (inet_ntop a) then returns (inet_ntop a) else behind)
      else before

  abbrev pub searched : Bool → List SockAddr → Bytes → Search
  searched true unicast ip = scan_unicast unicast ip
  searched false unicast ip = goes_on ip

  abbrev pub then_search : Search → (Bytes → Search) → Search
  then_search (returns ip) f = returns ip
  then_search (goes_on ip) f = f ip

  -- The loop over the adapters.
  unfoldable pub scan_adapters : List (Adapter SockAddr) → Bytes → Search
  unfolding scan_unicast
  scan_adapters [] ip = goes_on ip
  scan_adapters (a ∷ others) ip =
      then_search (searched (a.is_up && not a.is_loopback) a.unicast ip)
        (λ ip. scan_adapters others ip)

  abbrev pub answer : Search → Bytes
  answer (returns ip) = ip
  answer (goes_on ip) = or_loopback ip

  abbrev pub adapters_of : AdaptersResult SockAddr → List (Adapter SockAddr)
  adapters_of (no_error adapters) = adapters
  adapters_of _ = []

  -- The first call asks for the size and gives no adapter; the second has the buffer.
  abbrev pub queried : AdaptersResult SockAddr → AdaptersResult SockAddr → List (Adapter SockAddr)
  queried buffer_overflow second = adapters_of second
  queried first second = []

  unfoldable pub get_local_ip_windows : AdaptersResult SockAddr → AdaptersResult SockAddr → Bytes
  unfolding scan_adapters
  get_local_ip_windows first second = answer (scan_adapters (queried first second) [])

-- The system calls of `is_port_open`, in order; the first and the third with what they return.
pub data Call : Type 0 where
  wsa_startup : ℤ → Call
  wsa_cleanup : Call
  opens : ℤ → Call
  inet_pton : Bytes → Call
  sets_timeout : ℤ → Call
  connects : ℤ → ℕ → Call
  closes : ℤ → Call

-- `htons` takes the low 16 bits of the `int`.
abbrev pub htons : ℤ → ℕ
htons (pos n) = n % 2 ^ 16
htons (negsuc n) = 2 ^ 16 - 1 - n % 2 ^ 16

abbrev pub is_negative : ℤ → Bool
is_negative (pos n) = false
is_negative (negsuc n) = true

-- `sock` and `connected` are what `socket` and `connect` return.
unfoldable pub is_port_open_linux : ℤ → ℤ → Bytes → ℤ → Bool × List Call
is_port_open_linux sock connected ip port = if is_negative sock then (false, opens sock ∷ []) else (
  not (is_negative connected),
  opens sock ∷ inet_pton ip ∷ sets_timeout sock ∷ connects sock (htons port) ∷ closes sock ∷ [],
)

-- INVALID_SOCKET is -1 and every other socket is no error.
unfoldable pub is_port_open_windows : ℤ → ℤ → ℤ → Bytes → ℤ → Bool × List Call
is_port_open_windows (pos zero) (negsuc zero) connected ip port =
    (false, wsa_startup (pos 0) ∷ opens (negsuc 0) ∷ wsa_cleanup ∷ [])
is_port_open_windows (pos zero) sock connected ip port = (
  not (is_negative connected),
  wsa_startup (pos 0)
      ∷ opens sock
      ∷ inet_pton ip
      ∷ sets_timeout sock
      ∷ sets_timeout sock
      ∷ connects sock (htons port)
      ∷ closes sock
      ∷ wsa_cleanup
      ∷ [],
)
is_port_open_windows startup sock connected ip port = (false, wsa_startup startup ∷ [])

-- The bytes that libcurl hands over, `size * nmemb` of them, and what the function returns.
abbrev pub write_callback : Bytes → ℕ → ℕ → Bytes → Bytes × ℕ
write_callback contents size nmemb userp =
    (userp ++ take (size * nmemb % 2 ^ 64) contents, size * nmemb % 2 ^ 64)

-- A piece of the response, with the sizes that libcurl gives.
pub record Piece : Type 0 where
  pub contents : Bytes
  pub size : ℕ
  pub nmemb : ℕ

abbrev pub received : List Piece → Bytes → Bytes
received [] buffer = buffer
received (p ∷ ps) buffer = received ps (write_callback p.contents p.size p.nmemb buffer).0

-- `none` when `curl_easy_init` fails; else the pieces that arrive, and whether the transfer ends with
-- CURLE_OK.
unfoldable pub get_external_ip : Option (List Piece × Bool) → Bytes
get_external_ip none = []
get_external_ip (some (pieces, done)) = if done then received pieces [] else []
