-- ===== src/Network/Examples.antt =====
-- The addresses of two small hosts, and the theorems about them at work.
use streaming_server.Base.{◌≡◌, refl, true, false, not, List, [], ◌∷◌, none, some}
use streaming_server.Base.Int.{pos}
use streaming_server.Text.{Bytes, codes, bytes_eq}
use streaming_server.Text.Search.{find}
use streaming_server.Network.{
  Addresses, Interface, Adapter, no_error, buffer_overflow, failed, loopback, or_loopback, is_real,
  is_preferred, get_local_ip_linux, get_local_ip_windows, is_port_open_linux, get_external_ip,
}
use streaming_server.Network.LocalIp.{
  first, hosts, adapter_texts, preferred, last, or_last, get_local_ip_lem,
}

-- An address is its text, and the empty one is of another family.
abbrev plain : Addresses
plain = record {
  SockAddr = Bytes;
  is_inet = λ a. not (bytes_eq a []);
  getnameinfo = λ a. some a;
  inet_ntop = λ a. a;
}

abbrev home : Bytes
home = codes "192.168.0.5"

abbrev interfaces : List (Interface Bytes)
interfaces =
    record { ifa_name = codes "lo"; ifa_addr = some loopback }
    ∷ record { ifa_name = codes "docker0"; ifa_addr = some (codes "172.17.0.1") }
    ∷ record { ifa_name = codes "eth0"; ifa_addr = none }
    ∷ record { ifa_name = codes "eth0"; ifa_addr = some home }
    ∷ []

abbrev adapters : List (Adapter Bytes)
adapters =
    record { is_up = true; is_loopback = false; unicast = codes "169.254.1.1" ∷ [] ∷ [] }
    ∷ record { is_up = false; is_loopback = false; unicast = codes "10.0.0.1" ∷ [] }
    ∷ record { is_up = true; is_loopback = false; unicast = home ∷ [] }
    ∷ []

linux_finds : get_local_ip_linux plain (some interfaces) ≡ home
unfolding get_local_ip_linux bytes_eq is_real find
linux_finds = refl

windows_finds : get_local_ip_windows plain buffer_overflow (no_error adapters) ≡ home
unfolding get_local_ip_windows bytes_eq is_preferred
windows_finds = refl

get_local_ip_example :
    (get_local_ip_linux plain (some interfaces) ≡ or_loopback (first (hosts plain interfaces)))
    × (get_local_ip_linux plain none ≡ loopback)
    × (get_local_ip_windows plain buffer_overflow (no_error adapters)
        ≡ or_last
            (preferred (adapter_texts plain adapters))
            (last [] (adapter_texts plain adapters)))
    × (get_local_ip_windows plain failed (no_error adapters) ≡ loopback)
    × (get_local_ip_windows plain buffer_overflow failed ≡ loopback)
get_local_ip_example = get_local_ip_lem plain interfaces adapters

-- The port 65616 is port 80.
port_wraps :
    is_port_open_linux (pos 3) (pos 0) home (pos 65616)
    ≡ is_port_open_linux (pos 3) (pos 0) home (pos 80)
unfolding is_port_open_linux
port_wraps = refl

external_ip :
    get_external_ip (
      some (
        record { contents = codes "203.0."; size = 1; nmemb = 6 }
            ∷ record { contents = codes "113.9"; size = 1; nmemb = 5 }
            ∷ [],
        true,
      ))
    ≡ codes "203.0.113.9"
unfolding get_external_ip
external_ip = refl
