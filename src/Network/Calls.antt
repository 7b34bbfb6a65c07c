-- ===== src/Network/Calls.antt =====
-- The system calls of `is_port_open` in src/network_utils.cpp, on both systems.
use streaming_server.Base.{
  ℕ, zero, suc, ◌+◌, ◌-◌, ◌≡◌, refl, Bool, false, not, ◌&&◌, List, [], ◌∷◌, ◌==◌, if◌then◌else◌,
  arith,
}
use streaming_server.Base.Int.{ℤ, pos, negsuc}
use streaming_server.Text.{Bytes}
use streaming_server.Network.{
  Call, wsa_startup, wsa_cleanup, opens, closes, is_negative, is_port_open_linux,
  is_port_open_windows,
}

-- The sockets that are open, and whether the Windows library is in use, in a run of calls.
pub record Held : Type 0 where
  pub sockets : List ℤ
  pub library : ℕ

abbrev same_ℤ : ℤ → ℤ → Bool
same_ℤ (pos m) (pos n) = m == n
same_ℤ (negsuc m) (negsuc n) = m == n
same_ℤ _ _ = false

abbrev remove : ℤ → List ℤ → List ℤ
remove s [] = []
remove s (t ∷ ts) = let rest = remove s ts in if same_ℤ s t then ts else t ∷ rest

-- A negative result of `socket` is no socket.
abbrev pub hold : Call → Held → Held
hold (wsa_startup (pos zero)) h = record h { library = h.library + 1 }
hold wsa_cleanup h = record h { library = h.library - 1 }
hold (opens s) h = if is_negative s then h else record h { sockets = s ∷ h.sockets }
hold (closes s) h = record h { sockets = remove s h.sockets }
hold _ h = h

abbrev pub holds : List Call → Held → Held
holds [] h = h
holds (c ∷ cs) h = holds cs (hold c h)

abbrev pub nothing : Held
nothing = record { sockets = []; library = 0 }

-- One socket, opened and closed.
one_socket : (n : ℕ) → remove (pos n) (pos n ∷ []) ≡ []
one_socket n = ground arith

linux_answer :
    (sock connected : ℤ) (ip : Bytes) (port : ℤ)
    → (is_port_open_linux sock connected ip port).0
      ≡ (not (is_negative sock) && not (is_negative connected))
unfolding is_port_open_linux
linux_answer (pos n) connected ip port = refl
linux_answer (negsuc n) connected ip port = refl

linux_holds :
    (sock connected : ℤ) (ip : Bytes) (port : ℤ)
    → holds (is_port_open_linux sock connected ip port).1 nothing ≡ nothing
unfolding is_port_open_linux
linux_holds (pos n) connected ip port = rw (one_socket n) refl
linux_holds (negsuc n) connected ip port = refl

windows_holds :
    (startup sock connected : ℤ) (ip : Bytes) (port : ℤ)
    → holds (is_port_open_windows startup sock connected ip port).1 nothing ≡ nothing
unfolding is_port_open_windows
windows_holds (pos zero) (pos n) connected ip port = rw (one_socket n) refl
windows_holds (pos zero) (negsuc zero) connected ip port = refl
windows_holds (pos zero) (negsuc (suc n)) connected ip port = refl
windows_holds (pos (suc m)) sock connected ip port = refl
windows_holds (negsuc m) sock connected ip port = refl

-- The test of a port gives back all that it takes, on both systems and whatever fails: the socket
-- is closed, and the Windows library released. On Linux the answer is yes exactly if the socket is
-- made and connects.
pub is_port_open_lem :
    (startup sock connected : ℤ) (ip : Bytes) (port : ℤ)
    → (holds (is_port_open_linux sock connected ip port).1 nothing ≡ nothing)
      × (holds (is_port_open_windows startup sock connected ip port).1 nothing ≡ nothing)
      × ((is_port_open_linux sock connected ip port).0
          ≡ (not (is_negative sock) && not (is_negative connected)))
is_port_open_lem startup sock connected ip port = (
  linux_holds sock connected ip port,
  windows_holds startup sock connected ip port,
  linux_answer sock connected ip port,
)
