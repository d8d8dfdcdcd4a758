-- ===== src/CapsuledAddr/Text.antt =====
-- base/CapsuledAddr.cpp, `toString` against the constructors.
use easy_event.Base.{
  ℕ, ◌<◌, ◌≤◌, ◌≡◌, refl, List, ◌∷◌, ◌++◌, some, take_all, length, length-append, arith, ok,
}
use easy_event.CapsuledAddr.{NetLib, SockaddrIn, addr_of_ip, to_string, colon}

-- A port is a `uint16_t`: `ntohs` undoes `htons`, and `%u` prints five characters at most.
abbrev pub PortsFit : NetLib → Type 0
PortsFit lib =
    ((port : ℕ) → port < 65536 → lib.ntohs (lib.htons port) ≡ port)
    × ((port : ℕ) → port < 65536 → length (lib.print_unsigned port) ≤ 5)

to_string-whole :
    (lib : NetLib) (addr : SockaddrIn) (port : ℕ) (host : List ℕ)
    → PortsFit lib
    → port < 65536
    → addr.sin_port ≡ lib.htons port
    → lib.inet_ntop addr.sin_addr ≡ some host
    → length host ≤ 15
    → to_string lib addr ≡ host ++ colon ∷ lib.print_unsigned port
unfolding to_string
to_string-whole lib addr port host fit small at name short =
    rw (name, at, fit.0 port small)
      (take_all 31 (host ++ colon ∷ lib.print_unsigned port)
        (omega (arith, length-append host (colon ∷ lib.print_unsigned port), fit.1 port small)))

-- The text of an address made from a text and a port is that text, a colon and the port, not cut off,
-- when `inet_pton` takes the text and `inet_ntop` gives it back.
pub to_string-addr_of_ip :
    (lib : NetLib) (ip : List ℕ) (port number : ℕ)
    → PortsFit lib
    → port < 65536
    → lib.inet_pton ip ≡ some number
    → lib.inet_ntop number ≡ some ip
    → length ip ≤ 15
    → (addr : SockaddrIn) × (addr_of_ip lib ip port ≡ ok addr)
      × (to_string lib addr ≡ ip ++ colon ∷ lib.print_unsigned port)
unfolding addr_of_ip
to_string-addr_of_ip lib ip port number fit small reads writes short = (
  record { sin_family = lib.af_inet; sin_port = lib.htons port; sin_addr = number },
  rw (addr_of_ip, reads),
  to_string-whole lib _ port ip fit small refl writes short,
)
