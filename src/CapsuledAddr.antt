-- ===== src/CapsuledAddr.antt =====
-- base/CapsuledAddr.h and base/CapsuledAddr.cpp: addresses of IPv4. What the C library offers, the
-- conversions and `snprintf`, is an argument.
pub mod Text
mod Tests
use easy_event.Base.{
  ℕ, ◌-◌, List, [], ◌∷◌, ◌++◌, Option, none, some, take, Result, ok, fault, assertion, ◌>>=◌,
}

-- struct sockaddr_in, with numbers as they lie in it, in network byte order.
pub record SockaddrIn : Type 0 where
  pub sin_family : ℕ
  pub sin_port : ℕ
  pub sin_addr : ℕ

-- What the C library gives: byte orders, constants, texts of addresses (a text is the list of its
-- characters), and `%u`.
pub record NetLib : Type 0 where
  pub htobe64 : ℕ → ℕ
  pub htonl : ℕ → ℕ
  pub htons : ℕ → ℕ
  pub be64toh : ℕ → ℕ
  pub ntohl : ℕ → ℕ
  pub ntohs : ℕ → ℕ
  pub af_inet : ℕ
  pub inaddr_any : ℕ
  pub inet_pton : List ℕ → Option ℕ
  pub inet_ntop : ℕ → Option (List ℕ)
  pub print_unsigned : ℕ → List ℕ

-- "INVALID"
abbrev pub invalid : List ℕ
invalid = 73 ∷ 78 ∷ 86 ∷ 65 ∷ 76 ∷ 73 ∷ 68 ∷ []

-- The size of `buf`, which `snprintf` fills but for the end mark, and the colon.
abbrev pub buf_size : ℕ
buf_size = 32

abbrev pub colon : ℕ
colon = 58

-- What `host` holds behind `inet_ntop`.
abbrev pub host_text : Option (List ℕ) → List ℕ
host_text none = invalid
host_text (some text) = text

module _ (lib : NetLib) where
  abbrev pub host_to_network64 : ℕ → ℕ
  host_to_network64 host64 = lib.htobe64 host64

  abbrev pub host_to_network32 : ℕ → ℕ
  host_to_network32 host32 = lib.htonl host32

  abbrev pub host_to_network16 : ℕ → ℕ
  host_to_network16 host16 = lib.htons host16

  abbrev pub network_to_host64 : ℕ → ℕ
  network_to_host64 net64 = lib.be64toh net64

  abbrev pub network_to_host32 : ℕ → ℕ
  network_to_host32 net32 = lib.ntohl net32

  abbrev pub network_to_host16 : ℕ → ℕ
  network_to_host16 net16 = lib.ntohs net16

  -- `CapsuledAddr(port)`, at every address of the host.
  pub addr_of_port : ℕ → SockaddrIn
  addr_of_port port = record {
    sin_family = lib.af_inet;
    sin_port = host_to_network16 port;
    sin_addr = host_to_network32 lib.inaddr_any;
  }

  -- `CapsuledAddr(ip, port)`, whose assertion converts the text.
  pub addr_of_ip : List ℕ → ℕ → Result SockaddrIn
  addr_of_ip ip port = elim (lib.inet_pton ip) [
    | none ↦ fault assertion
    | some number ↦
        ok (record {
          sin_family = lib.af_inet;
          sin_port = host_to_network16 port;
          sin_addr = number;
        })
  ]

  pub to_string : SockaddrIn → List ℕ
  to_string addr = take (buf_size - 1) (
      host_text (lib.inet_ntop addr.sin_addr)
      ++ colon ∷ lib.print_unsigned (network_to_host16 addr.sin_port))
