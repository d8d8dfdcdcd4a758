-- ===== src/CapsuledAddr/Tests.antt =====
-- "7.7" on port 80, with a library that knows just that.
use easy_event.Base.{ℕ, ◌≡◌, refl, List, [], ◌∷◌, some, arith, ok}
use easy_event.CapsuledAddr.{NetLib, SockaddrIn, addr_of_ip, to_string}
use easy_event.CapsuledAddr.Text.{to_string-addr_of_ip, PortsFit}

abbrev text : List ℕ
text = 55 ∷ 46 ∷ 55 ∷ []

abbrev lib : NetLib
lib = record {
  htobe64 = λ n. n;
  htonl = λ n. n;
  htons = λ n. n;
  be64toh = λ n. n;
  ntohl = λ n. n;
  ntohs = λ n. n;
  af_inet = 2;
  inaddr_any = 0;
  inet_pton = λ t. some 77;
  inet_ntop = λ n. some text;
  print_unsigned = λ n. 56 ∷ 48 ∷ [];
}

lib-PortsFit : PortsFit lib
lib-PortsFit = (λ port small. refl, λ port small. omega arith)

to_string-addr_of_ip_example :
    (addr : SockaddrIn) × (addr_of_ip lib text 80 ≡ ok addr)
    × (to_string lib addr ≡ 55 ∷ 46 ∷ 55 ∷ 58 ∷ 56 ∷ 48 ∷ [])
to_string-addr_of_ip_example =
    to_string-addr_of_ip lib text 80 77 lib-PortsFit (omega arith) refl refl (omega arith)
