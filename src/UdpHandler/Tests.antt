-- ===== src/UdpHandler/Tests.antt =====
-- A datagram of two bytes over a stack that holds 3, 4 and 5.
use easy_event.Base.{ℕ, ◌≡◌, refl, List, [], ◌∷◌, none, some, take, arith, ok}
use easy_event.CapsuledAddr.{SockaddrIn}
use easy_event.UdpHandler.{received, UdpCallbacks, handle_receive_message}
use easy_event.UdpHandler.Receive.{receive_ambiguous}

abbrev peer : SockaddrIn
peer = record { sin_family = 2; sin_port = 80; sin_addr = 77 }

abbrev keep : UdpCallbacks (List ℕ)
keep = record {
  new_conn_cb = none;
  msg_recv_cb = some (λ msg len from w. ok (take len msg));
  msg_sent_cb = none;
}

receive_ambiguous_example :
    handle_receive_message keep (λ n. received (1 ∷ 2 ∷ []) peer) (3 ∷ 4 ∷ 5 ∷ []) []
    ≡ handle_receive_message keep (λ n. received (1 ∷ 2 ∷ 5 ∷ []) peer) (3 ∷ 4 ∷ 5 ∷ []) []
receive_ambiguous_example =
    receive_ambiguous keep (λ n. received (1 ∷ 2 ∷ []) peer) (λ n. received (1 ∷ 2 ∷ 5 ∷ []) peer)
      (1 ∷ 2 ∷ []) (3 ∷ 4 ∷ 5 ∷ []) 1 peer [] (omega arith) refl refl
