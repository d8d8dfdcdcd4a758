-- ===== src/UdpHandler.antt =====
-- net/UdpHandler.h and net/UdpHandler.cpp: the socket for datagrams of a server, its receiving and
-- sending, over the types of net/UdpCallbacks.h.
pub mod Receive
mod Tests
use easy_event.Base.{
  ℕ, Bool, true, false, List, [], ◌∷◌, ◌++◌, Option, none, some, length, take, drop, ℤ, pos, Result,
  ok, fault, assertion, ◌>>=◌, ◌>>◌, assert,
}
use easy_event.Channel.{new_channel}
use easy_event.Poller.{Poller, channel_put, enable_reading}
use easy_event.CapsuledAddr.{SockaddrIn}
use easy_event.Socket.{SocketCalls, create_udp_blocking, bind_address}

-- The members, with the poller that the loop asks, and the socket's side: the datagrams that sendto(2)
-- was given, with their receivers.
pub record UdpHandler : Type 0 where
  pub poller : Poller
  pub accept_socket : ℕ
  pub accept_channel : ℕ
  pub listenning : Bool
  pub sent : List (List ℕ × SockaddrIn)

-- The constructor.
pub new_udp_handler : SocketCalls → Poller → ℕ → SockaddrIn → Result UdpHandler
new_udp_handler calls s channel listen_addr = do
  fd ← create_udp_blocking calls
  bind_address calls fd listen_addr
  ok (record {
    poller = record s {
      channels = channel_put channel (new_channel s.owner_loop (pos fd)) s.channels;
    };
    accept_socket = fd;
    accept_channel = channel;
    listenning = false;
    sent = [];
  })

pub listen : Bool → UdpHandler → Result UdpHandler
listen in_loop h = do
  assert in_loop
  let h₁ = record h { listenning = true }
  p ← enable_reading in_loop h₁.accept_channel h₁.poller
  ok (record h₁ { poller = p })

-- The size of the array `msg`.
abbrev pub bufflen : ℕ
bufflen = 65536

-- What recvfrom(2) answers: a datagram, not longer than the array, and its sender; or -1.
pub data RecvAnswer : Type 0 where
  received : List ℕ → SockaddrIn → RecvAnswer
  recv_error : RecvAnswer

-- The callbacks, on the state of the program `W`; one that was never set is empty.
pub record UdpCallbacks (W : Type 0) : Type 0 where
  pub new_conn_cb : Option (W → Result W)
  pub msg_recv_cb : Option (List ℕ → ℕ → SockaddrIn → W → Result W)
  pub msg_sent_cb : Option (W → Result W)

-- `if(callback){ callback(); }`
abbrev pub call_back : {W : Type 0} → Option (W → Result W) → W → Result W
call_back none w = ok w
call_back (some callback) w = callback w

abbrev pub with_message :
    {W : Type 0}
    → Option (List ℕ → ℕ → SockaddrIn → W → Result W)
    → List ℕ
    → ℕ
    → SockaddrIn
    → Option (W → Result W)
with_message none msg len peer = none
with_message (some callback) msg len peer = some (callback msg len peer)

-- The array behind recvfrom(2): the datagram lies over what was on the stack, `old`.
abbrev pub laid_over : List ℕ → List ℕ → List ℕ
laid_over bytes old = bytes ++ drop (length bytes) old

module _ {W : Type 0} (cb : UdpCallbacks W) where
  unfoldable pub handle_receive_message : (ℕ → RecvAnswer) → List ℕ → W → Result W
  handle_receive_message recvfrom old w = elim (recvfrom bufflen) [
    | recv_error ↦ fault assertion
    | received bytes peer ↦
        call_back (with_message cb.msg_recv_cb (laid_over bytes old) bufflen peer) w
  ]

  -- `handler` and `set_handler` reach the handler in the state. The result of sendto(2) is not looked
  -- at.
  pub handle_send_message :
      (W → UdpHandler) → (UdpHandler → W → W) → List ℕ → ℕ → SockaddrIn → W → Result W
  handle_send_message handler set_handler msg len peer w =
      let h = handler w in
      call_back cb.msg_sent_cb
        (set_handler (record h { sent = h.sent ++ (take len msg, peer) ∷ [] }) w)

  pub handle_new_connection : Bool → W → Result W
  handle_new_connection in_loop w = do assert in_loop; call_back cb.new_conn_cb w
