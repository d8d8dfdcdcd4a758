-- ===== src/Acceptor.antt =====
-- net/Acceptor.h and net/Acceptor.cpp: the listening socket, which hands new connections on.
pub mod Listen
mod Tests
use easy_event.Base.{
  ℕ, Bool, true, false, Option, none, some, ℤ, pos, negsuc, Result, ok, ◌>>=◌, ◌>>◌, assert,
}
use easy_event.Channel.{new_channel}
use easy_event.Poller.{Poller, channel_put, enable_reading}
use easy_event.CapsuledAddr.{SockaddrIn, NetLib, addr_of_port}
use easy_event.Socket.{
  SocketCalls, create_nonblocking_or_die, bind_address, socket_listen, accept, close_fd,
}

-- The members, with the poller that the loop asks; `accept_channel` points to the channel.
pub record Acceptor : Type 0 where
  pub poller : Poller
  pub accept_socket : ℕ
  pub accept_channel : ℕ
  pub listenning : Bool

-- The constructor, at the address on which it will listen.
pub new_acceptor : SocketCalls → Poller → ℕ → SockaddrIn → Result Acceptor
new_acceptor calls s channel listen_addr = do
  fd ← create_nonblocking_or_die calls
  bind_address calls fd listen_addr
  ok (record {
    poller = record s {
      channels = channel_put channel (new_channel s.owner_loop (pos fd)) s.channels;
    };
    accept_socket = fd;
    accept_channel = channel;
    listenning = false;
  })

pub listen : SocketCalls → Bool → Acceptor → Result Acceptor
listen calls in_loop a = do
  assert in_loop
  let a₁ = record a { listenning = true }
  socket_listen calls a₁.accept_socket
  p ← enable_reading in_loop a₁.accept_channel a₁.poller
  ok (record a₁ { poller = p })

-- The callback for new connections works on the state of the program `W`; it can be empty.
module _ {W : Type 0} (lib : NetLib) (calls : SocketCalls)
    (new_conn_cb : Option (ℕ → SockaddrIn → W → Result W)) where
  abbrev pub hand_over : ℤ → SockaddrIn → W → Result W
  hand_over (pos connfd) peer_addr w = elim new_conn_cb [
    | none ↦ do close_fd calls connfd; ok w
    | some callback ↦ callback connfd peer_addr w
  ]
  hand_over (negsuc n) peer_addr w = ok w

  unfoldable pub handle_new_connection : Bool → ℕ → W → Result W
  handle_new_connection in_loop accept_socket w = do
    assert in_loop
    let (connfd, peer_addr) = accept calls accept_socket (addr_of_port lib 0)
    hand_over connfd peer_addr w
