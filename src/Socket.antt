-- ===== src/Socket.antt =====
-- base/Socket.h, base/Socket.cpp and base/FileDescriptor.h: the wrappers of the system calls on
-- sockets. What each call answers is an argument; options that are set are left out.
use easy_event.Base.{
  ℕ, Bool, Option, none, some, ℤ, pos, negsuc, Result, ok, fault, assertion, assert,
}
use easy_event.CapsuledAddr.{SockaddrIn}

-- accept4(2): a new descriptor and the peer's address, or -1.
pub data AcceptAnswer : Type 0 where
  accepted : ℕ → SockaddrIn → AcceptAnswer
  not_accepted : AcceptAnswer

-- The answers of the system calls, to descriptors; `none` and `false` are -1.
pub record SocketCalls : Type 0 where
  pub socket_stream : Option ℕ
  pub socket_dgram : Option ℕ
  pub bind : ℕ → SockaddrIn → Bool
  pub listen : ℕ → Bool
  pub accept4 : ℕ → AcceptAnswer
  pub getsockname : ℕ → Option SockaddrIn
  pub getsockopt_error : ℕ → Option ℕ
  pub errno : ℕ
  pub close : ℕ → Bool

-- `assert(fd >= 0)` behind a call that makes a descriptor, and behind one that fills in an address.
abbrev pub or_die : {X : Type 0} → Option X → Result X
or_die none = fault assertion
or_die (some x) = ok x

module _ (calls : SocketCalls) where
  unfoldable pub create_nonblocking_or_die : Result ℕ
  create_nonblocking_or_die = or_die calls.socket_stream

  unfoldable pub create_udp_blocking : Result ℕ
  create_udp_blocking = or_die calls.socket_dgram

  unfoldable pub bind_address : ℕ → SockaddrIn → Result (Unit {0})
  bind_address fd addr = assert (calls.bind fd addr)

  unfoldable pub socket_listen : ℕ → Result (Unit {0})
  socket_listen fd = assert (calls.listen fd)

  -- The result of `accept`, and `*peerAddr` behind it.
  unfoldable pub accept : ℕ → SockaddrIn → ℤ × SockaddrIn
  accept fd peer_addr = elim (calls.accept4 fd) [
    | accepted connfd addr ↦ (pos connfd, addr)
    | not_accepted ↦ (negsuc 0, peer_addr)
  ]

  unfoldable pub get_local_addr : ℕ → Result SockaddrIn
  get_local_addr connfd = or_die (calls.getsockname connfd)

  pub get_socket_err : ℕ → ℕ
  get_socket_err sockfd = elim (calls.getsockopt_error sockfd) [
    | none ↦ calls.errno
    | some optval ↦ optval
  ]

  -- `FileDescriptor::close`, which the destructor calls too.
  unfoldable pub close_fd : ℕ → Result (Unit {0})
  close_fd fd = assert (calls.close fd)
