-- ===== src/TcpConnection.antt =====
-- net/TcpConnection.h and net/TcpConnection.cpp: one connection, with its channel, its two buffers
-- and the loop and poller that it asks. What the peer gets is `wire`, the bytes that write(2) took.
pub mod Sound
pub mod Rest
pub mod Stream
pub mod Drain
pub mod Establish
pub mod Server
pub mod Close
pub mod Loop
pub mod Confined
pub mod Alone
pub mod Turn
pub mod Incoming
pub mod Gone
pub mod HangUp
pub mod Life
pub mod Beside
pub mod Others
pub mod Remote
pub mod Liveness
mod Tests
mod TurnTests
mod PairTests
mod LifeTests
use easy_event.Base.{
  pos, ℕ, Bool, true, false, not, ◌&&◌, ◌||◌, List, [], ◌++◌, Option, none, some, ltb, ◌==◌,
  if◌then◌else◌, length, take, drop, sub_size, Result, ok, fault, ◌>>=◌, ◌>>◌, assert, aborted,
}
use easy_event.Buffer.{
  new_buffer, Buffer, ReadOutcome, WriteOutcome, wrote, write_error, append, retrieve,
  readable_bytes, read_fd, write_fd, write_chunk,
}
use easy_event.Channel.{new_channel, Channel, is_writing}
use easy_event.Poller.{
  channel_put, Poller, enable_reading, enable_writing, disable_writing, disable_all,
  loop_remove_channel,
}
use easy_event.TcpServer
use easy_event.TcpServer.{Connection}
use easy_event.EventLoop.{EventLoop, is_in_loop_thread, queue_in_loop, run_in_loop}

pub data StateE : Type 0 where
  k_connecting : StateE
  k_connected : StateE
  k_disconnecting : StateE
  k_disconnected : StateE

abbrev pub is_connecting : StateE → Bool
is_connecting k_connecting = true
is_connecting k_connected = false
is_connecting k_disconnecting = false
is_connecting k_disconnected = false

abbrev pub is_connected : StateE → Bool
is_connected k_connecting = false
is_connected k_connected = true
is_connected k_disconnecting = false
is_connected k_disconnected = false

abbrev pub is_disconnecting : StateE → Bool
is_disconnecting k_connecting = false
is_disconnecting k_connected = false
is_disconnecting k_disconnecting = true
is_disconnecting k_disconnected = false

-- What a connection hands to `runInLoop` and `queueInLoop`, and its server for it.
pub data Functor : Type 0 where
  send_later : List ℕ → Functor
  shut_down_later : Functor
  write_complete_later : Functor
  connect_established_later : Functor
  connect_destroyed_later : Functor
  remove_connection_later : Functor

-- `identity` holds the members that never change: the name, the loop, the descriptor and the addresses.
-- `server` is the server that the close callback is bound to. `wire` and `write_shut` are the socket's:
-- the bytes that write(2) took, in order, and whether shutdown(2) was called.
pub record TcpConnection : Type 0 where
  pub loop : EventLoop Functor
  pub poller : Poller
  pub server : TcpServer.TcpServer
  pub identity : Connection
  pub state : StateE
  pub channel : ℕ
  pub input_buffer : Buffer
  pub output_buffer : Buffer
  pub wire : List ℕ
  pub write_shut : Bool

-- The callbacks; one that was never set is empty. `T` is the type of time stamps.
pub record Callbacks (T : Type 0) : Type 0 where
  pub conn_cb : Option (TcpConnection → Result TcpConnection)
  pub msg_cb : Option (T → TcpConnection → Result TcpConnection)
  pub write_complete_cb : Option (TcpConnection → Result TcpConnection)
  pub close_cb : Option (TcpConnection → Result TcpConnection)

-- The constructor: the channel is a new object, which `channel` points to.
pub new_connection :
    EventLoop Functor → Poller → TcpServer.TcpServer → ℕ → Connection → Result TcpConnection
new_connection l s server channel identity = do
  input ← new_buffer
  output ← new_buffer
  ok (record {
    loop = l;
    poller = record s {
      channels = channel_put channel (new_channel s.owner_loop (pos identity.connfd)) s.channels;
    };
    server = server;
    identity = identity;
    state = k_connecting;
    channel = channel;
    input_buffer = input;
    output_buffer = output;
    wire = [];
    write_shut = false;
  })

-- What the system calls answer during one operation, and the value of EWOULDBLOCK.
pub record Os : Type 0 where
  pub read : ℕ → ReadOutcome
  pub write : List ℕ → WriteOutcome
  pub eventfd_write : ℕ → Option ℕ
  pub shutdown_succeeds : Bool
  pub ewouldblock : ℕ

-- An empty callback throws.
abbrev pub call :
    Option (TcpConnection → Result TcpConnection) → TcpConnection → Result TcpConnection
call none c = fault aborted
call (some callback) c = callback c

abbrev pub is_set : Option (TcpConnection → Result TcpConnection) → Bool
is_set none = false
is_set (some callback) = true

abbrev pub in_loop : ℕ → TcpConnection → Bool
in_loop current c = is_in_loop_thread current c.loop

abbrev pub channel_of : TcpConnection → Channel
channel_of c = c.poller.channels c.channel

-- The bytes of `chunk` that the call took.
abbrev pub taken : WriteOutcome → List ℕ → List ℕ
taken (wrote n) chunk = take n chunk
taken (write_error e) chunk = []

abbrev pub with_poller : TcpConnection → Result Poller → Result TcpConnection
with_poller c asked = do p ← asked; ok (record c { poller = p })

-- `if(_writeCompleteCB){ _loop->queueInLoop(...); }`
pub queue_write_complete :
    {T : Type 0} → Os → Callbacks T → ℕ → TcpConnection → Result TcpConnection
queue_write_complete os cb current c =
    let queued = do
      l ← queue_in_loop os.eventfd_write current write_complete_later c.loop
      ok (record c { loop = l })
    in if is_set cb.write_complete_cb then queued else ok c

pub shut_down_in_loop : Os → ℕ → TcpConnection → Result TcpConnection
shut_down_in_loop os current c = do
  assert (in_loop current c)
  if is_writing (channel_of c)
      then ok c
      else do assert os.shutdown_succeeds; ok (record c { write_shut = true })

-- The direct `write` of `sendInLoop`: the number of bytes that it took.
pub write_now :
    {T : Type 0} → Os → Callbacks T → ℕ → List ℕ → TcpConnection → Result (ℕ × TcpConnection)
write_now os cb current message c = elim (os.write message) [
  | wrote n ↦
      let sent = record c { wire = c.wire ++ take n message } in
      if ltb n (length message)
      then ok (n, sent)
      else do queued ← queue_write_complete os cb current sent; ok (n, queued)
  | write_error errno ↦ if errno == os.ewouldblock then ok (0, c) else fault aborted
]

-- The end of `sendInLoop`: what was not written goes to the output buffer.
pub keep_rest : ℕ → List ℕ → ℕ → TcpConnection → Result TcpConnection
keep_rest current message nwrote c = do
  out ← append (drop nwrote message) (sub_size (length message) nwrote) c.output_buffer
  let c₁ = record c { output_buffer = out }
  if is_writing (channel_of c₁)
      then ok c₁
      else with_poller c₁ (enable_writing (in_loop current c₁) c₁.channel c₁.poller)

pub send_in_loop :
    {T : Type 0} → Os → Callbacks T → ℕ → List ℕ → TcpConnection → Result TcpConnection
send_in_loop os cb current message c = do
  assert (in_loop current c)
  (nwrote, c₁) ←
      if not (is_writing (channel_of c)) && readable_bytes c.output_buffer == 0
      then write_now os cb current message c
      else ok (0, c)
  if ltb nwrote (length message) then keep_rest current message nwrote c₁ else ok c₁

-- The end of `handleWrite`, when everything has been sent.
pub drained : {T : Type 0} → Os → Callbacks T → ℕ → TcpConnection → Result TcpConnection
drained os cb current c = do
  c₁ ← with_poller c (disable_writing (in_loop current c) c.channel c.poller)
  c₂ ← queue_write_complete os cb current c₁
  if is_disconnecting c₂.state then shut_down_in_loop os current c₂ else ok c₂

-- `handleWrite` while the channel waits for POLLOUT.
pub write_more : {T : Type 0} → Os → Callbacks T → ℕ → TcpConnection → Result TcpConnection
write_more os cb current c = do
  n ← write_fd os.write c.output_buffer
  chunk ← write_chunk c.output_buffer
  let sent = record c { wire = c.wire ++ taken (os.write chunk) chunk }
  if n == 0 then fault aborted else do
    out ← retrieve n sent.output_buffer
    let c₁ = record sent { output_buffer = out }
    if readable_bytes out == 0 then drained os cb current c₁ else ok c₁

pub handle_write : {T : Type 0} → Os → Callbacks T → ℕ → TcpConnection → Result TcpConnection
handle_write os cb current c = do
  assert (in_loop current c)
  if is_writing (channel_of c) then write_more os cb current c else ok c

pub handle_close : {T : Type 0} → Callbacks T → ℕ → TcpConnection → Result TcpConnection
handle_close cb current c = do
  assert (in_loop current c)
  assert (is_connected c.state || is_disconnecting c.state)
  c₁ ← with_poller c (disable_all (in_loop current c) c.channel c.poller)
  call cb.close_cb c₁

-- `handleError` ends in `abort`.
abbrev pub handle_error : TcpConnection → Result TcpConnection
handle_error c = fault aborted

-- The values of `ssize_t` that are not negative lie below this.
abbrev pub ssize_limit : ℕ
ssize_limit = 9223372036854775808

-- The message callback at the time of the poll.
abbrev pub message_at :
    {T : Type 0} → Callbacks T → T → Option (TcpConnection → Result TcpConnection)
message_at cb t = elim cb.msg_cb [ none ↦ none | some callback ↦ some (callback t) ]

pub handle_read : {T : Type 0} → Os → Callbacks T → T → ℕ → TcpConnection → Result TcpConnection
handle_read os cb t current c = do
  r ← read_fd os.read c.input_buffer
  let c₁ = record c { input_buffer = r.after }
  if ltb 0 r.count && ltb r.count ssize_limit
      then call (message_at cb t) c₁
      else if r.count == 0
      then handle_close cb current c₁
      else handle_error c₁

pub connect_established : {T : Type 0} → Callbacks T → ℕ → TcpConnection → Result TcpConnection
connect_established cb current c = do
  assert (in_loop current c)
  assert (is_connecting c.state)
  let c₁ = record c { state = k_connected }
  c₂ ← with_poller c₁ (enable_reading (in_loop current c₁) c₁.channel c₁.poller)
  call cb.conn_cb c₂

pub connect_destroyed : {T : Type 0} → Callbacks T → ℕ → TcpConnection → Result TcpConnection
connect_destroyed cb current c = do
  assert (in_loop current c)
  assert (is_connected c.state || is_disconnecting c.state)
  let c₁ = record c { state = k_disconnected }
  c₂ ← with_poller c₁ (disable_all (in_loop current c₁) c₁.channel c₁.poller)
  c₃ ← call cb.conn_cb c₂
  with_poller c₃ (loop_remove_channel (in_loop current c₃) c₃.channel c₃.poller)

-- `TcpServer::removeConnectionInLoop`, of a server in the connection's loop: the connection leaves the
-- map, and `connectDestroyed` is queued.
pub remove_connection_in_loop : Os → ℕ → TcpConnection → Result TcpConnection
remove_connection_in_loop os current c = do
  (io_loop, left) ← TcpServer.remove_connection_in_loop (in_loop current c) c.identity c.server
  l ← queue_in_loop os.eventfd_write current connect_destroyed_later c.loop
  ok (record c { server = left; loop = l })

pub run_functor :
    {T : Type 0} → Os → Callbacks T → ℕ → Functor → TcpConnection → Result TcpConnection
run_functor os cb current (send_later message) c = send_in_loop os cb current message c
run_functor os cb current shut_down_later c = shut_down_in_loop os current c
run_functor os cb current write_complete_later c = call cb.write_complete_cb c
run_functor os cb current connect_established_later c = connect_established cb current c
run_functor os cb current connect_destroyed_later c = connect_destroyed cb current c
run_functor os cb current remove_connection_later c = remove_connection_in_loop os current c

abbrev pub set_loop : EventLoop Functor → TcpConnection → TcpConnection
set_loop l c = record c { loop = l }

pub send : {T : Type 0} → Os → Callbacks T → ℕ → List ℕ → TcpConnection → Result TcpConnection
send os cb current message c =
    let now =
      run_in_loop (λ (d : TcpConnection). d.loop) set_loop (run_functor os cb current)
        os.eventfd_write current (send_later message) c in
    if is_connected c.state then now else ok c

pub shutdown : {T : Type 0} → Os → Callbacks T → ℕ → TcpConnection → Result TcpConnection
shutdown os cb current c =
    let now =
      run_in_loop (λ (d : TcpConnection). d.loop) set_loop (run_functor os cb current)
        os.eventfd_write current shut_down_later (record c { state = k_disconnecting }) in
    if is_connected c.state then now else ok c

-- `TcpServer::removeConnection`, which the server gives to its connections as the close callback.
pub remove_connection : Os → ℕ → TcpConnection → Result TcpConnection
remove_connection os current =
    run_in_loop (λ (d : TcpConnection). d.loop) set_loop
      (λ task. remove_connection_in_loop os current) os.eventfd_write current
      remove_connection_later
