-- ===== src/TcpConnection/Gone.antt =====
-- net/TcpConnection.cpp and net/Channel.cpp: the event of a connection whose peer is gone.
use easy_event.Base.{
  eq→==, ℕ, ◌≡◌, refl, ◌⊎◌, inl, inr, subst, arith, sym, ap, ◌∙◌, Bool, true, false, [], Option,
  some, Result, ok,
}
use easy_event.Channel.{Channel, Events, any_bit, hang_up, readable, handle_event}
use easy_event.Buffer.{Buffer, got, extrabuf_size}
use easy_event.Buffer.Contents
use easy_event.Buffer.Contents.{contents, count-le}
use easy_event.Buffer.Transfer.{Accepts}
use easy_event.TcpConnection.Incoming.{Handles, handle_read-Handles}
use easy_event.Channel.Dispatch.{handle_event-hung_up, handle_event-readable}
use easy_event.Poller.{Poller}
use easy_event.Poller.Request.{changed, changed_here, changed-IsWired}
use easy_event.EventLoop.Queue.{queued, queue_in_loop-queues, run_in_loop-here}
use easy_event.TcpConnection.{
  TcpConnection, connect_destroyed_later, Os, Callbacks, channel_of, handle_close, handle_read,
  call, remove_connection, remove_connection_in_loop, remove_connection_later, set_loop, in_loop,
}
use easy_event.TcpConnection.Sound.{Wakes}
use easy_event.TcpConnection.Close.{IsAttached, IsOpen, handle_close-calls}
use easy_event.TcpConnection.Loop.{channel_callbacks, handling_flag, set_handling}
use easy_event.TcpServer.{TcpServer, erase, holds_name}
use easy_event.TcpServer.Names.{remove_connection_in_loop-erases}
use easy_event.TcpConnection.Alone.{flag-Keeps, handling-revents}

IsAttached-handling :
    (current n : ℕ) (b : Bool) (c : TcpConnection)
    → IsAttached current n c
    → IsAttached current n (set_handling b c)
unfolding changed
IsAttached-handling current n b c h = record {
  here = h.here;
  wired = changed-IsWired (handling_flag b) (flag-Keeps b) c.channel c.poller h.wired;
  known = h.known;
  mine =
      ap (λ (ch : Channel). ch.loop_ptr)
        (changed_here (handling_flag b) (flag-Keeps b) c.channel c.poller)
      ∙ h.mine;
}

-- What the server keeps when it has removed the connection.
abbrev pub left_by : TcpConnection → TcpServer → TcpServer
left_by c s = record s { conn_map = erase c.identity.conn_name s.conn_map }

-- The server knows the connection.
abbrev pub IsServed : TcpConnection → Type 0
IsServed c = holds_name c.identity.conn_name c.server.conn_map ≡ true

remove_connection-queues :
    (os : Os) (current : ℕ) (c : TcpConnection)
    → Wakes os
    → c.loop.thread_id ≡ current
    → IsServed c
    → (m : ℕ) × (remove_connection os current c
        ≡ ok (record c {
          server = left_by c c.server;
          loop = queued current connect_destroyed_later m c.loop;
        }))
unfolding remove_connection remove_connection_in_loop
remove_connection-queues os current c wakes here served =
    let (m, e) = wakes c.loop.wakeup_count in
    (
      m,
      run_in_loop-here (λ (d : TcpConnection). d.loop) set_loop
            (λ task. remove_connection_in_loop os current) os.eventfd_write current
            remove_connection_later c here
          ∙ rw (
            remove_connection_in_loop-erases (in_loop current c) c.identity c.server
                (eq→== c.loop.thread_id current here) served,
            queue_in_loop-queues os.eventfd_write current connect_destroyed_later c.loop m e,
          ),
    )

-- The peer is gone: it hung up, or there is something to read and it is the end of the stream.
abbrev pub PeerGone : Os → TcpConnection → Events → Type 0
PeerGone os c r =
    (r ≡ hang_up)
    ⊎ ((r ≡ readable) × (os.read extrabuf_size ≡ got []) × Contents.IsValid c.input_buffer)

pub gone_bit : (os : Os) (c : TcpConnection) (r : Events) → PeerGone os c r → any_bit r ≡ true
gone_bit os c r (inl e) = ap any_bit e
gone_bit os c r (inr (e, _, _)) = ap any_bit e

-- `handleRead` at the end of the stream.
handle_read-closes :
    {T : Type 0} (os : Os) (cb : Callbacks T) (t : T) (current : ℕ) (c : TcpConnection)
    → os.read extrabuf_size ≡ got []
    → Contents.IsValid c.input_buffer
    → (b : Buffer) × (contents b ≡ contents c.input_buffer)
      × (handle_read os cb t current c ≡ handle_close cb current (record c { input_buffer = b }))
handle_read-closes os cb t current c e v =
    let takes : Accepts (got []) c.input_buffer =
      (omega (arith, count-le c.input_buffer v, v.within_max), inl (omega (arith, v.end_in))) in
    let (b, _, same, did) =
      subst (λ o. Handles cb t current c o (handle_read os cb t current c)) e
        (handle_read-Handles os cb t current c v
          (subst (λ o. Accepts o c.input_buffer) (sym e) takes)) in
    (b, same, did)

-- `handleEvent` comes to `handleClose` then.
handle_event-gone :
    {T : Type 0} (os : Os) (cb : Callbacks T) (current : ℕ) (t : T) (r : Events) (c : TcpConnection)
    → PeerGone os c r
    → (channel_of (set_handling true c)).revents ≡ r
    → (b : Buffer) × (contents b ≡ contents c.input_buffer)
      × ((after : TcpConnection)
          → handle_close cb current (record (set_handling true c) { input_buffer = b }) ≡ ok after
          → (channel_of after).revents ≡ r
          → handle_event channel_of set_handling (channel_callbacks os cb current) t c
            ≡ ok (set_handling false after))
handle_event-gone os cb current t r c (inl e) told = (
  c.input_buffer,
  refl,
  λ after did stays.
      handle_event-hung_up channel_of set_handling (channel_callbacks os cb current) t
        (handle_close cb current) c after refl (told ∙ e) did (stays ∙ e),
)
handle_event-gone os cb current t r c (inr (e, ends, v)) told =
    let (b, same, closes) = handle_read-closes os cb t current (set_handling true c) ends v in
    (
      b,
      same,
      λ after did stays.
          handle_event-readable channel_of set_handling (channel_callbacks os cb current) t
            (λ t'. handle_read os cb t' current) c after refl (told ∙ e) (closes ∙ did) (stays ∙ e),
    )

-- The channel's event: the channel waits for nothing any more, and `connectDestroyed` is queued.
pub handle_event-closes :
    {T : Type 0} (os : Os) (cb : Callbacks T) (current n : ℕ) (t : T) (r : Events)
    (c : TcpConnection)
    → Wakes os
    → IsAttached current n c
    → IsOpen c
    → IsServed c
    → cb.close_cb ≡ some (remove_connection os current)
    → PeerGone os c r
    → (channel_of c).revents ≡ r
    → (b : Buffer) × (p : Poller) × (m : ℕ) × (handle_event channel_of set_handling
          (channel_callbacks os cb current)
          t
          c
        ≡ ok (record c {
          input_buffer = b;
          poller = p;
          server = left_by c c.server;
          loop = queued current connect_destroyed_later m c.loop;
        }))
      × (contents b ≡ contents c.input_buffer)
      × (p.channel_map ≡ c.poller.channel_map)
      × IsAttached current n (record c { poller = p })
handle_event-closes os cb current n t r c wakes a still_open served set gone told =
    let (b, unread, reaches) =
      handle_event-gone os cb current t r c gone (handling-revents true c ∙ told) in
    let marked : IsAttached current n (set_handling true c) =
      IsAttached-handling current n true c a in
    let (p, closed, same, kept, a') =
      handle_close-calls cb current n (record (set_handling true c) { input_buffer = b })
        (record {
          here = marked.here;
          wired = marked.wired;
          known = marked.known;
          mine = marked.mine;
        })
        still_open in
    let (m, queues) =
      remove_connection-queues os current (record c { input_buffer = b; poller = p }) wakes a.here
        served in
    let after : TcpConnection = record c {
      input_buffer = b;
      poller = p;
      server = left_by c c.server;
      loop = queued current connect_destroyed_later m c.loop;
    } in
    let unmarked : IsAttached current n (set_handling false (record c { poller = p })) =
      IsAttached-handling current n false (record c { poller = p })
        (record { here = a'.here; wired = a'.wired; known = a'.known; mine = a'.mine }) in
    (
      b,
      (set_handling false after).poller,
      m,
      reaches after
          (closed
            ∙ ap
                (λ (o : Option (TcpConnection → Result TcpConnection)).
                  call o (record c { input_buffer = b; poller = p }))
                set
            ∙ queues)
          (kept ∙ handling-revents true c ∙ told),
      unread,
      same,
      unmarked,
    )
