-- ===== src/TcpConnection/Life.antt =====
-- net/TcpServer.cpp and net/TcpConnection.cpp: a connection from `newConnection` to `connectDestroyed`.
use easy_event.Base.{
  ℕ, ◌≡◌, ◌≢◌, ◌⊎◌, inl, inr, refl, sym, ap, ◌∙◌, false, List, [], ◌∷◌, ◌++◌, Option, none, some, ℤ,
  pos, ◌<◌, Result, ok, eq→==,
}
use easy_event.Buffer.{got, extrabuf_size}
use easy_event.Buffer.Contents
use easy_event.CapsuledAddr.{SockaddrIn}
use easy_event.Socket.{SocketCalls}
use easy_event.Channel.{Events, hang_up, readable}
use easy_event.Poller.{Poller, PollFd, PollAnswer, map_put}
use easy_event.Poller.Wiring.{IsWired, map_put_undone}
use easy_event.Poller.Join.{joined_entry}
use easy_event.EventLoop.{EventLoop}
use easy_event.EventLoop.Queue.{run_in_loop-here}
use easy_event.TcpServer.{TcpServer, Connection, holds_name, int_max}
use easy_event.TcpServer.Names.{IsNamed, PrintsInts, new_connection-adds, erase-new}
use easy_event.TcpConnection.{
  TcpConnection, Functor, connect_established_later, Os, Callbacks, call, k_connected,
  k_disconnected, run_functor, set_loop,
}
use easy_event.TcpConnection.Alone.{ReportsFor, ReportsOnly}
use easy_event.TcpConnection.Establish.{StartsFrom, connect_established-starts}
use easy_event.TcpConnection.Gone.{PeerGone}
use easy_event.TcpConnection.HangUp.{serve-hangs_up}
use easy_event.TcpConnection.Loop.{serve}
use easy_event.TcpConnection.Server.{server_callbacks, serve_new_connection}
use easy_event.TcpConnection.Sound.{IsSound, Wakes}

-- A new connection in the loop's thread: it is established, and the server knows it.
serve_new_connection-starts :
    {T : Type 0} (os : Os) (calls : SocketCalls) (print : ℕ → List ℕ) (cb : Callbacks T)
    (current n : ℕ) (local_addr peer_addr : SockaddrIn) (channel : ℕ)
    (loops : ℕ → EventLoop Functor) (pollers : ℕ → Poller) (server : TcpServer)
    → PrintsInts print
    → server.next_conn_id < int_max
    → server.thread_pool.loops ≡ []
    → server.thread_pool.base_loop ≡ server.loop
    → calls.getsockname n ≡ some local_addr
    → IsNamed print server
    → (loops server.loop).thread_id ≡ current
    → IsWired (pollers server.loop)
    → ((fd : ℤ) → (pollers server.loop).channel_map fd ≢ some channel)
    → (pollers server.loop).channel_map (pos n) ≡ none
    → (conn : Connection) × (kept : TcpServer) × (c : TcpConnection) × (serve_new_connection os
          calls print cb current n peer_addr channel loops pollers server
        ≡ call cb.conn_cb c)
      × (c.state ≡ k_connected)
      × IsSound current n c
      × StartsFrom n channel (loops server.loop) (pollers server.loop) kept conn c
      × (holds_name conn.conn_name server.conn_map ≡ false)
      × (kept.conn_map ≡ conn ∷ server.conn_map)
unfolding serve_new_connection run_functor
serve_new_connection-starts os calls print cb current n local_addr peer_addr channel loops pollers
      server once below none_own own address named here w unused fresh =
    let (conn, kept, did, numbered, _, on_base, absent, grown, _) =
      new_connection-adds print once calls n local_addr peer_addr server address below named in
    let (c₀, c, made, of_l, established, up, _, sound, starts) =
      connect_established-starts (server_callbacks os current cb) current n channel
        (loops server.loop) (pollers server.loop) kept conn here w unused fresh numbered in
    (
      conn,
      kept,
      c,
      rw (eq→== (loops server.loop).thread_id current here, did, on_base none_own ∙ own, made)
          (run_in_loop-here (λ (d : TcpConnection). d.loop) set_loop
              (run_functor os (server_callbacks os current cb) current) os.eventfd_write current
              connect_established_later c₀ (ap (λ (x : EventLoop Functor). x.thread_id) of_l ∙ here)
            ∙ established),
      up,
      sound,
      starts,
      absent,
      grown,
    )

-- What poll(2) can report of a peer that is gone.
abbrev pub Goes : Os → Events → Type 0
Goes os r = (r ≡ hang_up) ⊎ ((r ≡ readable) × (os.read extrabuf_size ≡ got []))

Goes-PeerGone :
    (os : Os) (c : TcpConnection) (r : Events)
    → Contents.IsValid c.input_buffer
    → Goes os r
    → PeerGone os c r
Goes-PeerGone os c r v (inl e) = inl e
Goes-PeerGone os c r v (inr (e, ends)) = inr (e, ends, v)

-- The life of a connection whose peer sends nothing. The server's names are in order, `print` tells apart
-- the numbers that an `int` can have, and the next number is below the largest `int`; the pool has no loops
-- of its own, so that the connection gets the server's loop; the new descriptor has an address and is not
-- known to that loop's poller, which is wired and does not point to the new channel object; the loop, whose
-- thread it is, has no functor queued; the connection callback changes nothing, and the eventfd takes every
-- write. Then `newConnection` returns a
-- connection that is connected and sound. In the next turn, where poll(2) answers as documented for the
-- array with the new entry last, and reports for it alone, and that the peer is gone, the turn returns,
-- the connection is disconnected with nothing sent, and the server's map and the poller's map are what
-- they were before the connection came; the poller is wired.
pub serve-serve_new_connection :
    {T : Type 0} (os : Os) (calls : SocketCalls) (print : ℕ → List ℕ) (cb : Callbacks T)
    (current wakeup_channel n : ℕ) (local_addr peer_addr : SockaddrIn) (channel : ℕ)
    (loops : ℕ → EventLoop Functor) (pollers : ℕ → Poller) (server : TcpServer)
    (eventfd_read : ℕ → Option ℕ) (others : ℕ → TcpConnection → Result TcpConnection) (t : T)
    (sys_poll : List PollFd → PollAnswer) (r : Events)
    → PrintsInts print
    → server.next_conn_id < int_max
    → server.thread_pool.loops ≡ []
    → server.thread_pool.base_loop ≡ server.loop
    → calls.getsockname n ≡ some local_addr
    → IsNamed print server
    → (loops server.loop).thread_id ≡ current
    → (loops server.loop).pending_functors ≡ []
    → IsWired (pollers server.loop)
    → ((fd : ℤ) → (pollers server.loop).channel_map fd ≢ some channel)
    → (pollers server.loop).channel_map (pos n) ≡ none
    → Wakes os
    → ((d : TcpConnection) → call cb.conn_cb d ≡ ok d)
    → Goes os r
    → ReportsFor sys_poll
        ((pollers server.loop).pollfds ++ joined_entry n ∷ [])
        (map_put (pos n) (some channel) (pollers server.loop).channel_map)
        channel
        n
        r
    → (c c' : TcpConnection) × (serve_new_connection os calls print cb current n peer_addr channel
          loops pollers server
        ≡ ok c)
      × (c.state ≡ k_connected)
      × IsSound current n c
      × (serve os
            (server_callbacks os current cb)
            current
            wakeup_channel
            eventfd_read
            others
            t
            sys_poll
            c
          ≡ ok c')
      × (c'.state ≡ k_disconnected)
      × (c'.wire ≡ [])
      × (c'.server.conn_map ≡ server.conn_map)
      × ((fd : ℤ) → c'.poller.channel_map fd ≡ (pollers server.loop).channel_map fd)
      × IsWired c'.poller
serve-serve_new_connection os calls print cb current wakeup_channel n local_addr peer_addr channel
      loops pollers server eventfd_read others t sys_poll r once below none_own own address named
      here none_queued w unused fresh wakes says_nothing goes reports =
    let (conn, kept, c, accepted, up, sound, starts, absent, grown) =
      serve_new_connection-starts os calls print cb current n local_addr peer_addr channel loops
        pollers server once below none_own own address named here w unused fresh in
    let held : c.server.conn_map ≡ c.identity ∷ server.conn_map =
      ap (λ (v : TcpServer). v.conn_map) starts.its_server
      ∙ grown
      ∙ ap (λ i. i ∷ server.conn_map) (sym starts.its_identity) in
    let (known, gone) = erase-new c.identity server.conn_map (
      ap (λ (i : Connection). holds_name i.conn_name server.conn_map) starts.its_identity
      ∙ absent) in
    let told : ReportsOnly sys_poll c n r =
      rw (starts.its_pollfds, starts.its_map, starts.its_channel) reports in
    let (c', turned, down, wired, forgot, left, sent, _, _, _) =
      serve-hangs_up os (server_callbacks os current cb) current wakeup_channel n eventfd_read
        others t sys_poll r c wakes sound (rw up)
        (ap (λ (x : EventLoop Functor). x.pending_functors) starts.its_loop ∙ none_queued)
        (rw held known) refl (λ d. (d.loop, says_nothing d, refl))
        (Goes-PeerGone os c r starts.input_valid goes) told in
    (
      c,
      c',
      accepted ∙ says_nothing c,
      up,
      sound,
      turned,
      down,
      sent ∙ starts.nothing_sent,
      ap (λ (v : TcpServer). v.conn_map) left ∙ rw held gone,
      λ fd.
          ap (λ (m : ℤ → Option ℕ). m fd) (forgot ∙ ap (map_put (pos n) none) starts.its_map)
          ∙ map_put_undone (pos n) (some channel) (pollers server.loop).channel_map fresh fd,
      wired,
    )
