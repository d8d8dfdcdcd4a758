-- ===== src/TcpConnection/HangUp.antt =====
-- net/EventLoop.cpp, one turn of `startLoop`, when poll(2) reports that the peer of a connection
-- is gone.
use easy_event.Base.{
  ℕ, ◌≡◌, refl, sym, ap, ◌∙◌, true, false, List, [], ◌∷◌, ◌++◌, Option, none, some, ℤ, pos, Result,
  ok,
}
use easy_event.Channel.{Events}
use easy_event.Buffer.Contents.{contents}
use easy_event.Poller.{PollFd, PollAnswer, map_put}
use easy_event.Poller.Wiring.{IsWired}
use easy_event.EventLoop.{EventLoop, swap_functors, set_calling}
use easy_event.EventLoop.Queue.{queued}
use easy_event.EventLoop.Rounds.{do_pending_functors-one}
use easy_event.TcpConnection.{
  TcpConnection, Functor, connect_destroyed_later, Os, Callbacks, run_functor, set_loop,
  k_disconnected, remove_connection,
}
use easy_event.TcpConnection.Sound.{IsSound, Wakes}
use easy_event.TcpConnection.Close.{IsOpen, OnlyQueues, connect_destroyed-forgets}
use easy_event.TcpConnection.Loop.{serve}
use easy_event.TcpConnection.Alone.{ReportsOnly, serve-alone}
use easy_event.TcpConnection.Gone.{left_by, IsServed, PeerGone, gone_bit, handle_event-closes}

-- One turn of the loop of an open and sound connection with no functor queued, when poll(2) answers as
-- documented and reports for the connection's channel alone, and only that the peer hung up, or that
-- there is something to read where read(2) then finds the end of the stream: the turn returns, and it
-- has ended the connection. `handleClose` had the server, which knows the connection, remove it from
-- its map, which has no such name then and is otherwise the same, and queue `connectDestroyed`, and the
-- same turn has run that; the connection is disconnected, the poller stays wired and forgets its
-- descriptor and nothing else, and what was sent, what was still to be sent and what the user has not
-- read stay as they were. This is where the eventfd takes every write and the connection callback only queues.
pub serve-hangs_up :
    {T : Type 0} (os : Os) (cb : Callbacks T) (current wakeup_channel n : ℕ)
    (eventfd_read : ℕ → Option ℕ) (others : ℕ → TcpConnection → Result TcpConnection) (t : T)
    (sys_poll : List PollFd → PollAnswer) (r : Events) (c : TcpConnection)
    → Wakes os
    → IsSound current n c
    → IsOpen c
    → c.loop.pending_functors ≡ []
    → IsServed c
    → cb.close_cb ≡ some (remove_connection os current)
    → OnlyQueues cb.conn_cb
    → PeerGone os c r
    → ReportsOnly sys_poll c n r
    → (c' : TcpConnection) × (serve os cb current wakeup_channel eventfd_read others t sys_poll c
        ≡ ok c')
      × (c'.state ≡ k_disconnected)
      × IsWired c'.poller
      × (c'.poller.channel_map ≡ map_put (pos n) none c.poller.channel_map)
      × (c'.server ≡ left_by c c.server)
      × (c'.wire ≡ c.wire)
      × (c'.output_buffer ≡ c.output_buffer)
      × (contents c'.input_buffer ≡ contents c.input_buffer)
      × (c'.loop.calling_pending_functors ≡ false)
unfolding run_functor
serve-hangs_up os cb current wakeup_channel n eventfd_read others t sys_poll r c wakes s still_open
      none_queued served set tells gone reports =
    let (p, turned, same, told, wired) =
      serve-alone os cb current wakeup_channel n eventfd_read others t sys_poll r c s.wired s.known
        (gone_bit os c r gone) reports in
    let known : p.channel_map (pos n) ≡ some c.channel =
      ap (λ (m : ℤ → Option ℕ). m (pos n)) same.channel_map ∙ s.known in
    let (b, p₁, m, closed, unread, same₁, a₁) =
      handle_event-closes os cb current n t r (record c { poller = p }) wakes
        (record {
          here = s.here;
          wired = wired;
          known = known;
          mine = same.loop_ptrs c.channel ∙ s.mine ∙ sym same.owner_loop;
        })
        still_open served set gone told in
    let l₁ : EventLoop Functor = queued current connect_destroyed_later m c.loop in
    let one : l₁.pending_functors ≡ connect_destroyed_later ∷ [] =
      ap (λ (fs : List Functor). fs ++ connect_destroyed_later ∷ []) none_queued in
    let c₁ : TcpConnection = record c {
      input_buffer = b;
      poller = p₁;
      server = left_by c c.server;
      loop = l₁;
    } in
    let (p₂, l₂, destroyed, _, wired₂, forgets) =
      connect_destroyed-forgets cb current n (set_loop (swap_functors (set_calling true l₁)) c₁)
        (record { here = s.here; wired = a₁.wired; known = a₁.known; mine = a₁.mine }) still_open
        tells in
    let done : TcpConnection = record c₁ { poller = p₂; loop = l₂; state = k_disconnected } in
    (
      set_loop (set_calling false l₂) done,
      turned
          ∙ rw closed (
              do_pending_functors-one (λ (x : TcpConnection). x.loop) set_loop
                (run_functor os cb current) connect_destroyed_later c₁ done one destroyed),
      refl,
      wired₂,
      forgets ∙ ap (λ (f : ℤ → Option ℕ). map_put (pos n) none f) (same₁ ∙ same.channel_map),
      refl,
      refl,
      refl,
      unread,
      refl,
    )
