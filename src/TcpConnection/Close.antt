-- ===== src/TcpConnection/Close.antt =====
-- net/TcpConnection.cpp, `handleClose` and `connectDestroyed`, each for itself.
use easy_event.Base.{
  ℕ, ◌≡◌, sym, ap, ◌∙◌, true, ◌||◌, Option, none, some, pos, Result, ok, eq→==, ◌==◌, bind-ok,
  ok-injective,
}
use easy_event.Channel.{Channel, without_all}
use easy_event.Poller.{Poller, disable_all, loop_remove_channel, map_put, change_events}
use easy_event.Poller.Wiring.{IsWired}
use easy_event.Poller.Request.{off-Keeps, change_events-ok, changed}
use easy_event.Poller.Remove.{disable_all-remove_channel}
use easy_event.EventLoop.{EventLoop}
use easy_event.TcpConnection.{
  TcpConnection, Functor, Callbacks, k_disconnected, is_connected, is_disconnecting, call,
  handle_close, connect_destroyed, channel_of,
}
use easy_event.TcpConnection.Sound.{change_events-asked}

-- The thread `current` is the loop's, and the wired poller knows the connection's channel, which the
-- loop owns, under the descriptor `n`.
pub record IsAttached (current n : ℕ) (c : TcpConnection) : Type 0 where
  pub here : c.loop.thread_id ≡ current
  pub wired : IsWired c.poller
  pub known : c.poller.channel_map (pos n) ≡ some c.channel
  pub mine : (channel_of c).loop_ptr ≡ c.poller.owner_loop

-- The connection is open for reading, and perhaps for writing.
abbrev pub IsOpen : TcpConnection → Type 0
IsOpen c = (is_connected c.state || is_disconnecting c.state) ≡ true

-- A callback that changes nothing of the connection but what its loop has queued.
abbrev pub OnlyQueues : Option (TcpConnection → Result TcpConnection) → Type 0
OnlyQueues o =
    (d : TcpConnection)
    → (l : EventLoop Functor) × (call o d ≡ ok (record d { loop = l }))
      × (l.thread_id ≡ d.loop.thread_id)

change_events-map :
    (p n : ℕ) (s s' : Poller)
    → IsWired s
    → s.channel_map (pos n) ≡ some p
    → (s.channels p).loop_ptr ≡ s.owner_loop
    → change_events without_all true p s ≡ ok s'
    → s'.channel_map ≡ s.channel_map
unfolding changed
change_events-map p n s s' w known mine e =
    let (i, pfd, at, was, did, wired, there) =
      change_events-ok without_all off-Keeps p s n w known mine in
    ap (λ (q : Poller). q.channel_map) (ok-injective s' _ (sym e ∙ did))

attached_here :
    (current n : ℕ) (c : TcpConnection)
    → IsAttached current n c
    → (c.loop.thread_id == current) ≡ true
attached_here current n c a = eq→== c.loop.thread_id current a.here

-- `handleClose`: the channel waits for nothing any more, and then the callback is called.
pub handle_close-calls :
    {T : Type 0} (cb : Callbacks T) (current n : ℕ) (c : TcpConnection)
    → IsAttached current n c
    → IsOpen c
    → (p : Poller) × (handle_close cb current c ≡ call cb.close_cb (record c { poller = p }))
      × (p.channel_map ≡ c.poller.channel_map)
      × ((p.channels c.channel).revents ≡ (channel_of c).revents)
      × IsAttached current n (record c { poller = p })
unfolding handle_close disable_all
handle_close-calls cb current n c a still_open =
    let (p, asked, w, known, mine, now) =
      change_events-asked without_all off-Keeps c.channel n c.poller a.wired a.known a.mine in
    (
      p,
      rw (attached_here current n c a, still_open, asked),
      change_events-map c.channel n c.poller p a.wired a.known a.mine asked,
      ap (λ (ch : Channel). ch.revents) now,
      record { here = a.here; wired = w; known = known; mine = mine },
    )

-- `connectDestroyed`: the connection is disconnected, and the poller forgets its descriptor.
pub connect_destroyed-forgets :
    {T : Type 0} (cb : Callbacks T) (current n : ℕ) (c : TcpConnection)
    → IsAttached current n c
    → IsOpen c
    → OnlyQueues cb.conn_cb
    → (p : Poller) × (l : EventLoop Functor) × (connect_destroyed cb current c
        ≡ ok (record c { poller = p; loop = l; state = k_disconnected }))
      × (l.thread_id ≡ current)
      × IsWired p
      × (p.channel_map ≡ map_put (pos n) none c.poller.channel_map)
unfolding connect_destroyed
connect_destroyed-forgets cb current n c a still_open tells =
    let (p, both, (wired, _, forgets)) =
      disable_all-remove_channel c.channel n c.poller a.wired a.known a.mine in
    let (p₁, asked, removed) =
      bind-ok (disable_all true c.channel c.poller) (loop_remove_channel true c.channel) p both in
    let (l, queued, thread) = tells (record c { poller = p₁; state = k_disconnected }) in
    (
      p,
      l,
      rw (
        attached_here current n c a,
        still_open,
        asked,
        queued,
        eq→== l.thread_id current (thread ∙ a.here),
        removed,
      ),
      thread ∙ a.here,
      wired,
      forgets,
    )
