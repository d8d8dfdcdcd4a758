-- ===== src/TcpConnection/Beside.antt =====
-- net/TcpConnection.cpp and net/EventLoop.cpp: a connection whose loop serves another one.
use easy_event.Base.{
  ℕ, ◌≡◌, ◌≢◌, refl, sym, ap, ◌∙◌, true, false, List, [], Option, some, some-injective,
  pos-injective, pos, ℤ, Result, ok, Ensures,
}
use easy_event.Channel.{Events, handle_event, is_writing, any_bit}
use easy_event.Channel.Frame.{Ensures-then}
use easy_event.Poller.{Poller, PollFd, PollAnswer}
use easy_event.Poller.Wiring.{IsWired}
use easy_event.Poller.Report.{SameButRevents}
use easy_event.Poller.Uses.{Uses}
use easy_event.EventLoop.{do_pending_functors}
use easy_event.TcpServer.{TcpServer, holds_name, same_name}
use easy_event.TcpServer.Names.{holds_name-erase}
use easy_event.TcpConnection.{
  TcpConnection, Os, Callbacks, channel_of, run_functor, set_loop, k_disconnected,
  remove_connection,
}
use easy_event.TcpConnection.Sound.{IsSound, Wakes}
use easy_event.TcpConnection.Close.{IsOpen, OnlyQueues}
use easy_event.TcpConnection.Loop.{channel_callbacks, set_handling, serve}
use easy_event.TcpConnection.Alone.{ReportsOnly, serve-alone}
use easy_event.TcpConnection.Gone.{IsServed, PeerGone, gone_bit}
use easy_event.TcpConnection.HangUp.{serve-hangs_up}
use easy_event.TcpConnection.Confined.{
  Keeping, others_kept, From, From-refl, From-trans, AreConfined,
}
use easy_event.TcpConnection.Confined.Turn.{handle_event-From, do_pending_functors-From}

-- The connection `d` with the loop, the poller and the server as `c` has them.
abbrev pub beside : TcpConnection → TcpConnection → TcpConnection
beside d c = record d { loop = c.loop; poller = c.poller; server = c.server }

-- Polling changes no more of a poller than `revents`.
polled-Uses :
    (q : ℕ) (s s' : Poller) (filled : List PollFd)
    → SameButRevents (record s { pollfds = filled }) s'
    → IsWired s'
    → Uses q s s'
polled-Uses q s s' filled same wired = record {
  spares = record {
    owner_loop = same.owner_loop;
    own_fd = same.fds q;
    fds = λ p ne. same.fds p;
    loop_ptrs = λ p ne. same.loop_ptrs p;
    events = λ p ne. same.events p;
    elsewhere = λ fd ne. ap (λ (m : ℤ → Option ℕ). m fd) same.channel_map;
  };
  wires = λ n h w. wired;
}

-- A turn for one connection alone changes no more than what is that connection's.
serve-From :
    {T : Type 0} (os : Os) (cb : Callbacks T) (current wakeup_channel n : ℕ)
    (eventfd_read : ℕ → Option ℕ) (others : ℕ → TcpConnection → Result TcpConnection) (t : T)
    (sys_poll : List PollFd → PollAnswer) (r : Events) (c : TcpConnection)
    → AreConfined others_kept cb
    → IsSound current n c
    → any_bit r ≡ true
    → ReportsOnly sys_poll c n r
    → Ensures
        (From others_kept c)
        (serve os cb current wakeup_channel eventfd_read others t sys_poll c)
serve-From os cb current wakeup_channel n eventfd_read others t sys_poll r c h s some_bit reports =
    let (p, turned, same, told, wired) =
      serve-alone os cb current wakeup_channel n eventfd_read others t sys_poll r c s.wired s.known
        some_bit reports in
    let c₁ : TcpConnection = record c { poller = p } in
    let polled : From others_kept c c₁ = record {
      channel_ = refl;
      identity_ = refl;
      poller_ = polled-Uses c.channel c.poller p (sys_poll c.poller.pollfds).filled same wired;
      thread_ = refl;
      server_ = λ other ne. refl;
    } in
    let turn : Ensures (From others_kept c₁) _ =
      Ensures-then (From others_kept) (From-refl others_kept) (From-trans others_kept) c₁
        (handle_event channel_of set_handling (channel_callbacks os cb current) t c₁)
        (do_pending_functors (λ (x : TcpConnection). x.loop) set_loop (run_functor os cb current))
        (handle_event-From others_kept os cb current t c₁ h)
        (λ d. do_pending_functors-From others_kept os cb current d h) in
    record {
      gives = λ c' e. From-trans others_kept c c₁ c' polled (turn.gives c' (sym turned ∙ e));
    }

-- What is sound beside `c`, on another descriptor, is sound beside what `c` becomes.
pub beside-IsSound :
    (K : Keeping) (current n n' : ℕ) (c c' d : TcpConnection)
    → From K c c'
    → (channel_of c).fd ≡ pos n
    → n ≢ n'
    → c.channel ≢ d.channel
    → IsSound current n' (beside d c)
    → IsSound current n' (beside d c')
beside-IsSound K current n n' c c' d f its others_fd apart sound =
    let elsewhere : (channel_of c).fd ≢ pos n' = λ e. others_fd (pos-injective (sym its ∙ e)) in
    let waits : is_writing (c'.poller.channels d.channel)
        ≡ is_writing (c.poller.channels d.channel) =
      ap (λ (e : Events). e.pollout) (f.poller_.spares.events d.channel apart) in
    record {
      here = f.thread_ ∙ sound.here;
      valid = sound.valid;
      wired = f.poller_.wires n its sound.wired;
      known = f.poller_.spares.elsewhere (pos n') elsewhere ∙ sound.known;
      mine =
          f.poller_.spares.loop_ptrs d.channel apart ∙ sound.mine ∙ sym f.poller_.spares.owner_loop;
      idle = λ e. waits ∙ sound.idle e;
      busy = λ ne. waits ∙ sound.busy ne;
    }

-- Two connections with different channels and names, both sound and known to their one server, are on one
-- loop. In a turn in which the peer of the one is gone, as for `serve-hangs_up`, and where every callback
-- changes only what is that connection's own, the turn returns; the one is disconnected and out of the
-- server's map, and the other is still sound, in the loop, the poller and the server as the turn has left
-- them, and still known to the server.
pub serve-hangs_up_beside :
    {T : Type 0} (os : Os) (cb : Callbacks T) (current wakeup_channel n : ℕ)
    (eventfd_read : ℕ → Option ℕ) (others : ℕ → TcpConnection → Result TcpConnection) (t : T)
    (sys_poll : List PollFd → PollAnswer) (r : Events) (c : TcpConnection)
    → Wakes os
    → IsSound current n c
    → IsOpen c
    → c.loop.pending_functors ≡ []
    → IsServed c
    → cb.close_cb ≡ some (remove_connection os current)
    → OnlyQueues cb.conn_cb
    → PeerGone os c r
    → ReportsOnly sys_poll c n r
    → AreConfined others_kept cb
    → (n' : ℕ) (d : TcpConnection) → c.channel ≢ d.channel
    → same_name c.identity.conn_name d.identity.conn_name ≡ false
    → IsSound current n' (beside d c)
    → IsServed (beside d c)
    → (c' : TcpConnection) × (serve os cb current wakeup_channel eventfd_read others t sys_poll c
        ≡ ok c')
      × (c'.state ≡ k_disconnected)
      × (holds_name c.identity.conn_name c'.server.conn_map ≡ false)
      × IsSound current n' (beside d c')
      × IsServed (beside d c')
serve-hangs_up_beside os cb current wakeup_channel n eventfd_read others t sys_poll r c wakes s
      still_open none_queued served set tells gone reports confined n' d apart differ sound known =
    let (c', did, ended, wired, _, left, _, _, _, _) =
      serve-hangs_up os cb current wakeup_channel n eventfd_read others t sys_poll r c wakes s
        still_open none_queued served set tells gone reports in
    let (_, _, its, _, _, _) = s.wired.entries (pos n) c.channel s.known in
    let f : From others_kept c c' =
      (serve-From os cb current wakeup_channel n eventfd_read others t sys_poll r c confined s
          (gone_bit os c r gone) reports).gives
        c' did in
    (
      c',
      did,
      ended,
      ap (λ (v : TcpServer). holds_name c.identity.conn_name v.conn_map) left
          ∙ holds_name-erase c.identity.conn_name c.server.conn_map,
      beside-IsSound others_kept current n n' c c' d f its
          (λ e. apart (
            some-injective c.channel d.channel
              (sym s.known ∙ ap (λ k. c.poller.channel_map (pos k)) e ∙ sound.known)))
          apart sound,
      f.server_ d.identity.conn_name differ ∙ known,
    )
