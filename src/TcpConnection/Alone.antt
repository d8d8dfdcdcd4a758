-- ===== src/TcpConnection/Alone.antt =====
-- net/EventLoop.cpp, one turn of `startLoop`, when poll(2) reports one event of a connection and nothing
-- else.
use easy_event.Base.{
  bind_unit, ℕ, ◌≡◌, refl, ap, ◌∙◌, Bool, true, List, [], ◌∷◌, ℤ, Option, some, pos, get_elem?,
  Result, ◌>>=◌, eq→==,
}
use easy_event.Channel.{Channel, any_bit, handle_event, Events}
use easy_event.Poller.{Poller, PollFd, PollAnswer}
use easy_event.Poller.Wiring.{IsWired}
use easy_event.Poller.Request.{Keeps, changed, changed_here}
use easy_event.Poller.Report.{count_ready, ready, SameButRevents}
use easy_event.Poller.Poll.{Answers, poll-ready}
use easy_event.EventLoop.{turn, handle_each, do_pending_functors}
use easy_event.TcpConnection.{TcpConnection, Os, Callbacks, channel_of, run_functor, set_loop}
use easy_event.TcpConnection.Loop.{
  channel_callbacks, handling_flag, set_handling, poll_channels, dispatch, serve,
}

pub flag-Keeps : (b : Bool) → Keeps (handling_flag b)
flag-Keeps b = record { fd = λ c. refl; index = λ c. refl; loop_ptr = λ c. refl }

pub handling-revents :
    (b : Bool) (c : TcpConnection)
    → (channel_of (set_handling b c)).revents ≡ (channel_of c).revents
unfolding changed
handling-revents b c =
    ap (λ (ch : Channel). ch.revents)
      (changed_here (handling_flag b) (flag-Keeps b) c.channel c.poller)

-- poll(2) answers for the array `pollfds` as documented, and reports `r` for the entry of the descriptor
-- `n` alone, where the map `m` has the channel `p`.
pub record ReportsFor (sys_poll : List PollFd → PollAnswer) (pollfds : List PollFd)
    (m : ℤ → Option ℕ) (p n : ℕ) (r : Events) : Type 0 where
  pub answers : Answers pollfds (sys_poll pollfds).filled
  pub number : (sys_poll pollfds).num_events ≡ pos (count_ready (sys_poll pollfds).filled)
  pub alone : ready m (sys_poll pollfds).filled ≡ p ∷ []
  pub place : ℕ
  pub entry : PollFd
  pub there : get_elem? (sys_poll pollfds).filled place ≡ some entry
  pub its : entry.fd ≡ pos n
  pub happened : entry.revents ≡ r

-- The same for `c`'s poller and `c`'s channel.
abbrev pub ReportsOnly : (List PollFd → PollAnswer) → TcpConnection → ℕ → Events → Type 0
ReportsOnly sys_poll c = ReportsFor sys_poll c.poller.pollfds c.poller.channel_map c.channel

-- The turn is then `handleEvent` of that channel, which has been told, and the queued functors.
pub serve-alone :
    {T : Type 0} (os : Os) (cb : Callbacks T) (current wakeup_channel n : ℕ)
    (eventfd_read : ℕ → Option ℕ) (others : ℕ → TcpConnection → Result TcpConnection) (t : T)
    (sys_poll : List PollFd → PollAnswer) (r : Events) (c : TcpConnection)
    → IsWired c.poller
    → c.poller.channel_map (pos n) ≡ some c.channel
    → any_bit r ≡ true
    → ReportsOnly sys_poll c n r
    → (p : Poller) × (serve os cb current wakeup_channel eventfd_read others t sys_poll c ≡ (
        handle_event channel_of set_handling
          (channel_callbacks os cb current)
          t
          (record c { poller = p })
        >>= do_pending_functors
            (λ (x : TcpConnection). x.loop)
            set_loop
            (run_functor os cb current)))
      × SameButRevents (record c.poller { pollfds = (sys_poll c.poller.pollfds).filled }) p
      × ((p.channels c.channel).revents ≡ r)
      × IsWired p
unfolding serve turn handle_each poll_channels dispatch
serve-alone {T} os cb current wakeup_channel n eventfd_read others t sys_poll r c wired known
      some_bit rep =
    let (p, polled, same, reports, wired') =
      poll-ready sys_poll c.poller wired rep.answers rep.number in
    let own : Result TcpConnection =
      handle_event channel_of set_handling (channel_callbacks os cb current) t
        (record c { poller = p }) in
    (
      p,
      rw (polled, rep.alone, eq→== c.channel c.channel refl)
          (ap
            (λ (m : Result TcpConnection).
              m
              >>= do_pending_functors (λ (x : TcpConnection). x.loop) set_loop
                  (run_functor os cb current))
            (bind_unit own)),
      same,
      reports.told rep.place c.channel rep.entry rep.there (ap any_bit rep.happened ∙ some_bit)
            (ap c.poller.channel_map rep.its ∙ known)
          ∙ rep.happened,
      wired',
    )
