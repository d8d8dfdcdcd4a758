-- ===== src/Acceptor/Listen.antt =====
-- net/Acceptor.cpp, the constructor and `listen`.
use easy_event.Base.{ap, ◌∙◌, ℕ, ◌≡◌, ◌≢◌, refl, true, none, some, ℤ, pos, ok, ◌>>=◌}
use easy_event.Channel.{Channel, Events, bits_or, new_channel, with_reading, read_event}
use easy_event.Poller.{Poller, enable_reading}
use easy_event.Poller.Wiring.{IsWired}
use easy_event.Poller.Join.{with_object, enable_reading-joins}
use easy_event.Poller.Renew.{renewed}
use easy_event.Poller.Request.{reading-Keeps, changed, changed_here, change_events-ok}
use easy_event.CapsuledAddr.{SockaddrIn}
use easy_event.Socket.{SocketCalls, create_nonblocking_or_die, bind_address, socket_listen}
use easy_event.Acceptor.{Acceptor, new_acceptor, listen}

-- An acceptor that is made, in the loop's thread, with a channel object to which a wired poller does
-- not point, on a socket that the poller does not know, and that is told to listen: if the calls of
-- socket(2), bind(2) and listen(2) succeed, no assertion fails, the poller stays wired, and it waits
-- for new connections: it knows the channel under the socket, with the read events.
pub listen-IsWired :
    (calls : SocketCalls) (s : Poller) (channel fd : ℕ) (addr : SockaddrIn)
    → calls.socket_stream ≡ some fd
    → calls.bind fd addr ≡ true
    → calls.listen fd ≡ true
    → IsWired s
    → ((key : ℤ) → s.channel_map key ≢ some channel)
    → s.channel_map (pos fd) ≡ none
    → (a : Acceptor) × ((new_acceptor calls s channel addr >>= listen calls true) ≡ ok a)
      × (a.listenning ≡ true)
      × IsWired a.poller
      × (a.poller.channel_map (pos fd) ≡ some channel)
      × ((a.poller.channels channel).events ≡ read_event)
unfolding new_acceptor listen create_nonblocking_or_die bind_address socket_listen
listen-IsWired calls s channel fd addr made bound listens w unused fresh =
    let (p, joins, wired, known, mine, reads, _, _) =
      enable_reading-joins channel fd s w unused fresh in
    (
      record { poller = p; accept_socket = fd; accept_channel = channel; listenning = true },
      rw (made, bound, listens, joins),
      refl,
      wired,
      known,
      reads,
    )

-- The acceptor waits for new connections.
pub record IsListening (fd : ℕ) (a : Acceptor) : Type 0 where
  pub socket : a.accept_socket ≡ fd
  pub told : a.listenning ≡ true
  pub wired : IsWired a.poller
  pub known : a.poller.channel_map (pos fd) ≡ some a.accept_channel
  pub mine : (a.poller.channels a.accept_channel).loop_ptr ≡ a.poller.owner_loop
  pub reads : (a.poller.channels a.accept_channel).events ≡ read_event

-- An acceptor that has not listened yet, with a new channel object.
pub record IsNew (fd : ℕ) (a : Acceptor) : Type 0 where
  pub socket : a.accept_socket ≡ fd
  pub before : Poller
  pub object :
      a.poller ≡ with_object a.accept_channel (new_channel before.owner_loop (pos fd)) before
  pub wired : IsWired before
  pub unused : (key : ℤ) → before.channel_map key ≢ some a.accept_channel
  pub fresh : before.channel_map (pos fd) ≡ none

pub listen-IsListening :
    (calls : SocketCalls) (fd : ℕ) (a : Acceptor)
    → calls.listen fd ≡ true
    → IsNew fd a
    → (a' : Acceptor) × (listen calls true a ≡ ok a') × IsListening fd a'
unfolding listen socket_listen
listen-IsListening calls fd a listens h =
    let (p, joins, wired, known, mine, reads, _, _) =
      enable_reading-joins a.accept_channel fd h.before h.wired h.unused h.fresh in
    (
      record a { listenning = true; poller = p },
      rw (h.socket, listens, h.object, joins),
      record {
        socket = h.socket;
        told = refl;
        wired = wired;
        known = known;
        mine = mine;
        reads = reads;
      },
    )

-- Listening once more changes nothing of that.
pub listen_again :
    (calls : SocketCalls) (fd : ℕ) (a : Acceptor)
    → calls.listen fd ≡ true
    → IsListening fd a
    → (a' : Acceptor) × (listen calls true a ≡ ok a') × IsListening fd a'
unfolding listen socket_listen enable_reading changed
listen_again calls fd a listens h =
    let (i, pfd, _, _, did, wired, _) =
      change_events-ok with_reading reading-Keeps a.accept_channel a.poller fd h.wired h.known
        h.mine in
    let on : Poller = changed with_reading a.accept_channel a.poller in
    let here : on.channels a.accept_channel ≡ with_reading (a.poller.channels a.accept_channel) =
      changed_here with_reading reading-Keeps a.accept_channel a.poller in
    (
      record a { listenning = true; poller = renewed a.accept_channel i pfd on },
      rw (h.socket, listens, did),
      record {
        socket = h.socket;
        told = refl;
        wired = wired;
        known = h.known;
        mine = ap (λ (c : Channel). c.loop_ptr) here ∙ h.mine;
        reads =
            ap (λ (c : Channel). c.events) here ∙ ap (λ (e : Events). bits_or e read_event) h.reads;
      },
    )
