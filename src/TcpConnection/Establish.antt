-- ===== src/TcpConnection/Establish.antt =====
-- net/TcpConnection.cpp, the constructor and `connectEstablished`: how a connection starts.
use easy_event.Base.{ℕ, ◌≡◌, ◌≢◌, refl, ap, false, [], ok, ◌∷◌, ◌++◌, none, some, ℤ, pos, eq→==}
use easy_event.Buffer.Transfer.{new_buffer-IsValid}
use easy_event.Channel.{Events, new_channel}
use easy_event.Poller.{Poller, map_put}
use easy_event.Poller.Wiring.{IsWired}
use easy_event.Poller.Join.{enable_reading-joins, joined_entry, with_object}
use easy_event.Buffer.Contents
use easy_event.TcpServer.{TcpServer, Connection}
use easy_event.EventLoop.{EventLoop}
use easy_event.TcpConnection.{
  k_connecting, TcpConnection, Functor, Callbacks, k_connected, call, new_connection,
  connect_established,
}
use easy_event.TcpConnection.Sound.{IsSound}
use easy_event.TcpConnection.Rest.{stream}

-- The connection `c` was made with these arguments, and its channel has joined the poller.
pub record StartsFrom (n channel : ℕ) (l : EventLoop Functor) (s : Poller) (server : TcpServer)
    (identity : Connection) (c : TcpConnection) : Type 0 where
  pub its_loop : c.loop ≡ l
  pub its_server : c.server ≡ server
  pub its_identity : c.identity ≡ identity
  pub its_channel : c.channel ≡ channel
  pub its_pollfds : c.poller.pollfds ≡ s.pollfds ++ joined_entry n ∷ []
  pub its_map : c.poller.channel_map ≡ map_put (pos n) (some channel) s.channel_map
  pub nothing_sent : c.wire ≡ []
  pub input_valid : Contents.IsValid c.input_buffer

-- The constructor and `connectEstablished`, one by one.
pub connect_established-starts :
    {T : Type 0} (cb : Callbacks T) (current n channel : ℕ) (l : EventLoop Functor) (s : Poller)
    (server : TcpServer) (identity : Connection)
    → l.thread_id ≡ current
    → IsWired s
    → ((fd : ℤ) → s.channel_map fd ≢ some channel)
    → s.channel_map (pos n) ≡ none
    → identity.connfd ≡ n
    → (c₀ c : TcpConnection) × (new_connection l s server channel identity ≡ ok c₀)
      × (c₀.loop ≡ l)
      × (connect_established cb current c₀ ≡ call cb.conn_cb c)
      × (c.state ≡ k_connected)
      × (stream c ≡ [])
      × IsSound current n c
      × StartsFrom n channel l s server identity c
unfolding new_connection connect_established
connect_established-starts cb current n channel l s server identity here w unused fresh numbered =
    let (b, made, v, empty) = new_buffer-IsValid in
    let (p, joins, wired, known, mine, reads, array, mapped) =
      enable_reading-joins channel n s w unused fresh in
    let c : TcpConnection = record {
      loop = l;
      poller = p;
      server = server;
      identity = identity;
      state = k_connected;
      channel = channel;
      input_buffer = b;
      output_buffer = b;
      wire = [];
      write_shut = false;
    } in
    (
      record c {
        poller = with_object channel (new_channel s.owner_loop (pos n)) s;
        state = k_connecting;
      },
      c,
      rw (made, numbered),
      refl,
      rw (eq→== l.thread_id current here, joins),
      refl,
      empty,
      record {
        here = here;
        valid = v;
        wired = wired;
        known = known;
        mine = mine;
        idle = λ _. ap (λ (e : Events). e.pollout) reads;
        busy = λ left. absurd (left empty);
      },
      record {
        its_loop = refl;
        its_server = refl;
        its_identity = refl;
        its_channel = refl;
        its_pollfds = array;
        its_map = mapped;
        nothing_sent = refl;
        input_valid = v;
      },
    )
