-- ===== src/TcpServer/StartTests.antt =====
-- A server of thread 1, on the socket 4, that thread 2 starts.
use easy_event.Base.{
  ◌∷◌, suc, ◌≡◌, refl, [], none, some, true, false, pos, ok, ◌>>=◌, arith, List, length,
}
use easy_event.Acceptor.Listen.{IsListening, IsNew}
use easy_event.Channel.{new_channel}
use easy_event.EventLoop.{do_pending_functors}
use easy_event.Poller.{Poller}
use easy_event.Poller.Join.{with_object}
use easy_event.Poller.Wiring.{IsWired}
use easy_event.TcpServer.{TcpServer, Connection, new_server, set_thread_num}
use easy_event.TcpServer.Start.{
  Starting, set_starting_loop, run_start_task, start_in, start_in_twice,
}
use easy_event.TcpServer.Tests.{calls, address, print}
use easy_event.TcpServer.Threads.{accept_all, AllOn, start-single}

abbrev no_channels : Poller
no_channels = record {
  owner_loop = 3;
  pollfds = [];
  channel_map = λ fd. none;
  channels = λ p. new_channel 3 (pos 0);
}

no_channels-IsWired : IsWired no_channels
no_channels-IsWired = record {
  entries = λ fd p e. absurd (cc);
  slots = λ i pfd e. absurd (ground arith);
}

abbrev unstarted : Starting
unstarted = record {
  server = new_server 3 (65 ∷ []);
  acceptor = record {
    poller = with_object 1 (new_channel 3 (pos 4)) no_channels;
    accept_socket = 4;
    accept_channel = 1;
    listenning = false;
  };
  loop = record {
    looping = true;
    quit = false;
    calling_pending_functors = false;
    thread_id = 1;
    wakeup_count = 0;
    pending_functors = [];
  };
}

unstarted-IsNew : IsNew 4 unstarted.acceptor
unstarted-IsNew = record {
  socket = refl;
  before = no_channels;
  object = refl;
  wired = no_channels-IsWired;
  unused = λ fd e. absurd (cc);
  fresh = refl;
}

start_in_twice_example :
    (w₂ w' : Starting) × ((start_in calls (λ k. some (suc k)) 2 unstarted
        >>= start_in calls (λ k. some (suc k)) 2)
      ≡ ok w₂)
    × (w₂.acceptor ≡ unstarted.acceptor)
    × (do_pending_functors (λ (v : Starting). v.loop) set_starting_loop (run_start_task calls 1) w₂
        ≡ ok w')
    × (w'.server.started ≡ true)
    × (w'.server.listenning ≡ true)
    × IsListening 4 w'.acceptor
start_in_twice_example =
    start_in_twice calls (λ k. some (suc k)) 2 1 4 unstarted (λ k. (suc k, refl)) refl refl
      (λ e. absurd (omega (arith, e))) refl refl unstarted-IsNew

start-single_example :
    (w : Starting) × (conns : List Connection) × (s' : TcpServer) × ((set_thread_num
          (pos 4)
          (new_server 3 (65 ∷ []))
        >>= λ s.
            start_in calls some 1
              (record { server = s; acceptor = unstarted.acceptor; loop = unstarted.loop }))
      ≡ ok w)
    × (w.server.started ≡ true)
    × IsListening 4 w.acceptor
    × (accept_all calls print ((8, address) ∷ (9, address) ∷ []) w.server ≡ ok (conns, s'))
    × (length conns ≡ 2)
    × AllOn 3 conns
start-single_example =
    start-single calls (λ fd. address) (λ fd. refl) print ((8, address) ∷ (9, address) ∷ []) 3 4
      (65 ∷ []) some 1 4 unstarted.acceptor unstarted.loop refl refl unstarted-IsNew refl
      (omega arith)
