-- ===== src/UdpServer/Tests.antt =====
-- A server on descriptor 4, with a callback that notes the sizes of messages in `next_conn_id`.
use easy_event.Base.{◌≡◌, refl, [], ◌∷◌, none, some, ok, true, pos}
use easy_event.CapsuledAddr.{SockaddrIn}
use easy_event.Channel.{new_channel}
use easy_event.EventLoopThreadPool.{new_pool}
use easy_event.UdpHandler.{UdpCallbacks, received}
use easy_event.UdpServer.{UdpServer, new_connection}
use easy_event.UdpServer.Deliver.{new_connection-delivers}

abbrev peer : SockaddrIn
peer = record { sin_family = 2; sin_port = 80; sin_addr = 77 }

abbrev server : UdpServer
server = record {
  loop = 3;
  handler = record {
    poller = record {
      owner_loop = 3;
      pollfds = [];
      channel_map = λ fd. none;
      channels = λ p. new_channel 3 (pos 4);
    };
    accept_socket = 4;
    accept_channel = 0;
    listenning = true;
    sent = [];
  };
  thread_pool = new_pool 3;
  started = true;
  next_conn_id = 1;
  queued = [];
}

abbrev notes : UdpCallbacks UdpServer
notes = record {
  new_conn_cb = none;
  msg_recv_cb = some (λ msg len from s. ok (record s { next_conn_id = len }));
  msg_sent_cb = none;
}

-- A datagram of two bytes is reported with 65536.
new_connection-delivers_example :
    new_connection notes (λ n. received (1 ∷ 2 ∷ []) peer) (3 ∷ 4 ∷ 5 ∷ []) 3 server
    ≡ ok (record server { next_conn_id = 65536 })
new_connection-delivers_example =
    new_connection-delivers notes (λ n. received (1 ∷ 2 ∷ []) peer) (3 ∷ 4 ∷ 5 ∷ []) (1 ∷ 2 ∷ [])
      peer (λ msg len from s. ok (record s { next_conn_id = len })) server server refl refl refl
      refl refl
