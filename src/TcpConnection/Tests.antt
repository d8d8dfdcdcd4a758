-- ===== src/TcpConnection/Tests.antt =====
-- The connection on small inputs: descriptor 5, alone in the poller of the loop of thread 1.
use easy_event.Base.{
  if◌then◌else◌, ◌>>=◌, ℕ, zero, suc, ◌<◌, ◌≡◌, ◌≢◌, refl, ap, sym, ◌∙◌, inl, inr, true, false,
  List, [], ◌∷◌, none, some, some-injective, pos, ℤ, get_elem?, length, ok, fault, assertion, arith,
}
use easy_event.Buffer.{Buffer, WriteOutcome, got, wrote, write_error}
use easy_event.Buffer.Contents.{contents, count}
use easy_event.Channel.{
  is_writing, Events, new_channel, none_event, read_event, write_event, bits_or,
}
use easy_event.Poller.{Poller, PollFd, map_put}
use easy_event.Poller.Wiring.{IsWired, Placed, real_fd, map_put-cases, map_put_self}
use easy_event.TcpConnection.{
  channel_of, Functor, TcpConnection, Os, Callbacks, k_connected, k_disconnecting, StateE,
  send_in_loop, handle_write, send, shutdown, run_functor, set_loop,
}
use easy_event.TcpServer.{TcpServer, Connection}
use easy_event.EventLoop.{EventLoop, do_pending_functors}
use easy_event.TcpConnection.Liveness.{write_out, write_out-sends}
use easy_event.TcpConnection.Sound.{IsSound, Wakes}
use easy_event.TcpConnection.Remote.{told, send-shutdown}
use easy_event.TcpConnection.Rest.{Steady, stream}
use easy_event.TcpConnection.Stream.{send_in_loop-stream}
use easy_event.TcpConnection.Drain.{TakesSome, handle_write-stream, handle_write_error}

abbrev pub entry : Events → PollFd
entry evs = record { fd = pos 5; events = evs; revents = none_event }

abbrev pub waiting : Events → Poller
waiting evs = record {
  owner_loop = 3;
  pollfds = entry evs ∷ [];
  channel_map = map_put (pos 5) (some 0) (λ _. none);
  channels = λ _. record (new_channel 3 (pos 5)) { events = evs; index = pos 0 };
}

pub waiting-IsWired : (evs : Events) → IsWired (waiting evs)
waiting-IsWired evs = record { entries = known; slots = slot }
  where
    known : (fd : ℤ) (p : ℕ) → (waiting evs).channel_map fd ≡ some p → Placed (waiting evs) fd p
    known fd p e = elim (map_put-cases (pos 5) (some 0) (λ _. none) fd p e) [
      | inl (same, _) ↦ (0, entry evs, same, refl, refl, same)
      | inr (_, never) ↦ absurd (cc)
    ]

    slot :
        (i : ℕ) (pfd : PollFd)
        → get_elem? (waiting evs).pollfds i ≡ some pfd
        → (p : ℕ) × ((waiting evs).channel_map (real_fd pfd.fd) ≡ some p)
          × (((waiting evs).channels p).index ≡ pos i)
    slot zero pfd e = (
      0,
      ap (λ (x : PollFd). (waiting evs).channel_map (real_fd x.fd))
            (sym (some-injective (entry evs) pfd e))
          ∙ map_put_self (pos 5) (some 0) (λ _. none),
      refl,
    )
    slot (suc i) pfd e = absurd (ground arith)

abbrev buffer_of : ℕ → Buffer
buffer_of end = record {
  buffer = 7 ∷ 8 ∷ 9 ∷ 0 ∷ [];
  start_index = 0;
  end_index = end;
  is_full = false;
}

abbrev pub first_loop : EventLoop Functor
first_loop = record {
  looping = true;
  quit = false;
  calling_pending_functors = false;
  thread_id = 1;
  wakeup_count = 0;
  pending_functors = [];
}

-- The descriptor 5 or 6 of a server named "A".
abbrev pub identity_of : ℕ → Connection
identity_of connfd = record {
  conn_name = 65 ∷ connfd ∷ [];
  io_loop = 3;
  connfd = connfd;
  local_addr = record { sin_family = 2; sin_port = 80; sin_addr = 77 };
  peer_addr = record { sin_family = 2; sin_port = 4000; sin_addr = 78 };
}

abbrev pub server : TcpServer
server = record {
  loop = 3;
  name = 65 ∷ [];
  listenning = true;
  thread_pool = record {
    base_loop = 3;
    started = false;
    num_threads = pos 0;
    loops = [];
    next = 0;
  };
  started = true;
  next_conn_id = 7;
  conn_map = identity_of 6 ∷ identity_of 5 ∷ [];
}

abbrev pub connection : Events → StateE → ℕ → TcpConnection
connection evs state end = record {
  loop = first_loop;
  poller = waiting evs;
  server = server;
  identity = identity_of 5;
  state = state;
  channel = 0;
  input_buffer = buffer_of 0;
  output_buffer = buffer_of end;
  wire = [];
  write_shut = false;
}

-- write(2) takes one byte, or fails.
abbrev pub os_with : (List ℕ → WriteOutcome) → Os
os_with write = record {
  read = λ n. got [];
  write = write;
  eventfd_write = λ n. some (suc n);
  shutdown_succeeds = true;
  ewouldblock = 11;
}

abbrev pub one_byte : List ℕ → WriteOutcome
one_byte chunk = wrote 1

abbrev fails : List ℕ → WriteOutcome
fails chunk = write_error 32

abbrev pub callbacks : Callbacks ℕ
callbacks = record {
  conn_cb = some (λ c. ok c);
  msg_cb = none;
  write_complete_cb = some (λ c. ok c);
  close_cb = none;
}

pub os_with-Wakes : (write : List ℕ → WriteOutcome) → Wakes (os_with write)
os_with-Wakes write k = (suc k, refl)

pub one_byte-TakesSome : TakesSome (os_with one_byte)
one_byte-TakesSome chunk h = (1, refl, omega arith, omega arith)

abbrev pub quiet : TcpConnection
quiet = connection read_event k_connected 0

pub quiet-IsSound : IsSound 1 5 quiet
unfolding count contents
quiet-IsSound = record {
  here = refl;
  valid = record {
    nonempty = omega arith;
    within_max = omega arith;
    start_in = omega arith;
    end_in = omega arith;
    full_meets = inl refl;
  };
  wired = waiting-IsWired read_event;
  known = map_put_self (pos 5) (some 0) (λ _. none);
  mine = refl;
  idle = λ _. refl;
  busy = λ h. absurd (h refl);
}

-- Three bytes fit; the first goes out at once.
send_in_loop-stream_example :
    (c' : TcpConnection) × (send_in_loop (os_with one_byte) callbacks 1 (4 ∷ 5 ∷ 6 ∷ []) quiet
      ≡ ok c')
    × (stream c' ≡ 4 ∷ 5 ∷ 6 ∷ [])
    × Steady quiet c'
    × IsSound 1 5 c'
unfolding count contents
send_in_loop-stream_example =
    send_in_loop-stream (os_with one_byte) callbacks 1 5 (4 ∷ 5 ∷ 6 ∷ []) quiet
      (os_with-Wakes one_byte) (omega arith) quiet-IsSound
      (omega arith, λ k short. inl (omega arith))

-- Thread 2 sends and shuts down; the loop's thread is 1.
send-shutdown_example :
    (m k : ℕ) × (c' : TcpConnection) × ((send (os_with one_byte) callbacks 2 (4 ∷ 5 ∷ 6 ∷ []) quiet
        >>= shutdown (os_with one_byte) callbacks 2)
      ≡ ok (told 2 (4 ∷ 5 ∷ 6 ∷ []) m k quiet))
    × (do_pending_functors
          (λ (x : TcpConnection). x.loop)
          set_loop
          (run_functor (os_with one_byte) callbacks 1)
          (told 2 (4 ∷ 5 ∷ 6 ∷ []) m k quiet)
        ≡ ok c')
    × (stream c' ≡ 4 ∷ 5 ∷ 6 ∷ [])
    × (c'.write_shut ≡ (if is_writing (channel_of c') then false else true))
    × (c'.state ≡ k_disconnecting)
    × IsSound 1 5 c'
unfolding count contents
send-shutdown_example =
    send-shutdown (os_with one_byte) callbacks 2 1 5 (4 ∷ 5 ∷ 6 ∷ []) quiet (os_with-Wakes one_byte)
      refl (omega arith) quiet-IsSound (omega arith, λ k short. inl (omega arith)) refl refl
      (λ e. absurd (omega (arith, e)))

abbrev pub leaving : TcpConnection
leaving = connection (bits_or read_event write_event) k_disconnecting 2

pub leaving-IsSound : IsSound 1 5 leaving
unfolding count contents
leaving-IsSound = record {
  here = refl;
  valid = record {
    nonempty = omega arith;
    within_max = omega arith;
    start_in = omega arith;
    end_in = omega arith;
    full_meets = inl refl;
  };
  wired = waiting-IsWired (bits_or read_event write_event);
  known = map_put_self (pos 5) (some 0) (λ _. none);
  mine = refl;
  idle = λ h. absurd (omega (arith, ap (λ (xs : List ℕ). length xs) h));
  busy = λ _. refl;
}

pub leaving-left : contents leaving.output_buffer ≢ []
unfolding count contents
leaving-left h = absurd (omega (arith, ap (λ (xs : List ℕ). length xs) h))

handle_write-stream_example :
    (c' : TcpConnection) × (handle_write (os_with one_byte) callbacks 1 leaving ≡ ok c')
    × (stream c' ≡ stream leaving)
    × (0 < length c'.wire)
    × (c'.output_buffer.is_full ≡ false)
    × IsSound 1 5 c'
handle_write-stream_example =
    handle_write-stream (os_with one_byte) callbacks 1 5 leaving (os_with-Wakes one_byte)
      one_byte-TakesSome refl leaving-IsSound leaving-left refl

handle_write_error_example : handle_write (os_with fails) callbacks 1 leaving ≡ fault assertion
handle_write_error_example =
    handle_write_error (os_with fails) callbacks 1 5 32 leaving (λ chunk. refl) leaving-IsSound
      leaving-left

-- A second connection, on descriptor 6, beside the one on descriptor 5.
pub waiting-unused : (fd : ℤ) → (waiting read_event).channel_map fd ≢ some 1
waiting-unused fd e = elim (map_put-cases (pos 5) (some 0) (λ _. none) fd 1 e) [
  | inl (_, same) ↦ absurd (ground (arith, some-injective 0 1 same))
  | inr (_, never) ↦ absurd (cc)
]

write_out-sends_example :
    (c' : TcpConnection) × (write_out (os_with one_byte) callbacks 1 2 leaving ≡ ok c')
    × (contents c'.output_buffer ≡ [])
    × (c'.wire ≡ 7 ∷ 8 ∷ [])
    × (is_writing (channel_of c') ≡ false)
    × IsSound 1 5 c'
unfolding count contents
write_out-sends_example =
    write_out-sends (os_with one_byte) callbacks 1 5 2 leaving (os_with-Wakes one_byte)
      one_byte-TakesSome refl leaving-IsSound refl (omega arith)
