-- ===== src/TcpConnection/PairTests.antt =====
-- Two connections on the loop of `Tests`, on the descriptors 5 and 6.
use easy_event.Base.{
  true, ℕ, ◌≡◌, refl, ap, sym, ◌∙◌, inl, inr, zero, suc, false, List, [], ◌∷◌, Option, none, some,
  some-injective, pos, ℤ, subst, get_elem?, ok, arith, Ensures-result, Ensures-fault, aborted,
}
use easy_event.Buffer.Contents.{contents, count}
use easy_event.Channel.{readable, new_channel, none_event, read_event}
use easy_event.EventLoop.{push_functor}
use easy_event.Poller.{Poller, PollFd, PollAnswer, map_put}
use easy_event.Poller.Wiring.{IsWired, Placed, real_fd, map_put-cases, map_put_self, map_put_other}
use easy_event.Poller.Report.{prepend}
use easy_event.TcpServer.{TcpServer, holds_name, same_name, insert, erase}
use easy_event.TcpConnection.{
  send, run_functor, set_loop, send_later, TcpConnection, k_disconnected, connect_destroyed_later,
}
use easy_event.TcpConnection.Alone.{ReportsOnly}
use easy_event.TcpConnection.Beside.{beside, serve-hangs_up_beside}
use easy_event.TcpConnection.Confined.{AreConfined, Keeping, others_kept}
use easy_event.TcpConnection.LifeTests.{calls, print, print-once}
use easy_event.Socket.{get_local_addr}
use easy_event.TcpServer
use easy_event.TcpServer.Listed.{found}
use easy_event.EventLoopThreadPool.Turns.{get_next_loop-base}
use easy_event.TcpConnection.Confined.Turn.{remove_connection-From, set_loop-From}
use easy_event.TcpConnection.Gone.{IsServed}
use easy_event.TcpConnection.Loop.{serve}
use easy_event.TcpConnection.Sound.{IsSound}
use easy_event.TcpConnection.Stream.{send_in_loop-stream}
use easy_event.TcpConnection.Others.{
  entries_kept, perform, sends, with_shared, shared_of, here, next, acts,
}
use easy_event.TcpConnection.Others.Waits.{Steps-Waits}
use easy_event.EventLoop.Queue.{run_in_loop-here}
use easy_event.TcpConnection.Tests.{
  entry, os_with, one_byte, os_with-Wakes, quiet, quiet-IsSound, identity_of, server,
}
use easy_event.TcpConnection.TurnTests.{served, no_others}

abbrev sixth : PollFd
sixth = record { fd = pos 6; events = read_event; revents = none_event }

abbrev pair_map : ℤ → Option ℕ
pair_map = map_put (pos 6) (some 1) (map_put (pos 5) (some 0) (λ _. none))

abbrev pair_poller : Poller
pair_poller = record {
  owner_loop = 3;
  pollfds = entry read_event ∷ sixth ∷ [];
  channel_map = pair_map;
  channels = λ p. elim p [
    | zero ↦ record (new_channel 3 (pos 5)) { events = read_event; index = pos 0 }
    | suc q ↦ record (new_channel 3 (pos 6)) { events = read_event; index = pos 1 }
  ];
}

fifth_known : pair_map (pos 5) ≡ some 0
fifth_known =
    map_put_other (pos 6) (some 1) (map_put (pos 5) (some 0) (λ _. none)) (pos 5) (λ e. absurd (cc))
    ∙ map_put_self (pos 5) (some 0) (λ _. none)

sixth_known : pair_map (pos 6) ≡ some 1
sixth_known = map_put_self (pos 6) (some 1) (map_put (pos 5) (some 0) (λ _. none))

pair_poller-IsWired : IsWired pair_poller
pair_poller-IsWired = record { entries = known; slots = slot }
  where
    known : (fd : ℤ) (p : ℕ) → pair_map fd ≡ some p → Placed pair_poller fd p
    known fd p e =
        elim (map_put-cases (pos 6) (some 1) (map_put (pos 5) (some 0) (λ _. none)) fd p e) [
          | inl (same, its) ↦
              subst (Placed pair_poller fd) (some-injective 1 p its)
                (1, sixth, same, refl, refl, same)
          | inr (_, before) ↦ elim (map_put-cases (pos 5) (some 0) (λ _. none) fd p before) [
            | inl (same, its) ↦
                subst (Placed pair_poller fd) (some-injective 0 p its)
                  (0, entry read_event, same, refl, refl, same)
            | inr (_, never) ↦ absurd (cc)
          ]
        ]

    slot :
        (i : ℕ) (pfd : PollFd)
        → get_elem? pair_poller.pollfds i ≡ some pfd
        → (p : ℕ) × (pair_map (real_fd pfd.fd) ≡ some p) × ((pair_poller.channels p).index ≡ pos i)
    slot zero pfd e = (
      0,
      ap (λ (x : PollFd). pair_map (real_fd x.fd)) (sym (some-injective (entry read_event) pfd e))
          ∙ fifth_known,
      refl,
    )
    slot (suc zero) pfd e = (
      1,
      ap (λ (x : PollFd). pair_map (real_fd x.fd)) (sym (some-injective sixth pfd e)) ∙ sixth_known,
      refl,
    )
    slot (suc (suc i)) pfd e = absurd (ground arith)

abbrev fifth_conn : TcpConnection
fifth_conn = record quiet { poller = pair_poller }

abbrev sixth_conn : TcpConnection
sixth_conn = record quiet { poller = pair_poller; channel = 1; identity = identity_of 6 }

fifth_conn-IsSound : IsSound 1 5 fifth_conn
fifth_conn-IsSound = record {
  here = refl;
  valid = quiet-IsSound.valid;
  wired = pair_poller-IsWired;
  known = fifth_known;
  mine = refl;
  idle = λ _. refl;
  busy = quiet-IsSound.busy;
}

sixth_conn-IsSound : IsSound 1 6 sixth_conn
sixth_conn-IsSound = record {
  here = refl;
  valid = quiet-IsSound.valid;
  wired = pair_poller-IsWired;
  known = sixth_known;
  mine = refl;
  idle = λ _. refl;
  busy = quiet-IsSound.busy;
}

-- poll(2) reports for descriptor 5 alone.
abbrev fifth_only : List PollFd → PollAnswer
fifth_only asked = record {
  filled = record (entry read_event) { revents = readable } ∷ sixth ∷ [];
  num_events = pos 1;
}

fifth_only-ReportsOnly : ReportsOnly fifth_only fifth_conn 5 readable
fifth_only-ReportsOnly = record {
  answers = (refl, refl, inl refl, (refl, refl, inl refl, tt));
  number = refl;
  alone = ap (λ o. prepend o []) fifth_known;
  place = 0;
  entry = _;
  there = refl;
  its = refl;
  happened = refl;
}

served-AreConfined : (K : Keeping) → AreConfined K served
served-AreConfined K = record {
  conn =
      λ d. Ensures-result _ (set_loop-From K (push_functor connect_destroyed_later d.loop) d refl);
  msg = λ t d. Ensures-fault aborted;
  complete = λ d. Ensures-fault aborted;
  close = remove_connection-From K (os_with one_byte) 1;
}

serve-hangs_up_beside_example :
    (c' : TcpConnection) × (serve
        (os_with one_byte)
        served
        1
        9
        some
        no_others
        0
        fifth_only
        fifth_conn
      ≡ ok c')
    × (c'.state ≡ k_disconnected)
    × (holds_name (identity_of 5).conn_name c'.server.conn_map ≡ false)
    × IsSound 1 6 (beside sixth_conn c')
    × IsServed (beside sixth_conn c')
unfolding same_name holds_name
serve-hangs_up_beside_example =
    serve-hangs_up_beside (os_with one_byte) served 1 9 5 some no_others 0 fifth_only readable
      fifth_conn (os_with-Wakes one_byte) fifth_conn-IsSound refl refl refl refl
      (λ d. (push_functor connect_destroyed_later d.loop, refl, refl))
      (inr (refl, refl, quiet-IsSound.valid)) fifth_only-ReportsOnly
      (served-AreConfined others_kept) 6 sixth_conn (λ e. absurd (cc)) refl sixth_conn-IsSound refl

-- The other one sends three bytes, of which one goes out at once.
fifth_sends :
    (c' : TcpConnection) × (perform (os_with one_byte) served 1 (sends (4 ∷ 5 ∷ 6 ∷ [])) fifth_conn
      ≡ ok c')
unfolding perform send run_functor count contents
fifth_sends =
    let (c', did, _, _, _) =
      send_in_loop-stream (os_with one_byte) served 1 5 (4 ∷ 5 ∷ 6 ∷ []) fifth_conn
        (os_with-Wakes one_byte) (omega arith) fifth_conn-IsSound
        (omega arith, λ k short. inl (omega arith)) in
    (
      c',
      run_in_loop-here (λ (d : TcpConnection). d.loop) set_loop
            (run_functor (os_with one_byte) served 1) (os_with one_byte).eventfd_write 1
            (send_later (4 ∷ 5 ∷ 6 ∷ [])) fifth_conn refl
          ∙ did,
    )

-- The server before it had the connection on descriptor 6, which it makes next.
abbrev before_sixth : TcpServer
before_sixth = record server { next_conn_id = 6; conn_map = identity_of 5 ∷ [] }

sixth_made :
    TcpServer.new_connection calls print true 6 (identity_of 6).peer_addr before_sixth
    ≡ ok (identity_of 6, server)
unfolding TcpServer.new_connection insert erase same_name get_local_addr
sixth_made = rw (get_next_loop-base server.thread_pool refl) refl

Steps-Waits_example :
    IsSound 1 6 (with_shared (shared_of fifth_sends.0) sixth_conn)
    × (found (identity_of 6).conn_name fifth_sends.0.server.conn_map ≡ some (identity_of 6))
unfolding same_name
Steps-Waits_example =
    Steps-Waits calls print true 6 (identity_of 6).peer_addr before_sixth 1 sixth_conn
      (shared_of fifth_conn) (shared_of fifth_sends.0) print-once sixth_made refl sixth_conn-IsSound
      (next here (
        acts (os_with one_byte) served 1 5 (sends (4 ∷ 5 ∷ 6 ∷ [])) fifth_conn fifth_sends.0
          (served-AreConfined entries_kept) (λ e. absurd (cc)) refl (λ e. absurd (omega (arith, e)))
          refl refl fifth_sends.1))
