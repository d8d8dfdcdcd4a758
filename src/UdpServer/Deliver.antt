-- ===== src/UdpServer/Deliver.antt =====
-- net/UdpServer.cpp, `newConnection`: from a readable socket to the callback for messages.
use easy_event.Base.{ℕ, ◌≡◌, refl, ap, ◌∙◌, List, [], Option, none, some, ok, eq→==, Result}
use easy_event.CapsuledAddr.{SockaddrIn}
use easy_event.EventLoopThreadPool.Turns.{get_next_loop-base}
use easy_event.UdpHandler.{
  UdpCallbacks, RecvAnswer, received, bufflen, laid_over, call_back, handle_receive_message,
}
use easy_event.UdpServer.{UdpServer, receive_task, run_task, run_on, announce, new_connection}

module _ (cb : UdpCallbacks UdpServer) (recvfrom : ℕ → RecvAnswer) (old : List ℕ) where
  run_on-here :
      (s v : UdpServer)
      → run_on cb recvfrom old s.loop s.loop receive_task v
        ≡ handle_receive_message cb recvfrom old v
  unfolding run_on run_task
  run_on-here s v = rw (eq→== s.loop s.loop refl)

  announce-here :
      (s s₁ : UdpServer) (o : Option (UdpServer → Result UdpServer))
      → cb.new_conn_cb ≡ o
      → call_back o s ≡ ok s₁
      → announce cb recvfrom old s.loop s.loop s ≡ ok s₁
  unfolding announce run_on run_task
  announce-here s s₁ none e h = rw (announce, e) h
  announce-here s s₁ (some callback) e h =
      rw (announce, e, eq→== s.loop s.loop refl)
        (ap (λ (x : Option (UdpServer → Result UdpServer)). call_back x s) e ∙ h)

  -- A readable socket of a server whose pool has no loops of its own, in the loop's thread: the
  -- callback for connections is called, if there is one, and then the callback for messages, once, in
  -- the state that the first one left, with the datagram's sender, the array that starts with the
  -- datagram, and the size of the array.
  pub new_connection-delivers :
      (bytes : List ℕ) (peer : SockaddrIn)
      (callback : List ℕ → ℕ → SockaddrIn → UdpServer → Result UdpServer) (s s₁ : UdpServer)
      → s.thread_pool.loops ≡ []
      → s.thread_pool.base_loop ≡ s.loop
      → call_back cb.new_conn_cb s ≡ ok s₁
      → cb.msg_recv_cb ≡ some callback
      → recvfrom bufflen ≡ received bytes peer
      → new_connection cb recvfrom old s.loop s ≡ callback (laid_over bytes old) bufflen peer s₁
  unfolding new_connection handle_receive_message
  new_connection-delivers bytes peer callback s s₁ none_own is_base announced set gets = rw (
    eq→== s.loop s.loop refl,
    get_next_loop-base s.thread_pool none_own ∙ ap (λ l. ok (l, s.thread_pool)) is_base,
    announce-here s s₁ cb.new_conn_cb refl announced,
    run_on-here s s₁,
    handle_receive_message,
    gets,
    set,
  )
