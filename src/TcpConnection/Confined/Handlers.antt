-- ===== src/TcpConnection/Confined/Handlers.antt =====
-- net/TcpConnection.cpp: the operations of a connection change only what is its own.
use easy_event.Base.{
  ltb, length, drop, sub_size, not, ◌&&◌, ◌||◌, if◌then◌else◌, ℕ, ◌≡◌, refl, true, List, ◌++◌, take,
  aborted, ok, ◌==◌, Ensures, Ensures-bind, Ensures-after, Ensures-assert, Ensures-if,
  Ensures-result, Ensures-fault, Ensures-weaken,
}
use easy_event.Buffer.{
  ReadFd, append, read_fd, write_fd, write_chunk, WriteOutcome, wrote, write_error, readable_bytes,
}
use easy_event.Channel.{is_writing}
use easy_event.TcpConnection.{
  TcpConnection, Os, Callbacks, call, queue_write_complete, shut_down_in_loop, write_now, keep_rest,
  send_in_loop, drained, write_more, handle_write, handle_close, is_connecting, is_connected,
  is_disconnecting, k_connected, k_disconnected, channel_of, handle_read, ssize_limit, taken,
  in_loop, connect_established, connect_destroyed,
}
use easy_event.TcpConnection.Confined.{
  From, From-refl, From-trans, Confines, AreConfined, with_poller-From, then_From, writing_asked,
  from_rules, Keeping,
}

module _ (K : Keeping) where
  queue_write_complete-From :
      {T : Type 0} (os : Os) (cb : Callbacks T) (current : ℕ) (c : TcpConnection)
      → Ensures (From K c) (queue_write_complete os cb current c)
  unfolding queue_write_complete
  queue_write_complete-From os cb current c = search from_rules

  pub shut_down_in_loop-From :
      (os : Os) (current : ℕ) (c : TcpConnection)
      → Ensures (From K c) (shut_down_in_loop os current c)
  unfolding shut_down_in_loop
  shut_down_in_loop-From os current c =
      let d : TcpConnection = record c { write_shut = true } in
      Ensures-assert (in_loop current c) _ (
        Ensures-if (is_writing (channel_of c)) _ _ (Ensures-result c (From-refl K c))
          (Ensures-assert os.shutdown_succeeds _ (Ensures-result d (From-refl K d))))

  drained-From :
      {T : Type 0} (os : Os) (cb : Callbacks T) (current : ℕ) (c : TcpConnection)
      → Ensures (From K c) (drained os cb current c)
  unfolding drained
  drained-From os cb current c =
      search (from_rules, queue_write_complete-From, shut_down_in_loop-From) depth 10

  write_more-From :
      {T : Type 0} (os : Os) (cb : Callbacks T) (current : ℕ) (c : TcpConnection)
      → Ensures (From K c) (write_more os cb current c)
  unfolding write_more
  write_more-From os cb current c = Ensures-after (write_fd os.write c.output_buffer) _ λ n.
      Ensures-after (write_chunk c.output_buffer) _ λ chunk.
        Ensures-if (n == 0) _ _ (Ensures-fault aborted) (
          Ensures-after _ _ λ out.
            let d : TcpConnection = record c {
              wire = c.wire ++ taken (os.write chunk) chunk;
              output_buffer = out;
            } in
            Ensures-if (readable_bytes out == 0) _ _ (drained-From os cb current d)
              (Ensures-result d (From-refl K d)))

  pub handle_write-From :
      {T : Type 0} (os : Os) (cb : Callbacks T) (current : ℕ) (c : TcpConnection)
      → Ensures (From K c) (handle_write os cb current c)
  unfolding handle_write
  handle_write-From os cb current c = search (from_rules, write_more-From) depth 8

  write_now-From :
      {T : Type 0} (os : Os) (cb : Callbacks T) (current : ℕ) (message : List ℕ) (c : TcpConnection)
      (o : WriteOutcome)
      → os.write message ≡ o
      → Ensures (λ (r : ℕ × TcpConnection). From K c r.1) (write_now os cb current message c)
  unfolding write_now
  write_now-From os cb current message c (wrote n) e =
      let sent : TcpConnection = record c { wire = c.wire ++ take n message } in
      rw (e, write_now)
        (Ensures-if (ltb n (length message)) _ _ (Ensures-result (n, sent) (From-refl K sent)) (
          Ensures-bind (From K sent) (queue_write_complete os cb current sent) _
            (queue_write_complete-From os cb current sent) λ d h. Ensures-result (n, d) h))
  write_now-From os cb current message c (write_error errno) e =
      rw (e, write_now)
        (Ensures-if (errno == os.ewouldblock) _ _ (Ensures-result (0, c) (From-refl K c))
          (Ensures-fault aborted))

  keep_rest-From :
      (current : ℕ) (message : List ℕ) (nwrote : ℕ) (c : TcpConnection)
      → Ensures (From K c) (keep_rest current message nwrote c)
  unfolding keep_rest
  keep_rest-From current message nwrote c =
      Ensures-after
        (append (drop nwrote message) (sub_size (length message) nwrote) c.output_buffer) _
        λ out.
          let d : TcpConnection = record c { output_buffer = out } in
          Ensures-if (is_writing (channel_of d)) _ _ (Ensures-result d (From-refl K d))
            (with_poller-From K d _ (writing_asked (in_loop current d) c.channel c.poller))

  pub send_in_loop-From :
      {T : Type 0} (os : Os) (cb : Callbacks T) (current : ℕ) (message : List ℕ) (c : TcpConnection)
      → Ensures (From K c) (send_in_loop os cb current message c)
  unfolding send_in_loop
  send_in_loop-From os cb current message c = Ensures-assert (in_loop current c) _ (
      Ensures-bind (λ (r : ℕ × TcpConnection). From K c r.1)
        (if not (is_writing (channel_of c)) && readable_bytes c.output_buffer == 0
          then write_now os cb current message c
          else ok (0, c))
        (λ r. if ltb r.0 (length message) then keep_rest current message r.0 r.1 else ok r.1)
        (Ensures-if _ _ _ (write_now-From os cb current message c (os.write message) refl)
          (Ensures-result (0, c) (From-refl K c)))
        λ r h.
          Ensures-weaken (λ x. From-trans K c r.1 x h)
            (Ensures-if (ltb r.0 (length message)) _ _ (keep_rest-From current message r.0 r.1)
              (Ensures-result r.1 (From-refl K r.1))))

  pub handle_close-From :
      {T : Type 0} (cb : Callbacks T) (current : ℕ) (c : TcpConnection)
      → Confines K cb.close_cb
      → Ensures (From K c) (handle_close cb current c)
  unfolding handle_close
  handle_close-From cb current c close = search (from_rules, close) depth 8

  pub handle_read-From :
      {T : Type 0} (os : Os) (cb : Callbacks T) (t : T) (current : ℕ) (c : TcpConnection)
      → AreConfined K cb
      → Ensures (From K c) (handle_read os cb t current c)
  unfolding handle_read
  handle_read-From os cb t current c h =
      Ensures-after (read_fd os.read c.input_buffer) _ λ (r : ReadFd).
        let d : TcpConnection = record c { input_buffer = r.after } in
        Ensures-if (ltb 0 r.count && ltb r.count ssize_limit) _ _ (h.msg t d) (
          Ensures-if (r.count == 0) _ _ (handle_close-From cb current d h.close)
            (Ensures-fault aborted))

  pub connect_established-From :
      {T : Type 0} (cb : Callbacks T) (current : ℕ) (c : TcpConnection)
      → Confines K cb.conn_cb
      → Ensures (From K c) (connect_established cb current c)
  unfolding connect_established
  connect_established-From cb current c conn = Ensures-assert (in_loop current c) _ (
      Ensures-assert (is_connecting c.state) _ (
        then_From K (record c { state = k_connected }) _ (call cb.conn_cb) (search from_rules)
          conn))

  pub connect_destroyed-From :
      {T : Type 0} (cb : Callbacks T) (current : ℕ) (c : TcpConnection)
      → Confines K cb.conn_cb
      → Ensures (From K c) (connect_destroyed cb current c)
  unfolding connect_destroyed
  connect_destroyed-From cb current c conn = Ensures-assert (in_loop current c) _ (
      Ensures-assert (is_connected c.state || is_disconnecting c.state) _ (
        then_From K (record c { state = k_disconnected }) _ _ (search from_rules)
          λ d. then_From K d _ _ (conn d) λ e. search from_rules))
