-- ===== src/TcpConnection/Incoming.antt =====
-- net/TcpConnection.cpp, `handleRead`: what arrives goes to the input buffer and to the user.
use easy_event.Base.{
  ℕ, ◌≡◌, ◌∙◌, [], ◌∷◌, ◌++◌, Result, fault, aborted, length, lt→ltb, arith, append-nil,
}
use easy_event.Buffer.{Buffer, ReadOutcome, got, read_error, read_fd, extrabuf_size}
use easy_event.Buffer.Contents
use easy_event.Buffer.Contents.{contents, count-le}
use easy_event.Buffer.Transfer.{Accepts, ReadPost, read_fd-ReadPost}
use easy_event.TcpConnection.{
  TcpConnection, Os, Callbacks, call, message_at, handle_read, handle_close,
}

-- What `handleRead` does with an answer of read(2): bytes go behind the content of the input buffer
-- and the message callback is called; no byte is the end, and the connection is closed; an error stops
-- the program.
abbrev pub Handles :
    {T : Type 0} → Callbacks T → T → ℕ → TcpConnection → ReadOutcome → Result TcpConnection → Type 0
Handles cb t current c (got []) result =
    (b : Buffer) × Contents.IsValid b
    × (contents b ≡ contents c.input_buffer)
    × (result ≡ handle_close cb current (record c { input_buffer = b }))
Handles cb t current c (got (x ∷ xs)) result =
    (b : Buffer) × Contents.IsValid b
    × (contents b ≡ contents c.input_buffer ++ x ∷ xs)
    × (result ≡ call (message_at cb t) (record c { input_buffer = b }))
Handles cb t current c (read_error errno) result = result ≡ fault aborted

handle_read-cases :
    {T : Type 0} (os : Os) (cb : Callbacks T) (t : T) (current : ℕ) (c : TcpConnection)
    (o : ReadOutcome)
    → Contents.IsValid c.input_buffer
    → Accepts o c.input_buffer
    → ReadPost o c.input_buffer (read_fd os.read c.input_buffer)
    → Handles cb t current c o (handle_read os cb t current c)
unfolding handle_read
handle_read-cases os cb t current c (got []) v room (r, did, number, _, v', now) =
    (r.after, v', now ∙ append-nil (contents c.input_buffer), rw (did, number))
handle_read-cases os cb t current c (got (x ∷ xs)) v room (r, did, number, _, v', now) = (
  r.after,
  v',
  now,
  rw (
    did,
    number,
    lt→ltb 0 (length (x ∷ xs)) (omega arith),
    lt→ltb (length (x ∷ xs)) 9223372036854775808 (omega (arith, room.0)),
  ),
)
handle_read-cases os cb t current c (read_error errno) v room did = rw did

-- `handleRead` with a well-formed input buffer that takes what read(2) gave, whatever that was: it does
-- what `Handles` says. Bytes are put behind the content, and the message callback is called with a
-- well-formed buffer; the end of the stream closes the connection, and the content stays; an error
-- stops the program.
pub handle_read-Handles :
    {T : Type 0} (os : Os) (cb : Callbacks T) (t : T) (current : ℕ) (c : TcpConnection)
    → Contents.IsValid c.input_buffer
    → Accepts (os.read extrabuf_size) c.input_buffer
    → Handles cb t current c (os.read extrabuf_size) (handle_read os cb t current c)
handle_read-Handles os cb t current c v room =
    handle_read-cases os cb t current c (os.read extrabuf_size) v room
      (read_fd-ReadPost os.read c.input_buffer v room)
