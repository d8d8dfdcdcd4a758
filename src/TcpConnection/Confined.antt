-- ===== src/TcpConnection/Confined.antt =====
-- net/TcpConnection.cpp: what an operation of one connection leaves alone of the loop, the poller and the
-- server that it shares with others.
pub mod Handlers
pub mod Turn
use easy_event.Base.{
  ℕ, ◌≡◌, refl, subst, ap, ◌∙◌, Bool, false, List, Option, Result, ok, ◌>>=◌, Ensures, Ensures-bind,
  Ensures-assert, Ensures-if, Ensures-result, Ensures-fault,
}
use easy_event.Channel.{with_reading, with_writing, without_writing, without_all}
use easy_event.Channel.Frame.{Ensures-then}
use easy_event.Poller.{Poller, enable_reading, enable_writing, disable_writing, disable_all}
use easy_event.Poller.Uses.{
  Uses, Uses-refl, Uses-trans, change_events-Uses, loop_remove_channel-Uses,
}
use easy_event.Poller.Request.{reading-Keeps, off-Keeps}
use easy_event.TcpConnection.Sound.{writing-Keeps, not_writing-Keeps}
use easy_event.TcpServer
use easy_event.TcpServer.{TcpServer, Connection, holds_name, same_name}
use easy_event.TcpServer.Names.{remove_connection_in_loop-others}
use easy_event.EventLoop.{EventLoop, queue_in_loop}
use easy_event.EventLoop.Queue.{queue_in_loop-thread}
use easy_event.TcpConnection.{TcpConnection, Functor, Os, Callbacks, call, with_poller, message_at}

-- What the operations of a connection of that name leave as it was of a server: a relation between the
-- server before and after, which the server's own removal of the connection is in.
pub record Keeping : Type 1 where
  pub keeps : List ℕ → TcpServer → TcpServer → Type 0
  pub keeps_refl : (name : List ℕ) (s : TcpServer) → keeps name s s
  pub keeps_trans :
      (name : List ℕ) (s u v : TcpServer) → keeps name s u → keeps name u v → keeps name s v
  pub keeps_removed :
      (in_loop : Bool) (conn : Connection) (s : TcpServer)
      → Ensures
          (λ (r : ℕ × TcpServer). keeps conn.conn_name s r.1)
          (TcpServer.remove_connection_in_loop in_loop conn s)

-- The server has lost no other connection than the one of that name.
abbrev pub KeepsOthers : List ℕ → TcpServer → TcpServer → Type 0
KeepsOthers name s s' =
    (other : List ℕ)
    → same_name name other ≡ false
    → holds_name other s'.conn_map ≡ holds_name other s.conn_map

abbrev pub others_kept : Keeping
others_kept = record {
  keeps = KeepsOthers;
  keeps_refl = λ name s other ne. refl;
  keeps_trans = λ name s u v a b other ne. b other ne ∙ a other ne;
  keeps_removed = remove_connection_in_loop-others;
}

module _ (K : Keeping) where
  -- `c'` is the connection with channel `channel` and identity `identity` later on: of the poller `s`, the
  -- loop `l` and the server `v` it has changed only what is its own.
  pub record Confined (channel : ℕ) (identity : Connection) (s : Poller) (l : EventLoop Functor)
      (v : TcpServer) (c' : TcpConnection) : Type 0 where
    pub channel_ : c'.channel ≡ channel
    pub identity_ : c'.identity ≡ identity
    pub poller_ : Uses channel s c'.poller
    pub thread_ : c'.loop.thread_id ≡ l.thread_id
    pub server_ : K.keeps identity.conn_name v c'.server

  abbrev pub From : TcpConnection → TcpConnection → Type 0
  From c = Confined c.channel c.identity c.poller c.loop c.server

  pub From-refl : (c : TcpConnection) → From c c
  From-refl c = record {
    channel_ = refl;
    identity_ = refl;
    poller_ = Uses-refl c.channel c.poller;
    thread_ = refl;
    server_ = K.keeps_refl c.identity.conn_name c.server;
  }

  pub From-trans : (c d e : TcpConnection) → From c d → From d e → From c e
  From-trans c d e a b = record {
    channel_ = b.channel_ ∙ a.channel_;
    identity_ = b.identity_ ∙ a.identity_;
    poller_ =
        Uses-trans c.channel c.poller d.poller e.poller a.poller_
          (subst (λ k. Uses k d.poller e.poller) a.channel_ b.poller_);
    thread_ = b.thread_ ∙ a.thread_;
    server_ =
        K.keeps_trans c.identity.conn_name c.server d.server e.server a.server_
          (subst (λ (i : Connection). K.keeps i.conn_name d.server e.server) a.identity_ b.server_);
  }

  -- Every callback that is set changes only what is the connection's own.
  abbrev pub Confines : Option (TcpConnection → Result TcpConnection) → Type 0
  Confines o = (d : TcpConnection) → Ensures (From d) (call o d)

  pub record AreConfined {T : Type 0} (cb : Callbacks T) : Type 0 where
    pub conn : Confines cb.conn_cb
    pub msg : (t : T) → Confines (message_at cb t)
    pub complete : Confines cb.write_complete_cb
    pub close : Confines cb.close_cb

  -- The step that changes the poller, and the step that changes the loop.
  pub with_poller-From :
      (c : TcpConnection) (asked : Result Poller)
      → Ensures (Uses c.channel c.poller) asked
      → Ensures (From c) (with_poller c asked)
  with_poller-From c asked h = Ensures-bind (Uses c.channel c.poller) asked _ h λ p used.
      Ensures-result (record c { poller = p })
        (record {
          channel_ = refl;
          identity_ = refl;
          poller_ = used;
          thread_ = refl;
          server_ = K.keeps_refl c.identity.conn_name c.server;
        })

  pub queue-From :
      (os : Os) (current : ℕ) (f : Functor) (c : TcpConnection)
      → Ensures
          (From c)
          (do l ← queue_in_loop os.eventfd_write current f c.loop; ok (record c { loop = l }))
  queue-From os current f c =
      Ensures-bind (λ (l : EventLoop Functor). l.thread_id ≡ c.loop.thread_id) _ _
        (queue_in_loop-thread os.eventfd_write current f c.loop)
        λ l same.
          Ensures-result (record c { loop = l })
            (record {
              channel_ = refl;
              identity_ = refl;
              poller_ = Uses-refl c.channel c.poller;
              thread_ = same;
              server_ = K.keeps_refl c.identity.conn_name c.server;
            })

  pub then_From :
      (c : TcpConnection) (m : Result TcpConnection) (k : TcpConnection → Result TcpConnection)
      → Ensures (From c) m
      → ((d : TcpConnection) → Ensures (From d) (k d))
      → Ensures (From c) (m >>= k)
  then_From = Ensures-then From From-refl From-trans

pub reading_asked : (b : Bool) (p : ℕ) (s : Poller) → Ensures (Uses p s) (enable_reading b p s)
unfolding enable_reading
reading_asked = change_events-Uses with_reading reading-Keeps

pub writing_asked : (b : Bool) (p : ℕ) (s : Poller) → Ensures (Uses p s) (enable_writing b p s)
unfolding enable_writing
writing_asked = change_events-Uses with_writing writing-Keeps

pub not_writing_asked : (b : Bool) (p : ℕ) (s : Poller) → Ensures (Uses p s) (disable_writing b p s)
unfolding disable_writing
not_writing_asked = change_events-Uses without_writing not_writing-Keeps

pub off_asked : (b : Bool) (p : ℕ) (s : Poller) → Ensures (Uses p s) (disable_all b p s)
unfolding disable_all
off_asked = change_events-Uses without_all off-Keeps

pub ruleset from_rules = (
  Ensures-assert, Ensures-if, Ensures-fault, Ensures-result, From-refl, with_poller-From,
  queue-From, then_From, reading_asked, writing_asked, not_writing_asked, off_asked,
  loop_remove_channel-Uses,
)
