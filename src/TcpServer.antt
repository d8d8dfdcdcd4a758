-- ===== src/TcpServer.antt =====
-- net/TcpServer.h and net/TcpServer.cpp: a server gives every new connection a name and a loop of its
-- pool, and keeps the connections by their names.
pub mod Threads
pub mod Names
pub mod Listed
pub mod Start
mod Tests
mod StartTests
use easy_event.Base.{
  ℕ, ◌+◌, Bool, true, false, not, ◌&&◌, ◌||◌, List, [], ◌∷◌, ◌++◌, Option, none, some, ◌==◌,
  if◌then◌else◌, ℤ, is_negative, Result, ok, ◌>>=◌, ◌>>◌, assert, ltb, require,
}
use easy_event.CapsuledAddr.{SockaddrIn}
use easy_event.Socket.{SocketCalls, get_local_addr}
use easy_event.EventLoopThreadPool
use easy_event.EventLoopThreadPool.{new_pool, get_next_loop}

-- What the server makes a connection with.
pub record Connection : Type 0 where
  pub conn_name : List ℕ
  pub io_loop : ℕ
  pub connfd : ℕ
  pub local_addr : SockaddrIn
  pub peer_addr : SockaddrIn

-- A string is the list of its characters; `listenning` is the acceptor's.
pub record TcpServer : Type 0 where
  pub loop : ℕ
  pub name : List ℕ
  pub listenning : Bool
  pub thread_pool : EventLoopThreadPool.EventLoopThreadPool
  pub started : Bool
  pub next_conn_id : ℕ
  pub conn_map : List Connection

-- The constructor, at an address that prints as `name`.
pub new_server : ℕ → List ℕ → TcpServer
new_server loop name = record {
  loop = loop;
  name = name;
  listenning = false;
  thread_pool = new_pool loop;
  started = false;
  next_conn_id = 1;
  conn_map = [];
}

pub set_thread_num : ℤ → TcpServer → Result TcpServer
set_thread_num num s = do
  assert (not (is_negative num))
  ok (record s { thread_pool = EventLoopThreadPool.set_thread_num num s.thread_pool })

unfoldable pub same_name : List ℕ → List ℕ → Bool
same_name [] [] = true
same_name [] (y ∷ ys) = false
same_name (x ∷ xs) [] = false
same_name (x ∷ xs) (y ∷ ys) = x == y && same_name xs ys

-- `_connMap.erase(name)`, and `_connMap[connName] = conn`.
unfoldable pub erase : List ℕ → List Connection → List Connection
erase name [] = []
erase name (c ∷ cs) =
    let rest = erase name cs in if same_name c.conn_name name then rest else c ∷ rest

unfoldable pub insert : Connection → List Connection → List Connection
insert c cs = c ∷ erase c.conn_name cs

-- `_nextConnId` is an `int`, which `++` may not take past this.
abbrev pub int_max : ℕ
int_max = 2147483647

-- Up to the entry in the map, and the entry. `print` is `snprintf` with "#%d".
unfoldable pub new_connection :
    SocketCalls → (ℕ → List ℕ) → Bool → ℕ → SockaddrIn → TcpServer → Result (Connection × TcpServer)
new_connection calls print in_loop connfd peer_addr s = do
  assert in_loop
  require (ltb s.next_conn_id int_max)
  local_addr ← get_local_addr calls connfd
  (io_loop, pool) ← get_next_loop in_loop s.thread_pool
  let conn : Connection = record {
    conn_name = s.name ++ print s.next_conn_id;
    io_loop = io_loop;
    connfd = connfd;
    local_addr = local_addr;
    peer_addr = peer_addr;
  }
  ok (
    conn,
    record s {
      thread_pool = pool;
      next_conn_id = s.next_conn_id + 1;
      conn_map = insert conn s.conn_map;
    },
  )

unfoldable pub holds_name : List ℕ → List Connection → Bool
holds_name name [] = false
holds_name name (c ∷ cs) = same_name c.conn_name name || holds_name name cs

-- With the loop on which `connectDestroyed` of the connection is queued then.
pub remove_connection_in_loop : Bool → Connection → TcpServer → Result (ℕ × TcpServer)
remove_connection_in_loop in_loop conn s = do
  assert in_loop
  assert (holds_name conn.conn_name s.conn_map)
  ok (conn.io_loop, record s { conn_map = erase conn.conn_name s.conn_map })
