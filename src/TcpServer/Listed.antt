-- ===== src/TcpServer/Listed.antt =====
-- net/TcpServer.cpp: the entry that the map of connections has under a name.
use easy_event.Base.{
  ℕ, ◌<◌, ◌≡◌, refl, sym, ap, ◌∙◌, Bool, false, Bool-cases, inl, inr, List, [], ◌∷◌, ◌++◌, Option,
  none, some, if◌then◌else◌, arith, ltb, lt→ltb, le_or_lt, le→ltb_false, require, Result, ◌>>=◌,
  Ensures, Ensures-after, Ensures-assert, Ensures-result, Ensures-fault, undefined,
}
use easy_event.CapsuledAddr.{SockaddrIn}
use easy_event.Socket.{SocketCalls, get_local_addr}
use easy_event.EventLoopThreadPool.{get_next_loop}
use easy_event.TcpServer.{
  TcpServer, Connection, int_max, same_name, erase, insert, new_connection,
  remove_connection_in_loop,
}
use easy_event.TcpServer.Names.{PrintsInts, same_name_refl, same_name→eq, append-cancel}

-- `_connMap.find(name)`, which the code does not use.
unfoldable pub found : List ℕ → List Connection → Option Connection
found name [] = none
found name (c ∷ cs) =
    let rest = found name cs in if same_name c.conn_name name then some c else rest

found-erase :
    (name other : List ℕ) (cs : List Connection)
    → same_name name other ≡ false
    → found other (erase name cs) ≡ found other cs
unfolding erase found
found-erase name other [] ne = refl
found-erase name other (c ∷ cs) ne = elim (Bool-cases (same_name c.conn_name name)) [
  | inl same ↦
      let its : same_name c.conn_name other ≡ false =
        ap (λ n. same_name n other) (same_name→eq c.conn_name name same) ∙ ne in
      rw (same, its) (found-erase name other cs ne)
  | inr differs ↦
      rw differs
        (ap (λ b. if same_name c.conn_name other then some c else b) (found-erase name other cs ne))
]

found-insert :
    (conn : Connection) (other : List ℕ) (cs : List Connection)
    → same_name conn.conn_name other ≡ false
    → found other (insert conn cs) ≡ found other cs
unfolding insert found
found-insert conn other cs ne = rw ne (found-erase conn.conn_name other cs ne)

-- The server has changed no more than the entry under that name.
pub record KeepsEntries (name : List ℕ) (s s' : TcpServer) : Type 0 where
  pub entry :
      (other : List ℕ)
      → same_name name other ≡ false
      → found other s'.conn_map ≡ found other s.conn_map
  pub its_name : s'.name ≡ s.name
  pub its_next : s'.next_conn_id ≡ s.next_conn_id

pub KeepsEntries-refl : (name : List ℕ) (s : TcpServer) → KeepsEntries name s s
KeepsEntries-refl name s = record { entry = λ other ne. refl; its_name = refl; its_next = refl }

pub KeepsEntries-trans :
    (name : List ℕ) (s u v : TcpServer)
    → KeepsEntries name s u
    → KeepsEntries name u v
    → KeepsEntries name s v
KeepsEntries-trans name s u v a b = record {
  entry = λ other ne. b.entry other ne ∙ a.entry other ne;
  its_name = b.its_name ∙ a.its_name;
  its_next = b.its_next ∙ a.its_next;
}

pub remove_connection_in_loop-KeepsEntries :
    (in_loop : Bool) (conn : Connection) (s : TcpServer)
    → Ensures
        (λ (r : ℕ × TcpServer). KeepsEntries conn.conn_name s r.1)
        (remove_connection_in_loop in_loop conn s)
unfolding remove_connection_in_loop
remove_connection_in_loop-KeepsEntries in_loop conn s = Ensures-assert in_loop _ (
    Ensures-assert _ _ (
      Ensures-result (conn.io_loop, record s { conn_map = erase conn.conn_name s.conn_map })
        (record {
          entry = λ other ne. found-erase conn.conn_name other s.conn_map ne;
          its_name = refl;
          its_next = refl;
        })))

-- The map's entry under the connection's name is the connection itself, and its number has been given out.
pub record IsListed (print : ℕ → List ℕ) (conn : Connection) (s : TcpServer) : Type 0 where
  pub entry : found conn.conn_name s.conn_map ≡ some conn
  pub number : ℕ
  pub given_out : number < s.next_conn_id
  pub its_name : conn.conn_name ≡ s.name ++ print number

pub KeepsEntries-IsListed :
    (print : ℕ → List ℕ) (name : List ℕ) (conn : Connection) (s s' : TcpServer)
    → same_name name conn.conn_name ≡ false
    → KeepsEntries name s s'
    → IsListed print conn s
    → IsListed print conn s'
KeepsEntries-IsListed print name conn s s' ne k h = record {
  entry = k.entry conn.conn_name ne ∙ h.entry;
  number = h.number;
  given_out = omega (arith, h.given_out, k.its_next);
  its_name = h.its_name ∙ ap (λ n. n ++ print h.number) (sym k.its_name);
}

-- Past the largest `int` no connection is made.
new_connection-small :
    {P : Connection × TcpServer → Type 0} (next : ℕ) (k : Result (Connection × TcpServer))
    → (next < int_max → Ensures P k)
    → Ensures P (require (ltb next int_max) >>= λ u. k)
new_connection-small next k h = elim (le_or_lt int_max next) [
  | inl beyond ↦ rw (le→ltb_false next int_max beyond) (Ensures-fault undefined)
  | inr below ↦ rw (lt→ltb next int_max below) (h below)
]

-- A connection that `newConnection` makes is listed, and those that were listed stay so.
pub new_connection-IsListed :
    (calls : SocketCalls) (print : ℕ → List ℕ) (in_loop : Bool) (connfd : ℕ)
    (peer_addr : SockaddrIn) (s : TcpServer)
    → Ensures
        (λ (r : Connection × TcpServer). IsListed print r.0 r.1)
        (new_connection calls print in_loop connfd peer_addr s)
unfolding new_connection insert found
new_connection-IsListed calls print in_loop connfd peer_addr s = Ensures-assert in_loop _ (
    new_connection-small s.next_conn_id _ λ below.
      Ensures-after (get_local_addr calls connfd) _ λ local_addr.
        Ensures-after (get_next_loop in_loop s.thread_pool) _ λ r. Ensures-result _ (record {
          entry = rw (same_name_refl (s.name ++ print s.next_conn_id)) refl;
          number = s.next_conn_id;
          given_out = omega arith;
          its_name = refl;
        }))

pub new_connection-keeps_IsListed :
    (calls : SocketCalls) (print : ℕ → List ℕ) (in_loop : Bool) (connfd : ℕ)
    (peer_addr : SockaddrIn) (conn : Connection) (s : TcpServer)
    → PrintsInts print
    → IsListed print conn s
    → Ensures
        (λ (r : Connection × TcpServer). IsListed print conn r.1)
        (new_connection calls print in_loop connfd peer_addr s)
unfolding new_connection
new_connection-keeps_IsListed calls print in_loop connfd peer_addr conn s once h =
    Ensures-assert in_loop _ (
      new_connection-small s.next_conn_id _ λ below.
        Ensures-after (get_local_addr calls connfd) _ λ local_addr.
          Ensures-after (get_next_loop in_loop s.thread_pool) _ λ r. Ensures-result _ (record {
            entry = found-insert _ conn.conn_name s.conn_map (fresh below) ∙ h.entry;
            number = h.number;
            given_out = omega (arith, h.given_out);
            its_name = h.its_name;
          }))
  where
    fresh :
        s.next_conn_id < int_max → same_name (s.name ++ print s.next_conn_id) conn.conn_name ≡ false
    fresh below = elim (Bool-cases (same_name (s.name ++ print s.next_conn_id) conn.conn_name)) [
      | inl same ↦
          let equal : s.next_conn_id ≡ h.number =
            once s.next_conn_id h.number (omega arith) (omega (arith, h.given_out)) (
              append-cancel s.name (print s.next_conn_id) (print h.number)
                (same_name→eq (s.name ++ print s.next_conn_id) conn.conn_name same ∙ h.its_name)) in
          absurd (omega (arith, h.given_out))
      | inr differs ↦ differs
    ]
