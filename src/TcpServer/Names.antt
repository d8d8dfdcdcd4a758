-- ===== src/TcpServer/Names.antt =====
-- net/TcpServer.cpp: the names of connections, and the map that is keyed by them.
use easy_event.Base.{
  ◌||◌, Ensures, Ensures-assert, Ensures-result, Bool, ℕ, ◌+◌, ◌<◌, ◌≡◌, refl, sym, ap, ◌∙◌, true,
  false, List, [], ◌∷◌, ◌++◌, ok, arith, eq→==, Bool-cases, inl, inr, false≢true, some, ◌≤◌, lt→ltb,
  ok-injective,
}
use easy_event.CapsuledAddr.{SockaddrIn}
use easy_event.Socket.{SocketCalls, get_local_addr}
use easy_event.EventLoopThreadPool.{EventLoopThreadPool}
use easy_event.EventLoopThreadPool.Turns.{get_next_loop-base, Serves, get_next_loop-Serves}
use easy_event.TcpServer.{
  TcpServer, Connection, int_max, same_name, erase, insert, holds_name, new_connection,
  remove_connection_in_loop,
}

pub same_name_refl : (xs : List ℕ) → same_name xs xs ≡ true
unfolding same_name
same_name_refl [] = refl
same_name_refl (x ∷ xs) = rw (eq→== x x refl) (same_name_refl xs)

pub same_name→eq : (xs ys : List ℕ) → same_name xs ys ≡ true → xs ≡ ys
unfolding same_name
same_name→eq [] [] h = refl
same_name→eq [] (y ∷ ys) h = absurd (cc)
same_name→eq (x ∷ xs) [] h = absurd (cc)
same_name→eq (x ∷ xs) (y ∷ ys) h = ground (arith, same_name→eq xs ys)

pub append-cancel : (xs ys zs : List ℕ) → xs ++ ys ≡ xs ++ zs → ys ≡ zs
append-cancel [] ys zs h = h
append-cancel (x ∷ xs) ys zs h = append-cancel xs ys zs (cc)

-- What is not in the map is not taken out of it.
erase-absent :
    (name : List ℕ) (cs : List Connection) → holds_name name cs ≡ false → erase name cs ≡ cs
unfolding erase holds_name
erase-absent name [] h = refl
erase-absent name (c ∷ cs) h = elim (Bool-cases (same_name c.conn_name name)) [
  | inl same ↦ absurd (false≢true (sym h ∙ rw same))
  | inr other ↦ rw other (ap (λ ds. c ∷ ds) (erase-absent name cs (rw other at h)))
]

-- What "%d" prints tells numbers apart that an `int` can have.
abbrev pub PrintsInts : (ℕ → List ℕ) → Type 0
PrintsInts print = (i j : ℕ) → i ≤ int_max → j ≤ int_max → print i ≡ print j → i ≡ j

module _ (print : ℕ → List ℕ) (server : List ℕ) where
  -- The connections are named after the server and a number below `bound`.
  abbrev pub Named : ℕ → List Connection → Type 0
  Named bound [] = Unit {0}
  Named bound (c ∷ cs) =
      ((i : ℕ) × (i < bound) × (c.conn_name ≡ server ++ print i)) × Named bound cs

  -- A number that is not used gives a name that is not in the map.
  Named-fresh :
      PrintsInts print
      → (bound : ℕ) (cs : List Connection) → bound ≤ int_max
      → Named bound cs
      → holds_name (server ++ print bound) cs ≡ false
  unfolding holds_name
  Named-fresh once bound [] small h = refl
  Named-fresh once bound (c ∷ cs) small h =
      let (i, below, name) = h.0 in
      elim (Bool-cases (same_name c.conn_name (server ++ print bound))) [
        | inl same ↦
            let equal : i ≡ bound = once i bound (omega arith) small (
              append-cancel server (print i) (print bound)
                (sym name ∙ same_name→eq c.conn_name (server ++ print bound) same)) in
            absurd (omega arith)
        | inr other ↦ rw other (Named-fresh once bound cs small h.1)
      ]

  Named-later : (bound : ℕ) (cs : List Connection) → Named bound cs → Named (bound + 1) cs
  Named-later bound [] h = tt
  Named-later bound (c ∷ cs) h =
      let (i, below, name) = h.0 in ((i, omega arith, name), Named-later bound cs h.1)

  Named-erase :
      (bound : ℕ) (name : List ℕ) (cs : List Connection)
      → Named bound cs
      → Named bound (erase name cs)
  unfolding erase
  Named-erase bound name [] h = tt
  Named-erase bound name (c ∷ cs) h = elim (Bool-cases (same_name c.conn_name name)) [
    | inl same ↦ rw same (Named-erase bound name cs h.1)
    | inr other ↦ rw other (h.0, Named-erase bound name cs h.1)
  ]

-- Every connection of the server is named after it and a number that has been given out, and the next
-- number is one of an `int`; the pool has a loop for the next one.
abbrev pub IsNamed : (ℕ → List ℕ) → TcpServer → Type 0
IsNamed print s =
    Named print s.name s.next_conn_id s.conn_map × Serves s.thread_pool × (s.next_conn_id ≤ int_max)

-- `newConnection` puts one connection into the map, under a name that was not there, with the loop
-- that the pool gives.
pub new_connection-adds :
    (print : ℕ → List ℕ)
    → PrintsInts print
    → (calls : SocketCalls) (connfd : ℕ) (local_addr peer_addr : SockaddrIn) (s : TcpServer)
    → calls.getsockname connfd ≡ some local_addr
    → s.next_conn_id < int_max
    → IsNamed print s
    → (conn : Connection) × (s' : TcpServer) × (new_connection calls print true connfd peer_addr s
        ≡ ok (conn, s'))
      × (conn.connfd ≡ connfd)
      × (conn.peer_addr ≡ peer_addr)
      × (s.thread_pool.loops ≡ [] → conn.io_loop ≡ s.thread_pool.base_loop)
      × (holds_name conn.conn_name s.conn_map ≡ false)
      × (s'.conn_map ≡ conn ∷ s.conn_map)
      × IsNamed print s'
unfolding new_connection insert get_local_addr
new_connection-adds print once calls connfd local_addr peer_addr s address below
      (named, serves, within) =
    let name = s.name ++ print s.next_conn_id in
    let (loop, pool, did, serves') = get_next_loop-Serves s.thread_pool serves in
    let conn : Connection = record {
      conn_name = name;
      io_loop = loop;
      connfd = connfd;
      local_addr = local_addr;
      peer_addr = peer_addr;
    } in
    let absent : holds_name name s.conn_map ≡ false =
      Named-fresh print s.name once s.next_conn_id s.conn_map within named in
    let later : Named print s.name (s.next_conn_id + 1) (erase name s.conn_map) =
      Named-erase print s.name (s.next_conn_id + 1) name s.conn_map
        (Named-later print s.name s.next_conn_id s.conn_map named) in
    (
      conn,
      record s {
        thread_pool = pool;
        next_conn_id = s.next_conn_id + 1;
        conn_map = insert conn s.conn_map;
      },
      rw (lt→ltb s.next_conn_id int_max below, address, did),
      refl,
      refl,
      λ none_own.
          ap (λ (r : ℕ × EventLoopThreadPool). r.0)
            (ok-injective (loop, pool) (s.thread_pool.base_loop, s.thread_pool)
              (sym did ∙ get_next_loop-base s.thread_pool none_own)),
      absent,
      ap (λ cs. conn ∷ cs) (erase-absent name s.conn_map absent),
      (((s.next_conn_id, omega arith, refl), later), serves', omega arith),
    )

-- Removing a connection that the map has.
pub remove_connection_in_loop-erases :
    (in_loop : Bool) (conn : Connection) (s : TcpServer)
    → in_loop ≡ true
    → holds_name conn.conn_name s.conn_map ≡ true
    → remove_connection_in_loop in_loop conn s
      ≡ ok (conn.io_loop, record s { conn_map = erase conn.conn_name s.conn_map })
unfolding remove_connection_in_loop
remove_connection_in_loop-erases in_loop conn s here held = rw (here, held)

-- Taking one name out of the map takes no other out.
erase-others :
    (name other : List ℕ) (cs : List Connection)
    → same_name name other ≡ false
    → holds_name other (erase name cs) ≡ holds_name other cs
unfolding erase holds_name
erase-others name other [] ne = refl
erase-others name other (c ∷ cs) ne = elim (Bool-cases (same_name c.conn_name name)) [
  | inl same ↦
      let its : same_name c.conn_name other ≡ false =
        ap (λ n. same_name n other) (same_name→eq c.conn_name name same) ∙ ne in
      rw (same, its) (erase-others name other cs ne)
  | inr differs ↦
      rw differs (ap (λ b. same_name c.conn_name other || b) (erase-others name other cs ne))
]

pub remove_connection_in_loop-others :
    (in_loop : Bool) (conn : Connection) (s : TcpServer)
    → Ensures
        (λ (r : ℕ × TcpServer).
          (other : List ℕ)
          → same_name conn.conn_name other ≡ false
          → holds_name other r.1.conn_map ≡ holds_name other s.conn_map)
        (remove_connection_in_loop in_loop conn s)
unfolding remove_connection_in_loop
remove_connection_in_loop-others in_loop conn s = Ensures-assert in_loop _ (
    Ensures-assert (holds_name conn.conn_name s.conn_map) _ (
      Ensures-result (conn.io_loop, record s { conn_map = erase conn.conn_name s.conn_map })
        λ other ne. erase-others conn.conn_name other s.conn_map ne))

pub holds_name-erase :
    (name : List ℕ) (cs : List Connection) → holds_name name (erase name cs) ≡ false
unfolding erase holds_name
holds_name-erase name [] = refl
holds_name-erase name (c ∷ cs) = elim (Bool-cases (same_name c.conn_name name)) [
  | inl same ↦ rw same (holds_name-erase name cs)
  | inr differs ↦ rw (differs, differs) (holds_name-erase name cs)
]

-- A new connection is found under its name, and taking it out leaves the map as it was.
pub erase-new :
    (conn : Connection) (cs : List Connection)
    → holds_name conn.conn_name cs ≡ false
    → (holds_name conn.conn_name (conn ∷ cs) ≡ true) × (erase conn.conn_name (conn ∷ cs) ≡ cs)
unfolding holds_name erase
erase-new conn cs absent =
    rw (same_name_refl conn.conn_name) (refl, erase-absent conn.conn_name cs absent)
