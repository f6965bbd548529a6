-- ===== src/Select/Round.antt =====
-- IOModels/select/serverModel.c: `CreateListeningSocket`, and a round of the loop of `ServerModelMain`.
-- `true = pClients[i].inUse` is read as a test. `maxSocket`, which is declared nowhere, is a variable whose
-- value at the start of a round is an argument, and FD_SETSIZE is one. `none` is a failed `assert`, undefined behaviour, or a loop that does
-- not end.
pub mod Watch
pub mod Starve
use linux_programs.Common.{
  ℕ, zero, suc, ◌+◌, ◌-◌, Bool, true, false, not, ◌&&◌, ◌||◌, Option, none, some, List, [], ◌∷◌,
  ltb, if◌then◌else◌, length,
}
use linux_programs.Sockets.Connect.{Address, Call}
use linux_programs.Poll.Listen.{listening_loop}
use linux_programs.Select.{Connection, Server, new_connection}
use linux_programs.Select.Send.{Sent}
use linux_programs.Select.Turn.{Received, receive_loop, transmit_pending_loop}
use linux_programs.Select.Run.{Calls, returned, aborted, undefined, spinning, server_run}

-- `CreateListeningSocket`: the loop over the addresses is that of the server with `poll`. `addresses` is
-- the list of `getaddrinfo`, `none` when it fails, and then so does the `assert`.
pub create_listening_socket : (addresses : Option (List Address)) → Option (Option ℕ × List Call)
create_listening_socket none = none
create_listening_socket (some addresses) = some (listening_loop addresses)

-- The sets of `select` with the variables that are set beside them.
pub record Sets : Type 0 where
  pub read : List ℕ
  pub write : List ℕ
  pub max_socket : ℕ
  pub max_sockfd : ℕ
  pub need_write : Bool

-- The body of the loop that fills the sets, for a connection in the set for writing. A connection whose
-- callback does not run is in both. The descriptor is compared with `maxSocket` and kept in `maxSockfd`.
pub watch_client : Connection → (fd : ℕ) → Sets → Sets
watch_client c fd sets = record sets {
  read = if not c.client_callback_running_now then fd ∷ sets.read else sets.read;
  write = fd ∷ sets.write;
  max_sockfd = if ltb sets.max_socket fd then fd else sets.max_sockfd;
  need_write = true;
}

-- `FD_SET` is undefined for -1 and from FD_SETSIZE on.
pub add_client : (fd_setsize : ℕ) → Connection → Sets → Option Sets
unfolding watch_client
add_client fd_setsize c sets =
    if c.in_use && not (c.client_callback_running_now && c.is_callback_handling_writes)
    then elim c.socket [
      | none ↦ none
      | some fd ↦ if ltb fd fd_setsize then some (watch_client c fd sets) else none
    ]
    else some sets

pub add_clients : (fd_setsize : ℕ) → List Connection → Sets → Option Sets
unfolding add_client
add_clients fd_setsize [] sets = some sets
add_clients fd_setsize (c ∷ clients) sets = elim (add_client fd_setsize c sets) [
  | none ↦ none
  | some sets' ↦ add_clients fd_setsize clients sets'
]

-- The sets before the loop.
pub listening_sets : (fd_setsize max_socket : ℕ) → (tcp_socket : Option ℕ) → Option Sets
listening_sets fd_setsize max_socket none =
    some (record {
      read = [];
      write = [];
      max_socket = max_socket;
      max_sockfd = 0;
      need_write = false;
    })
listening_sets fd_setsize max_socket (some fd) =
    if ltb fd fd_setsize
    then some (record {
      read = fd ∷ [];
      write = [];
      max_socket = if ltb max_socket fd then fd else max_socket;
      max_sockfd = 0;
      need_write = false;
    })
    else none

pub fd_sets : (fd_setsize max_socket : ℕ) → (tcp_socket : Option ℕ) → List Connection → Option Sets
unfolding add_clients listening_sets
fd_sets fd_setsize max_socket tcp_socket clients =
    elim (listening_sets fd_setsize max_socket tcp_socket) [
      | none ↦ none
      | some sets ↦ add_clients fd_setsize clients sets
    ]

-- What is outside of the file in a round: what `ServerRun` calls, the addresses, `select`, which gives the
-- tests of the two sets or fails, and the results of the other calls.
pub record Events (S : Type 0) : Type 0 where
  pub calls : ℕ → Calls
  pub addresses : Option (List Address)
  pub select : (nfds : ℕ) → (read write : List ℕ) → Option ((ℕ → Bool) × (ℕ → Bool))
  pub accepted : Option ℕ
  pub received : ℕ → Received
  pub send : S → List ℕ → Sent × S

-- `tcpSocket` when the sets are filled.
pub listening : (tcp_socket : Option ℕ) → (addresses : Option (List Address)) → Option (Option ℕ)
unfolding create_listening_socket
listening (some fd) addresses = some (some fd)
listening none addresses = elim (create_listening_socket addresses) [
  | none ↦ none
  | some (fd, calls) ↦ some fd
]

-- The new connection of a round.
pub accept_ready :
    (tcp_socket : Option ℕ) → (readable : ℕ → Bool) → (accepted : Option ℕ) → Server → Server
accept_ready none readable accepted s = s
accept_ready (some fd) readable accepted s =
    if readable fd && ltb s.active (length s.clients) then new_connection false accepted s else s

-- What follows a `select` that succeeds.
pub serve :
    {S : Type 0}
    → (fuel : ℕ) → Events S
    → (tcp_socket : Option ℕ) → (need_write : Bool) → (readable writable : ℕ → Bool) → Server
    → S
    → Option (Server × S)
unfolding accept_ready
serve fuel e tcp_socket need_write readable writable s k =
    let s' = receive_loop readable e.received (accept_ready tcp_socket readable e.accepted s) in
    if need_write then transmit_pending_loop writable e.send fuel s' k else some (s', k)

-- A round: `maxSocket`, the listening socket, the table and the state of the kernel behind it.
pub server_round :
    {S : Type 0}
    → (fd_setsize fuel : ℕ) → Events S
    → (max_socket : ℕ) → (tcp_socket : Option ℕ) → Server
    → S
    → Option (ℕ × Option ℕ × Server × S)
unfolding listening fd_sets serve
server_round fd_setsize fuel e max_socket tcp_socket s k = elim (server_run fuel e.calls s) [
  | aborted ↦ none
  | undefined ↦ none
  | spinning ↦ none
  | returned s1 ↦ elim (listening tcp_socket e.addresses) [
    | none ↦ none
    | some tcp ↦ elim (fd_sets fd_setsize max_socket tcp s1.clients) [
      | none ↦ none
      | some sets ↦ elim (e.select (sets.max_sockfd + 1) sets.read sets.write) [
        | none ↦ none
        | some (readable, writable) ↦
            elim (serve fuel e tcp sets.need_write readable writable s1 k) [
              | none ↦ none
              | some (s2, k') ↦ some (sets.max_socket, tcp, s2, k')
            ]
      ]
    ]
  ]
]
