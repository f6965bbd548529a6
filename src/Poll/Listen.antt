-- ===== src/Poll/Listen.antt =====
-- IOModels/poll/serverModel.c: `CreateListeningSocket`, and what `ServerModelMain` does before its loop.
-- What the kernel returns for an address is an argument, as in Sockets/Connect.antt.
use linux_programs.Common.{
  ℕ, ◌≡◌, refl, ◌∙◌, inl, inr, Bool, true, false, Bool-cases, Option, none, some, Option-cases,
  List, [], ◌∷◌, if◌then◌else◌, set,
}
use linux_programs.Sockets.Connect.{Address, Call, opened, closed}
use linux_programs.Sockets.Connect.Leaks.{table, with_result, table-open_close}
use linux_programs.Poll.Tables.{Started, ready, aborted, undefined, initialize}

-- The loop over the addresses. What `listen` returns is not looked at.
pub listening_loop : List Address → Option ℕ × List Call
listening_loop [] = (none, [])
listening_loop (a ∷ rest) =
    let (ret, calls) = listening_loop rest in
    elim a.socket [
      | none ↦ (ret, calls)
      | some sockfd ↦ elim a.bind_ok [
        | true ↦ (some sockfd, opened sockfd ∷ [])
        | false ↦ (ret, opened sockfd ∷ closed sockfd ∷ calls)
      ]
    ]

-- `CreateListeningSocket`: `addresses` is the list of `getaddrinfo`, `none` when it fails, and then so
-- does the `assert`. The descriptor is `none` for -1.
pub create_listening_socket : (addresses : Option (List Address)) → Option (Option ℕ × List Call)
unfolding listening_loop
create_listening_socket none = none
create_listening_socket (some addresses) = some (listening_loop addresses)

-- `ServerModelMain` up to its loop: the tables, and the listening descriptor.
pub start_server :
    (sizeof_pollfd : ℕ)
    → (usable : Option ℕ) → (clients_ok : Bool) → (addresses : Option (List Address))
    → Started × Option ℕ
unfolding create_listening_socket
start_server sizeof_pollfd usable clients_ok addresses =
    elim (initialize sizeof_pollfd usable clients_ok) [
      | aborted ↦ (aborted, none)
      | undefined ↦ (undefined, none)
      | ready s ↦ elim (create_listening_socket addresses) [
        | none ↦ (aborted, none)
        | some (none, calls) ↦ (ready s, none)
        | some (some sockfd, calls) ↦
            (ready (record s { watched = set s.watched 0 (some sockfd) }), some sockfd)
      ]
    ]

-- The socket of the first address for which there is one that can be bound to it.
unfoldable pub first_bound : List Address → Option ℕ
first_bound [] = none
first_bound (a ∷ rest) =
    let next = first_bound rest in
    elim a.socket [ none ↦ next | some fd ↦ if a.bind_ok then some fd else next ]

listening_loop-first :
    (addresses : List Address) (fds : List ℕ)
    → ((listening_loop addresses).0 ≡ first_bound addresses)
      × (table fds (listening_loop addresses).1 ≡ with_result (listening_loop addresses).0 fds)
unfolding listening_loop first_bound table
listening_loop-first [] fds = (refl, refl)
listening_loop-first (a ∷ rest) fds =
    let (first, open') = listening_loop-first rest fds in
    elim (Option-cases a.socket) [
      | inl missing ↦ rw missing (first, open')
      | inr (fd, made) ↦ elim (Bool-cases a.bind_ok) [
        | inl ok ↦ rw (made, ok) (refl, refl)
        | inr fail ↦
            rw (made, fail) (first, table-open_close fd fds (listening_loop rest).1 ∙ open')
      ]
    ]

-- `CreateListeningSocket` returns the socket of the first address to which one can be bound, also when
-- `listen` fails on it, or -1 if there is none, and has closed every other socket that it opened.
pub create_listening_socket-first :
    (addresses : List Address) (fds : List ℕ)
    → (fd : Option ℕ) × (calls : List Call) × (create_listening_socket (some addresses)
        ≡ some (fd, calls))
      × (fd ≡ first_bound addresses)
      × (table fds calls ≡ with_result fd fds)
unfolding create_listening_socket
create_listening_socket-first addresses fds =
    let (first, open') = listening_loop-first addresses fds in
    ((listening_loop addresses).0, (listening_loop addresses).1, refl, first, open')
