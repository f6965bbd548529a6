-- ===== src/Sockets/Connect.antt =====
-- sockapi/libsrc/etcp.c: `inetConnect` and `inetPassiveSocket`, which try the addresses that
-- `getaddrinfo` gave one after the other.
-- What the kernel returns for an address is an argument. Each function also returns the calls that
-- open and close descriptors, in order.
pub mod Leaks
use linux_programs.Common.{
  ℕ, ◌≢◌, Bool, true, false, not, ◌&&◌, Option, none, some, List, [], ◌∷◌, if◌then◌else◌,
}

-- What `socket`, `connect`, `setsockopt`, `bind` and `listen` do for one address: the descriptor
-- or `none` for -1, and whether each of the others succeeds. `addrlen` is `ai_addrlen`.
pub record Address : Type 0 where
  pub socket : Option ℕ
  pub connect_ok : Bool
  pub setsockopt_ok : Bool
  pub bind_ok : Bool
  pub listen_ok : Bool
  pub addrlen : ℕ

pub data Call : Type 0 where
  opened closed : ℕ → Call

-- The loop of `inetConnect`; `none` is -1.
pub connect_loop : List Address → Option ℕ × List Call
connect_loop [] = (none, [])
connect_loop (a ∷ rest) =
    let (ret, calls) = connect_loop rest in
    elim a.socket [
      | none ↦ (ret, calls)
      | some sfd ↦ elim a.connect_ok [
        | true ↦ (some sfd, opened sfd ∷ [])
        | false ↦ (ret, opened sfd ∷ closed sfd ∷ calls)
      ]
    ]

-- `addresses` is the list of `getaddrinfo`, `none` when it fails. `enosys` tells that `errno` is
-- set to ENOSYS.
pub inet_connect : (addresses : Option (List Address)) → Option ℕ × (enosys : Bool) × List Call
unfolding connect_loop
inet_connect none = (none, true, [])
inet_connect (some addresses) = let (ret, calls) = connect_loop addresses in (ret, false, calls)

-- What the loop of `inetPassiveSocket` ends with: its early return, no address left, or a break
-- with a bound socket at an address.
pub data Bound : Type 0 where
  gave_up exhausted : Bound
  bound : ℕ → Address → Bound

unfoldable pub bind_loop : (do_listen : Bool) → List Address → Bound × List Call
bind_loop do_listen [] = (exhausted, [])
bind_loop do_listen (a ∷ rest) =
    let (ret, calls) = bind_loop do_listen rest in
    elim a.socket [
      | none ↦ (ret, calls)
      | some sfd ↦ elim (do_listen && not a.setsockopt_ok) [
        | true ↦ (gave_up, opened sfd ∷ closed sfd ∷ [])
        | false ↦ elim a.bind_ok [
          | true ↦ (bound sfd a, opened sfd ∷ [])
          | false ↦ (ret, opened sfd ∷ closed sfd ∷ calls)
        ]
      ]
    ]

-- The result is the descriptor, or `none` for -1, what is stored through `addrlen`, which is not
-- NULL, and the calls.
pub inet_passive_socket :
    (addresses : Option (List Address)) → (do_listen : Bool) → Option ℕ × Option ℕ × List Call
unfolding bind_loop
inet_passive_socket none do_listen = (none, none, [])
inet_passive_socket (some addresses) do_listen =
    let (ret, calls) = bind_loop do_listen addresses in
    elim ret [
      | gave_up ↦ (none, none, calls)
      | exhausted ↦ (none, none, calls)
      | bound sfd a ↦ elim (do_listen && not a.listen_ok) [
        | true ↦ (none, none, calls)
        | false ↦ (some sfd, some a.addrlen, calls)
      ]
    ]

pub inet_listen : (addresses : Option (List Address)) → Option ℕ × Option ℕ × List Call
unfolding inet_passive_socket
inet_listen addresses = inet_passive_socket addresses true

pub inet_bind : (addresses : Option (List Address)) → Option ℕ × Option ℕ × List Call
unfolding inet_passive_socket
inet_bind addresses = inet_passive_socket addresses false
