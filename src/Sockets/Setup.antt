-- ===== src/Sockets/Setup.antt =====
-- sockapi/libsrc/etcp.c: `set_address`, and `tcp_client`, `tcp_server`, `udp_client` and `udp_server`,
-- which end the process when a call fails.
-- What the resolver, `strtol` and the kernel return is an argument.
use linux_programs.Common.{
  ℕ, ◌+◌, ◌*◌, ◌%◌, ◌/◌, ◌^◌, ◌≡◌, ap, arith, Bool, Option, none, some, if◌then◌else◌,
}
use linux_programs.Common.Int.{ℤ, pos}
use linux_programs.Sockets.{to_unsigned}

-- The error that ends the process, or a result.
pub data Setup (A : Type 0) : Type 0 where
  unknown_host unknown_service socket_failed connect_failed setsockopt_failed bind_failed
        listen_failed :
      Setup A
  made : A → Setup A

-- `sin_addr` and `sin_port`, both in the order of the network.
pub record Sockaddr : Type 0 where
  pub sin_addr : ℕ
  pub sin_port : ℕ

-- `host` is what `inet_aton` gives for `hname`, `none` when it fails, and `resolved` what
-- `gethostbyname` gives. `number` is what `strtol` gives when it has read all of `sname`, and `service`
-- the `s_port` that `getservbyname` gives.
pub record Lookup : Type 0 where
  pub hname_given : Bool
  pub host : Option ℕ
  pub resolved : Option ℕ
  pub number : Option ℤ
  pub service : Option ℕ

-- `htons` on a machine whose lowest byte comes first.
abbrev pub htons : ℕ → ℕ
htons n = n % 2 ^ 8 * 2 ^ 8 + n / 2 ^ 8 % 2 ^ 8

-- The number is cut to a `short`, which `htons` takes as 16 bits without a sign.
abbrev pub port_of : Lookup → Setup ℕ
port_of l = elim l.number [
  | some n ↦ made (htons (to_unsigned 16 n))
  | none ↦ elim l.service [ none ↦ unknown_service | some s_port ↦ made s_port ]
]

abbrev pub address_of : Lookup → Setup ℕ
address_of l =
    if l.hname_given
    then (elim l.host [
      | some addr ↦ made addr
      | none ↦ elim l.resolved [ none ↦ unknown_host | some addr ↦ made addr ]
    ])
    else made 0

infixl 5 ◌then◌
abbrev pub ◌then◌ : {A B : Type 0} → Setup A → (A → Setup B) → Setup B
unknown_host then f = unknown_host
unknown_service then f = unknown_service
socket_failed then f = socket_failed
connect_failed then f = connect_failed
setsockopt_failed then f = setsockopt_failed
bind_failed then f = bind_failed
listen_failed then f = listen_failed
made a then f = f a

pub set_address : Lookup → Setup Sockaddr
set_address l = address_of l then λ addr.
    port_of l then λ port. made (record { sin_addr = addr; sin_port = port })

-- A call that returns 0, or the error.
abbrev check : Bool → Setup Unit → Setup Unit
check ok err = if ok then made tt else err

-- A descriptor, or the error.
abbrev open_socket : Option ℕ → Setup ℕ
open_socket none = socket_failed
open_socket (some s) = made s

-- The descriptor, and the address that it is connected to.
pub tcp_client :
    Lookup → (socket : Option ℕ) → (connect_ok : Sockaddr → Bool) → Setup (ℕ × Sockaddr)
unfolding set_address
tcp_client l socket connect_ok = set_address l then λ peer.
    open_socket socket then λ s. check (connect_ok peer) connect_failed then λ _. made (s, peer)

pub tcp_server :
    Lookup
    → (socket : Option ℕ) → (setsockopt_ok : Bool) → (bind_ok : Sockaddr → Bool)
    → (listen_ok : Bool) → Setup (ℕ × Sockaddr)
unfolding set_address
tcp_server l socket setsockopt_ok bind_ok listen_ok = set_address l then λ addr.
    open_socket socket then λ s. check setsockopt_ok setsockopt_failed then λ _.
    check (bind_ok addr) bind_failed then λ _.
    check listen_ok listen_failed then λ _. made (s, addr)

-- The address goes into `sap`.
pub udp_client : Lookup → (socket : Option ℕ) → Setup (ℕ × Sockaddr)
unfolding set_address
udp_client l socket = set_address l then λ sap. open_socket socket then λ s. made (s, sap)

pub udp_server : Lookup → (socket : Option ℕ) → (bind_ok : Sockaddr → Bool) → Setup (ℕ × Sockaddr)
unfolding set_address
udp_server l socket bind_ok = set_address l then λ addr.
    open_socket socket then λ s. check (bind_ok addr) bind_failed then λ _. made (s, addr)

-- A number is not checked against the range of a port: one that is too large by a multiple of 65536 gives
-- the same address as the port that is left of it.
pub set_address-wraps :
    (l : Lookup) (port k : ℕ)
    → set_address (record l { number = some (pos (port + k * 2 ^ 16)) })
      ≡ set_address (record l { number = some (pos port) })
unfolding set_address
set_address-wraps l port k =
    let same : (port + k * 2 ^ 16) % 2 ^ 16 ≡ port % 2 ^ 16 = omega arith in
    ap (λ n. address_of l then λ addr. made (record { sin_addr = addr; sin_port = htons n })) same
