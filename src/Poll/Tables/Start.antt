-- ===== src/Poll/Tables/Start.antt =====
-- `Initialize` asks for too little memory; with enough, the tables start within the invariant.
use linux_programs.Common.{
  ℕ, zero, suc, ◌+◌, ◌*◌, ◌≤◌, ◌≡◌, refl, ap, ◌∙◌, arith, Bool, true, none, some, leb,
  if◌then◌else◌, replicate, total-replicate,
}
use linux_programs.Poll.{Connection, blank}
use linux_programs.Poll.Tables.{
  Server, client, ready, undefined, watched_bytes, initialize, max_connections, max_service,
}
use linux_programs.Poll.Tables.Valid.{
  in_use, on_socket, IsValid, blank_unused, blank_idle, blank_socket,
}
use linux_programs.Poll.Tables.Count.{is_at, total_from}

-- Where `sizeof(struct pollfd)` is at least 2 and the block for `watchedfds` has the size that was asked
-- for, `Initialize` writes behind the block: the size is that of 10 entries and 3 bytes, and 13
-- entries are written.
pub initialize-undefined :
    (sizeof_pollfd : ℕ) (clients_ok : Bool)
    → 2 ≤ sizeof_pollfd
    → initialize sizeof_pollfd (some (watched_bytes sizeof_pollfd)) clients_ok ≡ undefined
unfolding initialize watched_bytes
initialize-undefined size ok h = ground arith

pub every_blank : (n i : ℕ) → client (replicate n blank) i ≡ blank
every_blank zero i = refl
every_blank (suc n) zero = refl
every_blank (suc n) (suc i) = every_blank n i

-- The tables as `Initialize` leaves them.
abbrev pub empty : Server
empty = record { watched = replicate 13 none; clients = replicate 10 blank; active = 0 }

pub empty-IsValid : IsValid empty
empty-IsValid =
    let none' : in_use blank ≡ 0 = ap (λ (b : Bool). if b then 1 else 0) blank_unused in
    let off : (x : ℕ) → on_socket x blank ≡ 0 =
      λ x. ap (λ (b : Bool). if b then is_at x blank.socket else 0) blank_unused in
    record {
      places = refl;
      clients = refl;
      used = omega (arith, total-replicate in_use 10 0 blank none');
      watched = unfold total_from in refl;
      sockets =
          λ x. unfold total_from in omega (arith, total-replicate (on_socket x) 10 0 blank (off x));
      connected = λ i e. cc (e, ap (λ (c : Connection). c.in_use) (every_blank 10 i), blank_unused);
      closed = λ i e. ap (λ (c : Connection). c.socket) (every_blank 10 i) ∙ blank_socket;
      idle = λ i h.
          absurd
            (omega (arith, h, ap (λ (c : Connection). c.idle_time) (every_blank 10 i), blank_idle));
      bound = omega arith;
    }

-- When the block has room for 13 entries all the same, and `pClients` is allocated, the tables that
-- `Initialize` leaves satisfy the invariant.
pub initialize-IsValid :
    (sizeof_pollfd usable : ℕ)
    → sizeof_pollfd * 13 ≤ usable
    → (s : Server) × (initialize sizeof_pollfd (some usable) true ≡ ready s) × IsValid s
unfolding initialize
initialize-IsValid size usable h =
    let fits : leb (size * (max_connections + max_service)) usable ≡ true = ground arith in
    (
      record { watched = replicate 13 none; clients = replicate 10 blank; active = 0 },
      rw fits,
      empty-IsValid,
    )
