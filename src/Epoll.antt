-- ===== src/Epoll.antt =====
-- IOModels/epoll/epollTcpServer/src/op_epoll.c: the table of clients of the epoll server, and what
-- its reads and writes do to the table. `none` stands for an access outside the array.
pub mod Delete
pub mod Serve
mod Tests
use linux_programs.Common.{
  ℕ, zero, suc, ◌+◌, ◌-◌, Option, none, some, List, [], ◌==◌, ltb, if◌then◌else◌, get_or, set,
}
use linux_programs.Common.Int.{ℤ, pos, negsuc}

abbrev pub max_connect : ℕ
max_connect = 256

-- `clientmember`: the descriptor and the bytes of `ip`.
pub record Member : Type 0 where
  pub fd : ℕ
  pub ip : List ℕ

-- What a global array holds before it is written.
abbrev pub no_member : Member
no_member = record { fd = 0; ip = [] }

-- `clilist_t`; `clilist` has `max_connect` places.
pub record CliList : Type 0 where
  pub clilist : List Member
  pub tailindex : ℤ

pub add_clilist : CliList → Member → Option CliList
add_clilist l cli = elim l.tailindex [
  | negsuc n ↦ none
  | pos t ↦
      if ltb t max_connect
      then some (record { clilist = set l.clilist t cli; tailindex = pos (t + 1) })
      else none
]

-- The inner loop of `del_clilist`, with `left` rounds to go.
pub shift_loop : (left j : ℕ) → List Member → List Member
shift_loop zero j xs = xs
shift_loop (suc left) j xs = shift_loop left (j + 1) (set xs j (get_or xs (j + 1) no_member))

-- The outer loop.
pub del_loop : (left i tail fd : ℕ) → List Member → List Member
unfolding shift_loop
del_loop zero i tail fd xs = xs
del_loop (suc left) i tail fd xs =
    del_loop left (i + 1) tail fd
      (if (get_or xs i no_member).fd == fd then shift_loop (tail - 1 - i) i xs else xs)

-- `tailindex--`
abbrev decrement : ℤ → ℤ
decrement (pos zero) = negsuc 0
decrement (pos (suc n)) = pos n
decrement (negsuc n) = negsuc (suc n)

-- Only `cli.fd` is read. The loops stay inside the array while `tailindex` is `max_connect` at most.
pub del_clilist : CliList → (fd : ℕ) → CliList
unfolding del_loop
del_clilist l fd = record {
  clilist = elim l.tailindex [ negsuc n ↦ l.clilist | pos t ↦ del_loop t 0 t fd l.clilist ];
  tailindex = decrement l.tailindex;
}

-- What `read` or `write` returns: a number of bytes, or -1 with EAGAIN or another error.
pub data Io : Type 0 where
  transferred : ℕ → Io
  again failed : Io

-- The result of `op_read`, the table, and the descriptor that is taken out of the epoll set.
pub op_read : CliList → (fd : ℕ) → Io → ℤ × CliList × Option ℕ
unfolding del_clilist
op_read l fd again = (negsuc 0, l, none)
op_read l fd (transferred zero) = (negsuc 1, del_clilist l fd, some fd)
op_read l fd failed = (negsuc 2, del_clilist l fd, some fd)
op_read l fd (transferred (suc n)) = (pos (suc n), l, none)

pub op_write : CliList → (fd : ℕ) → Io → ℤ × CliList × Option ℕ
unfolding del_clilist
op_write l fd again = (negsuc 0, l, none)
op_write l fd (transferred zero) = (negsuc 1, del_clilist l fd, some fd)
op_write l fd failed = (negsuc 2, del_clilist l fd, some fd)
op_write l fd (transferred (suc n)) = (pos (suc n), l, none)
