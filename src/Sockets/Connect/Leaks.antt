-- ===== src/Sockets/Connect/Leaks.antt =====
-- Which address the loops over addresses choose, and which descriptors they leave open.
use linux_programs.Common.{
  ℕ, ◌≡◌, refl, ap, ◌∙◌, ◌⊎◌, inl, inr, arith, Bool, true, false, not, ◌&&◌, Bool-cases, Option,
  none, some, Option-cases, List, [], ◌∷◌, ◌==◌, if◌then◌else◌,
}
use linux_programs.Sockets.Connect.{
  Address, Call, opened, closed, connect_loop, inet_connect, Bound, gave_up, exhausted, bound,
  bind_loop, inet_passive_socket, inet_listen, inet_bind,
}

unfoldable remove : ℕ → List ℕ → List ℕ
remove fd [] = []
remove fd (a ∷ fds) = let rest = remove fd fds in if fd == a then fds else a ∷ rest

-- The open descriptors after some calls.
unfoldable pub table : List ℕ → List Call → List ℕ
unfolding remove
table fds [] = fds
table fds (opened fd ∷ calls) = table (fd ∷ fds) calls
table fds (closed fd ∷ calls) = table (remove fd fds) calls

-- The open descriptors when nothing but the result stays open.
abbrev pub with_result : Option ℕ → List ℕ → List ℕ
with_result none fds = fds
with_result (some fd) fds = fd ∷ fds

-- The socket of the first address for which there is one that connects.
unfoldable pub first_connected : List Address → Option ℕ
first_connected [] = none
first_connected (a ∷ rest) =
    let next = first_connected rest in
    elim a.socket [ none ↦ next | some fd ↦ if a.connect_ok then some fd else next ]

pub table-open_close :
    (fd : ℕ) (fds : List ℕ) (calls : List Call)
    → table fds (opened fd ∷ closed fd ∷ calls) ≡ table fds calls
unfolding table remove
table-open_close fd fds calls = let same : (fd == fd) ≡ true = ground arith in rw same

-- `inetConnect` returns the socket of the first address that connects, or -1 if there is none, and
-- has closed every other socket that it opened.
pub inet_connect-first :
    (addresses : List Address) (fds : List ℕ)
    → ((inet_connect (some addresses)).0 ≡ first_connected addresses)
      × (table fds (inet_connect (some addresses)).2
          ≡ with_result (inet_connect (some addresses)).0 fds)
unfolding inet_connect connect_loop first_connected table
inet_connect-first [] fds = (refl, refl)
inet_connect-first (a ∷ rest) fds =
    let (first, open') = inet_connect-first rest fds in
    elim (Option-cases a.socket) [
      | inl missing ↦ rw missing (first, open')
      | inr (fd, made) ↦ elim (Bool-cases a.connect_ok) [
        | inl ok ↦ rw (made, ok) (refl, refl)
        | inr fail ↦ rw (made, fail) (first, table-open_close fd fds (connect_loop rest).1 ∙ open')
      ]
    ]

-- How the descriptors stand after the loop of `inetPassiveSocket`.
unfoldable bound_fd : Bound → Option ℕ
bound_fd gave_up = none
bound_fd exhausted = none
bound_fd (bound fd a) = some fd

bind_loop-table :
    (do_listen : Bool) (addresses : List Address) (fds : List ℕ)
    → table fds (bind_loop do_listen addresses).1
      ≡ with_result (bound_fd (bind_loop do_listen addresses).0) fds
unfolding bind_loop table bound_fd
bind_loop-table do_listen [] fds = refl
bind_loop-table do_listen (a ∷ rest) fds =
    let rec = bind_loop-table do_listen rest fds in
    elim (Option-cases a.socket) [
      | inl missing ↦ rw missing rec
      | inr (fd, made) ↦ elim (Bool-cases (do_listen && not a.setsockopt_ok)) [
        | inl stop ↦ rw (bind_loop, made, stop) (table-open_close fd fds [])
        | inr on ↦ elim (Bool-cases a.bind_ok) [
          | inl ok ↦ rw (bind_loop, made, on, ok)
          | inr fail ↦
              rw (bind_loop, made, on, fail)
                (table-open_close fd fds (bind_loop do_listen rest).1 ∙ rec)
        ]
      ]
    ]

Bound-cases :
    (b : Bound) → ((b ≡ gave_up) ⊎ (b ≡ exhausted)) ⊎ ((fd : ℕ) × (a : Address) × (b ≡ bound fd a))
Bound-cases gave_up = inl (inl refl)
Bound-cases exhausted = inl (inr refl)
Bound-cases (bound fd a) = inr (fd, a, refl)

-- `inetBind` closes every socket that it opened but the one that it returns.
pub inet_bind-table :
    (addresses : List Address) (fds : List ℕ)
    → table fds (inet_bind (some addresses)).2 ≡ with_result (inet_bind (some addresses)).0 fds
unfolding inet_bind inet_passive_socket bound_fd
inet_bind-table addresses fds =
    let rec = bind_loop-table false addresses fds in
    elim (Bound-cases (bind_loop false addresses).0) [
      | inl (inl e) ↦
          rw (inet_bind, inet_passive_socket, e) (rec ∙ ap (λ b. with_result (bound_fd b) fds) e)
      | inl (inr e) ↦
          rw (inet_bind, inet_passive_socket, e) (rec ∙ ap (λ b. with_result (bound_fd b) fds) e)
      | inr (fd, a, e) ↦
          rw (inet_bind, inet_passive_socket, e) (rec ∙ ap (λ b. with_result (bound_fd b) fds) e)
    ]

-- When `listen` fails on the socket that was bound, `inetListen` returns -1 but does not close that
-- socket: its descriptor stays open, and the caller does not know it.
pub inet_listen-leak :
    (addresses : List Address) (fds : List ℕ) {fd : ℕ} {a : Address}
    → (bind_loop true addresses).0 ≡ bound fd a
    → a.listen_ok ≡ false
    → ((inet_listen (some addresses)).0 ≡ none)
      × (table fds (inet_listen (some addresses)).2 ≡ fd ∷ fds)
unfolding inet_listen inet_passive_socket bound_fd
inet_listen-leak addresses fds e fail =
    rw (inet_listen, inet_passive_socket, e, fail)
      (refl, bind_loop-table true addresses fds ∙ ap (λ b. with_result (bound_fd b) fds) e)
