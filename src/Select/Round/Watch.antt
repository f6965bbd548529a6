-- ===== src/Select/Round/Watch.antt =====
-- Which descriptors `ServerModelMain` of the select server gives to `select`.
use linux_programs.Common.{
  ℕ, suc, ◌<◌, ◌≡◌, refl, ap, ◌∙◌, arith, Bool, true, false, not, ◌&&◌, ◌||◌, Option, none, some,
  List, [], ◌∷◌, ltb, ◌==◌, if◌then◌else◌,
}
use linux_programs.Select.{Connection, Server, client}
use linux_programs.Select.Valid.{IsValid}
use linux_programs.Select.Round.{
  Sets, watch_client, add_client, add_clients, listening_sets, fd_sets,
}

-- `FD_ISSET`.
unfoldable pub has : ℕ → List ℕ → Bool
has fd [] = false
has fd (d ∷ set) = (fd == d) || has fd set

unfoldable pub any : (Connection → Bool) → List Connection → Bool
any p [] = false
any p (c ∷ clients) = any p clients || p c

abbrev pub is_at : ℕ → Option ℕ → Bool
is_at fd none = false
is_at fd (some d) = fd == d

-- A connection in use whose callback does not run.
abbrev pub reads : Connection → Bool
reads c = c.in_use && not c.client_callback_running_now

-- A connection in use, unless its callback runs and handles the writes.
abbrev pub writes : Connection → Bool
writes c = c.in_use && not (c.client_callback_running_now && c.is_callback_handling_writes)

or_assoc : (a b c : Bool) → (a || (b || c)) ≡ ((a || b) || c)
or_assoc true b c = refl
or_assoc false b c = refl

or_false : (a : Bool) → (a || false) ≡ a
or_false true = refl
or_false false = refl

-- What some connections add to the sets.
record Added (reads' writes' : ℕ → Bool) (needs : Bool) (sets sets' : Sets) : Type 0 where
  read : (fd : ℕ) → has fd sets'.read ≡ (reads' fd || has fd sets.read)
  write : (fd : ℕ) → has fd sets'.write ≡ (writes' fd || has fd sets.write)
  need : sets'.need_write ≡ (needs || sets.need_write)

-- The descriptor, 0 for -1.
abbrev fd_of : Option ℕ → ℕ
fd_of none = 0
fd_of (some fd) = fd

module _ (fd_setsize : ℕ) where
  in_set :
      (d : ℕ)
      → (fd : ℕ) × (some d ≡ some fd) × (fd < fd_setsize)
      → (x : Sets) → (if ltb d fd_setsize then some x else none) ≡ some x
  in_set d (fd, e, low) x =
      let same : d ≡ fd = omega (arith, ap fd_of e) in
      let test : ltb d fd_setsize ≡ true = ground arith in rw test refl

  add_client-Added :
      (c : Connection) (sets : Sets)
      → (c.in_use ≡ true → (fd : ℕ) × (c.socket ≡ some fd) × (fd < fd_setsize))
      → (sets' : Sets) × (add_client fd_setsize c sets ≡ some sets')
        × Added
            (λ fd. reads c && is_at fd c.socket)
            (λ fd. writes c && is_at fd c.socket)
            (writes c)
            sets
            sets'
  unfolding add_client watch_client has
  add_client-Added c sets connected =
      flags c.in_use c.client_callback_running_now c.is_callback_handling_writes c.socket connected
    where
      with_flags : (busy running handling : Bool) → (socket : Option ℕ) → Connection
      with_flags busy running handling socket = record c {
        in_use = busy;
        client_callback_running_now = running;
        is_callback_handling_writes = handling;
        socket = socket;
      }

      flags :
          (busy running handling : Bool) (socket : Option ℕ)
          → (busy ≡ true → (fd : ℕ) × (socket ≡ some fd) × (fd < fd_setsize))
          → (sets' : Sets) × (add_client fd_setsize (with_flags busy running handling socket) sets
              ≡ some sets')
            × Added
                (λ fd. reads (with_flags busy running handling socket) && is_at fd socket)
                (λ fd. writes (with_flags busy running handling socket) && is_at fd socket)
                (writes (with_flags busy running handling socket))
                sets
                sets'
      flags false running handling socket on =
          (sets, refl, record { read = λ fd. refl; write = λ fd. refl; need = refl })
      flags true running handling none on = let (fd, e, low) = on refl in absurd (cc e)
      flags true false handling (some d) on = (
        watch_client (with_flags true false handling (some d)) d sets,
        in_set d (on refl) (watch_client (with_flags true false handling (some d)) d sets),
        record { read = λ fd. refl; write = λ fd. refl; need = refl },
      )
      flags true true false (some d) on = (
        watch_client (with_flags true true false (some d)) d sets,
        in_set d (on refl) (watch_client (with_flags true true false (some d)) d sets),
        record { read = λ fd. refl; write = λ fd. refl; need = refl },
      )
      flags true true true (some d) on =
          (sets, refl, record { read = λ fd. refl; write = λ fd. refl; need = refl })

  add_clients-Added :
      (clients : List Connection) (sets : Sets)
      → ((i : ℕ)
          → (client clients i).in_use ≡ true
          → (fd : ℕ) × ((client clients i).socket ≡ some fd) × (fd < fd_setsize))
      → (sets' : Sets) × (add_clients fd_setsize clients sets ≡ some sets')
        × Added
            (λ fd. any (λ c. reads c && is_at fd c.socket) clients)
            (λ fd. any (λ c. writes c && is_at fd c.socket) clients)
            (any writes clients)
            sets
            sets'
  unfolding add_clients any
  add_clients-Added [] sets connected =
      (sets, refl, record { read = λ fd. refl; write = λ fd. refl; need = refl })
  add_clients-Added (c ∷ clients) sets connected =
      let (sets1, run1, add1) = add_client-Added c sets (connected 0) in
      let (sets2, run2, add2) = add_clients-Added clients sets1 (λ i. connected (suc i)) in
      (
        sets2,
        rw (add_clients, run1) run2,
        record {
          read = λ fd.
              add2.read fd
              ∙ ap (λ b. any (λ x. reads x && is_at fd x.socket) clients || b) (add1.read fd)
              ∙ or_assoc (any (λ x. reads x && is_at fd x.socket) clients)
                  (reads c && is_at fd c.socket) (has fd sets.read);
          write = λ fd.
              add2.write fd
              ∙ ap (λ b. any (λ x. writes x && is_at fd x.socket) clients || b) (add1.write fd)
              ∙ or_assoc (any (λ x. writes x && is_at fd x.socket) clients)
                  (writes c && is_at fd c.socket) (has fd sets.write);
          need =
              add2.need
              ∙ ap (λ b. any writes clients || b) add1.need
              ∙ or_assoc (any writes clients) (writes c) sets.need_write;
        },
      )

  listening_sets-Added :
      (max_socket : ℕ) (tcp : Option ℕ)
      → ((fd : ℕ) → tcp ≡ some fd → fd < fd_setsize)
      → (sets : Sets) × (listening_sets fd_setsize max_socket tcp ≡ some sets)
        × ((fd : ℕ) → has fd sets.read ≡ is_at fd tcp)
        × ((fd : ℕ) → has fd sets.write ≡ false)
        × (sets.need_write ≡ false)
  unfolding listening_sets has
  listening_sets-Added max_socket none low = (_, refl, λ fd. refl, λ fd. refl, refl)
  listening_sets-Added max_socket (some d) low =
      let inside = low d refl in
      let test : ltb d fd_setsize ≡ true = ground arith in
      (
        record {
          read = d ∷ [];
          write = [];
          max_socket = if ltb max_socket d then d else max_socket;
          max_sockfd = 0;
          need_write = false;
        },
        rw test refl,
        λ fd. or_false (fd == d),
        λ fd. refl,
        refl,
      )

-- For a table that satisfies the invariant, when the descriptors are below FD_SETSIZE, the sets are built
-- without undefined behaviour. The set for reading has the listening socket and the connections in use
-- whose callback does not run, the set for writing those in use unless their callback runs and handles the
-- writes, and nothing else; `needWrite` tells whether the latter are any.
pub fd_sets-watch :
    (fd_setsize max_socket : ℕ) (tcp_socket : Option ℕ) (s : Server)
    → IsValid s
    → ((fd : ℕ) → tcp_socket ≡ some fd → fd < fd_setsize)
    → ((i fd : ℕ) → (client s.clients i).socket ≡ some fd → fd < fd_setsize)
    → (sets : Sets) × (fd_sets fd_setsize max_socket tcp_socket s.clients ≡ some sets)
      × ((fd : ℕ)
          → (has fd sets.read
              ≡ (any (λ c. reads c && is_at fd c.socket) s.clients || is_at fd tcp_socket))
            × (has fd sets.write ≡ any (λ c. writes c && is_at fd c.socket) s.clients))
      × (sets.need_write ≡ any writes s.clients)
unfolding fd_sets
fd_sets-watch fd_setsize max_socket tcp_socket s v low lows =
    let (first, start, start_read, start_write, start_need) =
      listening_sets-Added fd_setsize max_socket tcp_socket low in
    let (sets, run, added) =
      add_clients-Added fd_setsize s.clients first
        (λ i busy. let (fd, on) = (v.places i).connected busy in (fd, on, lows i fd on)) in
    (
      sets,
      rw (fd_sets, start) run,
      λ fd. (
        added.read fd
            ∙ ap (λ b. any (λ c. reads c && is_at fd c.socket) s.clients || b) (start_read fd),
        added.write fd
            ∙ ap (λ b. any (λ c. writes c && is_at fd c.socket) s.clients || b) (start_write fd)
            ∙ or_false (any (λ c. writes c && is_at fd c.socket) s.clients),
      ),
      added.need ∙ ap (λ b. any writes s.clients || b) start_need ∙ or_false (any writes s.clients),
    )
