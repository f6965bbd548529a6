-- ===== src/Poll/Tables/Open.antt =====
-- `NewConnection` keeps the invariant of the tables.
use linux_programs.Common.{
  ℕ, ◌+◌, ◌-◌, ◌≤◌, ◌<◌, ◌≡◌, refl, ap, ◌∙◌, inl, inr, arith, Bool, true, false, Bool-cases, Option,
  none, some, Option-cases, ltb, if◌then◌else◌, get_or-set_self, set, length, length-set,
  total-set_or,
}
use linux_programs.Poll.{blank}
use linux_programs.Poll.Tables.{
  Server, client, max_connections, reserve_conn, find_stale, find_unused, close_connection, opened,
  watch, establish, new_connection,
}
use linux_programs.Poll.Tables.Count.{taken, is_at, watching, watch-watching, length-watch}
use linux_programs.Poll.Tables.Stale.{find_unused-some, spare_time, find_stale-longest}
use linux_programs.Poll.Tables.Valid.{
  in_use, on_socket, IsValid, set-every, close_connection-IsValid, close_connection-active,
}

-- What a call of `NewConnection` does with the tables.
pub record Opens (port1_callback server_socket : ℕ) (accepted : Option ℕ) (s : Server)
    (result : Option ℕ × Server) : Type 0 where
  pub valid : IsValid result.1
  pub kept : result.0 ≡ none → result.1 ≡ s
  pub stored :
      (fd : ℕ)
      → result.0 ≡ some fd
      → (accepted ≡ some fd)
        × (result.1.active ≡ s.active + 1)
        × ((i : ℕ) × (2 ≤ i)
            × (i < 10)
            × ((client s.clients i).in_use ≡ false)
            × (result.1.clients ≡ set s.clients i (opened port1_callback server_socket fd)))

pub establish-Opens :
    (port1_callback server_socket : ℕ) (accepted : Option ℕ) (s : Server)
    → IsValid s
    → s.active ≤ 7
    → Opens port1_callback server_socket accepted s
        (establish port1_callback server_socket accepted s)
unfolding establish opened
establish-Opens callback listening none s v room =
    elim (Option-cases (find_unused (max_connections - reserve_conn) reserve_conn s.clients)) [
      | inl full ↦
          rw (establish, full)
            (record { valid = v; kept = λ e. refl; stored = λ fd e. absurd (cc e) })
      | inr (i, free) ↦
          rw (establish, free)
            (record { valid = v; kept = λ e. refl; stored = λ fd e. absurd (cc e) })
    ]
establish-Opens callback listening (some fd) s v room =
    elim (Option-cases (find_unused (max_connections - reserve_conn) reserve_conn s.clients)) [
      | inl full ↦
          rw (establish, full)
            (record { valid = v; kept = λ e. refl; stored = λ fd e. absurd (cc e) })
      | inr (i, free) ↦
          let (low, high, unused) = find_unused-some 8 2 s.clients {k = i} free in
          rw (establish, free)
            (record {
              valid = opened-IsValid i high unused;
              kept = λ e. absurd (cc e);
              stored = λ fd' e.
                  let same : fd ≡ fd' = cc e in
                  (
                    ap some same,
                    refl,
                    (
                      i,
                      low,
                      high,
                      unused,
                      ap (λ q. set s.clients i (opened callback listening q)) same,
                    ),
                  );
            })
    ]
  where
    opened-IsValid :
        (i : ℕ)
        → i < 10
        → (client s.clients i).in_use ≡ false
        → IsValid (record {
          watched = watch s.watched fd;
          clients = set s.clients i (opened callback listening fd);
          active = s.active + 1;
        })
    opened-IsValid i high unused =
        let c = opened callback listening fd in
        let inside : i < length s.clients = omega (arith, v.clients) in
        let old : (x : ℕ) → on_socket x (client s.clients i) ≡ 0 =
          λ x. ap (λ (b : Bool). if b then is_at x (client s.clients i).socket else 0) unused in
        let none' : in_use (client s.clients i) ≡ 0 =
          ap (λ (b : Bool). if b then 1 else 0) unused in
        let free : watching taken s.watched < max_connections = omega (arith, v.watched) in
        record {
          places = length-watch s.watched fd ∙ v.places;
          clients = length-set s.clients i c ∙ v.clients;
          used = omega (arith, none', v.used, total-set_or in_use s.clients i c blank inside);
          watched = omega (arith, v.watched, watch-watching taken s.watched fd v.places refl free);
          sockets = λ x. omega (
            arith,
            old x,
            v.sockets x,
            watch-watching (is_at x) s.watched fd v.places refl free,
            total-set_or (on_socket x) s.clients i c blank inside,
          );
          connected =
              set-every (λ c. c.in_use ≡ true → (fd : ℕ) × (c.socket ≡ some fd)) s.clients i c
                inside (λ e. (fd, refl)) v.connected;
          closed =
              set-every (λ c. c.in_use ≡ false → c.socket ≡ none) s.clients i c inside
                (λ e. absurd (cc e)) v.closed;
          idle =
              set-every (λ c. 0 < c.idle_time → c.in_use ≡ true) s.clients i c inside (λ h. refl)
                v.idle;
          bound = omega (arith, v.bound);
        }

-- A spare connection that has been idle is in use.
stale-in_use :
    (s : Server) (k : ℕ)
    → IsValid s
    → 0 < spare_time (client s.clients k)
    → (client s.clients k).in_use ≡ true
stale-in_use s k v h = v.idle k (ground arith)

pub new_connection-IsValid :
    (port1_callback server_socket : ℕ) (accepted : Option ℕ) (s : Server)
    → IsValid s
    → IsValid (new_connection port1_callback server_socket accepted s).1
      × ((fd : ℕ)
          → (new_connection port1_callback server_socket accepted s).0 ≡ some fd
          → (accepted ≡ some fd)
            × (i : ℕ) × (2 ≤ i)
            × (i < 10)
            × ((client (new_connection port1_callback server_socket accepted s).1.clients i)
                ≡ opened port1_callback server_socket fd))
unfolding new_connection
new_connection-IsValid callback listening accepted s v =
    elim (Bool-cases (ltb (s.active + reserve_conn) max_connections)) [
      | inl room ↦
          rw room (both s v (establish-Opens callback listening accepted s v (ground arith)))
      | inr tight ↦
          elim (Option-cases
            (find_stale (max_connections - reserve_conn) reserve_conn s.clients none 0)) [
              | inl unfound ↦ rw (new_connection, tight, unfound) (v, λ fd e. absurd (cc e))
              | inr (k, stale) ↦
                  let (low, high, more, longest) = (find_stale-longest s.clients).0 k stale in
                  let used = stale-in_use s k v more in
                  let v' = close_connection-IsValid s k v high used in
                  let fewer = close_connection-active s k v high used in
                  let s' = close_connection s k in
                  rw (new_connection, tight, stale)
                    (both s' v' (
                      establish-Opens callback listening accepted s' v'
                        (omega (arith, fewer, v.bound))))
            ]
    ]
  where
    both :
        (t : Server)
        → IsValid t
        → Opens callback listening accepted t (establish callback listening accepted t)
        → IsValid (establish callback listening accepted t).1
          × ((fd : ℕ)
              → (establish callback listening accepted t).0 ≡ some fd
              → (accepted ≡ some fd)
                × (i : ℕ) × (2 ≤ i)
                × (i < 10)
                × ((client (establish callback listening accepted t).1.clients i)
                    ≡ opened callback listening fd))
    both t w o = (
      o.valid,
      λ fd e.
          let (given, more, (i, low, high, unused, stored)) = o.stored fd e in
          (
            given,
            i,
            low,
            high,
            ap (λ cs. client cs i) stored
                ∙ get_or-set_self t.clients i (opened callback listening fd) blank
                    (omega (arith, w.clients)),
          ),
    )
