-- ===== src/Poll/Tables/Valid.antt =====
-- The invariant of the two tables, and that connections are opened and closed within it.
use linux_programs.Common.{
  ℕ, ◌+◌, ◌-◌, ◌≤◌, ◌<◌, ◌≡◌, ◌≢◌, refl, sym, ap, ap₂, ◌∙◌, inl, inr, arith, Bool, true, false,
  Bool-cases, Option, none, some, List, ◌==◌, if◌then◌else◌, get_or-set_ne, get_or-set_self, set,
  length, length-set, total, total-set_or, le-total,
}
use mathlib.Core.Path.{subst}
use linux_programs.Poll.{Connection, blank}
use linux_programs.Poll.Tables.{Server, client, close_connection, unwatch}
use linux_programs.Poll.Tables.Count.{
  taken, is_at, watching, unwatch-watching, length-unwatch, unwatch-none,
}

abbrev pub in_use : Connection → ℕ
in_use c = if c.in_use then 1 else 0

-- 1 for a connection in use on descriptor `x`.
abbrev pub on_socket : ℕ → Connection → ℕ
on_socket x c = if c.in_use then is_at x c.socket else 0

-- `connectionsActive` counts the connections in use, 8 at most, and the watched descriptors behind the
-- first three places; the latter are the sockets of the connections in use, each as often. A
-- connection in use has a socket, another one has none, and only a connection in use has been idle.
pub record IsValid (s : Server) : Type 0 where
  pub places : length s.watched ≡ 13
  pub clients : length s.clients ≡ 10
  pub used : total in_use s.clients ≡ s.active
  pub watched : watching taken s.watched ≡ s.active
  pub sockets : (x : ℕ) → watching (is_at x) s.watched ≡ total (on_socket x) s.clients
  pub connected :
      (i : ℕ)
      → (client s.clients i).in_use ≡ true
      → (fd : ℕ) × ((client s.clients i).socket ≡ some fd)
  pub closed : (i : ℕ) → (client s.clients i).in_use ≡ false → (client s.clients i).socket ≡ none
  pub idle : (i : ℕ) → 0 < (client s.clients i).idle_time → (client s.clients i).in_use ≡ true
  pub bound : s.active ≤ 8

pub blank_unused : blank.in_use ≡ false
unfolding blank
blank_unused = refl

pub blank_socket : blank.socket ≡ none
unfolding blank
blank_socket = refl

pub blank_idle : blank.idle_time ≡ 0
unfolding blank
blank_idle = refl

-- A property of all places survives a write if the new connection has it.
pub set-every :
    (P : Connection → Type 0) (clients : List Connection) (k : ℕ) (c : Connection)
    → k < length clients
    → P c
    → ((i : ℕ) → P (client clients i))
    → (i : ℕ) → P (client (set clients k c) i)
set-every P clients k c inside new old i = elim (Bool-cases (k == i)) [
  | inl here ↦
      let at_k : k ≡ i = ground arith in
      subst P
        (sym (
          ap (λ q. client (set clients k c) q) (sym at_k)
          ∙ get_or-set_self clients k c blank inside))
        new
  | inr there ↦ subst P (sym (get_or-set_ne clients k i c blank (λ e. ground arith))) (old i)
]

-- The connection at `i` is one that can be closed.
module _ (s : Server) (i : ℕ) (v : IsValid s) (low : i < 10)
    (there : (client s.clients i).in_use ≡ true) where
  closed_active : 0 < s.active
  closed_active =
      let one : in_use (client s.clients i) ≡ 1 = ap (λ (b : Bool). if b then 1 else 0) there in
      omega (arith, one, v.used, le-total in_use s.clients i blank (omega (arith, v.clients)))

  pub close_connection-active : (close_connection s i).active + 1 ≡ s.active
  unfolding close_connection
  close_connection-active =
      let test : (s.active == 0) ≡ false = ground (arith, closed_active) in
      rw test (omega (arith, closed_active))

  pub close_connection-clients : (close_connection s i).clients ≡ set s.clients i blank
  unfolding close_connection
  close_connection-clients =
      let test : (s.active == 0) ≡ false = ground (arith, closed_active) in rw test

  -- `CloseConnection` on a connection in use keeps the invariant.
  pub close_connection-IsValid : IsValid (close_connection s i)
  unfolding close_connection
  close_connection-IsValid =
      let (fd, on) = v.connected i there in
      let test : (s.active == 0) ≡ false = ground (arith, closed_active) in
      let inside : i < length s.clients = omega (arith, v.clients) in
      let old : (x : ℕ) → on_socket x (client s.clients i) ≡ is_at x (some fd) = λ x.
        ap (λ (b : Bool). if b then is_at x (client s.clients i).socket else 0) there
        ∙ ap (is_at x) on in
      let new : (x : ℕ) → on_socket x blank ≡ 0 =
        λ x. ap (λ (b : Bool). if b then is_at x blank.socket else 0) blank_unused in
      let mine : is_at fd (some fd) ≡ 1 = ground arith in
      let watched' : 0 < watching (is_at fd) s.watched =
        omega
          (arith, mine, old fd, v.sockets fd, le-total (on_socket fd) s.clients i blank inside) in
      let one : in_use (client s.clients i) ≡ 1 = ap (λ (b : Bool). if b then 1 else 0) there in
      let none' : in_use blank ≡ 0 = ap (λ (b : Bool). if b then 1 else 0) blank_unused in
      rw (test, on)
        (record {
          places = length-unwatch s.watched (some fd) ∙ v.places;
          clients = length-set s.clients i blank ∙ v.clients;
          used =
              omega (arith, one, none', v.used, total-set_or in_use s.clients i blank blank inside);
          watched =
              omega (arith, v.watched, unwatch-watching taken s.watched fd v.places refl watched');
          sockets = λ x. omega (
            arith,
            old x,
            new x,
            v.sockets x,
            unwatch-watching (is_at x) s.watched fd v.places refl watched',
            total-set_or (on_socket x) s.clients i blank blank inside,
          );
          connected =
              set-every (λ c. c.in_use ≡ true → (fd : ℕ) × (c.socket ≡ some fd)) s.clients i blank
                inside (λ e. cc (e, blank_unused)) v.connected;
          closed =
              set-every (λ c. c.in_use ≡ false → c.socket ≡ none) s.clients i blank inside
                (λ e. blank_socket) v.closed;
          idle =
              set-every (λ c. 0 < c.idle_time → c.in_use ≡ true) s.clients i blank inside
                (λ h. absurd (omega (arith, h, blank_idle))) v.idle;
          bound = omega (arith, v.bound);
        })

-- A change of a connection that leaves its use, socket and idle time alone, or sets the latter to 0,
-- keeps the invariant.
pub update-IsValid :
    (s : Server) (i : ℕ) (c : Connection)
    → IsValid s
    → i < 10
    → c.in_use ≡ (client s.clients i).in_use
    → c.socket ≡ (client s.clients i).socket
    → c.idle_time ≤ (client s.clients i).idle_time
    → IsValid (record s { clients = set s.clients i c })
update-IsValid s i c v low busy socket idle =
    let inside : i < length s.clients = omega (arith, v.clients) in
    let same : in_use c ≡ in_use (client s.clients i) =
      ap (λ (b : Bool). if b then 1 else 0) busy in
    let same_on : (x : ℕ) → on_socket x c ≡ on_socket x (client s.clients i) =
      λ x. ap₂ (λ (b : Bool) (o : Option ℕ). if b then is_at x o else 0) busy socket in
    record {
      places = v.places;
      clients = length-set s.clients i c ∙ v.clients;
      used = omega (arith, same, v.used, total-set_or in_use s.clients i c blank inside);
      watched = v.watched;
      sockets = λ x.
          omega
            (arith, same_on x, v.sockets x, total-set_or (on_socket x) s.clients i c blank inside);
      connected =
          set-every (λ c. c.in_use ≡ true → (fd : ℕ) × (c.socket ≡ some fd)) s.clients i c inside
            (λ e. let (fd, on) = v.connected i (sym busy ∙ e) in (fd, socket ∙ on)) v.connected;
      closed =
          set-every (λ c. c.in_use ≡ false → c.socket ≡ none) s.clients i c inside
            (λ e. socket ∙ v.closed i (sym busy ∙ e)) v.closed;
      idle =
          set-every (λ c. 0 < c.idle_time → c.in_use ≡ true) s.clients i c inside
            (λ h. busy ∙ v.idle i (omega arith)) v.idle;
      bound = v.bound;
    }

-- The socket of a connection in busy is watched.
pub socket_watched :
    (s : Server) (i fd : ℕ)
    → IsValid s
    → i < 10
    → (client s.clients i).in_use ≡ true
    → (client s.clients i).socket ≡ some fd
    → 0 < watching (is_at fd) s.watched
socket_watched s i fd v low busy on =
    let inside : i < length s.clients = omega (arith, v.clients) in
    let one : on_socket fd (client s.clients i) ≡ 1 =
      ap₂ (λ (b : Bool) (o : Option ℕ). if b then is_at fd o else 0) busy on ∙ ground arith in
    omega (arith, one, v.sockets fd, le-total (on_socket fd) s.clients i blank inside)

-- `CloseConnection` on a place that is not in use leaves the tables as they are, but for the count.
pub close_connection-unused :
    (s : Server) (i : ℕ)
    → length s.watched ≡ 13
    → i < length s.clients
    → (client s.clients i).in_use ≡ false
    → (client s.clients i).socket ≡ none
    → ((close_connection s i).watched ≡ s.watched)
      × ((close_connection s i).active ≡ s.active - 1)
      × (length (close_connection s i).clients ≡ length s.clients)
      × ((q : ℕ) → i ≢ q → client (close_connection s i).clients q ≡ client s.clients q)
      × (total in_use (close_connection s i).clients ≡ total in_use s.clients)
unfolding close_connection
close_connection-unused s i size inside free off = elim (Bool-cases (s.active == 0)) [
  | inl empty ↦ rw empty (refl, ground arith, refl, λ q ne. refl, refl)
  | inr some' ↦
      let old : in_use (client s.clients i) ≡ 0 = ap (λ (b : Bool). if b then 1 else 0) free in
      let new : in_use blank ≡ 0 = ap (λ (b : Bool). if b then 1 else 0) blank_unused in
      rw some' (
        ap (unwatch s.watched) off ∙ unwatch-none s.watched size,
        refl,
        length-set s.clients i blank,
        λ q ne. get_or-set_ne s.clients i q blank blank ne,
        omega (arith, old, new, total-set_or in_use s.clients i blank blank inside),
      )
]
