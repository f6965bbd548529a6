-- ===== src/Epoll/Serve/Stale.antt =====
-- The address that `start_server` gives a task points into the array that the next `epoll_wait` fills.
use linux_programs.Common.{
  ℕ, ◌+◌, ◌≡◌, ◌≢◌, refl, sym, ap, ◌∙◌, ◌⊎◌, inl, inr, arith, Bool, true, false, Bool-cases, none,
  some, Option-cases, List, [], ◌∷◌, ◌++◌, ◌==◌, get_or, replicate, take,
}
use mathlib.Core.Path.{subst}
use linux_programs.Common.Int.{negsuc, ltb_ℤ, pos_part}
use linux_programs.Epoll.{Io, op_read, op_write, add_clilist}
use linux_programs.Epoll.Serve.{
  Task, Server, Ready, Progress, serving, exited, undefined, serve_event, serve_events, serve_round,
  overwritten, Handled, handle, string_in, broadcast,
}

-- The array of events is `events` as long as the server goes on.
abbrev Keeps : {P : Type 0} → List ℕ → Progress P → Type 0
Keeps events (serving s) = s.events ≡ events
Keeps events exited = Unit
Keeps events undefined = Unit

serve_event-Keeps :
    {P : Type 0} (add : P → Task → P) (listenfd handle i : ℕ) (e : Ready) (s : Server P)
    → Keeps s.events (serve_event add listenfd handle i e s)
unfolding serve_event
serve_event-Keeps add listenfd handle i e s = elim (Bool-cases (e.fd == listenfd)) [
  | inl listening ↦ elim (Option-cases e.accepted) [
    | inl refused ↦ rw (serve_event, listening, refused) tt
    | inr (connfd, came) ↦ elim (Bool-cases e.nonblocking_ok) [
      | inl ok ↦ elim (Option-cases (add_clilist s.clients (record { fd = connfd; ip = e.ip }))) [
        | inl full ↦ rw (serve_event, listening, came, ok, full) tt
        | inr (clients, added) ↦ rw (serve_event, listening, came, ok, added) refl
      ]
      | inr broken ↦ rw (serve_event, listening, came, broken) tt
    ]
  ]
  | inr client ↦ elim (Bool-cases e.readable) [
    | inl ready ↦ rw (serve_event, client, ready) refl
    | inr other ↦ rw (serve_event, client, other) refl
  ]
]

serve_events-Keeps :
    {P : Type 0} (add : P → Task → P) (listenfd handle i : ℕ) (batch : List Ready) (s : Server P)
    → Keeps s.events (serve_events add listenfd handle i batch s)
unfolding serve_events
serve_events-Keeps add listenfd handle i [] s = refl
serve_events-Keeps {P} add listenfd handle i (e ∷ batch) s =
    next (serve_event add listenfd handle i e s) (serve_event-Keeps add listenfd handle i e s)
      (serve_events-Keeps add listenfd handle (i + 1) batch)
  where
    next :
        (out : Progress P)
        → Keeps s.events out
        → ((s' : Server P) → Keeps s'.events (serve_events add listenfd handle (i + 1) batch s'))
        → Keeps s.events (elim out as (λ _. Progress P) [
          | exited ↦ exited
          | undefined ↦ undefined
          | serving s' ↦ serve_events add listenfd handle (i + 1) batch s'
        ])
    next exited same rest = tt
    next undefined same rest = tt
    next (serving s') same rest =
        subst (λ events. Keeps events (serve_events add listenfd handle (i + 1) batch s')) same
          (rest s')

-- `handle` reads from the descriptor that stands at the address when it runs.
handle-read_from :
    {P : Type 0} (argument : ℕ) (reply : Io) (bytes : List ℕ) (echo : Io) (writes : ℕ → Io)
    (s : Server P)
    → (handle argument reply bytes echo writes s ≡ none)
      ⊎ ((h : Handled) × (handle argument reply bytes echo writes s ≡ some h)
          × (h.read_from ≡ get_or s.events argument 0))
unfolding handle
handle-read_from argument reply bytes echo writes s =
    let fd = get_or s.events argument 0 in
    let (n, l, gone) = op_read s.clients fd reply in
    elim (Bool-cases (ltb_ℤ n (negsuc 0))) [
      | inl lost ↦ inr (
        record { clients = l; read_from = fd; echoed = none; greeted = [] },
        rw (handle, lost) refl,
        refl,
      )
      | inr here ↦ elim (Option-cases (string_in (take 255 (bytes ++ replicate 255 0)))) [
        | inl full ↦ inl (rw (handle, here, full) refl)
        | inr (line, ends) ↦
            let l' = (op_write l fd echo).1 in
            let all = broadcast (pos_part l'.tailindex) 0 writes l' in
            elim (Bool-cases (ltb_ℤ (op_write l fd echo).0 (negsuc 0))) [
              | inl lost ↦ inr (
                record { clients = l'; read_from = fd; echoed = some line; greeted = [] },
                rw (handle, here, ends, lost) refl,
                refl,
              )
              | inr kept ↦ inr (
                record { clients = all.0; read_from = fd; echoed = some line; greeted = all.1 },
                rw (handle, here, ends, kept) refl,
                refl,
              )
            ]
      ]
    ]

-- What the documentation of the pool promises of `threadpool_add`: a task that is accepted stands behind
-- those that are queued, with its function and its argument as they were given.
pub record Queues (P : Type 0) (add : P → Task → P) : Type 0 where
  pub queued : P → List Task
  pub accepts : P → Task → Bool
  pub adds : (p : P) (t : Task) → accepts p t ≡ true → queued (add p t) ≡ queued p ++ (t ∷ [])

-- A task reads from the wrong client when the loop is faster than the pool. Where a client is ready and
-- the pool accepts a task, a round of `start_server` queues one behind the others. When the next round
-- comes before that task runs, and the first of its events is not for the same descriptor, the handler of
-- the task reads from the descriptor of that event, and not from the client that it was queued for.
pub serve_round-stale :
    {P : Type 0} {add : P → Task → P} (q : Queues P add) (listenfd handler : ℕ) (s s2 : Server P)
    (e e2 : Ready) (batch : List Ready) (reply : Io) (bytes : List ℕ) (echo : Io) (writes : ℕ → Io)
    (h : Handled)
    → e.fd ≢ listenfd
    → e.readable ≡ true
    → q.accepts s.pool (record { function = handler; argument = 0 }) ≡ true
    → e2.fd ≢ e.fd
    → let s1 : Server P = record s {
      pool = add s.pool (record { function = handler; argument = 0 });
      events = overwritten (e ∷ []) s.events;
    } in
      serve_round add listenfd handler (e2 ∷ batch) s1 ≡ serving s2
      → handle 0 reply bytes echo writes s2 ≡ some h
      → (serve_round add listenfd handler (e ∷ []) s ≡ serving s1)
        × (q.queued s1.pool ≡ q.queued s.pool ++ (record { function = handler; argument = 0 } ∷ []))
        × (get_or s1.events 0 0 ≡ e.fd)
        × (h.read_from ≡ e2.fd)
        × (h.read_from ≢ e.fd)
unfolding serve_round serve_events serve_event
serve_round-stale {add} q listenfd handler s s2 e e2 batch reply bytes echo writes h client ready
      room differs next ran =
    let other : (e.fd == listenfd) ≡ false = ground arith in
    let array : s2.events ≡ e2.fd ∷ _ =
      subst (Keeps (overwritten (e2 ∷ batch) (overwritten (e ∷ []) s.events))) next
        (serve_events-Keeps add listenfd handler 0 (e2 ∷ batch) _) in
    let from : h.read_from ≡ e2.fd =
      reading (handle-read_from 0 reply bytes echo writes s2)
      ∙ ap (λ events. get_or events 0 0) array in
    (
      rw (serve_round, serve_events, serve_event, other, ready) refl,
      q.adds s.pool (record { function = handler; argument = 0 }) room,
      refl,
      from,
      λ same. differs (sym from ∙ same),
    )
  where
    reading :
        ((handle 0 reply bytes echo writes s2 ≡ none)
          ⊎ ((h' : Handled) × (handle 0 reply bytes echo writes s2 ≡ some h')
              × (h'.read_from ≡ get_or s2.events 0 0)))
        → h.read_from ≡ get_or s2.events 0 0
    reading (inl full) = absurd (cc (full, ran))
    reading (inr (h', made, from)) =
        let same : h ≡ h' = cc (made, ran) in ap (λ (x : Handled). x.read_from) same ∙ from
