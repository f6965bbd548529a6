-- ===== src/Heartbeat/Assembly.antt =====
-- How the server of sockapi/demo/heartBeat1 puts messages together and answers them.
use linux_programs.Common.{
  ℕ, ◌+◌, ◌-◌, ◌≤◌, ◌≡◌, refl, sym, ap, ap₂, ◌∙◌, inl, inr, arith, Bool, false, Bool-cases, List,
  [], ◌∷◌, ◌++◌, ltb, ◌==◌, if◌then◌else◌, length, take,
}
use mathlib.Core.Path.{subst}
use mathlib.Core.List.{append_assoc, append-nil}
use linux_programs.Sockets.{ntohl}
use linux_programs.Heartbeat.{
  Link, Event, select_failed, invalid_socket, recv_failed, timed_out, received, Outcome, going,
  ended, Action, sent, processed, taken_in, server_step, handle_message, go_on, rounds, server_run,
  t1, t2, sizeof_msg, msg_type1, msg_type2, msg_heartbeat,
}
use linux_programs.Heartbeat.Pieces.{
  IsLink, begun, processed_bytes, length-stored, take-stored, take_all,
}

-- `recv` gives no more bytes than it is asked for.
abbrev IsAsked : Link → Event → Type 0
IsAsked l (received bytes ok) = length bytes ≤ l.cnt
IsAsked l _ = Unit

-- `recv` does so in every round.
abbrev pub Fits : Link → List Event → Type 0
Fits l [] = Unit
Fits l (e ∷ events) = IsAsked l e × ((l' : Link) → (server_step l e).1 ≡ going l' → Fits l' events)

abbrev piece : Event → List ℕ
piece (received bytes ok) = bytes
piece _ = []

abbrev pub bytes_of : List Event → List ℕ
bytes_of [] = []
bytes_of (e ∷ events) = piece e ++ bytes_of events

-- The messages that were sent, and those that an echo of each heartbeat would be.
abbrev pub sent_messages : List Action → List (List ℕ)
sent_messages [] = []
sent_messages (processed msg ∷ actions) = sent_messages actions
sent_messages (sent msg ∷ actions) = msg ∷ sent_messages actions

abbrev pub heartbeats : List Action → List (List ℕ)
heartbeats [] = []
heartbeats (processed msg ∷ actions) =
    let rest = heartbeats actions in
    if ntohl (take 4 msg) == msg_heartbeat then msg ∷ rest else rest
heartbeats (sent msg ∷ actions) = heartbeats actions

-- What the server does with some bytes.
abbrev Assembled : Link → List ℕ → List Action × Outcome → Type 0
Assembled l bytes (actions, going l') =
    IsLink l'
    × (processed_bytes actions ++ begun l' ≡ begun l ++ bytes)
    × (sent_messages actions ≡ heartbeats actions)
Assembled l bytes (actions, ended reason) = Unit

handle_message-Assembled :
    (l : Link) (bytes : List ℕ) (l' : Link) (ok : Bool)
    → length l'.msg ≡ sizeof_msg
    → l'.msg ≡ begun l ++ bytes
    → Assembled l bytes (handle_message l' ok)
unfolding handle_message
handle_message-Assembled l bytes l' ok size all =
    let type = ntohl (take 4 l'.msg) in
    let valid : IsLink (record l' { cnt = sizeof_msg }) = record {
      whole = size;
      some_left = omega arith;
      most = omega arith;
    } in
    let joined : l'.msg ++ [] ++ [] ≡ begun l ++ bytes =
      append-nil (l'.msg ++ []) ∙ append-nil l'.msg ∙ all in
    elim (Bool-cases (type == msg_type1)) [
      | inl one ↦
          let not_three : (type == msg_heartbeat) ≡ false = ground arith in
          rw (one, not_three) (valid, joined, refl)
      | inr not_one ↦ elim (Bool-cases (type == msg_type2)) [
        | inl two ↦
            let not_three : (type == msg_heartbeat) ≡ false = ground arith in
            rw (not_one, two, not_three) (valid, joined, refl)
        | inr not_two ↦ elim (Bool-cases (type == msg_heartbeat)) [
          | inl three ↦ elim (Bool-cases ok) [
            | inl echoed ↦ rw (not_one, not_two, three, echoed) (valid, joined, rw three refl)
            | inr failed ↦ rw (not_one, not_two, three, failed) tt
          ]
          | inr unknown ↦ rw (not_one, not_two, unknown) tt
        ]
      ]
    ]

server_step-Assembled :
    (l : Link) (e : Event) → IsLink l → IsAsked l e → Assembled l (piece e) (server_step l e)
unfolding server_step
server_step-Assembled l select_failed v fits = tt
server_step-Assembled l invalid_socket v fits = tt
server_step-Assembled l recv_failed v fits = tt
server_step-Assembled l (timed_out ok) v fits = elim (Bool-cases (ltb 3 (l.misses + 1))) [
  | inl late ↦ rw late tt
  | inr early ↦ rw early (
    record { whole = v.whole; some_left = v.some_left; most = v.most },
    sym (append-nil (begun l)),
    refl,
  )
]
server_step-Assembled l (received [] ok) v fits = tt
server_step-Assembled l (received (b ∷ bytes) ok) v fits =
    let l' = taken_in l (b ∷ bytes) (t1 + t2) in
    let size = length-stored l (b ∷ bytes) v fits in
    let all = take-stored l (b ∷ bytes) v fits in
    elim (Bool-cases (ltb 0 l'.cnt)) [
      | inl more ↦ rw more (
        record { whole = size; some_left = ground arith; most = omega (arith, v.most) },
        all,
        refl,
      )
      | inr last ↦
          let none_left : l'.cnt ≡ 0 = ground arith in
          rw last (
            handle_message-Assembled l (b ∷ bytes) l' ok size (
              sym (take_all l'.msg sizeof_msg size)
              ∙ ap (λ n. take (sizeof_msg - n) l'.msg) (sym none_left)
              ∙ all))
    ]

processed_bytes-append :
    (xs ys : List Action) → processed_bytes (xs ++ ys) ≡ processed_bytes xs ++ processed_bytes ys
processed_bytes-append [] ys = refl
processed_bytes-append (processed msg ∷ xs) ys =
    ap (λ bs. msg ++ bs) (processed_bytes-append xs ys)
    ∙ sym (append_assoc msg (processed_bytes xs) (processed_bytes ys))
processed_bytes-append (sent msg ∷ xs) ys = processed_bytes-append xs ys

sent_messages-append :
    (xs ys : List Action) → sent_messages (xs ++ ys) ≡ sent_messages xs ++ sent_messages ys
sent_messages-append [] ys = refl
sent_messages-append (processed msg ∷ xs) ys = sent_messages-append xs ys
sent_messages-append (sent msg ∷ xs) ys = ap (λ ms. msg ∷ ms) (sent_messages-append xs ys)

heartbeats-append : (xs ys : List Action) → heartbeats (xs ++ ys) ≡ heartbeats xs ++ heartbeats ys
heartbeats-append [] ys = refl
heartbeats-append (processed msg ∷ xs) ys =
    elim (Bool-cases (ntohl (take 4 msg) == msg_heartbeat)) [
      | inl three ↦ rw three (ap (λ ms. msg ∷ ms) (heartbeats-append xs ys))
      | inr other ↦ rw other (heartbeats-append xs ys)
    ]
heartbeats-append (sent msg ∷ xs) ys = heartbeats-append xs ys

echoes-append :
    (xs ys : List Action)
    → sent_messages xs ≡ heartbeats xs
    → sent_messages ys ≡ heartbeats ys
    → sent_messages (xs ++ ys) ≡ heartbeats (xs ++ ys)
echoes-append xs ys p q =
    sent_messages-append xs ys ∙ ap₂ (λ ms ns. ms ++ ns) p q ∙ sym (heartbeats-append xs ys)

-- The bytes of a round and those of the rounds behind it.
go_on-Assembled :
    (l : Link) (bytes later : List ℕ) (actions : List Action) (out : Outcome)
    (rest : Link → List Action × Outcome)
    → Assembled l bytes (actions, out)
    → ((l' : Link) → out ≡ going l' → IsLink l' → Assembled l' later (rest l'))
    → Assembled l (bytes ++ later) (go_on actions out rest)
go_on-Assembled l bytes later actions (ended reason) rest now behind = tt
go_on-Assembled l bytes later actions (going l1) rest (v, same, echoes) behind =
    join (rest l1).0 (rest l1).1 (behind l1 refl v)
  where
    join :
        (more : List Action) (out : Outcome)
        → Assembled l1 later (more, out)
        → Assembled l (bytes ++ later) (actions ++ more, out)
    join more (ended reason) a = tt
    join more (going l') (v', same', echoes') = (
      v',
      ap (λ bs. bs ++ begun l') (processed_bytes-append actions more)
          ∙ append_assoc (processed_bytes actions) (processed_bytes more) (begun l')
          ∙ ap (λ bs. processed_bytes actions ++ bs) same'
          ∙ sym (append_assoc (processed_bytes actions) (begun l1) later)
          ∙ ap (λ bs. bs ++ later) same
          ∙ append_assoc (begun l) bytes later,
      echoes-append actions more echoes echoes',
    )

rounds-Assembled :
    (l : Link) (events : List Event)
    → IsLink l
    → Fits l events
    → Assembled l (bytes_of events) (rounds server_step l events)
unfolding rounds
rounds-Assembled l [] v fits = (v, sym (append-nil (begun l)), refl)
rounds-Assembled l (e ∷ events) v (asked, fits) =
    go_on-Assembled l (piece e) (bytes_of events) (server_step l e).0 (server_step l e).1
      (λ l'. rounds server_step l' events) (server_step-Assembled l e v asked)
      (λ l' goes v'. rounds-Assembled l' events v' (fits l' goes))

-- However the stream is cut into pieces and whatever rounds time out in between, where `recv` gives no
-- more than it is asked for and the server still runs, it has processed the messages of the stream,
-- whole and in order, holds the beginning of the next one, and has sent back each heartbeat among
-- them, and nothing else.
pub server_run-stream :
    (l l' : Link) (events : List Event) (actions : List Action)
    → IsLink l
    → Fits l events
    → server_run l events ≡ (actions, going l')
    → (processed_bytes actions ++ begun l' ≡ begun l ++ bytes_of events)
      × (sent_messages actions ≡ heartbeats actions)
unfolding server_run
server_run-stream l l' events actions v fits ran =
    let (v', same, echoes) =
      subst (Assembled l (bytes_of events)) ran (rounds-Assembled l events v fits) in
    (same, echoes)
