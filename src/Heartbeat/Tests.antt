-- ===== src/Heartbeat/Tests.antt =====
-- The theorems on the heartbeats, at small runs.
use linux_programs.Common.{
  ℕ, ◌≡◌, refl, ap, arith, true, List, [], ◌∷◌, ◌++◌, drop, replicate, length-replicate,
}
use linux_programs.Heartbeat.{
  Link, Event, timed_out, received, Outcome, going, ended, Action, rounds, taken_in,
  connection_dead, processed, sent, client_run, server_run, client_step, server_step,
  handle_message, heartbeat_type, sizeof_msg, t1,
}
use linux_programs.Heartbeat.Silence.{Silence, fresh, client_run-Silence}
use linux_programs.Heartbeat.Pieces.{IsLink, begun, processed_bytes}
use linux_programs.Heartbeat.Spoil.{client_run-spoils}
use linux_programs.Heartbeat.Assembly.{Fits, bytes_of, sent_messages, heartbeats, server_run-stream}

abbrev silent_rounds : List Event
silent_rounds = replicate 4 (timed_out true)

dies : (client_run (fresh t1 sizeof_msg []) silent_rounds).1 ≡ ended connection_dead
unfolding client_run client_step rounds
dies = refl

client_run-Silence_example : Silence silent_rounds
client_run-Silence_example = client_run-Silence (fresh t1 sizeof_msg []) silent_rounds refl dies

-- A server that waits for two more bytes of a message.
abbrev waiting : Link
waiting = fresh 70 2 (heartbeat_type ++ replicate 2000 0)

waiting-IsLink : IsLink waiting
waiting-IsLink = record {
  whole = omega (arith, length-replicate {A = ℕ} 2000 0);
  some_left = omega arith;
  most = omega arith;
}

abbrev two_rounds : List Event
two_rounds = timed_out true ∷ received (7 ∷ 8 ∷ []) true ∷ []

abbrev full : Link
full = taken_in waiting (7 ∷ 8 ∷ []) 70

answers :
    server_run waiting two_rounds
    ≡ (processed full.msg ∷ sent full.msg ∷ [], going (fresh 70 sizeof_msg full.msg))
unfolding server_run server_step handle_message rounds
answers = refl

cnt_of : Outcome → ℕ
cnt_of (going l) = l.cnt
cnt_of (ended reason) = 0

two_rounds-Fits : Fits waiting two_rounds
unfolding server_step cnt_of
two_rounds-Fits = (tt, λ l' goes. (omega (arith, ap cnt_of goes), λ l2 goes2. tt))

server_run-stream_example :
    (processed_bytes (processed full.msg ∷ sent full.msg ∷ [])
        ++ begun (fresh 70 sizeof_msg full.msg)
      ≡ begun waiting ++ bytes_of two_rounds)
    × (sent_messages (processed full.msg ∷ sent full.msg ∷ [])
        ≡ heartbeats (processed full.msg ∷ sent full.msg ∷ []))
server_run-stream_example =
    server_run-stream waiting (fresh 70 sizeof_msg full.msg) two_rounds
      (processed full.msg ∷ sent full.msg ∷ []) waiting-IsLink two_rounds-Fits answers

abbrev ending : Link
ending = fresh 60 2 (0 ∷ 0 ∷ 0 ∷ 1 ∷ replicate 2000 5)

ending-IsLink : IsLink ending
ending-IsLink = record {
  whole = omega (arith, length-replicate {A = ℕ} 2000 5);
  some_left = omega arith;
  most = omega arith;
}

client_run-spoils_example :
    (actions : List Action) × (l' : Link) × (client_run ending
        (timed_out true ∷ received (7 ∷ 8 ∷ []) true ∷ [])
      ≡ (actions, going l'))
    × (processed_bytes actions ≡ heartbeat_type ++ drop 4 (begun ending) ++ (7 ∷ 8 ∷ []))
client_run-spoils_example =
    client_run-spoils ending 7 (8 ∷ []) true ending-IsLink (omega arith) (omega arith) refl
