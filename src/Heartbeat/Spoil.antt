-- ===== src/Heartbeat/Spoil.antt =====
-- What a heartbeat of the client of sockapi/demo/heartBeat1 does to a message that is coming in.
use linux_programs.Common.{
  ℕ, zero, suc, ◌+◌, ◌-◌, ◌≤◌, ◌<◌, ◌≡◌, refl, sym, ap, ◌∙◌, arith, Bool, true, false, List, [],
  ◌∷◌, ◌++◌, ltb, length, take, drop, length-drop,
}
use mathlib.Core.List.{append-nil}
use linux_programs.Heartbeat.{
  Link, timed_out, received, going, Action, sent, processed, taken_in, heartbeat_type, client_step,
  rounds, client_run, t1, t2, sizeof_msg,
}
use linux_programs.Heartbeat.Pieces.{
  IsLink, begun, processed_bytes, length-stored, take-stored, take_all,
}

take-typed :
    (n : ℕ) (xs : List ℕ)
    → 4 ≤ n
    → 4 ≤ length xs
    → take n (heartbeat_type ++ drop 4 xs) ≡ heartbeat_type ++ drop 4 (take n xs)
take-typed zero xs h h' = absurd (omega arith)
take-typed (suc zero) xs h h' = absurd (omega arith)
take-typed (suc (suc zero)) xs h h' = absurd (omega arith)
take-typed (suc (suc (suc zero))) xs h h' = absurd (omega arith)
take-typed (suc (suc (suc (suc n)))) [] h h' = absurd (omega arith)
take-typed (suc (suc (suc (suc n)))) (a ∷ []) h h' = absurd (omega arith)
take-typed (suc (suc (suc (suc n)))) (a ∷ b ∷ []) h h' = absurd (omega arith)
take-typed (suc (suc (suc (suc n)))) (a ∷ b ∷ c ∷ []) h h' = absurd (omega arith)
take-typed (suc (suc (suc (suc n)))) (a ∷ b ∷ c ∷ d ∷ xs) h h' = refl

-- A heartbeat of the client spoils a message that is coming in. When its type has come, a round times out
-- and the rest follows, the client processes the message with the type of a heartbeat, whatever type
-- the server has sent, since it puts its own message together in the same variable.
pub client_run-spoils :
    (l : Link) (b : ℕ) (bytes : List ℕ) (ok : Bool)
    → IsLink l
    → l.misses < 3
    → l.cnt ≤ 2000
    → length (b ∷ bytes) ≡ l.cnt
    → (actions : List Action) × (l' : Link) × (client_run l
          (timed_out true ∷ received (b ∷ bytes) ok ∷ [])
        ≡ (actions, going l'))
      × (processed_bytes actions ≡ heartbeat_type ++ drop 4 (begun l) ++ (b ∷ bytes))
unfolding client_run client_step rounds
client_run-spoils l b bytes ok v few typed rest =
    let msg = heartbeat_type ++ drop 4 l.msg in
    let l1 : Link = record l { misses = l.misses + 1; tv_sec = t2; msg = msg } in
    let l2 = taken_in l1 (b ∷ bytes) t1 in
    let v1 : IsLink l1 = record {
      whole = omega (arith, v.whole, length-drop 4 l.msg);
      some_left = v.some_left;
      most = v.most;
    } in
    let alive : ltb 3 (l.misses + 1) ≡ false = ground arith in
    let last : ltb 0 l2.cnt ≡ false = ground arith in
    let none_left : l2.cnt ≡ 0 = omega (arith, rest) in
    (
      sent msg ∷ processed l2.msg ∷ [],
      record l2 { cnt = sizeof_msg },
      rw (alive, last) refl,
      append-nil l2.msg
          ∙ sym (take_all l2.msg sizeof_msg (length-stored l1 (b ∷ bytes) v1 (omega (arith, rest))))
          ∙ ap (λ n. take (sizeof_msg - n) l2.msg) (sym none_left)
          ∙ take-stored l1 (b ∷ bytes) v1 (omega (arith, rest))
          ∙ ap (λ bs. bs ++ (b ∷ bytes))
              (take-typed (sizeof_msg - l.cnt) l.msg (omega arith) (omega (arith, v.whole))),
    )
