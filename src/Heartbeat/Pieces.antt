-- ===== src/Heartbeat/Pieces.antt =====
-- A message of sockapi/demo/heartBeat1 that is put together from the pieces that `recv` gives.
use linux_programs.Common.{
  ℕ, ◌+◌, ◌-◌, ◌≤◌, ◌<◌, ◌≡◌, refl, sym, ap, ◌∙◌, arith, List, [], ◌∷◌, ◌++◌, length, take, drop,
  length-append, length-take, length-drop,
}
use mathlib.Core.List.{append_assoc, append-nil}
use linux_programs.Heartbeat.{Link, Action, sent, processed, stored, sizeof_msg}

-- The variables of a loop that waits for `cnt` more bytes of a message.
pub record IsLink (l : Link) : Type 0 where
  pub whole : length l.msg ≡ sizeof_msg
  pub some_left : 0 < l.cnt
  pub most : l.cnt ≤ sizeof_msg

-- The bytes of the message that have come.
abbrev pub begun : Link → List ℕ
begun l = take (sizeof_msg - l.cnt) l.msg

-- The messages that were processed, one behind the other.
abbrev pub processed_bytes : List Action → List ℕ
processed_bytes [] = []
processed_bytes (processed msg ∷ actions) = msg ++ processed_bytes actions
processed_bytes (sent msg ∷ actions) = processed_bytes actions

take-append : (xs ys : List ℕ) → take (length xs) (xs ++ ys) ≡ xs
take-append [] ys = refl
take-append (x ∷ xs) ys = ap (λ zs. x ∷ zs) (take-append xs ys)

-- What a piece of a message does to the bytes that have come.
pub length-stored :
    (l : Link) (bytes : List ℕ)
    → IsLink l
    → length bytes ≤ l.cnt
    → length (stored l bytes) ≡ sizeof_msg
length-stored l bytes v fits =
    let front = take (sizeof_msg - l.cnt) l.msg in
    let back = drop (sizeof_msg - l.cnt + length bytes) l.msg in
    omega (
      arith,
      length-append front (bytes ++ back),
      length-append bytes back,
      length-take (sizeof_msg - l.cnt) l.msg,
      length-drop (sizeof_msg - l.cnt + length bytes) l.msg,
      v.whole,
      v.some_left,
      v.most,
      fits,
    )

pub take-stored :
    (l : Link) (bytes : List ℕ)
    → IsLink l
    → length bytes ≤ l.cnt
    → take (sizeof_msg - (l.cnt - length bytes)) (stored l bytes) ≡ begun l ++ bytes
take-stored l bytes v fits =
    let front = take (sizeof_msg - l.cnt) l.msg in
    let back = drop (sizeof_msg - l.cnt + length bytes) l.msg in
    let size : sizeof_msg - (l.cnt - length bytes) ≡ length (front ++ bytes) = omega (
      arith,
      length-append front bytes,
      length-take (sizeof_msg - l.cnt) l.msg,
      v.whole,
      v.most,
      fits,
    ) in
    ap (λ n. take n (stored l bytes)) size
    ∙ ap (take (length (front ++ bytes))) (sym (append_assoc front bytes back))
    ∙ take-append (front ++ bytes) back

pub take_all : (xs : List ℕ) (n : ℕ) → length xs ≡ n → take n xs ≡ xs
take_all xs n same =
    ap (λ k. take k xs) (sym same) ∙ ap (take (length xs)) (sym (append-nil xs)) ∙ take-append xs []
