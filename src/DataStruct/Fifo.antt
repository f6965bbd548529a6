-- ===== src/DataStruct/Fifo.antt =====
-- What a queue promises: items leave in the order in which they came, at most `cap` at a time.
use linux_programs.Common.{
  ℕ, Bool, true, false, Option, none, some, List, [], ◌∷◌, ◌++◌, ltb, if◌then◌else◌, length,
}
use linux_programs.Common.Int.{ℤ}

pub data Op : Type 0 where
  put : ℤ → Op
  get : Op

-- What a caller sees of a call: its result, and the item that a `get` delivers.
abbrev pub Reply : Type 0
Reply = Bool × Option ℤ

unfoldable pub offer : ℕ → List ℤ → ℤ → Bool × List ℤ
offer cap xs x = if ltb (length xs) cap then (true, xs ++ (x ∷ [])) else (false, xs)

unfoldable pub poll : List ℤ → Bool × Option ℤ × List ℤ
poll [] = (false, none, [])
poll (x ∷ xs) = (true, some x, xs)

unfoldable pub run : ℕ → List ℤ → List Op → List Reply
run cap xs [] = []
run cap xs (put x ∷ ops) = let (ok, ys) = offer cap xs x in (ok, none) ∷ run cap ys ops
run cap xs (get ∷ ops) = let (ok, out, ys) = poll xs in (ok, out) ∷ run cap ys ops

-- What a caller's `id` holds after a call that delivers an item or leaves it.
abbrev pub delivered : Option ℤ → ℤ → ℤ
delivered none old = old
delivered (some x) old = x
