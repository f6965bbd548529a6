-- ===== src/DataStruct/ArrayQueue/Refine.antt =====
-- A circular array behaves as a bounded queue of `QLen - 1` items.
use linux_programs.Common.{
  suc, ◌+◌, ◌-◌, ◌%◌, ◌^◌, ◌≤◌, ◌<◌, ◌≡◌, refl, sym, ap, ◌∙◌, arith, true, false, none, some, List,
  [], ◌∷◌, ◌++◌, length, get_elem?, set, ltb, ◌==◌, if◌then◌else◌, length-set, Bool-cases, inl, inr,
  get_elem?-get_or,
}
use linux_programs.Common.Int.{ℤ, pos}
use linux_programs.Common.Ring.{
  around, slots, next-mod, length-snoc, slots-set_next, index_lt, step_index,
}
use native.Mathlib.Nat.{mod-eq_of_lt}
use linux_programs.DataStruct.Fifo
use linux_programs.DataStruct.Fifo.{Op, put, get, offer, poll, delivered}
use linux_programs.DataStruct.ArrayQueue.{Queue, init_queue, en_queue, de_queue, run}

-- `q` holds the items `xs`, oldest first.
pub record Holds (q : Queue) (xs : List ℤ) : Type 0 where
  pub items : List ℤ
  pub storage : q.item ≡ some items
  pub room : q.qlen ≤ length items
  pub fits_int : q.qlen < 2 ^ 31
  pub head_in : q.head < q.qlen
  pub short : length xs < q.qlen
  pub tail_at : q.tail ≡ (q.head + length xs) % q.qlen
  pub order : slots q.qlen (pos 0) items q.head (length xs) ≡ xs

module _ {q : Queue} {xs : List ℤ} (h : Holds q xs) where
  tail_in : q.tail < q.qlen
  tail_in = omega (arith, h.tail_at, index_lt q.qlen (q.head + length xs))

  -- The tests of the code, by the number of items.
  full_test : ((q.tail + 1) % q.qlen == q.head) ≡ (length xs + 1 == q.qlen)
  full_test = ground (
    arith,
    h.tail_at,
    around q.qlen q.head (length xs) h.head_in (omega arith),
    around q.qlen q.tail 1 tail_in (omega arith),
  )

  empty_test : (q.head == q.tail) ≡ (length xs == 0)
  empty_test = ground (arith, h.tail_at, around q.qlen q.head (length xs) h.head_in (omega arith))

  -- `EnQueue` on a queue with room stores the item behind the others.
  en_queue-room :
      (x : ℤ)
      → length xs + 1 < q.qlen
      → (q' : Queue) × (en_queue q x ≡ some (true, q'))
        × Holds q' (xs ++ (x ∷ []))
        × (q'.qlen ≡ q.qlen)
  unfolding en_queue
  en_queue-room x r =
      let i = q.tail in
      let items' = set h.items q.tail x in
      let nz : (q.qlen == 0) ≡ false = ground arith in
      let room : (length xs + 1 == q.qlen) ≡ false = ground arith in
      let inside : ltb q.tail (length h.items) ≡ true = ground (arith, tail_in) in
      (
        record q { item = some items'; tail = (q.tail + 1) % q.qlen },
        rw (nz, full_test, room, h.storage, inside) refl,
        record {
          items = items';
          storage = refl;
          room = omega (arith, length-set h.items q.tail x);
          fits_int = h.fits_int;
          head_in = h.head_in;
          short = omega (arith, length-snoc xs x);
          tail_at =
              ap (λ t. (t + 1) % q.qlen) h.tail_at
              ∙ (next-mod q.qlen q.head (length xs)
                  ∙ ap (λ n. (q.head + n) % q.qlen) (sym (length-snoc xs x)));
          order =
              ap (λ n. slots q.qlen (pos 0) items' q.head n) (length-snoc xs x)
              ∙ (ap (λ t. slots q.qlen (pos 0) (set h.items t x) q.head (suc (length xs))) h.tail_at
                  ∙ (slots-set_next q.qlen (pos 0) h.items x q.head (length xs) h.room h.head_in
                        (omega arith)
                      ∙ ap (λ ys. ys ++ (x ∷ [])) h.order));
        },
        refl,
      )

  -- `EnQueue` on a full queue returns false and changes nothing.
  en_queue-full : (x : ℤ) → length xs + 1 ≡ q.qlen → en_queue q x ≡ some (false, q)
  unfolding en_queue
  en_queue-full x e =
      let nz : (q.qlen == 0) ≡ false = ground arith in
      let full : (length xs + 1 == q.qlen) ≡ true = ground arith in rw (nz, full_test, full) refl

-- On a queue that holds `xs`, `EnQueue` is the offer of a bounded queue of `QLen - 1` places: same
-- result, no access out of range, and the new structure holds what the bounded queue holds.
pub en_queue-offer :
    {q : Queue} {xs : List ℤ} (x : ℤ)
    → Holds q xs
    → (q' : Queue) × (en_queue q x ≡ some ((offer (q.qlen - 1) xs x).0, q'))
      × Holds q' (offer (q.qlen - 1) xs x).1
      × (q'.qlen ≡ q.qlen)
unfolding offer
en_queue-offer {q} {xs} x h = elim (Bool-cases (ltb (length xs) (q.qlen - 1))) [
  | inl yes' ↦
      let (q', ran, held, size) = en_queue-room h x (ground arith) in rw yes' (q', ran, held, size)
  | inr no' ↦ rw no' (q, en_queue-full h x (ground arith), h, refl)
]

-- On a queue that holds `xs`, `DeQueue` is the poll of a queue: it fails exactly on the empty one,
-- and then changes neither the structure nor `Item`; else it delivers the oldest item.
pub de_queue-poll :
    {q : Queue} (xs : List ℤ) (id : ℤ)
    → Holds q xs
    → (q' : Queue) × (de_queue q id ≡ some ((poll xs).0, delivered (poll xs).1 id, q'))
      × Holds q' (poll xs).2
      × (q'.qlen ≡ q.qlen)
unfolding de_queue poll
de_queue-poll {q} [] id h = (q, rw (empty_test h), h, refl)
de_queue-poll {q} (x ∷ xs) id h =
    let nz : (q.qlen == 0) ≡ false = ground arith in
    let nonempty : (length (x ∷ xs) == 0) ≡ false = ground arith in
    let first : get_elem? h.items q.head ≡ some x =
      get_elem?-get_or h.items q.head (pos 0) (omega arith) ∙ cc h.order in
    (
      record q { head = (q.head + 1) % q.qlen },
      rw (empty_test h, nonempty, h.storage, first, nz),
      record {
        items = h.items;
        storage = h.storage;
        room = h.room;
        fits_int = h.fits_int;
        head_in = index_lt q.qlen (q.head + 1) (omega arith);
        short = omega arith;
        tail_at = h.tail_at ∙ sym (step_index q.qlen (pos 0) q.head (length xs));
        order = cc h.order;
      },
      refl,
    )

reply_of_poll :
    (xs : List ℤ)
    → (if (poll xs).0 then some (delivered (poll xs).1 (pos 0)) else none) ≡ (poll xs).1
unfolding poll
reply_of_poll [] = refl
reply_of_poll (x ∷ xs) = refl

-- No sequence of calls tells a circular array that holds `xs` from the bounded queue of `QLen - 1`
-- places, and none reads or writes out of range.
pub run_refines :
    (ops : List Op) (q : Queue) (xs : List ℤ)
    → Holds q xs
    → run q ops ≡ some (Fifo.run (q.qlen - 1) xs ops)
unfolding run Fifo.run
run_refines [] q xs h = refl
run_refines (put x ∷ ops) q xs h =
    let (q', ran, held, size) = en_queue-offer x h in
    rw (ran, run_refines ops q' (offer (q.qlen - 1) xs x).1 held, size)
run_refines (get ∷ ops) q xs h =
    let (q', ran, held, size) = de_queue-poll xs (pos 0) h in
    rw (ran, run_refines ops q' (poll xs).2 held, size, reply_of_poll xs)

init_queue-Holds :
    (storage : List ℤ) (q : Queue)
    → 0 < q.qlen
    → q.qlen < 2 ^ 31
    → length storage ≡ q.qlen
    → Holds (init_queue (some storage) q).1 []
unfolding init_queue
init_queue-Holds storage q positive fits size = record {
  items = storage;
  storage = refl;
  room = omega arith;
  fits_int = fits;
  head_in = positive;
  short = positive;
  tail_at = omega arith;
  order = refl;
}

-- After `InitQueue` with a positive `QLen` for which `malloc` gave the array, whatever it contains,
-- every sequence of calls of `EnQueue` and `DeQueue` returns what a bounded queue of `QLen - 1`
-- places returns that starts empty, and none reads or writes out of range.
pub run-init_queue :
    (storage : List ℤ) (q : Queue) (ops : List Op)
    → 0 < q.qlen
    → q.qlen < 2 ^ 31
    → length storage ≡ q.qlen
    → run (init_queue (some storage) q).1 ops ≡ some (Fifo.run (q.qlen - 1) [] ops)
unfolding init_queue
run-init_queue storage q ops positive fits size =
    run_refines ops _ [] (init_queue-Holds storage q positive fits size)

-- `InitQueue` does not test what `malloc` returned: when that is NULL it still returns true, and
-- then the first `EnQueue`, with `QLen` at least 2, writes through NULL.
pub init_queue-null :
    (q : Queue) (x : ℤ)
    → 1 < q.qlen
    → ((init_queue none q).0 ≡ true) × (en_queue (init_queue none q).1 x ≡ none)
unfolding init_queue en_queue
init_queue-null q x h = (refl, ground (arith, mod-eq_of_lt {n = 1} {m = q.qlen} h))
