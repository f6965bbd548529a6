-- ===== src/Epoll/Serve/Broadcast.antt =====
-- Which clients the loop of `handle` writes to.
use linux_programs.Common.{
  ℕ, zero, suc, ◌+◌, ◌-◌, ◌≤◌, ◌<◌, ◌≡◌, ◌≢◌, refl, sym, ap, ap₂, ◌∙◌, ◌⊎◌, inl, inr, arith, true,
  false, Bool-cases, List, [], ◌∷◌, ◌++◌, ltb, ◌==◌, if◌then◌else◌,
}
use mathlib.Core.Path.{subst}
use linux_programs.Common.Int.{pos}
use linux_programs.Epoll.{Member, CliList, del_clilist, Io, transferred, again, failed, op_write}
use linux_programs.Epoll.Delete.{fd_at, Once, del_clilist-Once}
use linux_programs.Epoll.Serve.{below, broadcast}

-- A write that does not find the peer gone.
abbrev pub IsFine : Io → Type 0
IsFine io = (io ≡ again) ⊎ ((n : ℕ) × (io ≡ transferred (suc n)))

-- The descriptors at `n` places from `i` on.
abbrev pub fds_from : (n i : ℕ) → List Member → List ℕ
fds_from zero i xs = []
fds_from (suc n) i xs = fd_at xs i ∷ fds_from n (i + 1) xs

op_write-IsFine : (l : CliList) (fd : ℕ) (io : Io) → IsFine io → (op_write l fd io).1 ≡ l
unfolding op_write
op_write-IsFine l fd io (inl e) = rw e refl
op_write-IsFine l fd io (inr (n, e)) = rw e refl

broadcast-rest :
    (left i tail : ℕ) (writes : ℕ → Io) (l : CliList)
    → l.tailindex ≡ pos tail
    → tail ≤ i + left
    → ((q : ℕ) → i ≤ q → q < tail → IsFine (writes (fd_at l.clilist q)))
    → broadcast left i writes l ≡ (l, fds_from (tail - i) i l.clilist)
unfolding broadcast
broadcast-rest zero i tail writes l at enough fine =
    let over : tail - i ≡ 0 = omega (arith, enough) in rw over refl
broadcast-rest (suc left) i tail writes l at enough fine = elim (Bool-cases (ltb i tail)) [
  | inl inside ↦
      let more : below i l.tailindex ≡ true = ap (below i) at ∙ inside in
      let count : tail - i ≡ suc (tail - (i + 1)) = ground arith in
      let kept =
        op_write-IsFine l (fd_at l.clilist i) (writes (fd_at l.clilist i))
          (fine i (omega arith) (ground arith)) in
      rw
        (
          broadcast,
          more,
          kept,
          count,
          broadcast-rest left (i + 1) tail writes l at (omega (arith, enough))
              (λ q low high. fine q (omega arith) high),
        )
        refl
  | inr over ↦
      let no_more : below i l.tailindex ≡ false = ap (below i) at ∙ over in
      let none_left : tail - i ≡ 0 = ground arith in rw (broadcast, no_more, none_left) refl
]

-- When no write finds a peer gone, `handle` writes to every client of the table, once and in order, and
-- the table stays as it is.
pub broadcast-all :
    (l : CliList) (tail : ℕ) (writes : ℕ → Io)
    → l.tailindex ≡ pos tail
    → ((q : ℕ) → q < tail → IsFine (writes (fd_at l.clilist q)))
    → broadcast tail 0 writes l ≡ (l, fds_from tail 0 l.clilist)
broadcast-all l tail writes at fine =
    broadcast-rest tail 0 tail writes l at (omega arith) (λ q low high. fine q high)
    ∙ ap (λ n. (l, fds_from n 0 l.clilist)) (omega arith)

-- A descriptor of a peer that is gone.
abbrev pub IsGone : Io → Type 0
IsGone io = (io ≡ transferred 0) ⊎ (io ≡ failed)

op_write-IsGone :
    (l : CliList) (fd : ℕ) (io : Io) → IsGone io → (op_write l fd io).1 ≡ del_clilist l fd
unfolding op_write
op_write-IsGone l fd io (inl e) = rw e refl
op_write-IsGone l fd io (inr e) = rw e refl

fds_from-moved :
    (n i : ℕ) (xs ys : List Member)
    → ((q : ℕ) → i ≤ q → q < i + n → fd_at xs q ≡ fd_at ys (q + 1))
    → fds_from n i xs ≡ fds_from n (i + 1) ys
fds_from-moved zero i xs ys moved = refl
fds_from-moved (suc n) i xs ys moved =
    ap₂ (λ fd fds. fd ∷ fds) (moved i (omega arith) (omega arith))
      (fds_from-moved n (i + 1) xs ys (λ q low high. moved q (omega arith) (omega arith)))

module _ (l : CliList) (tail k fd : ℕ) (writes : ℕ → Io) (at : l.tailindex ≡ pos tail)
    (once : Once l.clilist tail k fd) (gone : IsGone (writes fd))
    (fine : (q : ℕ) → q < tail → q ≢ k → IsFine (writes (fd_at l.clilist q))) where
  -- The loop behind the client that is gone.
  broadcast-behind :
      (left : ℕ)
      → tail ≤ k + 1 + left
      → broadcast left (k + 1) writes (del_clilist l fd)
        ≡ (del_clilist l fd, fds_from (tail - k - 2) (k + 2) l.clilist)
  broadcast-behind left enough =
      let (fewer, entries) = del_clilist-Once l tail k fd at once in
      let entry : (q : ℕ)
          → k + 1 ≤ q
          → q < tail - 1
          → fd_at (del_clilist l fd).clilist q ≡ fd_at l.clilist (q + 1) =
        λ q low high.
          let past : ltb q k ≡ false = ground arith in
          ap (λ (m : Member). m.fd) (entries q high)
          ∙ ap (λ b. fd_at l.clilist (if b then q else q + 1)) past in
      let count : tail - 1 - (k + 1) ≡ tail - k - 2 = omega arith in
      broadcast-rest left (k + 1) (tail - 1) writes (del_clilist l fd) fewer (omega arith)
        (λ q low high.
          subst (λ d. IsFine (writes d)) (sym (entry q low high))
            (fine (q + 1) (omega arith) (omega arith)))
      ∙ ap (λ fds. (del_clilist l fd, fds))
          (ap (λ n. fds_from n (k + 1) (del_clilist l fd).clilist) count
            ∙ fds_from-moved (tail - k - 2) (k + 1) (del_clilist l fd).clilist l.clilist
                (λ q low high. entry q low (omega arith))
            ∙ ap (λ i. fds_from (tail - k - 2) i l.clilist) (omega arith))

  broadcast-at :
      (left : ℕ)
      → tail ≤ k + suc left
      → broadcast (suc left) k writes l
        ≡ (del_clilist l fd, fd ∷ fds_from (tail - k - 2) (k + 2) l.clilist)
  unfolding broadcast
  broadcast-at left enough =
      let more : below k l.tailindex ≡ true = ap (below k) at ∙ ground (arith, once.inside) in
      let dropped : (op_write l (fd_at l.clilist k) (writes (fd_at l.clilist k))).1
          ≡ del_clilist l fd =
        ap (λ d. (op_write l d (writes d)).1) once.there ∙ op_write-IsGone l fd (writes fd) gone in
      rw (broadcast, more, dropped, broadcast-behind left (omega (arith, enough)))
        (rw once.there refl)

  broadcast-from :
      (left i : ℕ)
      → i ≤ k
      → tail ≤ i + left
      → broadcast left i writes l ≡ (
        del_clilist l fd,
        fds_from (k - i) i l.clilist ++ (fd ∷ fds_from (tail - k - 2) (k + 2) l.clilist),
      )
  unfolding broadcast
  broadcast-from zero i low enough = absurd (omega (arith, once.inside, enough))
  broadcast-from (suc left) i low enough =
      let more : below i l.tailindex ≡ true = ap (below i) at ∙ ground (arith, once.inside) in
      elim (Bool-cases (i == k)) [
        | inl here ↦
            let at_k : i ≡ k = ground arith in
            let none_before : 0 ≡ k - i = ground arith in
            ap (λ j. broadcast (suc left) j writes l) at_k
            ∙ broadcast-at left (omega (arith, enough))
            ∙ ap
                (λ n. (
                  del_clilist l fd,
                  fds_from n i l.clilist ++ (fd ∷ fds_from (tail - k - 2) (k + 2) l.clilist),
                ))
                none_before
        | inr past ↦
            let before : i < k = ground arith in
            let count : k - i ≡ suc (k - (i + 1)) = omega arith in
            let kept =
              op_write-IsFine l (fd_at l.clilist i) (writes (fd_at l.clilist i))
                (fine i (omega (arith, once.inside)) (omega arith)) in
            rw
              (
                broadcast,
                more,
                kept,
                count,
                broadcast-from left (i + 1) (omega arith) (omega (arith, enough)),
              )
              refl
      ]

-- When the peer of one client is gone, `handle` takes that client out of the table while it goes over
-- it: it writes to every other client once and in order, but for the one right behind, which moves
-- to the place that has been dealt with and gets nothing.
pub broadcast-skips :
    (l : CliList) (tail k fd : ℕ) (writes : ℕ → Io)
    → l.tailindex ≡ pos tail
    → Once l.clilist tail k fd
    → IsGone (writes fd)
    → ((q : ℕ) → q < tail → q ≢ k → IsFine (writes (fd_at l.clilist q)))
    → broadcast tail 0 writes l ≡ (
      del_clilist l fd,
      fds_from k 0 l.clilist ++ (fd ∷ fds_from (tail - k - 2) (k + 2) l.clilist),
    )
broadcast-skips l tail k fd writes at once gone fine =
    broadcast-from l tail k fd writes at once gone fine tail 0 (omega arith) (omega arith)
    ∙ ap
        (λ n. (
          del_clilist l fd,
          fds_from n 0 l.clilist ++ (fd ∷ fds_from (tail - k - 2) (k + 2) l.clilist),
        ))
        (omega arith)
