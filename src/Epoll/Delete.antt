-- ===== src/Epoll/Delete.antt =====
-- What `del_clilist` does to the table of clients.
use linux_programs.Common.{
  ℕ, zero, suc, ◌+◌, ◌-◌, ◌≤◌, ◌<◌, ◌≡◌, ◌≢◌, refl, sym, ap, ◌∙◌, ◌⊎◌, inl, inr, arith, true, false,
  Bool-cases, some, List, ◌==◌, ltb, if◌then◌else◌, get_or, set, length, length-set, get_or-set_ne,
  get_or-set_self,
}
use linux_programs.Common.Int.{pos, negsuc, ltb_ℤ}
use linux_programs.Epoll.{
  Member, no_member, CliList, add_clilist, shift_loop, del_loop, del_clilist, Io, transferred,
  failed, op_read, op_write,
}

-- The descriptor at a place of the array.
abbrev pub fd_at : List Member → ℕ → ℕ
fd_at xs i = (get_or xs i no_member).fd

shift_loop-away :
    (left j : ℕ) (xs : List Member) (q : ℕ)
    → (q < j) ⊎ (j + left ≤ q)
    → get_or (shift_loop left j xs) q no_member ≡ get_or xs q no_member
unfolding shift_loop
shift_loop-away zero j xs q away = refl
shift_loop-away (suc left) j xs q away =
    let new = get_or xs (j + 1) no_member in
    shift_loop-away left (j + 1) (set xs j new) q (omega arith)
    ∙ get_or-set_ne xs j q new no_member (omega arith)

shift_loop-within :
    (left j : ℕ) (xs : List Member) (q : ℕ)
    → j ≤ q
    → q < j + left
    → j + left < length xs
    → get_or (shift_loop left j xs) q no_member ≡ get_or xs (q + 1) no_member
unfolding shift_loop
shift_loop-within zero j xs q low high inside = absurd (omega arith)
shift_loop-within (suc left) j xs q low high inside =
    let new = get_or xs (j + 1) no_member in
    elim (Bool-cases (j == q)) [
      | inl here ↦
          let at_j : j ≡ q = ground arith in
          shift_loop-away left (j + 1) (set xs j new) q (omega arith)
          ∙ ap (λ i. get_or (set xs j new) i no_member) (sym at_j)
          ∙ get_or-set_self xs j new no_member (omega arith)
          ∙ ap (λ i. get_or xs (i + 1) no_member) at_j
      | inr past ↦
          let behind : j + 1 ≤ q = ground arith in
          shift_loop-within left (j + 1) (set xs j new) q behind (omega arith)
            (omega (arith, length-set xs j new))
          ∙ get_or-set_ne xs j (q + 1) new no_member (omega arith)
    ]

-- The rounds of the outer loop that do not meet the descriptor change nothing.
del_loop-skip :
    (left i tail fd : ℕ) (xs : List Member)
    → ((q : ℕ) → i ≤ q → q < i + left → fd_at xs q ≢ fd)
    → del_loop left i tail fd xs ≡ xs
unfolding del_loop
del_loop-skip zero i tail fd xs other = refl
del_loop-skip (suc left) i tail fd xs other =
    let ne : fd_at xs i ≢ fd = other i (omega arith) (omega arith) in
    let test : (fd_at xs i == fd) ≡ false = ground arith in
    rw test
      (del_loop-skip left (i + 1) tail fd xs (λ q low high. other q (omega arith) (omega arith)))

-- The descriptor stands at `k`, and nowhere else before `tail`.
pub record Once (xs : List Member) (tail k fd : ℕ) : Type 0 where
  pub inside : k < tail
  pub room : tail ≤ length xs
  pub there : fd_at xs k ≡ fd
  pub only : (q : ℕ) → q < tail → q ≢ k → fd_at xs q ≢ fd

del_loop-Once :
    (left i tail fd k : ℕ) (xs : List Member)
    → Once xs tail k fd
    → i + left ≡ tail
    → i ≤ k
    → del_loop left i tail fd xs ≡ shift_loop (tail - 1 - k) k xs
unfolding del_loop
del_loop-Once zero i tail fd k xs o size low = absurd (omega (arith, o.inside))
del_loop-Once (suc left) i tail fd k xs o size low = elim (Bool-cases (i == k)) [
  | inl here ↦
      let at_k : i ≡ k = ground arith in
      let test : (fd_at xs i == fd) ≡ true = ground (arith, o.there, ap (fd_at xs) at_k) in
      rw test (
        ap (λ j. del_loop left (i + 1) tail fd (shift_loop (tail - 1 - j) j xs)) at_k
        ∙ del_loop-skip left (i + 1) tail fd (shift_loop (tail - 1 - k) k xs) (rest at_k))
  | inr past ↦
      let before : i < k = ground arith in
      let ne : fd_at xs i ≢ fd = o.only i (omega (arith, o.inside)) (omega arith) in
      let test : (fd_at xs i == fd) ≡ false = ground arith in
      rw test (del_loop-Once left (i + 1) tail fd k xs o (omega arith) (omega arith))
]
  where
    rest :
        i ≡ k
        → (q : ℕ) → i + 1 ≤ q
        → q < i + 1 + left
        → fd_at (shift_loop (tail - 1 - k) k xs) q ≢ fd
    rest at_k q low' high e = elim (Bool-cases (q == tail - 1)) [
      | inl last ↦ o.only q (omega arith) (omega arith) (
          ap (λ (m : Member). m.fd) (sym (shift_loop-away (tail - 1 - k) k xs q (ground arith)))
          ∙ e)
      | inr inner ↦ o.only (q + 1) (ground arith) (omega arith) (
          ap (λ (m : Member). m.fd)
            (sym (
              shift_loop-within (tail - 1 - k) k xs q (omega arith) (ground arith)
                (omega (arith, o.room, o.inside))))
          ∙ e)
    ]

-- When the descriptor stands in the table once, among the first `tailindex` places, `del_clilist`
-- takes that entry out: the entries before it stay, those behind it move down by one place.
pub del_clilist-Once :
    (l : CliList) (tail k fd : ℕ)
    → l.tailindex ≡ pos tail
    → Once l.clilist tail k fd
    → ((del_clilist l fd).tailindex ≡ pos (tail - 1))
      × ((q : ℕ)
          → q < tail - 1
          → get_or (del_clilist l fd).clilist q no_member
            ≡ get_or l.clilist (if ltb q k then q else q + 1) no_member)
unfolding del_clilist
del_clilist-Once l zero k fd at o = absurd (omega (arith, o.inside))
del_clilist-Once l (suc t) k fd at o =
    let moved = del_loop-Once (suc t) 0 (suc t) fd k l.clilist o (omega arith) (omega arith) in
    (rw at (ap pos (omega arith)), λ q inside. rw (at, moved) (entry q inside))
  where
    entry :
        (q : ℕ)
        → q < suc t - 1
        → get_or (shift_loop (suc t - 1 - k) k l.clilist) q no_member
          ≡ get_or l.clilist (if ltb q k then q else q + 1) no_member
    entry q inside = elim (Bool-cases (ltb q k)) [
      | inl before ↦ rw before (shift_loop-away (suc t - 1 - k) k l.clilist q (ground arith))
      | inr behind ↦ rw behind (
          shift_loop-within (suc t - 1 - k) k l.clilist q (ground arith) (ground arith)
            (omega (arith, o.room, o.inside)))
    ]

-- When the descriptor is not in a table that has entries, `del_clilist` leaves them as they are but
-- still decrements `tailindex`: the last client is lost from the table.
pub del_clilist-absent :
    (l : CliList) (tail fd : ℕ)
    → l.tailindex ≡ pos tail
    → 0 < tail
    → ((q : ℕ) → q < tail → fd_at l.clilist q ≢ fd)
    → ((del_clilist l fd).clilist ≡ l.clilist) × ((del_clilist l fd).tailindex ≡ pos (tail - 1))
unfolding del_clilist
del_clilist-absent l zero fd at more other = absurd (omega arith)
del_clilist-absent l (suc t) fd at more other =
    let same = del_loop-skip (suc t) 0 (suc t) fd l.clilist (λ q low high. other q (omega arith)) in
    (rw at same, rw at (ap pos (omega arith)))

-- A client whose descriptor is not in the table, which has room, can be added; when it is deleted
-- again, the number of clients and the entries of the other clients are as they were.
pub add_clilist-del_clilist :
    (l : CliList) (tail : ℕ) (cli : Member)
    → l.tailindex ≡ pos tail
    → length l.clilist ≡ 256
    → tail < 256
    → ((q : ℕ) → q < tail → fd_at l.clilist q ≢ cli.fd)
    → (l' : CliList) × (add_clilist l cli ≡ some l')
      × ((del_clilist l' cli.fd).tailindex ≡ l.tailindex)
      × ((q : ℕ)
          → q < tail
          → get_or (del_clilist l' cli.fd).clilist q no_member ≡ get_or l.clilist q no_member)
unfolding add_clilist
add_clilist-del_clilist l tail cli at size room other =
    let made : CliList = record { clilist = set l.clilist tail cli; tailindex = pos (tail + 1) } in
    let test : ltb tail 256 ≡ true = ground arith in
    let inside : tail < length l.clilist = omega (arith, size) in
    let kept : (q : ℕ) → q < tail → get_or made.clilist q no_member ≡ get_or l.clilist q no_member =
      λ q low. get_or-set_ne l.clilist tail q cli no_member (omega arith) in
    let (fewer, entries) = del_clilist-Once made (tail + 1) tail cli.fd refl (record {
      inside = omega arith;
      room = omega (arith, length-set l.clilist tail cli);
      there = ap (λ (m : Member). m.fd) (get_or-set_self l.clilist tail cli no_member inside);
      only = λ q low ne h.
          other q (omega arith) (ap (λ (m : Member). m.fd) (sym (kept q (omega arith))) ∙ h);
    }) in
    let count : tail + 1 - 1 ≡ tail = omega arith in
    (
      made,
      rw (at, test),
      fewer ∙ ap pos count ∙ sym at,
      λ q low.
          let first : ltb q tail ≡ true = ground arith in
          entries q (omega arith)
          ∙ ap (λ b. get_or made.clilist (if b then q else q + 1) no_member) first
          ∙ kept q low,
    )

-- A read that finds the peer gone, by end of file or an error, returns less than -1, takes the
-- descriptor out of the epoll set, and takes its entry out of the table, where it stands once; a
-- write does the same.
pub op_read-gone :
    (l : CliList) (tail k fd : ℕ) (io : Io)
    → l.tailindex ≡ pos tail
    → Once l.clilist tail k fd
    → (io ≡ transferred 0) ⊎ (io ≡ failed)
    → (op_write l fd io ≡ op_read l fd io)
      × (ltb_ℤ (op_read l fd io).0 (negsuc 0) ≡ true)
      × ((op_read l fd io).2 ≡ some fd)
      × ((op_read l fd io).1.tailindex ≡ pos (tail - 1))
      × ((q : ℕ)
          → q < tail - 1
          → get_or (op_read l fd io).1.clilist q no_member
            ≡ get_or l.clilist (if ltb q k then q else q + 1) no_member)
unfolding op_read op_write
op_read-gone l tail k fd io at o gone =
    let (fewer, entries) = del_clilist-Once l tail k fd at o in
    elim gone [
      | inl e ↦ rw e (refl, refl, refl, fewer, entries)
      | inr e ↦ rw e (refl, refl, refl, fewer, entries)
    ]
