-- ===== src/Epoll/Tests.antt =====
-- A table of three clients, and the theorems at it.
use linux_programs.Common.{
  ℕ, zero, suc, ◌+◌, ◌<◌, ◌≡◌, ◌≢◌, refl, inl, arith, true, some, [], ◌∷◌, ltb, if◌then◌else◌,
  get_or, replicate,
}
use linux_programs.Common.Int.{pos, negsuc, ltb_ℤ}
use linux_programs.Epoll.{
  Member, no_member, CliList, add_clilist, del_clilist, transferred, op_read, op_write,
}
use linux_programs.Epoll.Delete.{
  fd_at, Once, del_clilist-absent, add_clilist-del_clilist, op_read-gone,
}

abbrev client : ℕ → Member
client fd = record { fd = fd; ip = 49 ∷ [] }

abbrev clients : CliList
clients = record {
  clilist = client 7 ∷ client 8 ∷ client 9 ∷ replicate 253 no_member;
  tailindex = pos 3;
}

eight_gone : (q : ℕ) → q < 3 → q ≢ 1 → fd_at clients.clilist q ≢ 8
eight_gone zero low other = λ e. omega arith
eight_gone (suc zero) low other = absurd (other refl)
eight_gone (suc (suc zero)) low other = λ e. omega arith
eight_gone (suc (suc (suc q))) low other = absurd (omega arith)

eight-Once : Once clients.clilist 3 1 8
eight-Once = record { inside = omega arith; room = omega arith; there = refl; only = eight_gone }

no_five : (q : ℕ) → q < 3 → fd_at clients.clilist q ≢ 5
no_five zero low = λ e. omega arith
no_five (suc zero) low = λ e. omega arith
no_five (suc (suc zero)) low = λ e. omega arith
no_five (suc (suc (suc q))) low = absurd (omega arith)

del_clilist-absent_example :
    ((del_clilist clients 5).clilist ≡ clients.clilist)
    × ((del_clilist clients 5).tailindex ≡ pos 2)
del_clilist-absent_example = del_clilist-absent clients 3 5 refl (omega arith) no_five

add_clilist-del_clilist_example :
    (l' : CliList) × (add_clilist clients (client 5) ≡ some l')
    × ((del_clilist l' 5).tailindex ≡ pos 3)
    × ((q : ℕ)
        → q < 3
        → get_or (del_clilist l' 5).clilist q no_member ≡ get_or clients.clilist q no_member)
add_clilist-del_clilist_example =
    add_clilist-del_clilist clients 3 (client 5) refl refl (omega arith) no_five

op_read-gone_example :
    (op_write clients 8 (transferred 0) ≡ op_read clients 8 (transferred 0))
    × (ltb_ℤ (op_read clients 8 (transferred 0)).0 (negsuc 0) ≡ true)
    × ((op_read clients 8 (transferred 0)).2 ≡ some 8)
    × ((op_read clients 8 (transferred 0)).1.tailindex ≡ pos 2)
    × ((q : ℕ)
        → q < 2
        → get_or (op_read clients 8 (transferred 0)).1.clilist q no_member
          ≡ get_or clients.clilist (if ltb q 1 then q else q + 1) no_member)
op_read-gone_example = op_read-gone clients 3 1 8 (transferred 0) refl eight-Once (inl refl)
