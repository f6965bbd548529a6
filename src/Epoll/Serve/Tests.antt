-- ===== src/Epoll/Serve/Tests.antt =====
-- The theorems on the loop and the handler, at three clients.
use linux_programs.Common.{
  ℕ, ◌≡◌, ◌≢◌, refl, arith, List, get_or, true, none, some, [], ◌∷◌, ◌++◌, replicate, zero, suc,
  ◌<◌, inr, ◌==◌, if◌then◌else◌,
}
use linux_programs.Common.Int.{pos}
use linux_programs.Epoll.{
  Member, no_member, CliList, Io, transferred, again, op_read, op_write, failed, del_clilist,
}
use linux_programs.Epoll.Serve.{
  Task, Server, Ready, serving, serve_event, serve_events, serve_round, overwritten, broadcast,
  string_in, handle, Handled,
}
use linux_programs.Epoll.Serve.Stale.{Queues, serve_round-stale}
use linux_programs.Epoll.Delete.{fd_at, Once}
use linux_programs.Epoll.Serve.Broadcast.{IsFine, broadcast-skips}

abbrev client : ℕ → Member
client fd = record { fd = fd; ip = 49 ∷ [] }

abbrev clients : CliList
clients = record {
  clilist = client 7 ∷ client 8 ∷ client 9 ∷ replicate 253 no_member;
  tailindex = pos 3;
}

abbrev take_one : ℕ → Io
take_one fd = transferred 1

-- A pool that is the list of its tasks.
abbrev append : List Task → Task → List Task
append tasks t = tasks ++ (t ∷ [])

append-Queues : Queues (List Task) append
append-Queues = record {
  queued = λ tasks. tasks;
  accepts = λ tasks t. true;
  adds = λ tasks t yes'. refl;
}

abbrev ready : ℕ → Ready
ready fd = record { fd = fd; readable = true; accepted = none; nonblocking_ok = true; ip = [] }

abbrev server : Server (List Task)
server = record { clients = clients; pool = []; events = replicate 256 0 }

abbrev task : Task
task = record { function = 50; argument = 0 }

abbrev one_queued : Server (List Task)
one_queued = record server { pool = task ∷ []; events = overwritten (ready 7 ∷ []) server.events }

abbrev two_queued : Server (List Task)
two_queued = record one_queued {
  pool = task ∷ task ∷ [];
  events = overwritten (ready 8 ∷ []) one_queued.events;
}

second_round : serve_round append 3 50 (ready 8 ∷ []) one_queued ≡ serving two_queued
unfolding serve_round serve_events serve_event
second_round = refl

-- The handler of the task for descriptor 7 finds that there is nothing to read from descriptor 8.
abbrev handled : Handled
handled = record { clients = clients; read_from = 8; echoed = some []; greeted = 7 ∷ 8 ∷ 9 ∷ [] }

handles : handle 0 again [] (transferred 1) take_one two_queued ≡ some handled
unfolding handle broadcast string_in op_read op_write
handles = refl

serve_round-stale_example :
    (serve_round append 3 50 (ready 7 ∷ []) server ≡ serving one_queued)
    × (one_queued.pool ≡ server.pool ++ (task ∷ []))
    × (get_or one_queued.events 0 0 ≡ 7)
    × (handled.read_from ≡ 8)
    × (handled.read_from ≢ 7)
unfolding append-Queues
serve_round-stale_example =
    serve_round-stale append-Queues 3 50 server two_queued (ready 7) (ready 8) [] again []
      (transferred 1) take_one handled (omega arith) refl refl (omega arith) second_round handles

-- Every peer takes a byte but that of descriptor 7, which is gone.
abbrev seven_gone : ℕ → Io
seven_gone fd = if fd == 7 then failed else transferred 1

others : (q : ℕ) → q < 3 → q ≢ 0 → fd_at clients.clilist q ≢ 7
others zero low other = absurd (other refl)
others (suc zero) low other = λ e. omega arith
others (suc (suc zero)) low other = λ e. omega arith
others (suc (suc (suc q))) low other = absurd (omega arith)

others-IsFine : (q : ℕ) → q < 3 → q ≢ 0 → IsFine (seven_gone (fd_at clients.clilist q))
others-IsFine zero low other = absurd (other refl)
others-IsFine (suc zero) low other = inr (0, refl)
others-IsFine (suc (suc zero)) low other = inr (0, refl)
others-IsFine (suc (suc (suc q))) low other = absurd (omega arith)

seven-Once : Once clients.clilist 3 0 7
seven-Once = record { inside = omega arith; room = omega arith; there = refl; only = others }

broadcast-skips_example : broadcast 3 0 seven_gone clients ≡ (del_clilist clients 7, 7 ∷ 9 ∷ [])
broadcast-skips_example =
    broadcast-skips clients 3 0 7 seven_gone refl seven-Once (inr refl) others-IsFine
