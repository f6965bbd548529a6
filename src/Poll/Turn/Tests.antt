-- ===== src/Poll/Turn/Tests.antt =====
-- The theorems on a round of the server, at the tables with one connection.
use linux_programs.Common.{ℕ, ◌<◌, ◌≡◌, arith, some}
use linux_programs.Poll.Tables.{Server, client}
use linux_programs.Poll.Tables.Valid.{IsValid}
use linux_programs.Poll.Tables.Sample.{sample, sample-IsValid, sample-positive}
use linux_programs.Poll.Turn.{Received, nothing, receive_loop}
use linux_programs.Poll.Turn.Receive.{after_receive, receive_loop-after_receive}

-- No connection has sent anything.
abbrev quiet : ℕ → Received
quiet i = nothing

receive_loop-after_receive_example :
    (s' : Server) × (receive_loop 1 quiet sample ≡ some s')
    × IsValid s'
    × ((i : ℕ) → i < 10 → client s'.clients i ≡ after_receive (quiet i) (client sample.clients i))
receive_loop-after_receive_example =
    receive_loop-after_receive 1 quiet sample sample-IsValid (omega arith) (omega arith)
      sample-positive
