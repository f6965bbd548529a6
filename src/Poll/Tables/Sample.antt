-- ===== src/Poll/Tables/Sample.antt =====
-- The tables with one connection, for the tests.
use linux_programs.Common.{
  ℕ, zero, suc, ◌<◌, ◌≡◌, ◌≢◌, refl, ap, arith, Option, none, some, ◌∷◌, replicate,
}
use mathlib.Core.Path.{subst}
use linux_programs.Poll.{Connection, blank}
use linux_programs.Poll.Tables.{
  client, Server, find_unused, find_fd, find_watched, watch, opened, establish,
}
use linux_programs.Poll.Tables.Valid.{IsValid}
use linux_programs.Poll.Tables.Start.{empty, empty-IsValid, every_blank}
use linux_programs.Poll.Tables.Open.{establish-Opens}

-- A connection on descriptor 7 at place 2.
abbrev pub sample : Server
sample = record {
  watched = none ∷ none ∷ none ∷ some 7 ∷ replicate 9 none;
  clients = blank ∷ blank ∷ opened 9 4 7 ∷ replicate 7 blank;
  active = 1;
}

established : (establish 9 4 (some 7) empty).1 ≡ sample
unfolding establish find_unused watch find_watched find_fd blank
established = refl

pub sample-IsValid : IsValid sample
sample-IsValid =
    subst IsValid established (establish-Opens 9 4 (some 7) empty empty-IsValid (omega arith)).valid

-- The descriptor, 0 for -1.
abbrev fd_of : Option ℕ → ℕ
fd_of none = 0
fd_of (some fd) = fd

-- It is not on descriptor 0.
pub sample-positive : (i : ℕ) → i < 10 → (client sample.clients i).socket ≢ some 0
unfolding opened blank
sample-positive zero low e = absurd (cc e)
sample-positive (suc zero) low e = absurd (cc e)
sample-positive (suc (suc zero)) low e = absurd (omega (arith, ap fd_of e))
sample-positive (suc (suc (suc i))) low e =
    absurd (cc (e, ap (λ (c : Connection). c.socket) (every_blank 7 i)))
