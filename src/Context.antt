-- ===== src/Context.antt =====
-- Go's context.Context as far as the program uses it: a deadline on the clock, in nanoseconds, or none.
-- What a call makes of its deadline is up to the callee.
use querylynx.Base.{ℕ, ◌+◌, Option, none, some, ltb, if◌then◌else◌}

abbrev pub Context : Type 0
Context = Option ℕ

abbrev pub background : Context
background = none

abbrev pub second : ℕ
second = 1_000_000_000

-- context.WithTimeout at the time `now`: the earlier of the two deadlines holds.
unfoldable pub with_timeout : Context → ℕ → ℕ → Context
with_timeout none now d = some (now + d)
with_timeout (some deadline) now d = some (if ltb deadline (now + d) then deadline else now + d)
