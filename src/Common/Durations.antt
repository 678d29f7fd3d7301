-- ===== src/Common/Durations.antt =====
-- time.Duration: a number of nanoseconds.
use Prim.Native.Nat.{ℕ, ◌*◌}
use gochoreo.Common.Int.{ℤ, pos}

abbrev pub milliseconds : ℕ → ℤ
milliseconds n = pos (n * 1000000)

abbrev pub seconds : ℕ → ℤ
seconds n = pos (n * 1000000000)

abbrev pub minutes : ℕ → ℤ
minutes n = pos (n * 60000000000)

abbrev pub hours : ℕ → ℤ
hours n = pos (n * 3600000000000)
