-- ===== src/Time.antt =====
-- Go's time.Time and time.Duration. An instant is the number of nanoseconds since a fixed origin
-- that lies on a whole second before every instant in use; so an instant is a natural number, and
-- the program's comparisons, differences and truncations to seconds do not depend on the origin.
-- Unix seconds are counted from the same origin. A duration is a number of nanoseconds.
use fcfeeds.Prelude.{ℕ, ◌*◌, ◌/◌, ◌≤◌, ◌<◌, ◌+◌, ◌≡◌, arith}

abbrev pub Time : Type 0
Time = ℕ

abbrev pub Duration : Type 0
Duration = ℕ

abbrev pub second : Duration
second = 1_000_000_000

abbrev pub minute : Duration
minute = 60 * second

abbrev pub hour : Duration
hour = 60 * minute

-- t.Unix()
abbrev pub unix : Time → ℕ
unix t = t / second

-- time.Unix(s, 0)
abbrev pub from_unix : ℕ → Time
from_unix s = s * second

pub unix-from_unix : (s : ℕ) → unix (from_unix s) ≡ s
unix-from_unix s = omega arith

-- Truncation to seconds moves an instant back by less than a second.
pub from_unix-unix : (t : Time) → (from_unix (unix t) ≤ t) × (t < from_unix (unix t) + second)
from_unix-unix t = (omega arith, omega arith)
