-- ===== src/Poll/HostTests.antt =====
-- Two callers of the host limiter at one host.
use fcfeeds.Prelude.{ℕ, ◌+◌, ◌*◌, refl, arith}
use fcfeeds.Text.{Text, codes, text_eq}
use fcfeeds.Time.{Time, second}
use fcfeeds.Poll.HostLimit.{
  slot_at, set_slot, open_slot, gap_wait, set_phase, World, new_world, enter, lock, wake, release,
  pass, enters, locks, wakes, releases, Reach, here, next,
}
use fcfeeds.Poll.HostSpacing.{Limited, Reach-Limited}

abbrev host : Text
host = codes "example.com"

abbrev gap : ℕ
gap = 2 * second

abbrev start : Time
start = 100 * second

abbrev both_wait : World
both_wait = enter 2 host (enter 1 host (new_world gap start))

abbrev first_asks : World
first_asks = wake 1 host (lock 1 host both_wait)

abbrev first_ends : World
first_ends = release 1 host start first_asks

abbrev second_waits : World
second_waits = lock 2 host first_ends

abbrev gap_over : World
gap_over = record second_waits { now = start + gap }

abbrev second_ends : World
second_ends = release 2 host (start + gap) (wake 2 host gap_over)

two_requests : Reach (new_world gap start) second_ends
unfolding slot_at set_slot open_slot gap_wait set_phase text_eq
two_requests =
    next
      (next
        (next
          (next
            (next
              (next
                (next
                  (next (next here (enters (new_world gap start) 1 host refl))
                    (enters (enter 1 host (new_world gap start)) 2 host refl))
                  (locks both_wait 1 host refl refl))
                (wakes (lock 1 host both_wait) 1 host start refl (omega arith)))
              (releases first_asks 1 host start refl))
            (locks first_ends 2 host refl refl))
          (pass second_waits gap))
        (wakes gap_over 2 host (start + gap) refl (omega arith)))
      (releases (wake 2 host gap_over) 2 host (start + gap) refl)

Reach-Limited_example : Limited gap second_ends
Reach-Limited_example = Reach-Limited gap start second_ends two_requests
