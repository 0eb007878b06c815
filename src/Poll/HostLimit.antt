-- ===== src/Poll/HostLimit.antt =====
-- internal/poll/hostlimit.go: the slots of the hosts, and the callers of acquire as a step relation
-- on the limiter, the clock and what each caller is doing. A mutex is a Boolean; which caller locks
-- a free one is the environment's choice, and so are the times at which the steps are taken.
use fcfeeds.Prelude.{
  ℕ, ◌+◌, ◌-◌, ◌≤◌, ◌≡◌, Bool, true, false, Option, none, some, List, [], ◌∷◌, if◌then◌else◌, ◌==◌,
}
use fcfeeds.Text.{Text, text_eq}
use fcfeeds.Time.{Time, Duration}

-- `last` is absent where it is the zero time.
pub record HostSlot : Type 0 where
  pub mu : Bool
  pub last : Option Time

abbrev pub Slots : Type 0
Slots = List (Text × HostSlot)

pub record HostLimiter : Type 0 where
  pub gap : Duration
  pub slots : Slots

abbrev pub new_host_limiter : Duration → HostLimiter
new_host_limiter gap = record { gap = gap; slots = [] }

abbrev pub new_slot : HostSlot
new_slot = record { mu = false; last = none }

unfoldable pub slot_at : Text → Slots → HostSlot
slot_at host [] = new_slot
slot_at host ((h, s) ∷ ss) = let rest = slot_at host ss in if text_eq h host then s else rest

-- l.slots[host] = s
unfoldable pub set_slot : Text → HostSlot → Slots → Slots
set_slot host s [] = (host, s) ∷ []
set_slot host s ((h, t) ∷ ss) =
    let rest = set_slot host s ss in if text_eq h host then (h, s) ∷ ss else (h, t) ∷ rest

-- `if !ok` under l.mu: a missing slot is made, and one that is there stays as it is
unfoldable pub open_slot : Text → Slots → Slots
unfolding slot_at set_slot
open_slot host ss = set_slot host (slot_at host ss) ss

-- the wait of a caller that has locked the slot: the time since the zero time is the largest
-- duration, so nobody waits there
unfoldable pub gap_wait : Duration → Time → Option Time → Duration
gap_wait gap now none = 0
gap_wait gap now (some last) = gap - (now - last)

-- What a caller is doing: nothing, waiting for the lock of the host's slot, asleep with the lock
-- until a time, or at its request since a time.
pub data Phase : Type 0 where
  idle : Phase
  queued : Text → Phase
  asleep : Text → Time → Phase
  running : Text → Time → Phase

-- A request that has ended: from the return of acquire to the release.
pub record Request : Type 0 where
  pub host : Text
  pub start : Time
  pub stop : Time

-- The history has the latest request first.
pub record World : Type 0 where
  pub now : Time
  pub limiter : HostLimiter
  pub phase : ℕ → Phase
  pub history : List Request

abbrev pub new_world : Duration → Time → World
new_world gap now = record {
  now = now;
  limiter = new_host_limiter gap;
  phase = λ n. idle;
  history = [];
}

unfoldable pub set_phase : ℕ → Phase → (ℕ → Phase) → ℕ → Phase
set_phase n p f m = if m == n then p else f m

-- the part of acquire under l.mu
abbrev pub enter : ℕ → Text → World → World
enter n host w = record w {
  limiter = record w.limiter { slots = open_slot host w.limiter.slots };
  phase = set_phase n (queued host) w.phase;
}

-- s.mu.Lock(), and the time to sleep until
abbrev pub lock : ℕ → Text → World → World
lock n host w =
    let s = slot_at host w.limiter.slots in
    record w {
      limiter = record w.limiter { slots = set_slot host (record s { mu = true }) w.limiter.slots };
      phase = set_phase n (asleep host (w.now + gap_wait w.limiter.gap w.now s.last)) w.phase;
    }

-- the return of acquire
abbrev pub wake : ℕ → Text → World → World
wake n host w = record w { phase = set_phase n (running host w.now) w.phase }

-- the function that acquire returns
abbrev pub release : ℕ → Text → Time → World → World
release n host since w = record w {
  limiter = record w.limiter {
    slots = set_slot host (record { mu = false; last = some w.now }) w.limiter.slots;
  };
  phase = set_phase n idle w.phase;
  history = record { host = host; start = since; stop = w.now } ∷ w.history;
}

pub data Step : World → World → Type 0 where
  pass : (w : World) (d : Duration) → Step w (record w { now = w.now + d })
  enters : (w : World) (n : ℕ) (host : Text) → w.phase n ≡ idle → Step w (enter n host w)
  locks :
      (w : World) (n : ℕ) (host : Text)
      → w.phase n ≡ queued host
      → (slot_at host w.limiter.slots).mu ≡ false
      → Step w (lock n host w)
  wakes :
      (w : World) (n : ℕ) (host : Text) (until : Time)
      → w.phase n ≡ asleep host until
      → until ≤ w.now
      → Step w (wake n host w)
  releases :
      (w : World) (n : ℕ) (host : Text) (since : Time)
      → w.phase n ≡ running host since
      → Step w (release n host since w)

pub data Reach (u : World) : World → Type 0 where
  here : Reach u u
  next : {v w : World} → Reach u v → Step v w → Reach u w
