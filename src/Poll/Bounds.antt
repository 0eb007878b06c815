-- ===== src/Poll/Bounds.antt =====
-- What NextInterval and Backoff compute, in closed form: the loops of config.go do not overflow.
use fcfeeds.Prelude.{
  ℕ, zero, suc, ◌+◌, ◌-◌, ◌*◌, ◌/◌, ◌^◌, ◌≤◌, ◌<◌, max, min, ◌≡◌, refl, sym, ap, subst, ◌⊎◌, inl,
  inr, false, ◌&&◌, ◌||◌, leb, ◌==◌, arith, Bool-cases,
}
use native.Mathlib.Omega.{pow_step}
use native.Mathlib.Nat.{le-div_iff_mul-le, div-mul-le_self}
use fcfeeds.Prelude.Int.{ℤ, pos, negsuc, double-small, clamp_int}
use fcfeeds.Time.{Duration}
use fcfeeds.Poll.Schedule.{
  Config, day, positive_or, at_least, at_most, grow, doublings, next_interval, larger, backoff,
}

double_pow : (b n : ℕ) → 2 * b * 2 ^ n ≡ b * 2 ^ suc n
double_pow b n = grind (arith, pow_step 2 n)

pub le_pow : (b n : ℕ) → b ≤ b * 2 ^ n
le_pow b zero = omega arith
le_pow b (suc n) = omega (arith, sym (double_pow b n), le_pow (2 * b) n)

pow_mono : (b n k : ℕ) → b * 2 ^ n ≤ b * 2 ^ (n + k)
pow_mono b n zero =
    let e : n ≡ n + 0 = omega arith in subst (λ x. b * 2 ^ n ≤ b * 2 ^ x) e (omega arith)
pow_mono b n (suc k) =
    let e : suc (n + k) ≡ n + suc k = omega arith in
    subst (λ x. b * 2 ^ n ≤ b * 2 ^ x) e
      (omega (arith, sym (double_pow b (n + k)), pow_mono b n k, double_le b (n + k)))
  where
    double_le : (b n : ℕ) → b * 2 ^ n ≤ 2 * b * 2 ^ n
    double_le b n = grind arith

doublings_mono : (q a k : ℕ) → doublings q a ≤ doublings q (a + k)
doublings_mono zero a k = omega arith
doublings_mono (suc q) a k =
    (le-div_iff_mul-le {x = a / suc q} (omega arith)).1 (omega (arith, div-mul-le_self a (suc q)))

-- Capped, the loop has doubled n times.
grow_lem :
    (n high base : ℕ)
    → high < 2 ^ 62
    → at_most high (grow n high (pos base)) ≡ pos (min (base * 2 ^ n) high)
unfolding grow
grow_lem zero high base h = ground arith
grow_lem (suc n) high base h =
    ground (
      arith,
      double-small base,
      grow_lem n high (2 * base) h,
      double_pow base n,
      le_pow base (suc n),
    )

-- The base interval of a feed: the publisher's if it is positive.
abbrev pub base_of : Duration → ℤ → ℕ
base_of other (pos zero) = other
base_of other (pos (suc n)) = suc n
base_of other (negsuc n) = other

positive_or_lem : (other : ℕ) (base : ℤ) → positive_or other base ≡ pos (base_of other base)
positive_or_lem other (pos zero) = refl
positive_or_lem other (pos (suc n)) = ground arith
positive_or_lem other (negsuc n) = refl

-- The closed forms need a cap that is less than half of int64's largest.
module _ (c : Config) (cap_small : c.max_interval < 2 ^ 62) where
  -- With MaxInterval below 2 ^ 62, NextInterval is the publisher's interval, or the default if that
  -- is not positive, floored at MinInterval, doubled once for every QuietPollsPerDouble quiet polls,
  -- and capped at MaxInterval, without overflow.
  pub next_interval_lem :
      (ttl : ℤ) (quiet : ℕ)
      → next_interval ttl quiet c
        ≡ pos (
            min
              (max c.min_interval (base_of c.default_interval ttl)
                * 2 ^ doublings c.quiet_polls_per_double quiet)
              c.max_interval)
  unfolding next_interval
  next_interval_lem ttl quiet =
      rw
        (
          positive_or_lem c.default_interval ttl,
          floor c.min_interval (base_of c.default_interval ttl),
        )
        (grow_lem (doublings c.quiet_polls_per_double quiet) c.max_interval _ cap_small)
    where
      floor : (low n : ℕ) → at_least low (pos n) ≡ pos (max low n)
      floor low n = ground arith

  -- With MaxInterval below 2 ^ 62 and MinInterval not above it, NextInterval lies between the two,
  -- and more quiet polls never shorten it, whatever the publisher sends.
  pub next_interval_bounds :
      (ttl : ℤ) (quiet more : ℕ)
      → c.min_interval ≤ c.max_interval
      → (n m : ℕ) × (next_interval ttl quiet c ≡ pos n)
        × (next_interval ttl (quiet + more) c ≡ pos m)
        × (c.min_interval ≤ n)
        × (n ≤ m)
        × (m ≤ c.max_interval)
  next_interval_bounds ttl quiet more h =
      let b = max c.min_interval (base_of c.default_interval ttl) in
      let d = doublings c.quiet_polls_per_double quiet in
      let e = doublings c.quiet_polls_per_double (quiet + more) in
      let up : b * 2 ^ d ≤ b * 2 ^ e =
        pow_le b d e (doublings_mono c.quiet_polls_per_double quiet more) in
      (
        min (b * 2 ^ d) c.max_interval,
        min (b * 2 ^ e) c.max_interval,
        next_interval_lem ttl quiet,
        next_interval_lem ttl (quiet + more),
        omega (arith, le_pow b d),
        omega (arith, up),
        omega arith,
      )
    where
      pow_le : (b d e : ℕ) → d ≤ e → b * 2 ^ d ≤ b * 2 ^ e
      pow_le b d e l = subst (λ x. b * 2 ^ d ≤ b * 2 ^ x) (omega arith) (pow_mono b d (e - d))

-- The wait before jitter: the base, doubled for every failure, capped, or the Retry-After if it is
-- longer.
abbrev pub wait_of : Config → ℤ → ℕ → ℤ → ℕ
wait_of c base fail_count retry_after =
    max (min (base_of c.default_interval base * 2 ^ fail_count) c.max_backoff)
      (clamp_int retry_after)

-- What `jitter` is relied on for: it stays within a tenth, up to rounding to a nanosecond.
abbrev pub Near : ℕ → ℤ → Type 0
Near n w = (k : ℕ) × (w ≡ pos k) × (9 * n ≤ 10 * k + 10) × (10 * k ≤ 11 * n + 10)

-- A feed that its publisher has taken away: 404 or 410, and GoneAfterFailures is reached.
abbrev pub IsGone : Config → ℕ → ℕ → Type 0
IsGone c fail_count status =
    ((status ≡ 404) ⊎ (status ≡ 410)) × (c.gone_after_failures ≤ fail_count)

module _ (jitter : ℤ → ℤ) (c : Config) (cap_small : c.max_backoff < 2 ^ 62) where
  backoff_lem :
      (base : ℤ) (fail_count : ℕ) (retry_after : ℤ) (status : ℕ)
      → ((status == 404 || status == 410) && leb c.gone_after_failures fail_count) ≡ false
      → backoff jitter base fail_count retry_after status c
        ≡ jitter (pos (wait_of c base fail_count retry_after))
  unfolding backoff
  backoff_lem base fail_count retry_after status h =
      rw
        (
          h,
          positive_or_lem c.default_interval base,
          grow_lem fail_count c.max_backoff (base_of c.default_interval base) cap_small,
        )
        (ap jitter (larger_lem retry_after _))
    where
      larger_lem : (r : ℤ) (n : ℕ) → larger r (pos n) ≡ pos (max n (clamp_int r))
      larger_lem (pos r) n = ground arith
      larger_lem (negsuc r) n = ground arith

  -- With MaxBackoff below 2 ^ 62 and a jitter that keeps every duration within a tenth of it, up to
  -- rounding: where the status is 404 or 410 and GoneAfterFailures is reached, the wait is a day;
  -- where not, the wait is within a tenth of the capped exponential wait, or of the Retry-After if
  -- that is longer.
  pub backoff_waits :
      (base : ℤ) (fail_count : ℕ) (retry_after : ℤ) (status : ℕ)
      → ((n : ℕ) → Near n (jitter (pos n)))
      → (IsGone c fail_count status
          × (backoff jitter base fail_count retry_after status c ≡ pos day))
        ⊎ ((¬ IsGone c fail_count status)
            × Near
                (wait_of c base fail_count retry_after)
                (backoff jitter base fail_count retry_after status c))
  backoff_waits base fail_count retry_after status near =
      elim (Bool-cases ((status == 404 || status == 410) && leb c.gone_after_failures fail_count)) [
        | inl gone ↦ inl (ground arith, unfold backoff in ground arith)
        | inr other ↦ inr (
          λ g. ground (arith, g, other),
          subst (Near (wait_of c base fail_count retry_after))
              (sym (backoff_lem base fail_count retry_after status other)) (near _),
        )
      ]
