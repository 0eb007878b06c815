-- ===== src/Config/Tests.antt =====
-- The configuration of an empty environment, and of one that asks for a poll every three hours.
use fcfeeds.Prelude.{
  ℕ, ◌*◌, ◌≤◌, ◌≡◌, refl, ◌↔◌, ◌⊎◌, inl, inr, Option, none, [], if◌then◌else◌, min,
}
use fcfeeds.Prelude.Int.{ℤ, pos, clamp_int}
use fcfeeds.Text.{Text, codes, text_eq}
use fcfeeds.Time.{minute, hour}
use fcfeeds.Config.Load.{ServiceConfig, default_service, load}
use fcfeeds.Config.Loads.{Loads, load_iff}
use fcfeeds.Config.Wiring.{poll_config, configured_interval}
use fcfeeds.Poll.Schedule.{next_interval}

abbrev no_variables : Text → Text
no_variables key = []

abbrev slow_polls : Text → Text
slow_polls key = if text_eq key (codes "FEEDS_MIN_POLL") then codes "3h" else []

abbrev as_hours : Text → Text ⊎ ℤ
as_hours v = inr (pos (3 * hour))

abbrev no_number : Text → Text ⊎ ℤ
no_number v = inl v

abbrev no_int : Text → Option ℤ
no_int v = none

abbrev slow_service : ServiceConfig
slow_service = record default_service { min_poll = pos (3 * hour) }

defaults : load no_variables as_hours no_number no_int ≡ (default_service, none)
unfolding load
defaults = refl

slow : load slow_polls as_hours no_number no_int ≡ (slow_service, none)
unfolding load text_eq
slow = refl

load_iff_example :
    (load slow_polls as_hours no_number no_int ≡ (slow_service, none))
    ↔ Loads slow_polls as_hours no_number no_int slow_service
load_iff_example = load_iff slow_polls as_hours no_number no_int slow_service

configured_interval_example :
    (n : ℕ) × (next_interval (pos 0) 0 (poll_config slow_service) ≡ pos n)
    × (minute ≤ n)
    × (min (clamp_int slow_service.min_poll) (2 * hour) ≤ n)
    × (n ≤ 2 * hour)
configured_interval_example =
    configured_interval slow_polls as_hours no_number no_int slow_service (pos 0) 0 slow
