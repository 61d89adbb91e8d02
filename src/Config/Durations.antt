-- ===== src/Config/Durations.antt =====
-- cmd/validate.go: the durations of the runtime section, `validateRuntimeConfig`.
use backhaul_plus.Prelude.{◌&&◌, ◌||◌, [], Option, none, some, ℤ, pos, leb_ℤ, ltb_ℤ, if◌then◌else◌}
use backhaul_plus.Config.{RuntimeConfig}
use backhaul_plus.Config.Error.{DurationError, invalid_duration, not_above_zero, below_minimum}
use backhaul_plus.Result.{Result, ok, err, ◌>>=◌}
use backhaul_plus.Strings.{Bytes, codes, equal, trim_space}

abbrev pub min_memory_release_interval : ℤ
min_memory_release_interval = pos 1_000_000_000

abbrev pub min_auto_restart_interval : ℤ
min_auto_restart_interval = pos 60_000_000_000

-- Behind `time.ParseDuration`.
unfoldable pub checked_duration : ℤ → Option ℤ → Result DurationError ℤ
checked_duration least none = err invalid_duration
checked_duration least (some d) =
    if leb_ℤ d (pos 0)
    then err not_above_zero
    else if ltb_ℤ (pos 0) least && ltb_ℤ d least
    then err below_minimum
    else ok d

-- `parse` is `time.ParseDuration`, in nanoseconds; its errors are `none`.
module _ (parse : Bytes → Option ℤ) where
  -- `parseOptionalDuration`
  unfoldable pub parse_optional_duration : Bytes → ℤ → Result DurationError ℤ
  unfolding checked_duration
  parse_optional_duration value least =
      let v = trim_space value in
      if equal v [] || equal v (codes "0") || equal v (codes "0s")
      then ok (pos 0)
      else checked_duration least (parse v)

  -- `validateRuntimeConfig`
  unfoldable pub validate_runtime_config : RuntimeConfig → Result DurationError RuntimeConfig
  validate_runtime_config r = do
    released ← parse_optional_duration r.memory_release_interval min_memory_release_interval
    restarted ← parse_optional_duration r.auto_restart_interval min_auto_restart_interval
    ok (record r {
      memory_release_interval_duration = released;
      auto_restart_interval_duration = restarted;
    })
