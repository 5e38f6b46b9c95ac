-- ===== src/Web/Retry.antt =====
-- apps/web/src/sync/retry.ts: how long a transfer that failed waits before it runs again. Times are
-- milliseconds.
pub mod Waits
pub mod Examples
use sendself.Base.{ℕ, ◌+◌, ◌-◌, ◌*◌, ◌^◌, min, Bool, true, Option, none, some, leb}

-- `FIRST_WAIT_MS`
abbrev pub first_wait : ℕ
first_wait = 5_000

-- `MAX_WAIT_MS`
abbrev pub max_wait : ℕ
max_wait = 5 * 60_000

pub record RetrySchedule : Type 0 where
  pub attempts : ℕ
  pub not_before : ℕ

-- `previous?.attempts ?? 0`
abbrev pub attempts_of : Option RetrySchedule → ℕ
attempts_of none = 0
attempts_of (some s) = s.attempts

pub back_off : Option RetrySchedule → ℕ → RetrySchedule
back_off previous now =
    let attempts = attempts_of previous + 1 in
    record {
      attempts = attempts;
      not_before = now + min (first_wait * 2 ^ (attempts - 1)) max_wait;
    }

pub retry_due : Option RetrySchedule → ℕ → Bool
retry_due none now = true
retry_due (some s) now = leb s.not_before now
