-- ===== src/Web/Retry/Waits.antt =====
-- The waits of apps/web/src/sync/retry.ts.
use sendself.Base.{
  ℕ, zero, suc, ◌+◌, ◌-◌, ◌*◌, ◌^◌, ◌≤◌, min, ◌≡◌, ap, true, false, Option, none, some, List, [],
  ◌∷◌, arith, length,
}
use sendself.Web.Retry.{RetrySchedule, attempts_of, back_off, retry_due, first_wait, max_wait}

-- The schedule after failures at the given times, one after another.
pub fail_at : Option RetrySchedule → List ℕ → Option RetrySchedule
unfolding back_off
fail_at s [] = s
fail_at s (t ∷ ts) = fail_at (some (back_off s t)) ts

pow_pos : (n : ℕ) → 1 ≤ 2 ^ n
pow_pos zero = omega arith
pow_pos (suc n) = omega (arith, pow_pos n)

attempts-fail_at :
    (s : Option RetrySchedule) (ts : List ℕ)
    → attempts_of (fail_at s ts) ≡ attempts_of s + length ts
unfolding fail_at back_off
attempts-fail_at s [] = omega arith
attempts-fail_at s (t ∷ ts) = omega (arith, attempts-fail_at (some (back_off s t)) ts)

-- After any failures, and one more, the wait is five seconds doubled once for each of the earlier
-- ones, up to five minutes: the transfer is not due within the first five seconds, and it is due from
-- five minutes on at the latest.
pub fail_at-due :
    (ts : List ℕ) (now late : ℕ)
    → ((back_off (fail_at none ts) now).not_before
        ≡ now + min (first_wait * 2 ^ length ts) max_wait)
      × (retry_due (some (back_off (fail_at none ts) now)) (now + 4_999) ≡ false)
      × (retry_due (some (back_off (fail_at none ts) now)) (now + max_wait + late) ≡ true)
unfolding retry_due back_off
fail_at-due ts now late = (
  ap (λ n. now + min (first_wait * 2 ^ n) max_wait) (earlier (attempts-fail_at none ts)),
  ground (arith, pow_pos (attempts_of (fail_at none ts))),
  ground arith,
)
  where
    earlier :
        attempts_of (fail_at none ts) ≡ 0 + length ts
        → (attempts_of (fail_at none ts) + 1) - 1 ≡ length ts
    earlier e = omega arith
