-- ===== src/Web/Retry/Examples.antt =====
-- The theorem on waits at a concrete input.
use sendself.Base.{◌≡◌, true, false, none, some, [], ◌∷◌}
use sendself.Web.Retry.{back_off, retry_due}
use sendself.Web.Retry.Waits.{fail_at, fail_at-due}

-- The third failure.
fail_at-due_example :
    ((back_off (fail_at none (100 ∷ 6_000 ∷ [])) 20_000).not_before ≡ 40_000)
    × (retry_due (some (back_off (fail_at none (100 ∷ 6_000 ∷ [])) 20_000)) 24_999 ≡ false)
    × (retry_due (some (back_off (fail_at none (100 ∷ 6_000 ∷ [])) 20_000)) 320_001 ≡ true)
fail_at-due_example = fail_at-due (100 ∷ 6_000 ∷ []) 20_000 1
