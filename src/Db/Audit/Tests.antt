-- ===== src/Db/Audit/Tests.antt =====
-- Percentiles of four samples.
use baby.Common.{ℕ, ◌≡◌, refl, List, [], ◌∷◌, some}
use baby.Db.Audit.{percentile}

abbrev samples : List ℕ
samples = 40 ∷ 10 ∷ 20 ∷ 30 ∷ []

-- 25 and 38.5, in hundredths
p50_p95 : (percentile samples 50 ≡ some 2500) × (percentile samples 95 ≡ some 3850)
unfolding percentile
p50_p95 = (refl, refl)
