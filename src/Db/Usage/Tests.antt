-- ===== src/Db/Usage/Tests.antt =====
-- Figures of a small log.
use baby.Common.{ℕ, ◌+◌, ◌≡◌, refl, List, [], ◌∷◌, Option, none, some}
use baby.Text.Words.{Codes}
use baby.Db.Usage.{UsageRow, usage_session, unknown, usage_summary}

abbrev spent : ℕ → Option Codes → ℕ → ℕ → UsageRow
spent ts tier asked said = record {
  id = ts;
  ts = ts;
  conversation_id = 1;
  turn_id = some ts;
  channel = [];
  brain_tier = tier;
  brain_model = none;
  prompt = asked;
  completion = said;
  total = asked + said;
}

abbrev log : List UsageRow
log =
    spent 1 (some (100 ∷ [])) 9 9
    ∷ spent 5 (some (100 ∷ [])) 10 1
    ∷ spent 6 none 20 2
    ∷ spent 7 (some (100 ∷ [])) 40 4
    ∷ []

log_since_5 : usage_session 5 log ≡ record {
  prompt = 70;
  completion = 7;
  total = 77;
  by_brain = (100 ∷ [], 55) ∷ (unknown, 22) ∷ [];
}
unfolding usage_session usage_summary
log_since_5 = refl
