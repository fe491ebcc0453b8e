-- ===== src/Chat/Rungs.antt =====
-- The loop over the rungs, and the method as a whole.
use baby.Common.{ℕ, zero, suc, Bool, true, String, Option, none, List, [], ◌∷◌, if◌then◌else◌}
use baby.Message.{Message, is_empty}
use baby.Text.{codes}
use baby.Text.Search.{starts_with}
use baby.Router.{Tier, daily, Opts, ladder}
use baby.Chat.{
  World, Config, Session, Result, Error, Tried, fall, stop, Gate, pass, skip, overflow, gate,
  attempt, give_up, out_of_fuel,
}

-- the rungs that are left when the bucket is empty
abbrev pub overflow_queue : Config → List Tier
overflow_queue cfg = if cfg.game_mode then [] else daily ∷ []

abbrev pub Rest : Type 0
Rest = List Tier → Option Error → Session → Result

abbrev pub after_attempt : Rest → List Tier → Tried → Result
after_attempt rest queue (fall e s) = rest queue e s
after_attempt rest queue (stop r) = r

-- One round of the loop, `rest` being the rounds that follow.
abbrev pub after_gate :
    World → Config → List Message → Tier → List Tier → Option Error → Rest → Gate → Result
after_gate w cfg ms t queue last rest (skip s) = rest queue last s
after_gate w cfg ms t queue last rest (overflow s) = rest (overflow_queue cfg) last s
after_gate w cfg ms t queue last rest (pass s) =
    after_attempt rest queue (attempt w cfg ms t (is_empty queue) last s)

unfoldable pub rungs :
    World → Config → List Message → Bool → ℕ → List Tier → Option Error → Session → Result
unfolding gate attempt give_up
rungs w cfg ms background zero queue last s = record { chunks = []; end = out_of_fuel; session = s }
rungs w cfg ms background (suc fuel) [] last s = give_up cfg last s
rungs w cfg ms background (suc fuel) (t ∷ queue) last s =
    after_gate w cfg ms t queue last (rungs w cfg ms background fuel) (gate w background t s)

-- `channel.startswith("task:")`
unfoldable pub is_task : String → Bool
is_task channel = starts_with (λ _. true) (codes "task:") (codes channel)

-- `chat`; a channel `task:…` makes a background call.
unfoldable pub chat : World → Config → List Message → Bool → Opts → Session → Result
unfolding rungs is_task
chat w cfg ms tools opts s =
    let (queue, why) =
      ladder cfg.unicode cfg.settings cfg.game_mode s.monitor.state ms tools opts in
    rungs w cfg ms (is_task opts.channel) 6 queue none s
