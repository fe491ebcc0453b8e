-- ===== src/Chat/Loop.antt =====
-- Induction over the loop of `chat`: what holds of the queue before every round, and so of the
-- result.
use baby.Common.{ℕ, zero, suc, ◌≡◌, refl, Bool, Option, none, List, [], ◌∷◌}
use baby.Message.{Message, is_empty}
use baby.Router.{Tier, Opts, ladder}
use baby.Chat.{
  World, Config, Session, Result, Error, Tried, fall, stop, Gate, pass, skip, overflow, gate,
  attempt, give_up,
}
use baby.Chat.Rungs.{overflow_queue, Rest, after_attempt, after_gate, rungs, chat, is_task}

module _ (w : World) (cfg : Config) (ms : List Message) (background : Bool)
    (I : ℕ → List Tier → Session → Type 0) (Q : Result → Type 0) where
  -- `I` says what holds before a round, with the fuel that is left; `Q` is what the result has.
  pub record Rules : Type 0 where
    pub has_fuel : (queue : List Tier) (s : Session) → I zero queue s → ⊥
    pub on_skip :
        (n : ℕ) (t : Tier) (queue : List Tier) (s s' : Session)
        → gate w background t s ≡ skip s'
        → I (suc n) (t ∷ queue) s
        → I n queue s'
    pub on_overflow :
        (n : ℕ) (t : Tier) (queue : List Tier) (s s' : Session)
        → gate w background t s ≡ overflow s'
        → I (suc n) (t ∷ queue) s
        → I n (overflow_queue cfg) s'
    pub on_fall :
        (n : ℕ) (t : Tier) (queue : List Tier) (last e : Option Error) (s s' s'' : Session)
        → gate w background t s ≡ pass s'
        → attempt w cfg ms t (is_empty queue) last s' ≡ fall e s''
        → I (suc n) (t ∷ queue) s
        → I n queue s''
    pub on_stop :
        (n : ℕ) (t : Tier) (queue : List Tier) (last : Option Error) (s s' : Session) (r : Result)
        → gate w background t s ≡ pass s'
        → attempt w cfg ms t (is_empty queue) last s' ≡ stop r
        → I (suc n) (t ∷ queue) s
        → Q r
    pub at_end :
        (n : ℕ) (last : Option Error) (s : Session) → I (suc n) [] s → Q (give_up cfg last s)

  module _ (rules : Rules) where
    abbrev Follows : ℕ → Rest → Type 0
    Follows n rest =
        (queue : List Tier) (last : Option Error) (s : Session)
        → I n queue s
        → Q (rest queue last s)

    after_attempt-rules :
        (n : ℕ) (t : Tier) (queue : List Tier) (last : Option Error) (s s' : Session) (rest : Rest)
        → gate w background t s ≡ pass s'
        → Follows n rest
        → I (suc n) (t ∷ queue) s
        → (x : Tried) → attempt w cfg ms t (is_empty queue) last s' ≡ x
        → Q (after_attempt rest queue x)
    after_attempt-rules n t queue last s s' rest g next i (fall e s'') tried =
        next queue e s'' (rules.on_fall n t queue last e s s' s'' g tried i)
    after_attempt-rules n t queue last s s' rest g next i (stop r) tried =
        rules.on_stop n t queue last s s' r g tried i

    after_gate-rules :
        (n : ℕ) (t : Tier) (queue : List Tier) (last : Option Error) (s : Session) (rest : Rest)
        → Follows n rest
        → I (suc n) (t ∷ queue) s
        → (g : Gate) → gate w background t s ≡ g
        → Q (after_gate w cfg ms t queue last rest g)
    after_gate-rules n t queue last s rest next i (skip s') g =
        next queue last s' (rules.on_skip n t queue s s' g i)
    after_gate-rules n t queue last s rest next i (overflow s') g =
        next (overflow_queue cfg) last s' (rules.on_overflow n t queue s s' g i)
    after_gate-rules n t queue last s rest next i (pass s') g =
        after_attempt-rules n t queue last s s' rest g next i
          (attempt w cfg ms t (is_empty queue) last s') refl

    pub rungs-rules :
        (n : ℕ) (queue : List Tier) (last : Option Error) (s : Session)
        → I n queue s
        → Q (rungs w cfg ms background n queue last s)
    unfolding rungs
    rungs-rules zero queue last s i = absurd (rules.has_fuel queue s i)
    rungs-rules (suc n) [] last s i = rules.at_end n last s i
    rungs-rules (suc n) (t ∷ queue) last s i =
        after_gate-rules n t queue last s (rungs w cfg ms background n) (rungs-rules n) i
          (gate w background t s) refl

pub chat-rules :
    (w : World) (cfg : Config) (ms : List Message) (tools : Bool) (opts : Opts) (s : Session)
    (I : ℕ → List Tier → Session → Type 0) (Q : Result → Type 0)
    → Rules w cfg ms (is_task opts.channel) I Q
    → I 6 (ladder cfg.unicode cfg.settings cfg.game_mode s.monitor.state ms tools opts).0 s
    → Q (chat w cfg ms tools opts s)
unfolding chat
chat-rules w cfg ms tools opts s I Q rules i =
    rungs-rules w cfg ms (is_task opts.channel) I Q rules 6
      (ladder cfg.unicode cfg.settings cfg.game_mode s.monitor.state ms tools opts).0 none s i
