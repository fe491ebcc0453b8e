-- ===== src/Chat/Shapes.antt =====
-- The ladders there are.
use baby.Common.{
  arith, ℕ, ◌≡◌, ◌≤◌, ◌+◌, refl, Bool, true, false, List, [], ◌∷◌, Bool-cases, inl, inr,
  if◌then◌else◌, ◌&&◌, not,
}
use baby.Message.{Message, is_empty}
use baby.Health.{State, cloud, degraded, offline}
use baby.Router.{
  Tier, daily, nim_primary, nim_heavy, backstop, Opts, ladder, pinned_tools_in, is_heavy_turn,
  state_ladder, is_internal, is_language_pinned, trailing_user_text,
}
use baby.Chat.{Config, is_nim}
use baby.Chat.Private.{is_private, ladder_private, ladder_game}

module _ (R : List Tier → Type 0) (local : R (daily ∷ [])) (wait : R (backstop ∷ daily ∷ []))
    (heavy : R (nim_heavy ∷ nim_primary ∷ daily ∷ []))
    (usual : R (nim_primary ∷ backstop ∷ daily ∷ [])) where
  state_ladder-cases :
      (state : State) (best internal is_heavy : Bool)
      → R (state_ladder state best internal is_heavy).0
  state_ladder-cases offline best internal is_heavy = local
  state_ladder-cases degraded true true is_heavy = wait
  state_ladder-cases degraded true false is_heavy = wait
  state_ladder-cases degraded false true is_heavy = local
  state_ladder-cases degraded false false is_heavy = wait
  state_ladder-cases cloud true internal is_heavy = heavy
  state_ladder-cases cloud false true is_heavy = local
  state_ladder-cases cloud false false true = heavy
  state_ladder-cases cloud false false false = usual

  -- out of game mode
  pub ladder_normal :
      (cfg : Config) (state : State) (ms : List Message) (tools : Bool) (opts : Opts)
      → cfg.game_mode ≡ false
      → R (ladder cfg.unicode cfg.settings cfg.game_mode state ms tools opts).0
  unfolding ladder
  ladder_normal cfg state ms tools opts normal = elim (Bool-cases opts.pin_local) [
    | inl asked ↦ rw asked local
    | inr free ↦ elim (Bool-cases (not (is_empty (pinned_tools_in cfg.settings ms)))) [
      | inl pinned ↦ (rw (free, pinned) local)
      | inr loose ↦
          elim (Bool-cases (
            cfg.settings.language_pin_enabled
            && is_language_pinned cfg.unicode cfg.settings (trailing_user_text ms))) [
              | inl hindi ↦ (rw (free, loose, normal, hindi) local)
              | inr other ↦
                  (rw (free, loose, normal, other)
                    (state_ladder-cases state opts.best (is_internal tools opts)
                      (is_heavy_turn cfg.unicode cfg.settings ms opts)))
            ]
    ]
  ]

  -- in every mode
  pub ladder-cases :
      (cfg : Config) (state : State) (ms : List Message) (tools : Bool) (opts : Opts)
      → R (nim_heavy ∷ nim_primary ∷ backstop ∷ [])
      → R (nim_primary ∷ backstop ∷ [])
      → R (ladder cfg.unicode cfg.settings cfg.game_mode state ms tools opts).0
  ladder-cases cfg state ms tools opts game_heavy game_usual = elim (Bool-cases cfg.game_mode) [
    | inr normal ↦ ladder_normal cfg state ms tools opts normal
    | inl game ↦ elim (Bool-cases (is_private cfg ms opts)) [
      | inl private ↦ rw (ladder_private cfg state ms tools opts private) local
      | inr free ↦
          rw (ladder_game cfg state ms tools opts free game)
            (elim (Bool-cases (is_heavy_turn cfg.unicode cfg.settings ms opts)) [
              | inl is_heavy ↦ rw is_heavy game_heavy
              | inr light ↦ rw light game_usual
            ])
    ]
  ]

-- The rounds that a queue can take: a round for each rung, one for the end, and one more for a rung
-- of NIM, on which the bucket may overflow.
abbrev pub need : List Tier → ℕ
need [] = 1
need (t ∷ queue) = (if is_nim t then 2 else 1) + need queue

pub ladder_needs :
    (cfg : Config) (state : State) (ms : List Message) (tools : Bool) (opts : Opts)
    → need (ladder cfg.unicode cfg.settings cfg.game_mode state ms tools opts).0 ≤ 6
ladder_needs cfg state ms tools opts =
    ladder-cases (λ q. need q ≤ 6) (omega arith) (omega arith) (omega arith) (omega arith) cfg state
      ms tools opts (omega arith) (omega arith)

-- The last rung is the local brain.
abbrev pub EndsLocal : List Tier → Type 0
EndsLocal [] = ⊥
EndsLocal (t ∷ []) = t ≡ daily
EndsLocal (t ∷ t' ∷ queue) = EndsLocal (t' ∷ queue)

pub ladder_normal-EndsLocal :
    (cfg : Config) (state : State) (ms : List Message) (tools : Bool) (opts : Opts)
    → cfg.game_mode ≡ false
    → EndsLocal (ladder cfg.unicode cfg.settings cfg.game_mode state ms tools opts).0
ladder_normal-EndsLocal cfg state ms tools opts normal =
    ladder_normal EndsLocal refl refl refl refl cfg state ms tools opts normal
