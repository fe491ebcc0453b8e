-- ===== src/Legacy/Turns.antt =====
-- A turn keeps its brain over the calls in between.
use baby.Common.{
  ℕ, String, suc, ◌+◌, ◌≤◌, ◌<◌, ◌≡◌, refl, sym, ap, ◌∙◌, subst, Bool, true, ◌&&◌, not, some, List,
  [], ◌∷◌, length, arith, Bool-cases, inl, inr,
}
use baby.Message.{Message}
use baby.Text.Search.{Unicode}
use baby.Router.{trailing_user_text}
use baby.Text.Words.{Codes}
use baby.Legacy.{
  Brain, Config, RouterState, Surroundings, Options, sticky_brain, pick, pick_turn, fresh_brain,
  triggers,
}
use baby.Legacy.Sticky.{Holds, pick_turn-Holds, pick_turn_same}

pub record Call : Type 0 where
  pub env : Surroundings
  pub opts : Options
  pub messages : List Message

-- no planner's hint, and no capped call without tools
abbrev pub is_plain_turn : Options → Bool
is_plain_turn o = not o.is_best && not (o.has_max_tokens && not o.has_tools)

module _ (u : Unicode) (digest : String → Codes) (cfg : Config) where
  abbrev pub picks : List Call → RouterState → RouterState
  picks [] s = s
  picks (c ∷ cs) s = picks cs (pick u digest cfg c.env c.opts c.messages s).1

  abbrev pub key_of : Call → Codes
  key_of c = digest (trailing_user_text c.messages)

  pick-Holds :
      (c : Call) (key : Codes) (b : Brain) (n : ℕ) (s : RouterState)
      → n < 7
      → Holds key b n s.sticky
      → Holds key b (suc n) (pick u digest cfg c.env c.opts c.messages s).1.sticky
  unfolding pick
  pick-Holds c key b n s cap h =
      let weaker : Holds key b (suc n) s.sticky = (h.0, omega (arith, h.1)) in
      elim (Bool-cases c.opts.is_best) [
        | inl best ↦ rw best weaker
        | inr plain ↦ elim (Bool-cases (c.opts.has_max_tokens && not c.opts.has_tools)) [
          | inl internal ↦ rw (plain, internal) weaker
          | inr turn ↦
              rw (plain, turn)
                (pick_turn-Holds (fresh_brain cfg c.env (triggers u cfg s c.messages)) key
                  (key_of c) b n (sticky_brain (key_of c) s.sticky) s refl cap h)
        ]
      ]

  picks-Holds :
      (cs : List Call) (key : Codes) (b : Brain) (n : ℕ) (s : RouterState)
      → n + length cs ≤ 7
      → Holds key b n s.sticky
      → sticky_brain key (picks cs s).sticky ≡ some b
  picks-Holds [] key b n s le h = h.0
  picks-Holds (c ∷ cs) key b n s le h =
      picks-Holds cs key b (suc n) (pick u digest cfg c.env c.opts c.messages s).1
        (omega (arith, le)) (pick-Holds c key b n s (omega (arith, le)) h)

  pick_is_turn :
      (c : Call) (s : RouterState)
      → is_plain_turn c.opts ≡ true
      → pick u digest cfg c.env c.opts c.messages s
        ≡ pick_turn
            (fresh_brain cfg c.env (triggers u cfg s c.messages))
            (key_of c)
            (sticky_brain (key_of c) s.sticky)
            s
  unfolding pick
  pick_is_turn c s h = elim (Bool-cases c.opts.is_best) [
    | inl best ↦ absurd (ground (arith, best, h))
    | inr plain ↦ elim (Bool-cases (c.opts.has_max_tokens && not c.opts.has_tools)) [
      | inl internal ↦ absurd (ground (arith, plain, internal, h))
      | inr turn ↦ rw (plain, turn) refl
    ]
  ]

  first_pick :
      (c : Call) (s : RouterState)
      → is_plain_turn c.opts ≡ true
      → Holds
          (key_of c)
          (pick u digest cfg c.env c.opts c.messages s).0
          0
          (pick u digest cfg c.env c.opts c.messages s).1.sticky
  first_pick c s h =
      subst (λ (r : Brain × RouterState). Holds (key_of c) r.0 0 r.1.sticky)
        (sym (pick_is_turn c s h))
        (pick_turn_same (fresh_brain cfg c.env (triggers u cfg s c.messages)) (key_of c)
          (sticky_brain (key_of c) s.sticky) s refl)

  later_pick :
      (d : Call) (b : Brain) (s : RouterState)
      → is_plain_turn d.opts ≡ true
      → sticky_brain (key_of d) s.sticky ≡ some b
      → (pick u digest cfg d.env d.opts d.messages s).0 ≡ b
  later_pick d b s h e =
      ap (λ (r : Brain × RouterState). r.0)
        (pick_is_turn d s h
          ∙ ap (λ o. pick_turn (fresh_brain cfg d.env (triggers u cfg s d.messages)) (key_of d) o s)
              e)

  -- A turn keeps its brain: of two calls of one turn, neither with the planner's hint `best` nor capped
  -- without tools, the later gets the brain that the earlier got, whatever becomes of the memory, of
  -- the hosts and of the retry, as long as at most seven calls of any kind came between.
  pub same_turn :
      (c d : Call) (cs : List Call) (s : RouterState)
      → is_plain_turn c.opts ≡ true
      → is_plain_turn d.opts ≡ true
      → key_of d ≡ key_of c
      → length cs ≤ 7
      → (pick u digest cfg d.env d.opts d.messages
          (picks cs (pick u digest cfg c.env c.opts c.messages s).1)).0
        ≡ (pick u digest cfg c.env c.opts c.messages s).0
  same_turn c d cs s hc hd same_key le =
      let first = pick u digest cfg c.env c.opts c.messages s in
      later_pick d first.0 (picks cs first.1) hd (
        ap (λ k. sticky_brain k (picks cs first.1).sticky) same_key
        ∙ picks-Holds cs (key_of c) first.0 0 first.1 (omega (arith, le)) (first_pick c s hc))
