-- ===== src/Chat/Answer.antt =====
-- How a call ends.
use baby.Common.{
  arith, subst, ℕ, suc, ◌≡◌, ◌≢◌, ◌≤◌, Bool, true, false, String, List, [], ◌∷◌, Option, none, some,
  Bool-cases, inl, inr, ◌&&◌, ◌||◌, not,
}
use baby.Message.{Message, is_empty}
use baby.Ratelimit.{try_acquire}
use baby.Health.{cooling_down}
use baby.Router.{Tier, daily, nim_primary, nim_heavy, backstop, Opts}
use baby.Chat.{
  World, Config, Session, Result, Error, Tried, fall, stop, Gate, pass, skip, overflow, gate,
  attempt, give_up, End, returned, raised, out_of_fuel, consume, consume_chunks, before_chunk,
  after_chunks, Stream, Ending, finished, silent, unreachable, broken, status, payload, is_nim,
  is_daily, is_backstop, add, sent, decision,
}
use baby.Chat.Rungs.{chat, overflow_queue, is_task}
use baby.Chat.Loop.{Rules, chat-rules}
use baby.Chat.Shapes.{need, ladder_needs}

-- An error reaches the caller only after a part of a reply.
abbrev pub HeardAs : End → List String → Type 0
HeardAs returned cs = Unit {0}
HeardAs (raised e) cs = cs ≢ []
HeardAs out_of_fuel cs = ⊥

abbrev pub Heard : Result → Type 0
Heard r = HeardAs r.end r.chunks

HeardAs-ended : (e : End) (cs : List String) → HeardAs e cs → e ≢ out_of_fuel
HeardAs-ended returned cs h = λ e. ground arith
HeardAs-ended (raised x) cs h = λ e. ground arith
HeardAs-ended out_of_fuel cs h = absurd h

-- A property of the result, where an attempt has one.
abbrev pub Stops : (Result → Type 0) → Tried → Type 0
Stops Q (fall e s) = Unit {0}
Stops Q (stop r) = Q r

cons≢nil : (c : String) (cs : List String) → c ∷ cs ≢ []
cons≢nil c cs e = ground arith

after_chunks-Heard :
    (w : World) (t : Tier) (c : String) (cs : List String) (e : Ending) (s : Session)
    → Heard (after_chunks w t (c ∷ cs) e s)
unfolding after_chunks
after_chunks-Heard w t c cs finished s = tt
after_chunks-Heard w t c cs silent s = cons≢nil c cs
after_chunks-Heard w t c cs (status n) s = cons≢nil c cs
after_chunks-Heard w t c cs unreachable s = cons≢nil c cs
after_chunks-Heard w t c cs broken s = cons≢nil c cs

before_chunk-Heard :
    (w : World) (t : Tier) (is_last : Bool) (e : Ending) (last : Option Error) (s : Session)
    → Stops Heard (before_chunk w t is_last e last s)
unfolding before_chunk
before_chunk-Heard w t true finished last s = tt
before_chunk-Heard w t false finished last s = tt
before_chunk-Heard w t true silent last s = tt
before_chunk-Heard w t false silent last s = tt
before_chunk-Heard w t is_last (status n) last s = tt
before_chunk-Heard w t is_last unreachable last s = tt
before_chunk-Heard w t is_last broken last s = tt

consume_chunks-Heard :
    (w : World) (t : Tier) (is_last : Bool) (cs : List String) (e : Ending) (last : Option Error)
    (s : Session)
    → Stops Heard (consume_chunks w t is_last cs e last s)
consume_chunks-Heard w t is_last [] e last s = before_chunk-Heard w t is_last e last s
consume_chunks-Heard w t is_last (c ∷ cs) e last s = after_chunks-Heard w t c cs e s

consume-Heard :
    (w : World) (t : Tier) (is_last : Bool) (x : Stream) (last : Option Error) (s : Session)
    → Stops Heard (consume w t is_last x last s)
unfolding consume
consume-Heard w t is_last x last s = elim (Bool-cases (x.late && not is_last)) [
  | inl cut ↦ rw cut tt
  | inr on ↦ rw on (consume_chunks-Heard w t is_last x.chunks x.ending last s)
]

attempt-Heard :
    (w : World) (cfg : Config) (ms : List Message) (t : Tier) (is_last : Bool) (last : Option Error)
    (s : Session) (r : Result)
    → attempt w cfg ms t is_last last s ≡ stop r
    → Heard r
unfolding attempt
attempt-Heard w cfg ms t is_last last s r tried =
    let p = payload cfg t ms in
    subst (Stops Heard) tried (
      consume-Heard w t is_last (w.stream t p) last
        (add (sent t p (is_daily t && cfg.game_mode)) (add (decision t) s)))

-- the fuel suffices
abbrev pub Fuelled : ℕ → List Tier → Session → Type 0
Fuelled n queue s = need queue ≤ n

-- what a gate that does not let a brain through tells
abbrev Told : World → Tier → Gate → Type 0
Told w t (pass s) = Unit {0}
Told w t (overflow s) = is_nim t ≡ true
Told w t (skip s) = is_daily t ≡ true → w.present t ≡ false

nim_or_daily : (t : Tier) → is_nim t ≡ true → is_daily t ≡ true → ⊥
nim_or_daily daily n d = ground arith
nim_or_daily nim_primary n d = ground arith
nim_or_daily nim_heavy n d = ground arith
nim_or_daily backstop n d = ground arith

backstop_or_daily : (t : Tier) (b : Bool) → is_backstop t && b ≡ true → is_daily t ≡ true → ⊥
backstop_or_daily daily b n d = ground arith
backstop_or_daily nim_primary b n d = ground arith
backstop_or_daily nim_heavy b n d = ground arith
backstop_or_daily backstop b n d = ground arith

gate-Told :
    (w : World) (background : Bool) (t : Tier) (s : Session) → Told w t (gate w background t s)
unfolding gate
gate-Told w background t s = elim (Bool-cases (w.present t)) [
  | inr absent ↦ rw absent (λ d. absent)
  | inl here ↦ elim (Bool-cases (is_nim t)) [
    | inl nim ↦ elim (Bool-cases (cooling_down (w.begins t) s.monitor || not (w.healthy t))) [
      | inl bad ↦ (rw (here, nim, bad) (λ d. absurd (nim_or_daily t nim d)))
      | inr good ↦ elim (Bool-cases (try_acquire (w.begins t) background s.bucket).0) [
        | inl token ↦ (rw (here, nim, good, token) tt)
        | inr dry ↦ (rw (here, nim, good, dry) nim)
      ]
    ]
    | inr other ↦ elim (Bool-cases (is_backstop t && not (w.healthy t))) [
      | inl bad ↦
          (rw (here, other, bad) (λ d. absurd (backstop_or_daily t (not (w.healthy t)) bad d)))
      | inr good ↦ (rw (here, other, good) tt)
    ]
  ]
]

pub overflow-is_nim :
    (w : World) (background : Bool) (t : Tier) (s s' : Session)
    → gate w background t s ≡ overflow s'
    → is_nim t ≡ true
overflow-is_nim w background t s s' g = subst (Told w t) g (gate-Told w background t s)

pub skip-absent :
    (w : World) (background : Bool) (t : Tier) (s s' : Session)
    → gate w background t s ≡ skip s'
    → is_daily t ≡ true
    → w.present t ≡ false
skip-absent w background t s s' g = subst (Told w t) g (gate-Told w background t s)

need_overflow : (cfg : Config) → need (overflow_queue cfg) ≤ 2
need_overflow cfg = elim (Bool-cases cfg.game_mode) [
  | inl g ↦ rw g (omega arith)
  | inr g ↦ rw g (omega arith)
]

pub need_positive : (queue : List Tier) → 1 ≤ need queue
need_positive [] = omega arith
need_positive (t ∷ queue) = omega (arith, need_positive queue)

-- a round spends fuel
pub need_tail : (t : Tier) (queue : List Tier) (n : ℕ) → need (t ∷ queue) ≤ suc n → need queue ≤ n
need_tail t queue n h = ground arith

pub fuel_after_overflow :
    (cfg : Config) (t : Tier) (queue : List Tier) (n : ℕ)
    → is_nim t ≡ true
    → need (t ∷ queue) ≤ suc n
    → need (overflow_queue cfg) ≤ n
fuel_after_overflow cfg t queue n nim h = ground (arith, need_overflow cfg, need_positive queue)

module _ (w : World) (cfg : Config) (ms : List Message) (background : Bool) where
  -- A property that every reply of an attempt has, and what follows the loop, is one of the call.
  pub fuelled :
      (Q : Result → Type 0)
      → ((t : Tier) (is_last : Bool) (last : Option Error) (s : Session) (r : Result)
          → attempt w cfg ms t is_last last s ≡ stop r
          → Q r)
      → ((last : Option Error) (s : Session) → Q (give_up cfg last s))
      → Rules w cfg ms background Fuelled Q
  fuelled Q tries ends = record {
    has_fuel = λ queue s i. omega (arith, need_positive queue);
    on_skip = λ n t queue s s' g i. need_tail t queue n i;
    on_overflow = λ n t queue s s' g i.
        fuel_after_overflow cfg t queue n (overflow-is_nim w background t s s' g) i;
    on_fall = λ n t queue last e s s' s'' g tried i. need_tail t queue n i;
    on_stop = λ n t queue last s s' r g tried i. tries t (is_empty queue) last s' r tried;
    at_end = λ n last s i. ends last s;
  }

unheard_ended :
    (cfg : Config) (last : Option Error) (s : Session) → (give_up cfg last s).end ≢ out_of_fuel
unfolding give_up
unheard_ended cfg none s = elim (Bool-cases cfg.game_mode) [
  | inl game ↦ rw game (λ e. ground arith)
  | inr normal ↦ rw normal (λ e. ground arith)
]
unheard_ended cfg (some x) s = elim (Bool-cases cfg.game_mode) [
  | inl game ↦ rw game (λ e. ground arith)
  | inr normal ↦ rw normal (λ e. ground arith)
]

give_up-Heard :
    (cfg : Config) (last : Option Error) (s : Session)
    → cfg.game_mode ≡ true
    → Heard (give_up cfg last s)
unfolding give_up
give_up-Heard cfg last s game = rw game tt

-- The loop ends: six rounds are enough for every call.
pub chat_ends :
    (w : World) (cfg : Config) (ms : List Message) (tools : Bool) (opts : Opts) (s : Session)
    → (chat w cfg ms tools opts s).end ≢ out_of_fuel
chat_ends w cfg ms tools opts s =
    chat-rules w cfg ms tools opts s Fuelled (λ r. r.end ≢ out_of_fuel)
      (fuelled w cfg ms (is_task opts.channel) (λ r. r.end ≢ out_of_fuel)
        (λ t is_last last s r tried.
          HeardAs-ended r.end r.chunks (attempt-Heard w cfg ms t is_last last s r tried))
        (unheard_ended cfg))
      (ladder_needs cfg s.monitor.state ms tools opts)

-- In game mode a call raises an error only if a part of the reply is out already.
pub game_mode_answers :
    (w : World) (cfg : Config) (ms : List Message) (tools : Bool) (opts : Opts) (s : Session)
    → cfg.game_mode ≡ true
    → Heard (chat w cfg ms tools opts s)
game_mode_answers w cfg ms tools opts s game =
    chat-rules w cfg ms tools opts s Fuelled Heard
      (fuelled w cfg ms (is_task opts.channel) Heard (attempt-Heard w cfg ms)
        (λ last s. give_up-Heard cfg last s game))
      (ladder_needs cfg s.monitor.state ms tools opts)
