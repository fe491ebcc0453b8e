-- ===== src/Chat/Reply.antt =====
-- When a call gives a reply.
use baby.Common.{
  arith, subst, ℕ, suc, ◌≡◌, ◌≢◌, ◌≤◌, refl, ap, Bool, true, false, String, List, [], ◌∷◌, Option,
  Bool-cases, inl, inr, ◌⊎◌, ◌&&◌, not,
}
use baby.Message.{Message, is_empty}
use baby.Router.{Tier, daily, Opts}
use baby.Chat.{
  World, Config, Session, Result, Error, Tried, fall, stop, pass, skip, overflow, gate, attempt,
  returned, consume, consume_chunks, before_chunk, after_chunks, Stream, Ending, finished, silent,
  unreachable, broken, status, payload, is_daily, add, sent, decision,
}
use baby.Chat.Rungs.{chat, overflow_queue, is_task}
use baby.Chat.Loop.{Rules, chat-rules}
use baby.Chat.Shapes.{need, ladder_needs, EndsLocal, ladder_normal-EndsLocal}
use baby.Chat.Answer.{
  Stops, skip-absent, need_tail, need_positive, overflow-is_nim, fuel_after_overflow,
}

-- The local brain finishes what it says, and no brain breaks off in the middle of a reply.
abbrev pub Reliable : World → Type 0
Reliable w =
    ((p : List Message) → (w.stream daily p).ending ≡ finished)
    × ((t : Tier) (p : List Message)
        → (w.stream t p).chunks ≢ []
        → (w.stream t p).ending ≡ finished)

abbrev Returned : Result → Type 0
Returned r = r.end ≡ returned

abbrev IsStop : Tried → Type 0
IsStop (fall e s) = ⊥
IsStop (stop r) = Unit {0}

before_chunk-Returned :
    (w : World) (t : Tier) (is_last : Bool) (e : Ending) (last : Option Error) (s : Session)
    → Stops Returned (before_chunk w t is_last e last s)
unfolding before_chunk
before_chunk-Returned w t true finished last s = refl
before_chunk-Returned w t false finished last s = tt
before_chunk-Returned w t true silent last s = tt
before_chunk-Returned w t false silent last s = tt
before_chunk-Returned w t is_last (status n) last s = tt
before_chunk-Returned w t is_last unreachable last s = tt
before_chunk-Returned w t is_last broken last s = tt

after_chunks-Returned :
    (w : World) (t : Tier) (cs : List String) (e : Ending) (s : Session)
    → e ≡ finished
    → Returned (after_chunks w t cs e s)
unfolding after_chunks
after_chunks-Returned w t cs e s f = rw f

consume_chunks-Returned :
    (w : World) (t : Tier) (is_last : Bool) (cs : List String) (e : Ending) (last : Option Error)
    (s : Session)
    → (cs ≢ [] → e ≡ finished)
    → Stops Returned (consume_chunks w t is_last cs e last s)
consume_chunks-Returned w t is_last [] e last s h = before_chunk-Returned w t is_last e last s
consume_chunks-Returned w t is_last (c ∷ cs) e last s h =
    after_chunks-Returned w t (c ∷ cs) e s (h (λ x. ground arith))

consume-Returned :
    (w : World) (t : Tier) (is_last : Bool) (x : Stream) (last : Option Error) (s : Session)
    → (x.chunks ≢ [] → x.ending ≡ finished)
    → Stops Returned (consume w t is_last x last s)
unfolding consume
consume-Returned w t is_last x last s h = elim (Bool-cases (x.late && not is_last)) [
  | inl cut ↦ rw cut tt
  | inr on ↦ rw on (consume_chunks-Returned w t is_last x.chunks x.ending last s h)
]

attempt-Returned :
    (w : World) (cfg : Config) (ms : List Message) (t : Tier) (is_last : Bool) (last : Option Error)
    (s : Session) (r : Result)
    → Reliable w
    → attempt w cfg ms t is_last last s ≡ stop r
    → Returned r
unfolding attempt
attempt-Returned w cfg ms t is_last last s r ok tried =
    let p = payload cfg t ms in
    subst (Stops Returned) tried (
      consume-Returned w t is_last (w.stream t p) last
        (add (sent t p (is_daily t && cfg.game_mode)) (add (decision t) s)) (ok.1 t p))

consume_chunks-IsStop :
    (w : World) (t : Tier) (cs : List String) (e : Ending) (last : Option Error) (s : Session)
    → e ≡ finished
    → IsStop (consume_chunks w t true cs e last s)
unfolding before_chunk
consume_chunks-IsStop w t [] e last s f = rw f tt
consume_chunks-IsStop w t (c ∷ cs) e last s f = tt

consume-IsStop :
    (w : World) (t : Tier) (x : Stream) (last : Option Error) (s : Session)
    → x.ending ≡ finished
    → IsStop (consume w t true x last s)
unfolding consume
consume-IsStop w t x last s f = elim (Bool-cases x.late) [
  | inl late ↦ rw late (consume_chunks-IsStop w t x.chunks x.ending last s f)
  | inr early ↦ rw early (consume_chunks-IsStop w t x.chunks x.ending last s f)
]

-- the local brain does not fall through on the last rung
attempt-IsStop :
    (w : World) (cfg : Config) (ms : List Message) (last e : Option Error) (s s' : Session)
    → Reliable w
    → attempt w cfg ms daily true last s ≡ fall e s'
    → ⊥
unfolding attempt
attempt-IsStop w cfg ms last e s s' ok tried =
    let p = payload cfg daily ms in
    subst IsStop tried (
      consume-IsStop w daily (w.stream daily p) last
        (add (sent daily p (is_daily daily && cfg.game_mode)) (add (decision daily) s)) (ok.0 p))

-- before a round: enough fuel, and the local brain is the last rung
abbrev Local : ℕ → List Tier → Session → Type 0
Local n queue s = (need queue ≤ n) × EndsLocal queue

EndsLocal-tail :
    (t : Tier) (queue : List Tier)
    → EndsLocal (t ∷ queue)
    → ((t ≡ daily) × (queue ≡ [])) ⊎ EndsLocal queue
EndsLocal-tail t [] h = inl (h, refl)
EndsLocal-tail t (t' ∷ queue) h = inr h

module _ (w : World) (cfg : Config) (ms : List Message) (background : Bool)
    (normal : cfg.game_mode ≡ false) (here : w.present daily ≡ true) (ok : Reliable w) where
  Local-skip :
      (n : ℕ) (t : Tier) (queue : List Tier) (s s' : Session)
      → gate w background t s ≡ skip s'
      → Local (suc n) (t ∷ queue) s
      → Local n queue s'
  Local-skip n t queue s s' g (h, l) = elim (EndsLocal-tail t queue l) [
    | inr tail ↦ (need_tail t queue n h, tail)
    | inl (d, e) ↦
        let absent : w.present daily ≡ false =
          subst (λ t. w.present t ≡ false) d (skip-absent w background t s s' g (ap is_daily d)) in
        ground arith
  ]

  Local-overflow :
      (n : ℕ) (t : Tier) (queue : List Tier) (s s' : Session)
      → gate w background t s ≡ overflow s'
      → Local (suc n) (t ∷ queue) s
      → Local n (overflow_queue cfg) s'
  Local-overflow n t queue s s' g (h, l) =
      (fuel_after_overflow cfg t queue n (overflow-is_nim w background t s s' g) h, rw normal refl)

  Local-fall :
      (n : ℕ) (t : Tier) (queue : List Tier) (last e : Option Error) (s s' s'' : Session)
      → gate w background t s ≡ pass s'
      → attempt w cfg ms t (is_empty queue) last s' ≡ fall e s''
      → Local (suc n) (t ∷ queue) s
      → Local n queue s''
  Local-fall n t queue last e s s' s'' g tried (h, l) = elim (EndsLocal-tail t queue l) [
    | inr tail ↦ (need_tail t queue n h, tail)
    | inl (d, none_left) ↦ absurd (
        attempt-IsStop w cfg ms last e s' s'' ok (
          subst (λ t. attempt w cfg ms t true last s' ≡ fall e s'') d
            (subst (λ q. attempt w cfg ms t (is_empty q) last s' ≡ fall e s'') none_left tried)))
  ]

  Local-rules : Rules w cfg ms background Local Returned
  Local-rules = record {
    has_fuel = λ queue s i. omega (arith, need_positive queue, i.0);
    on_skip = Local-skip;
    on_overflow = Local-overflow;
    on_fall = Local-fall;
    on_stop = λ n t queue last s s' r g tried i.
        attempt-Returned w cfg ms t (is_empty queue) last s' r ok tried;
    at_end = λ n last s i. absurd i.1;
  }

-- Out of game mode, with a local brain that finishes what it says and brains that do not break off
-- in the middle of a reply, every call returns: whatever fails before a first chunk, in every state
-- of the monitor and of the bucket.
pub local_brain_answers :
    (w : World) (cfg : Config) (ms : List Message) (tools : Bool) (opts : Opts) (s : Session)
    → cfg.game_mode ≡ false
    → w.present daily ≡ true
    → Reliable w
    → (chat w cfg ms tools opts s).end ≡ returned
local_brain_answers w cfg ms tools opts s normal here ok =
    chat-rules w cfg ms tools opts s Local Returned
      (Local-rules w cfg ms (is_task opts.channel) normal here ok)
      (
        ladder_needs cfg s.monitor.state ms tools opts,
        ladder_normal-EndsLocal cfg s.monitor.state ms tools opts normal,
      )
