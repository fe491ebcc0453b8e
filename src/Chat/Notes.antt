-- ===== src/Chat/Notes.antt =====
-- A property of all notes of a call, from the queue that it starts with.
use baby.Common.{
  ℕ, zero, suc, Bool, true, false, not, ◌&&◌, ◌||◌, String, Option, none, List, [], ◌∷◌, All,
  All-append, Bool-cases, inl, inr,
}
use baby.Message.{Message, is_empty}
use baby.Health
use baby.Health.{Reason, cooling_down}
use baby.Ratelimit.{try_acquire}
use baby.Router.{Tier, Opts, ladder}
use baby.Chat.{
  unhealthy, bucket_empty, World, Config, Session, Error, Tried, fall, stop, Gate, pass, skip,
  overflow, gate, attempt, give_up, consume, consume_chunks, before_chunk, after_chunks, blame,
  praise, add, Note, decision, sent, skipped, served, game_offline, Skip, Stream, Ending, finished,
  silent, unreachable, broken, status, payload, no_reply, slow, stall, failure, no_connection, code,
  is_nim, is_daily, is_backstop, reason_of,
}
use baby.Chat.Rungs.{overflow_queue, Rest, after_attempt, after_gate, rungs, chat, is_task}

-- The property holds of every note but perhaps of what is sent.
pub record Plain (P : Note → Type 0) : Type 0 where
  pub of_decision : (t : Tier) → P (decision t)
  pub of_skipped : (t : Tier) (k : Skip) → P (skipped t k)
  pub of_served : (t : Tier) → P (served t)
  pub of_game_offline : P game_offline

module _ (P : Note → Type 0) (plain : Plain P) where
  abbrev Good : Session → Type 0
  Good s = All P s.notes

  abbrev GoodTried : Tried → Type 0
  GoodTried (fall e s) = Good s
  GoodTried (stop r) = Good r.session

  add-Good : (n : Note) (s : Session) → P n → Good s → Good (add n s)
  add-Good n s p h = All-append P s.notes (n ∷ []) h (p, tt)

  blame-Good : (w : World) (t : Tier) (r : Reason) (s : Session) → Good s → Good (blame w t r s)
  unfolding blame
  blame-Good w t r s h = elim (Bool-cases (is_nim t)) [ inl n ↦ rw n h | inr d ↦ rw d h ]

  praise-Good : (t : Tier) (s : Session) → Good s → Good (praise t s)
  unfolding praise
  praise-Good t s h = elim (Bool-cases (is_nim t)) [ inl n ↦ rw n h | inr d ↦ rw d h ]

  skipped-Good : (t : Tier) (k : Skip) (s : Session) → Good s → Good (add (skipped t k) s)
  skipped-Good t k s h = add-Good (skipped t k) s (plain.of_skipped t k) h

  served-Good : (t : Tier) (s : Session) → Good s → Good (add (served t) (praise t s))
  served-Good t s h = add-Good (served t) (praise t s) (plain.of_served t) (praise-Good t s h)

  blamed-Good :
      (w : World) (t : Tier) (r : Reason) (k : Skip) (s : Session)
      → Good s
      → Good (add (skipped t k) (blame w t r s))
  blamed-Good w t r k s h = skipped-Good t k (blame w t r s) (blame-Good w t r s h)

  before_chunk-Good :
      (w : World) (t : Tier) (is_last : Bool) (e : Ending) (last : Option Error) (s : Session)
      → Good s
      → GoodTried (before_chunk w t is_last e last s)
  unfolding before_chunk
  before_chunk-Good w t true finished last s h = served-Good t s h
  before_chunk-Good w t false finished last s h = skipped-Good t no_reply s h
  before_chunk-Good w t true silent last s h =
      blamed-Good w t Health.error failure (add (skipped t stall) (blame w t Health.timeout s))
        (blamed-Good w t Health.timeout stall s h)
  before_chunk-Good w t false silent last s h = blamed-Good w t Health.timeout slow s h
  before_chunk-Good w t is_last (status c) last s h = blamed-Good w t (reason_of c) (code c) s h
  before_chunk-Good w t is_last unreachable last s h =
      blamed-Good w t Health.dns_fail no_connection s h
  before_chunk-Good w t is_last broken last s h = blamed-Good w t Health.error failure s h

  after_chunks-Good :
      (w : World) (t : Tier) (cs : List String) (e : Ending) (s : Session)
      → Good s
      → Good (after_chunks w t cs e s).session
  unfolding after_chunks
  after_chunks-Good w t cs finished s h = served-Good t s h
  after_chunks-Good w t cs silent s h = blamed-Good w t Health.timeout stall s h
  after_chunks-Good w t cs (status c) s h = h
  after_chunks-Good w t cs unreachable s h = h
  after_chunks-Good w t cs broken s h = h

  consume_chunks-Good :
      (w : World) (t : Tier) (is_last : Bool) (cs : List String) (e : Ending) (last : Option Error)
      (s : Session)
      → Good s
      → GoodTried (consume_chunks w t is_last cs e last s)
  consume_chunks-Good w t is_last [] e last s h = before_chunk-Good w t is_last e last s h
  consume_chunks-Good w t is_last (c ∷ cs) e last s h = after_chunks-Good w t (c ∷ cs) e s h

  consume-Good :
      (w : World) (t : Tier) (is_last : Bool) (x : Stream) (last : Option Error) (s : Session)
      → Good s
      → GoodTried (consume w t is_last x last s)
  unfolding consume
  consume-Good w t is_last x last s h = elim (Bool-cases (x.late && not is_last)) [
    | inl cut ↦ rw cut (blamed-Good w t Health.timeout slow s h)
    | inr on ↦ rw on (consume_chunks-Good w t is_last x.chunks x.ending last s h)
  ]

  attempt-Good :
      (w : World) (cfg : Config) (ms : List Message) (t : Tier) (is_last : Bool)
      (last : Option Error) (s : Session)
      → P (sent t (payload cfg t ms) (is_daily t && cfg.game_mode))
      → Good s
      → GoodTried (attempt w cfg ms t is_last last s)
  unfolding attempt
  attempt-Good w cfg ms t is_last last s p h =
      let n = sent t (payload cfg t ms) (is_daily t && cfg.game_mode) in
      consume-Good w t is_last (w.stream t (payload cfg t ms)) last (add n (add (decision t) s))
        (add-Good n (add (decision t) s) p (add-Good (decision t) s (plain.of_decision t) h))

  abbrev GoodGate : Gate → Type 0
  GoodGate (pass s) = Good s
  GoodGate (skip s) = Good s
  GoodGate (overflow s) = Good s

  gate-Good :
      (w : World) (background : Bool) (t : Tier) (s : Session)
      → Good s
      → GoodGate (gate w background t s)
  unfolding gate
  gate-Good w background t s h = elim (Bool-cases (not (w.present t))) [
    | inl absent ↦ rw absent h
    | inr here ↦ elim (Bool-cases (is_nim t)) [
      | inl nim ↦ elim (Bool-cases (cooling_down (w.begins t) s.monitor || not (w.healthy t))) [
        | inl bad ↦ (rw (here, nim, bad) (skipped-Good t unhealthy s h))
        | inr good ↦ elim (Bool-cases (try_acquire (w.begins t) background s.bucket).0) [
          | inl token ↦ (rw (here, nim, good, token) h)
          | inr dry ↦
              (rw (here, nim, good, dry)
                (skipped-Good t bucket_empty
                  (record s { bucket = (try_acquire (w.begins t) background s.bucket).1 }) h))
        ]
      ]
      | inr other ↦ elim (Bool-cases (is_backstop t && not (w.healthy t))) [
        | inl bad ↦ (rw (here, other, bad) (skipped-Good t unhealthy s h))
        | inr good ↦ (rw (here, other, good) h)
      ]
    ]
  ]

  module _ (w : World) (cfg : Config) (ms : List Message) where
    -- what may be sent to a brain
    abbrev MaySend : Tier → Type 0
    MaySend t = P (sent t (payload cfg t ms) (is_daily t && cfg.game_mode))

    abbrev GoodRest : Rest → Type 0
    GoodRest rest =
        (queue : List Tier) (last : Option Error) (s : Session)
        → All MaySend queue
        → Good s
        → Good (rest queue last s).session

    after_attempt-Good :
        (rest : Rest) (queue : List Tier) (x : Tried)
        → GoodRest rest
        → All MaySend queue
        → GoodTried x
        → Good (after_attempt rest queue x).session
    after_attempt-Good rest queue (fall e s) next q h = next queue e s q h
    after_attempt-Good rest queue (stop r) next q h = h

    after_gate-Good :
        (t : Tier) (queue : List Tier) (last : Option Error) (rest : Rest) (g : Gate)
        → GoodRest rest
        → All MaySend (t ∷ queue)
        → All MaySend (overflow_queue cfg)
        → GoodGate g
        → Good (after_gate w cfg ms t queue last rest g).session
    after_gate-Good t queue last rest (skip s) next q o h = next queue last s q.1 h
    after_gate-Good t queue last rest (overflow s) next q o h = next (overflow_queue cfg) last s o h
    after_gate-Good t queue last rest (pass s) next q o h =
        after_attempt-Good rest queue (attempt w cfg ms t (is_empty queue) last s) next q.1
          (attempt-Good w cfg ms t (is_empty queue) last s q.0 h)

    rungs-Good :
        (background : Bool) (fuel : ℕ) (queue : List Tier) (last : Option Error) (s : Session)
        → All MaySend queue
        → All MaySend (overflow_queue cfg)
        → Good s
        → Good (rungs w cfg ms background fuel queue last s).session
    unfolding rungs give_up
    rungs-Good background zero queue last s q o h = h
    rungs-Good background (suc fuel) [] last s q o h = elim (Bool-cases cfg.game_mode) [
      | inl game ↦ rw game (add-Good game_offline s plain.of_game_offline h)
      | inr normal ↦ rw normal h
    ]
    rungs-Good background (suc fuel) (t ∷ queue) last s q o h =
        after_gate-Good t queue last (rungs w cfg ms background fuel) (gate w background t s)
          (λ queue' last' s' q' h'. rungs-Good background fuel queue' last' s' q' o h') q o
          (gate-Good w background t s h)

  -- The notes of a call have the property if it holds of the notes before and of whatever may be
  -- sent to a rung of the ladder, or on overflow.
  pub chat-All :
      (w : World) (cfg : Config) (ms : List Message) (tools : Bool) (opts : Opts) (s : Session)
      → All
          (MaySend w cfg ms)
          (ladder cfg.unicode cfg.settings cfg.game_mode s.monitor.state ms tools opts).0
      → All (MaySend w cfg ms) (overflow_queue cfg)
      → All P s.notes
      → All P (chat w cfg ms tools opts s).session.notes
  unfolding chat
  chat-All w cfg ms tools opts s q o h =
      rungs-Good w cfg ms (is_task opts.channel) 6
        (ladder cfg.unicode cfg.settings cfg.game_mode s.monitor.state ms tools opts).0 none s q o h
