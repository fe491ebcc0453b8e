-- ===== src/Chat.antt =====
-- `CloudRouter.chat` of core/router.py: one call, from rung to rung of the ladder. What the
-- providers and the clock do is the parameter `World`; other turns do not act in between. The
-- notes are what the method reports on the bus, in the audit log and in its counters, and what it
-- sends to whom. The loop over the queue of rungs takes fuel.
pub mod Rungs
pub mod Notes
pub mod Loop
pub mod Private
pub mod Shapes
pub mod Answer
pub mod Reply
mod Tests
use baby.Common.{
  ℕ, zero, suc, Bool, true, false, ◌&&◌, ◌||◌, not, String, Option, none, some, List, [], ◌∷◌, ◌++◌,
  ◌==◌, if◌then◌else◌,
}
use baby.Message.{Message, is_empty}
use baby.Text.Search.{Unicode}
use baby.Context.Trim.{trim}
use baby.Ratelimit.{TokenBucket, try_acquire}
use baby.Health
use baby.Health.{Monitor, Reason, note_failure, note_success, cooling_down}
use baby.Router.{
  Tier, daily, nim_primary, nim_heavy, backstop, Opts, Settings, Ladder, ladder, redact_pinned,
}

-- How a provider's stream goes on after its last chunk: it ends, nothing more comes in time, the
-- host answers with a status code, the connection fails, or it breaks in another way.
pub data Ending : Type 0 where
  finished silent unreachable broken : Ending
  status : ℕ → Ending

-- `late` tells whether the first event comes only after `first_token_timeout_s`.
pub record Stream : Type 0 where
  pub late : Bool
  pub chunks : List String
  pub ending : Ending

pub record World : Type 0 where
  pub present : Tier → Bool
  pub healthy : Tier → Bool
  pub begins : Tier → ℕ
  pub ends : Tier → ℕ
  pub stream : Tier → List Message → Stream

pub record Config : Type 0 where
  pub unicode : Unicode
  pub settings : Settings
  pub placeholder : String → ℕ → String
  pub trim_enabled : Bool
  pub history_budget : Tier → ℕ
  pub game_mode : Bool

pub data Error : Type 0 where
  timed_out stalled connection empty_reply other no_provider : Error
  http : ℕ → Error

pub data Skip : Type 0 where
  unhealthy bucket_empty slow stall no_connection no_reply failure : Skip
  code : ℕ → Skip

pub data Note : Type 0 where
  decision : Tier → Note
  sent : Tier → List Message → Bool → Note
  skipped : Tier → Skip → Note
  served : Tier → Note
  game_offline : Note

pub record Session : Type 0 where
  pub monitor : Monitor
  pub bucket : TokenBucket
  pub notes : List Note

pub data End : Type 0 where
  returned : End
  raised : Error → End
  out_of_fuel : End

pub record Result : Type 0 where
  pub chunks : List String
  pub end : End
  pub session : Session

abbrev pub is_nim : Tier → Bool
is_nim nim_primary = true
is_nim nim_heavy = true
is_nim _ = false

abbrev pub is_daily : Tier → Bool
is_daily daily = true
is_daily _ = false

abbrev pub is_backstop : Tier → Bool
is_backstop backstop = true
is_backstop _ = false

abbrev pub add : Note → Session → Session
add n s = record s { notes = s.notes ++ n ∷ [] }

-- `if is_nim: self.monitor.note_failure(reason)`, and so for a success
unfoldable pub blame : World → Tier → Reason → Session → Session
blame w t r s = if is_nim t then record s { monitor = note_failure (w.ends t) r s.monitor } else s

unfoldable pub praise : Tier → Session → Session
praise t s = if is_nim t then record s { monitor = note_success s.monitor } else s

-- What an attempt leads to: the next rung, with the last error, or the end of the call.
pub data Tried : Type 0 where
  fall : Option Error → Session → Tried
  stop : Result → Tried

abbrev pub reason_of : ℕ → Reason
reason_of c = if c == 429 then Health.too_many else Health.http c

abbrev pub or_empty : Option Error → Option Error
or_empty none = some empty_reply
or_empty (some e) = some e

-- The stream ends before any chunk.
unfoldable pub before_chunk : World → Tier → Bool → Ending → Option Error → Session → Tried
unfolding blame praise
before_chunk w t is_last finished last s =
    if is_last
    then stop (record { chunks = []; end = returned; session = add (served t) (praise t s) })
    else fall (or_empty last) (add (skipped t no_reply) s)
before_chunk w t is_last silent last s =
    let timed = blame w t Health.timeout s in
    if is_last
    then fall (some stalled)
        (add (skipped t failure) (blame w t Health.error (add (skipped t stall) timed)))
    else fall (some timed_out) (add (skipped t slow) timed)
before_chunk w t is_last (status c) last s =
    fall (some (http c)) (add (skipped t (code c)) (blame w t (reason_of c) s))
before_chunk w t is_last unreachable last s =
    fall (some connection) (add (skipped t no_connection) (blame w t Health.dns_fail s))
before_chunk w t is_last broken last s =
    fall (some other) (add (skipped t failure) (blame w t Health.error s))

-- The stream ends after chunks that are out already.
unfoldable pub after_chunks : World → Tier → List String → Ending → Session → Result
unfolding blame praise
after_chunks w t chunks finished s = record {
  chunks = chunks;
  end = returned;
  session = add (served t) (praise t s);
}
after_chunks w t chunks silent s = record {
  chunks = chunks;
  end = raised stalled;
  session = add (skipped t stall) (blame w t Health.timeout s);
}
after_chunks w t chunks (status c) s = record {
  chunks = chunks;
  end = raised (http c);
  session = s;
}
after_chunks w t chunks unreachable s = record {
  chunks = chunks;
  end = raised connection;
  session = s;
}
after_chunks w t chunks broken s = record { chunks = chunks; end = raised other; session = s }

abbrev pub consume_chunks :
    World → Tier → Bool → List String → Ending → Option Error → Session → Tried
consume_chunks w t is_last [] ending last s = before_chunk w t is_last ending last s
consume_chunks w t is_last (c ∷ cs) ending last s = stop (after_chunks w t (c ∷ cs) ending s)

-- The `try` block over one stream: the first event has a time limit, except on the final rung.
unfoldable pub consume : World → Tier → Bool → Stream → Option Error → Session → Tried
unfolding before_chunk after_chunks blame
consume w t is_last stream last s =
    if stream.late && not is_last
    then fall (some timed_out) (add (skipped t slow) (blame w t Health.timeout s))
    else consume_chunks w t is_last stream.chunks stream.ending last s

-- What a brain is sent.
unfoldable pub payload : Config → Tier → List Message → List Message
payload cfg t ms =
    let shown = if is_daily t then ms else redact_pinned cfg.placeholder cfg.settings ms in
    if cfg.trim_enabled then trim shown (cfg.history_budget t) else shown

abbrev pub honest : String
honest =
    "The cloud is unreachable and my local brain is unloaded (game mode). Say 'game mode off' and I'll reload it."

-- what follows the loop
unfoldable pub give_up : Config → Option Error → Session → Result
give_up cfg last s =
    if cfg.game_mode
    then record { chunks = honest ∷ []; end = returned; session = add game_offline s }
    else record {
      chunks = [];
      end = elim last [ some e ↦ raised e | none ↦ raised no_provider ];
      session = s;
    }

-- One rung is tried: the decision, the payload (with `keep_alive: 0` for the local brain in game
-- mode), the stream.
unfoldable pub attempt :
    World → Config → List Message → Tier → Bool → Option Error → Session → Tried
unfolding consume payload
attempt w cfg ms t is_last last s =
    let p = payload cfg t ms in
    let evict = is_daily t && cfg.game_mode in
    consume w t is_last (w.stream t p) last (add (sent t p evict) (add (decision t) s))

-- What comes before: the provider's absence, its health, the bucket.
pub data Gate : Type 0 where
  pass : Session → Gate
  skip : Session → Gate
  overflow : Session → Gate

unfoldable pub gate : World → Bool → Tier → Session → Gate
gate w background t s =
    if not (w.present t)
    then skip s
    else if is_nim t
    then (if cooling_down (w.begins t) s.monitor || not (w.healthy t)
        then skip (add (skipped t unhealthy) s)
        else (let (ok, bucket) = try_acquire (w.begins t) background s.bucket in
            let s' = record s { bucket = bucket } in
            if ok then pass s' else overflow (add (skipped t bucket_empty) s')))
    else if is_backstop t && not (w.healthy t)
    then skip (add (skipped t unhealthy) s)
    else pass s
