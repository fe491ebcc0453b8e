-- ===== src/Bus.antt =====
-- The event bus of core/bus.py: fan-out to bounded queues that drop the oldest event. An event's
-- time stamp, which nothing here reads, is left out; `A` is what payloads are.
pub mod Order
pub mod Latest
mod Tests
use baby.Common.{
  ℕ, zero, suc, ◌+◌, Bool, true, false, ◌&&◌, not, String, Option, none, some, List, [], ◌∷◌, ◌++◌,
  map, filter, any, length, ltb, leb, ◌==◌, if◌then◌else◌,
}
use baby.Message.{is_empty}

-- `AgentEvent`
pub record Event (A : Type 0) : Type 0 where
  pub kind : String
  pub channel : String
  pub payload : A
  pub seq : ℕ

-- A queue with the identity that Python's object has.
pub record Subscriber (A : Type 0) : Type 0 where
  pub id : ℕ
  pub queue : List (Event A)

-- `EventBus`; `seq` is the next number that the counter gives, `fresh` the next object's identity.
pub record Bus (A : Type 0) : Type 0 where
  pub maxsize : ℕ
  pub subscribers : List (Subscriber A)
  pub seq : ℕ
  pub fresh : ℕ

module _ {A : Type 0} where
  -- `EventBus()`
  abbrev pub new : ℕ → Bus A
  new maxsize = record { maxsize = maxsize; subscribers = []; seq = 1; fresh = 0 }

  -- `asyncio.Queue.full`: a queue of size 0 has no bound.
  unfoldable pub full : ℕ → List (Event A) → Bool
  full maxsize q = not (maxsize == 0) && leb maxsize (length q)

  -- `put_nowait`, `none` being `QueueFull`
  unfoldable pub put_nowait : ℕ → Event A → List (Event A) → Option (List (Event A))
  unfolding full
  put_nowait maxsize e q = if full maxsize q then none else some (q ++ e ∷ [])

  -- `get_nowait` for its effect: an empty queue stays as it is.
  abbrev pub drop_oldest : List (Event A) → List (Event A)
  drop_oldest [] = []
  drop_oldest (e ∷ q) = q

  -- what a queue gets of a published event
  unfoldable pub offer : ℕ → Event A → List (Event A) → List (Event A)
  unfolding put_nowait
  offer maxsize e q = elim (put_nowait maxsize e q) [
    | some q' ↦ q'
    | none ↦ elim (put_nowait maxsize e (drop_oldest q)) [ some q' ↦ q' | none ↦ drop_oldest q ]
  ]

  unfoldable pub subscribe : Bus A → Bus A
  subscribe b = record b {
    subscribers = b.subscribers ++ (record { id = b.fresh; queue = [] }) ∷ [];
    fresh = suc b.fresh;
  }

  -- `remove` takes the first subscriber that is the object.
  abbrev pub remove : ℕ → List (Subscriber A) → List (Subscriber A)
  remove i [] = []
  remove i (s ∷ ss) = if s.id == i then ss else s ∷ remove i ss

  unfoldable pub unsubscribe : ℕ → Bus A → Bus A
  unsubscribe i b =
      if any (λ s. s.id == i) b.subscribers
      then record b { subscribers = remove i b.subscribers }
      else b

  unfoldable pub publish : String → String → A → Bus A → Bus A
  unfolding offer
  publish kind channel payload b =
      let e : Event A = record { kind = kind; channel = channel; payload = payload; seq = b.seq } in
      record b {
        subscribers =
            map {A = Subscriber A} (λ s. record s { queue = offer b.maxsize e s.queue })
              b.subscribers;
        seq = suc b.seq;
      }

  -- A subscriber takes the oldest event from its queue.
  abbrev pub take_from : ℕ → Subscriber A → Subscriber A
  take_from i s = if s.id == i then record s { queue = drop_oldest s.queue } else s

  unfoldable pub take : ℕ → Bus A → Bus A
  take i b = record b { subscribers = map (take_from i) b.subscribers }

-- What happens to a bus.
pub data Op (A : Type 0) : Type 0 where
  subscribes : Op A
  unsubscribes : ℕ → Op A
  publishes : String → String → A → Op A
  takes : ℕ → Op A

module _ {A : Type 0} where
  unfoldable pub step : Bus A → Op A → Bus A
  unfolding subscribe unsubscribe publish take
  step b subscribes = subscribe b
  step b (unsubscribes i) = unsubscribe i b
  step b (publishes kind channel payload) = publish kind channel payload b
  step b (takes i) = take i b

  unfoldable pub run : Bus A → List (Op A) → Bus A
  unfolding step
  run b [] = b
  run b (op ∷ ops) = run (step b op) ops
