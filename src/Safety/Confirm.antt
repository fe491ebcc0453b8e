-- ===== src/Safety/Confirm.antt =====
-- `ConfirmationManager` of core/safety.py: confirmations that are pending by id. A call of `ask` has
-- two steps, up to its `await` and from there; in between any other step may come. The ids that
-- `uuid4` gives are arguments of the steps, and may repeat. Futures live in a store by number.
pub mod Yes
pub mod Kept
pub mod Answer
mod Tests
use baby.Common.{
  ℕ, zero, suc, Bool, true, false, ◌&&◌, not, String, str_eq, Option, none, some, List, [], ◌∷◌,
  ◌++◌, ◌==◌, if◌then◌else◌,
}

-- `asyncio.Future`: with no result yet, with one, or cancelled, as `wait_for` leaves it.
pub data Future : Type 0 where
  open_future closed_future : Future
  done : Bool → Future

pub data Resolution : Type 0 where
  approved refused timeout cancelled : Resolution

-- what is published on the bus
pub data Note : Type 0 where
  confirm_request : String → Note
  confirm_resolved : String → Bool → Resolution → Note

-- A call of `ask`: its local `confirm_id`, and its future.
pub record Ask : Type 0 where
  pub confirm_id : String
  pub future : Future

-- The calls of `ask` so far are the numbers below `fresh`; `pending` is the dict, an id's first entry
-- being the one that counts.
pub record Manager : Type 0 where
  pub asks : ℕ → Ask
  pub fresh : ℕ
  pub pending : List (String × ℕ)
  pub notes : List Note

abbrev pub new : Manager
new = record {
  asks = λ n. record { confirm_id = ""; future = closed_future };
  fresh = 0;
  pending = [];
  notes = [];
}

abbrev pub set : (ℕ → Ask) → ℕ → Ask → ℕ → Ask
set asks n a = λ k. if k == n then a else asks k

-- `_pending.get(confirm_id)`
abbrev pub get : String → List (String × ℕ) → Option ℕ
get id [] = none
get id ((i, n) ∷ rest) = if str_eq id i then some n else get id rest

-- `_pending.pop(confirm_id, None)`
abbrev pub pop : String → List (String × ℕ) → List (String × ℕ)
pop id [] = []
pop id ((i, n) ∷ rest) = if str_eq id i then pop id rest else (i, n) ∷ pop id rest

abbrev pub is_open : Future → Bool
is_open open_future = true
is_open _ = false

-- `ask` up to its `await`
unfoldable pub ask : String → Manager → Manager
ask id m = record m {
  asks = set m.asks m.fresh (record { confirm_id = id; future = open_future });
  fresh = suc m.fresh;
  pending = (id, m.fresh) ∷ pop id m.pending;
  notes = m.notes ++ confirm_request id ∷ [];
}

-- `set_result` on a future that is not done
abbrev pub set_result : Bool → ℕ → (ℕ → Ask) → ℕ → Ask
set_result b n asks = set asks n (record (asks n) { future = done b })

unfoldable pub resolve : String → Bool → Manager → Bool × Manager
resolve id b m = elim (get id m.pending) [
  | none ↦ (false, m)
  | some n ↦
      if is_open (m.asks n).future
      then (true, record m { asks = set_result b n m.asks })
      else (false, m)
]

abbrev pub refuse_all : List (String × ℕ) → (ℕ → Ask) → ℕ → Ask
refuse_all [] asks = asks
refuse_all ((i, n) ∷ rest) asks =
    refuse_all rest (if is_open (asks n).future then set_result false n asks else asks)

unfoldable pub cancel_all : Manager → Manager
cancel_all m = record m { asks = refuse_all m.pending m.asks }

-- Call number `n` of `ask` ends: the id leaves the dict, and the outcome is published.
abbrev pub finish : ℕ → Bool → Resolution → Manager → Manager
finish n b how m =
    let id = (m.asks n).confirm_id in
    record m {
      asks = set m.asks n (record { confirm_id = id; future = closed_future });
      pending = pop id m.pending;
      notes = m.notes ++ confirm_resolved id b how ∷ [];
    }

-- What follows the `await`, with a result, at the time limit, or on cancellation of the task. Where a
-- result is there at the time limit, `wait_for` of Python 3.11 gives it, which is `wake`; from 3.12 on
-- it is lost, which is `time_out`.
abbrev pub answered : Bool → Resolution
answered true = approved
answered false = refused

unfoldable pub wake : ℕ → Manager → Manager
wake n m = elim (m.asks n).future [ done b ↦ finish n b (answered b) m | _ ↦ m ]

unfoldable pub time_out : ℕ → Manager → Manager
time_out n m = elim (m.asks n).future [ closed_future ↦ m | _ ↦ finish n false timeout m ]

unfoldable pub cancel : ℕ → Manager → Manager
cancel n m = elim (m.asks n).future [ closed_future ↦ m | _ ↦ finish n false cancelled m ]

pub data Step : Type 0 where
  asks : String → Step
  resolves : String → Bool → Step
  cancels_all : Step
  wakes times_out cancels : ℕ → Step

unfoldable pub step : Manager → Step → Manager
unfolding ask resolve cancel_all wake time_out cancel
step m (asks id) = ask id m
step m (resolves id b) = (resolve id b m).1
step m cancels_all = cancel_all m
step m (wakes n) = wake n m
step m (times_out n) = time_out n m
step m (cancels n) = cancel n m

unfoldable pub run : Manager → List Step → Manager
unfolding step
run m [] = m
run m (x ∷ xs) = run (step m x) xs
