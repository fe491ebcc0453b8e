-- ===== src/Workers/Project/Wait.antt =====
-- The wait for the subtasks: `_wait_for_tasks` of workers/orchestrator.py. A round is one pass of its
-- loop, with what the clock, the bus and the board give to it.
use baby.Common.{
  ℕ, refl, ◌+◌, ◌≡◌, subst, Bool, true, false, not, Option, none, some, List, [], ◌∷◌, any, filter,
  leb, ltb, arith, All, if◌then◌else◌, ◌==◌, Bool-cases, inl, inr, ◌⊎◌, ap, sym, ◌∙◌, Option-cases,
}
use baby.Message.{is_empty}
use baby.Db.Table.{find}
use baby.Db.Tasks.{Task, TaskStatus, queued, running, done, failed, cancelled, task_id, is_terminal}

-- `event` is the task of a `task_done`; another event, or none within the second, is `none`.
pub record Round : Type 0 where
  pub starts : ℕ
  pub event : Option ℕ
  pub ends : ℕ
  pub board : List Task

abbrev pub is_event : Round → ℕ → Bool
is_event r i = elim r.event [ none ↦ false | some j ↦ i == j ]

abbrev pub has_ended : Option Task → Bool
has_ended none = false
has_ended (some t) = is_terminal t.status

abbrev pub is_polled : Round → ℕ → Bool
is_polled r i = has_ended (find task_id i r.board)

-- `pending.discard`, and the poll, if it is due
abbrev pub still_pending : Bool → Round → List ℕ → List ℕ
still_pending due r pending =
    let unheard = filter (λ i. not (is_event r i)) pending in
    if due then filter (λ i. not (is_polled r i)) unheard else unheard

-- `none` where the rounds run out before the loop ends
unfoldable pub wait_for_tasks : ℕ → ℕ → List Round → ℕ → List ℕ → Option Bool
wait_for_tasks deadline poll_s [] last_poll pending = if is_empty pending then some true else none
wait_for_tasks deadline poll_s (r ∷ rs) last_poll pending =
    let due = leb (last_poll + poll_s) r.ends in
    let further =
      wait_for_tasks deadline poll_s rs (if due then r.ends else last_poll)
        (still_pending due r pending) in
    if is_empty pending then some true else if ltb deadline r.starts then some false else further

-- The event of the round is the `task_done` of the task, or the board of the round has a row of the
-- task whose status is `done`, `failed` or `cancelled`.
abbrev pub IsOver : Task → Type 0
IsOver t = (t.status ≡ done) ⊎ ((t.status ≡ failed) ⊎ (t.status ≡ cancelled))

abbrev pub SeenOver : ℕ → List Task → Type 0
SeenOver i [] = ⊥
SeenOver i (t ∷ ts) = ((t.id ≡ i) × IsOver t) ⊎ SeenOver i ts

abbrev pub IsKnown : List Round → ℕ → Type 0
IsKnown [] i = ⊥
IsKnown (r ∷ rs) i = ((r.event ≡ some i) ⊎ SeenOver i r.board) ⊎ IsKnown rs i

is_terminal-IsOver : (t : Task) → is_terminal t.status ≡ true → IsOver t
is_terminal-IsOver t h = elim (status_cases t.status) [
  | inl waits ↦ absurd (ground (arith, waits, h))
  | inr over ↦ over
]
  where
    status_cases :
        (s : TaskStatus) → (is_terminal s ≡ false) ⊎ ((s ≡ done) ⊎ ((s ≡ failed) ⊎ (s ≡ cancelled)))
    status_cases queued = inl refl
    status_cases running = inl refl
    status_cases done = inr (inl refl)
    status_cases failed = inr (inr (inl refl))
    status_cases cancelled = inr (inr (inr refl))

polled-SeenOver :
    (i : ℕ) (board : List Task) → has_ended (find task_id i board) ≡ true → SeenOver i board
polled-SeenOver i [] h = absurd (cc)
polled-SeenOver i (t ∷ ts) h = elim (Bool-cases (t.id == i)) [
  | inl mine ↦ inl (ground (arith, mine), is_terminal-IsOver t (ground (arith, mine, h)))
  | inr other ↦ inr (polled-SeenOver i ts (ground (arith, other, h)))
]

event-told : (r : Round) (i : ℕ) → is_event r i ≡ true → r.event ≡ some i
event-told r i h = elim (Option-cases r.event) [
  | inl nothing ↦ absurd (ground (arith, nothing, h))
  | inr (j, e) ↦ let same : i ≡ j = ground (arith, e, h) in e ∙ ap some (sym same)
]

All-unfilter :
    (P Q : ℕ → Type 0) (p : ℕ → Bool) (xs : List ℕ)
    → ((i : ℕ) → p i ≡ true → Q i)
    → ((i : ℕ) → P i → Q i)
    → All P (filter (λ i. not (p i)) xs)
    → All Q xs
All-unfilter P Q p [] hit kept h = tt
All-unfilter P Q p (x ∷ xs) hit kept h = elim (Bool-cases (p x)) [
  | inl gone ↦ (
    hit x gone,
    All-unfilter P Q p xs hit kept (
        subst
          (λ b.
            All P (if not b then x ∷ filter (λ i. not (p i)) xs else filter (λ i. not (p i)) xs))
          gone h),
  )
  | inr stays ↦
      let g : All P (x ∷ filter (λ i. not (p i)) xs) =
        subst
          (λ b.
            All P (if not b then x ∷ filter (λ i. not (p i)) xs else filter (λ i. not (p i)) xs))
          stays h in
      (kept x g.0, All-unfilter P Q p xs hit kept g.1)
]

pending-IsKnown :
    (due : Bool) (r : Round) (rs : List Round) (pending : List ℕ)
    → All (IsKnown rs) (still_pending due r pending)
    → All (IsKnown (r ∷ rs)) pending
pending-IsKnown false r rs pending h =
    All-unfilter (IsKnown rs) (IsKnown (r ∷ rs)) (is_event r) pending
      (λ i told. inl (inl (event-told r i told))) (λ i k. inr k) h
pending-IsKnown true r rs pending h =
    All-unfilter (IsKnown (r ∷ rs)) (IsKnown (r ∷ rs)) (is_event r) pending
      (λ i told. inl (inl (event-told r i told))) (λ i k. k)
      (All-unfilter (IsKnown rs) (IsKnown (r ∷ rs)) (is_polled r)
        (filter (λ i. not (is_event r i)) pending)
        (λ i seen. inl (inr (polled-SeenOver i r.board seen))) (λ i k. inr k) h)

-- How a wait may end: well, with the end of each task known; with a round after the deadline; or not
-- yet, and no round was so late.
abbrev pub IsEnd : ℕ → List Round → List ℕ → Option Bool → Type 0
IsEnd deadline rs pending (some true) = All (IsKnown rs) pending
IsEnd deadline rs pending (some false) = any (λ r. ltb deadline r.starts) rs ≡ true
IsEnd deadline rs pending none = any (λ r. ltb deadline r.starts) rs ≡ false

later-IsEnd :
    (deadline : ℕ) (due : Bool) (r : Round) (rs : List Round) (pending : List ℕ) (o : Option Bool)
    → ltb deadline r.starts ≡ false
    → IsEnd deadline rs (still_pending due r pending) o
    → IsEnd deadline (r ∷ rs) pending o
later-IsEnd deadline due r rs pending none early h = rw early h
later-IsEnd deadline due r rs pending (some false) early h = rw early h
later-IsEnd deadline due r rs pending (some true) early h = pending-IsKnown due r rs pending h

late-IsEnd :
    (deadline : ℕ) (r : Round) (rs : List Round) (pending : List ℕ)
    → ltb deadline r.starts ≡ true
    → IsEnd deadline (r ∷ rs) pending (some false)
late-IsEnd deadline r rs pending over = rw over refl

-- A wait that ends well does so only when for each subtask a `task_done` event was received or a row of
-- it that is done, failed or cancelled stood on the board of a round; it gives up only when a round starts after the deadline; and it has ended, one way or the other,
-- once a round starts so late.
pub wait_for_tasks-IsEnd :
    (deadline poll_s : ℕ) (rs : List Round) (last_poll : ℕ) (pending : List ℕ)
    → IsEnd deadline rs pending (wait_for_tasks deadline poll_s rs last_poll pending)
unfolding wait_for_tasks
wait_for_tasks-IsEnd deadline poll_s [] last_poll [] = tt
wait_for_tasks-IsEnd deadline poll_s [] last_poll (i ∷ pending) = refl
wait_for_tasks-IsEnd deadline poll_s (r ∷ rs) last_poll [] = tt
wait_for_tasks-IsEnd deadline poll_s (r ∷ rs) last_poll (i ∷ pending) =
    let due = leb (last_poll + poll_s) r.ends in
    let rest =
      wait_for_tasks-IsEnd deadline poll_s rs (if due then r.ends else last_poll)
        (still_pending due r (i ∷ pending)) in
    elim (Bool-cases (ltb deadline r.starts)) [
      | inl over ↦ rw over (late-IsEnd deadline r rs (i ∷ pending) over)
      | inr early ↦ rw early (
          later-IsEnd deadline due r rs (i ∷ pending)
            (wait_for_tasks deadline poll_s rs (if due then r.ends else last_poll)
              (still_pending due r (i ∷ pending)))
            early rest)
    ]
