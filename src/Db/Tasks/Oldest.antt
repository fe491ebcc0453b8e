-- ===== src/Db/Tasks/Oldest.antt =====
-- Which task a claim hands out.
use baby.Common.{
  ℕ, ◌≡◌, refl, true, false, Option, none, some, List, [], ◌∷◌, ◌∙◌, ap, if◌then◌else◌,
}
use baby.Db.Table.{Ascending}
use baby.Db.Claim.{claim_head, claim_next-claim_head}
use baby.Db.Tasks.{
  TaskStatus, queued, running, done, failed, cancelled, Task, task_id, is_queued, start_task,
  claim_next_task,
}

-- The claim by hand: the first task of the list that is queued is running since now, and given back.
abbrev pub taken : ℕ → Task → Task
taken now t = record t { status = running; started_at = some now }

abbrev pub if_queued {ℓ} : {A : Type ℓ} → TaskStatus → A → A → A
if_queued queued x y = x
if_queued _ x y = y

abbrev pub take_oldest : ℕ → List Task → Option Task × List Task
take_oldest now [] = (none, [])
take_oldest now (t ∷ ts) =
    let rest = take_oldest now ts in
    if_queued t.status (some (taken now t), taken now t ∷ ts) (rest.0, t ∷ rest.1)

if_queued-is_queued {ℓ} :
    {A : Type ℓ} (s : TaskStatus) (x y : A)
    → (if elim s [ queued ↦ true | _ ↦ false ] then x else y) ≡ if_queued s x y
if_queued-is_queued queued x y = refl
if_queued-is_queued running x y = refl
if_queued-is_queued done x y = refl
if_queued-is_queued failed x y = refl
if_queued-is_queued cancelled x y = refl

claim_head-take_oldest :
    (now : ℕ) (rows : List Task)
    → claim_head task_id is_queued (start_task now) rows ≡ take_oldest now rows
claim_head-take_oldest now [] = refl
claim_head-take_oldest now (t ∷ ts) =
    let head = claim_head task_id is_queued (start_task now) ts in
    let claimed : Option Task × List Task = (some (taken now t), taken now t ∷ ts) in
    if_queued-is_queued t.status claimed (head.0, t ∷ head.1)
    ∙ ap (λ (r : Option Task × List Task). if_queued t.status claimed (r.0, t ∷ r.1))
        (claim_head-take_oldest now ts)

-- On a table whose ids rise, as they do when it is filled, the claim gives back the first task of the
-- table with the status `queued`: it now has the status `running` and the given time as `started_at`, no
-- other row has changed, and without a queued task the table is as it was.
pub claim_next_task-take_oldest :
    (now : ℕ) (rows : List Task)
    → Ascending task_id rows
    → claim_next_task now rows ≡ take_oldest now rows
unfolding claim_next_task
claim_next_task-take_oldest now rows h =
    claim_next-claim_head task_id is_queued (start_task now) (λ t. refl) rows h
    ∙ claim_head-take_oldest now rows
