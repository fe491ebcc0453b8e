-- ===== src/Bus/Tests.antt =====
-- A bus at concrete events, and the theorems about it there.
use baby.Common.{ℕ, ◌≡◌, refl, String, List, [], ◌∷◌, map, arith}
use baby.Bus.{Bus, Op, new, run, subscribes, unsubscribes, publishes, takes}
use baby.Bus.Order.{Ordered, run-Ordered}
use baby.Bus.Latest.{publish_all, events, listen, publish_all-latest}

abbrev ops : List (Op ℕ)
ops =
    subscribes
    ∷ publishes "token" "ui" 7
    ∷ publishes "token" "ui" 8
    ∷ subscribes
    ∷ publishes "turn_end" "ui" 9
    ∷ takes 0
    ∷ unsubscribes 1
    ∷ []

abbrev three : List (String × String × ℕ)
three = ("token", "ui", 7) ∷ ("token", "ui", 8) ∷ ("turn_end", "ui", 9) ∷ []

abbrev listening : Bus ℕ
listening = record (new 2) { subscribers = record { id = 0; queue = [] } ∷ []; fresh = 1 }

-- a queue of size 2 has lost the first event to the third, and the second to its reader
ops-queues :
    (run (new 2) ops).subscribers
    ≡ record {
      id = 0;
      queue = record { kind = "turn_end"; channel = "ui"; payload = 9; seq = 3 } ∷ [];
    }
      ∷ []
unfolding run
ops-queues = refl

run-Ordered_example : Ordered (run (new 2) ops)
run-Ordered_example = run-Ordered 2 ops

publish_all-latest_example :
    (publish_all three listening).subscribers
    ≡ map (listen 2 (events 1 three)) listening.subscribers
publish_all-latest_example =
    publish_all-latest three listening (omega arith) ((λ p. omega arith), tt)
