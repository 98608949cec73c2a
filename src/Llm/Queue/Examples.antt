-- ===== src/Llm/Queue/Examples.antt =====
-- Small queues of numbered requests.
use jetedge_agent.Prelude.{ℕ, ◌≢◌, ◌≡◌, refl, true, false, List, [], ◌∷◌, none, arith, length}
use jetedge_agent.Llm.Queue.{
  RequestPriority, high, normal, low, Queue, enqueue, dequeue, empty_queue,
}
use jetedge_agent.Llm.Queue.Order.{IsValid}
use jetedge_agent.Llm.Queue.Drain.{enqueue_all, drain, drain-enqueue_all}
use jetedge_agent.Llm.Queue.Shed.{Call, puts, takes, enqueue_full}

abbrev requests : List (ℕ × RequestPriority)
requests = (1, low) ∷ (2, high) ∷ (3, normal) ∷ (4, high) ∷ []

abbrev first_two : Queue ℕ
first_two = record {
  max_size = 2;
  next_seq = 2;
  shut = false;
  entries =
      record { item = 2; priority = high; seq = 1 }
      ∷ record { item = 1; priority = low; seq = 0 }
      ∷ [];
}

first_two-IsValid : IsValid first_two
first_two-IsValid = omega arith

-- A third request of low priority costs the request of high priority.
sheds_the_high_one :
    (enqueue 9 low first_two).0.entries
    ≡ record { item = 1; priority = low; seq = 0 }
      ∷ record { item = 9; priority = low; seq = 2 }
      ∷ []
unfolding enqueue
sheds_the_high_one = refl

drain-enqueue_all_example : drain 5 (enqueue_all requests (empty_queue 4)) ≡ 2 ∷ 4 ∷ 3 ∷ 1 ∷ []
drain-enqueue_all_example = drain-enqueue_all requests 5 4 (omega arith) (omega arith) (omega arith)

abbrev calls : List (Call ℕ)
calls = puts 5 low ∷ puts 6 high ∷ takes ∷ []

enqueue_full_example :
    ((enqueue 9 low first_two).1 ≡ true)
    × ((enqueue 9 low first_two).0 ≡ (enqueue 9 low (dequeue first_two).0).0)
    × (length (enqueue 9 low first_two).0.entries ≡ 2)
    × ((dequeue first_two).1 ≢ none)
enqueue_full_example = enqueue_full 9 low first_two first_two-IsValid refl refl
