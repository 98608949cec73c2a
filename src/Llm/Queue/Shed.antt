-- ===== src/Llm/Queue/Shed.antt =====
-- What a full queue sheds, what a queue that is shut down does, and the bounds after any history.
use jetedge_agent.Prelude.{
  ℕ, ◌≢◌, ◌≤◌, ◌≡◌, refl, true, false, List, [], ◌∷◌, Option, none, some, arith, length,
}
use jetedge_agent.Llm.Queue.{
  RequestPriority, Entry, Queue, enqueue, dequeue, shutdown, empty_queue, make_room,
}
use jetedge_agent.Llm.Queue.Order.{
  IsValid, enqueue-IsValid, dequeue-IsValid, empty_queue-IsValid, length-push,
}

pub data Call {ℓ} (T : Type ℓ) : Type ℓ where
  puts : T → RequestPriority → Call T
  takes : Call T
  shuts : Call T

module _ {ℓ} {T : Type ℓ} where
  -- A call with what it hands out.
  pub step : Queue T → Call T → Queue T × Option T
  step q (puts a p) = ((enqueue a p q).0, none)
  step q takes = dequeue q
  step q shuts = (shutdown q, none)

  pub run : Queue T → List (Call T) → Queue T × List T
  unfolding step
  run q [] = (q, [])
  run q (c ∷ cs) =
      let (q', out) = step q c in
      let (last, outs) = run q' cs in (last, elim out [ none ↦ outs | some a ↦ a ∷ outs ])

  shutdown-IsValid : (q : Queue T) → IsValid q → IsValid (shutdown q)
  unfolding shutdown
  shutdown-IsValid q v = record {
    sorted = v.sorted;
    fresh = v.fresh;
    bounded = v.bounded;
    room = v.room;
  }

  step-IsValid : (q : Queue T) (c : Call T) → IsValid q → IsValid (step q c).0
  unfolding step
  step-IsValid q (puts a p) v = enqueue-IsValid a p q v
  step-IsValid q takes v = dequeue-IsValid q v
  step-IsValid q shuts v = shutdown-IsValid q v

  run-IsValid : (q : Queue T) (cs : List (Call T)) → IsValid q → IsValid (run q cs).0
  unfolding run
  run-IsValid q [] v = v
  run-IsValid q (c ∷ cs) v = run-IsValid (step q c).0 cs (step-IsValid q c v)

  -- After any history of calls on a fresh queue of size at least 1 the entries stand in pop order,
  -- their sequence numbers are below the next one, and there are at most `max_size` of them.
  pub run-empty_queue-IsValid :
      (n : ℕ) (cs : List (Call T)) → 1 ≤ n → IsValid (run (empty_queue n) cs).0
  run-empty_queue-IsValid n cs h = run-IsValid (empty_queue n) cs (empty_queue-IsValid n h)

  -- On a full valid queue `enqueue` accepts the item and first drops the entry that `dequeue` would
  -- have handed out next: the outcome is that of a `dequeue`, its item lost, and an `enqueue`.
  pub enqueue_full :
      (a : T) (p : RequestPriority) (q : Queue T)
      → IsValid q
      → q.shut ≡ false
      → length q.entries ≡ q.max_size
      → ((enqueue a p q).1 ≡ true)
        × ((enqueue a p q).0 ≡ (enqueue a p (dequeue q).0).0)
        × (length (enqueue a p q).0.entries ≡ q.max_size)
        × ((dequeue q).1 ≢ none)
  unfolding enqueue dequeue make_room
  enqueue_full a p q v h k = go q.entries refl k
    where
      e : Entry T
      e = record { item = a; priority = p; seq = q.next_seq }

      go :
          (xs : List (Entry T))
          → q.entries ≡ xs
          → length xs ≡ q.max_size
          → ((enqueue a p q).1 ≡ true)
            × ((enqueue a p q).0 ≡ (enqueue a p (dequeue q).0).0)
            × (length (enqueue a p q).0.entries ≡ q.max_size)
            × ((dequeue q).1 ≢ none)
      go [] eq l = absurd (omega (arith, v.room))
      go (x ∷ xs) eq l =
          (ground arith, ground arith, ground (arith, length-push e xs), ground arith)

  -- Once shut down a queue takes nothing in and hands nothing out, whatever is called.
  pub run_shut : (q : Queue T) (cs : List (Call T)) → q.shut ≡ true → run q cs ≡ (q, [])
  unfolding run enqueue dequeue shutdown
  run_shut q [] h = refl
  run_shut q (puts a p ∷ cs) h = ground (arith, run_shut q cs h)
  run_shut q (takes ∷ cs) h = ground (arith, run_shut q cs h)
  run_shut q (shuts ∷ cs) h = ground (arith, run_shut q cs h)
