-- ===== src/Llm/Queue/Drain.antt =====
-- What a row of requests looks like when the worker drains it.
use mathlib.Core.List.{append-nil, append_assoc}
use jetedge_agent.Prelude.{
  ℕ, zero, suc, ◌+◌, ◌≤◌, ◌≡◌, refl, ◌∙◌, sym, false, List, [], ◌∷◌, ◌++◌, Option, none, some,
  arith, length, ◌==◌, if◌then◌else◌,
}
use jetedge_agent.Llm.Queue.{
  RequestPriority, high, normal, low, rank, Entry, Queue, enqueue, dequeue, empty_queue,
}
use jetedge_agent.Llm.Queue.Order.{
  IsValid, Sorted, of_priority, empty_queue-IsValid, enqueue-IsValid, enqueue-of_priority,
  enqueue_room, of_priority-nil,
}

module _ {ℓ} {T : Type ℓ} where
  pub enqueue_all : List (T × RequestPriority) → Queue T → Queue T
  enqueue_all [] q = q
  enqueue_all ((a, p) ∷ rs) q = enqueue_all rs (enqueue a p q).0

  -- At most `n` calls of `dequeue`, up to the first that hands out nothing.
  pub drain : ℕ → Queue T → List T
  drain zero q = []
  drain (suc n) q = next (dequeue q).1 (drain n (dequeue q).0)
    where
      next : Option T → List T → List T
      next none rest = []
      next (some a) rest = a ∷ rest

  -- The requests of one priority, in the order in which they came.
  abbrev pub requests_of : RequestPriority → List (T × RequestPriority) → List T
  requests_of r [] = []
  requests_of r ((a, p) ∷ rs) = if rank p == rank r then a ∷ requests_of r rs else requests_of r rs

  enqueue_all-of_priority :
      (r : RequestPriority) (rs : List (T × RequestPriority)) (q : Queue T)
      → IsValid q
      → q.shut ≡ false
      → length q.entries + length rs ≤ q.max_size
      → of_priority r (enqueue_all rs q).entries ≡ of_priority r q.entries ++ requests_of r rs
  unfolding enqueue_all
  enqueue_all-of_priority r [] q v h k = sym (append-nil (of_priority r q.entries))
  enqueue_all-of_priority r ((a, p) ∷ rs) q v h k = ground (
    arith,
    enqueue_all-of_priority r rs (enqueue a p q).0 (enqueue-IsValid a p q v),
    enqueue-of_priority r p a q v h (omega arith),
    enqueue_room p a q h (omega arith),
    append_assoc (of_priority r q.entries) (a ∷ []) (requests_of r rs),
    append-nil (of_priority r q.entries),
  )

  enqueue_all_room :
      (rs : List (T × RequestPriority)) (q : Queue T)
      → IsValid q
      → q.shut ≡ false
      → length q.entries + length rs ≤ q.max_size
      → let q' = enqueue_all rs q in
        IsValid q' × (q'.shut ≡ false) × (length q'.entries ≡ length q.entries + length rs)
  unfolding enqueue_all
  enqueue_all_room [] q v h k = (v, h, omega arith)
  enqueue_all_room ((a, p) ∷ rs) q v h k = ground (
    arith,
    enqueue_room p a q h (omega arith),
    enqueue_all_room rs (enqueue a p q).0 (enqueue-IsValid a p q v),
  )

  abbrev items : List (Entry T) → List T
  items [] = []
  items (x ∷ xs) = x.item ∷ items xs

  drain-items :
      (n : ℕ) (q : Queue T) (xs : List (Entry T))
      → q.shut ≡ false
      → q.entries ≡ xs
      → length xs ≤ n
      → drain n q ≡ items xs
  unfolding drain dequeue
  drain-items zero q [] h e k = refl
  drain-items zero q (x ∷ xs) h e k = absurd (omega arith)
  drain-items (suc n) q [] h e k = ground arith
  drain-items (suc n) q (x ∷ xs) h e k =
      ground (arith, drain-items n (record q { entries = xs }) xs)

  items-of_priority :
      (xs : List (Entry T))
      → Sorted xs
      → items xs ≡ of_priority high xs ++ (of_priority normal xs ++ of_priority low xs)
  items-of_priority [] s = refl
  items-of_priority (x ∷ xs) s =
      ground
        (arith, items-of_priority xs s.1, of_priority-nil high x xs, of_priority-nil normal x xs)

  -- Requests that fit in a fresh queue are handed out by priority, high before normal before low,
  -- and in the order in which they came within each priority; all of them are handed out.
  pub drain-enqueue_all :
      (rs : List (T × RequestPriority)) (n max_size : ℕ)
      → length rs ≤ max_size
      → 1 ≤ max_size
      → length rs ≤ n
      → drain n (enqueue_all rs (empty_queue max_size))
        ≡ requests_of high rs ++ (requests_of normal rs ++ requests_of low rs)
  unfolding empty_queue
  drain-enqueue_all rs n max_size h k l =
      let q : Queue T = empty_queue max_size in
      let v : IsValid q = empty_queue-IsValid max_size k in
      let full = enqueue_all rs q in
      let room = enqueue_all_room rs q v refl (omega arith) in
      drain-items n full full.entries room.1 refl (omega arith)
      ∙ items-of_priority full.entries room.0.sorted
      ∙ cc (
        enqueue_all-of_priority high rs q v refl (omega arith),
        enqueue_all-of_priority normal rs q v refl (omega arith),
        enqueue_all-of_priority low rs q v refl (omega arith),
      )
