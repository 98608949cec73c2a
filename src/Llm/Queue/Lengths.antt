-- ===== src/Llm/Queue/Lengths.antt =====
-- How the calls change the number of entries, for the clients of the queue.
use jetedge_agent.Prelude.{
  ℕ, suc, ◌+◌, ◌≤◌, ◌≡◌, ◌⊎◌, refl, not, List, [], ◌∷◌, none, some, arith, length, if◌then◌else◌,
}
use jetedge_agent.Llm.Queue.{
  RequestPriority, Entry, Queue, enqueue, dequeue, shutdown, empty_queue, make_room,
}
use jetedge_agent.Llm.Queue.Order.{length-push}

module _ {ℓ} {T : Type ℓ} where
  length-make_room-le : (n : ℕ) (xs : List (Entry T)) → length (make_room n xs) ≤ length xs
  unfolding make_room
  length-make_room-le n [] = ground arith
  length-make_room-le n (x ∷ xs) = ground arith

  pub length-enqueue :
      (a : T) (p : RequestPriority) (q : Queue T)
      → let (q', accepted) = enqueue a p q in
        (accepted ≡ not q.shut)
        × (length q'.entries + (if accepted then 0 else 1) ≤ suc (length q.entries))
  unfolding enqueue
  length-enqueue a p q =
      let e : Entry T = record { item = a; priority = p; seq = q.next_seq } in
      ground (
        arith,
        length-push e (make_room q.max_size q.entries),
        length-make_room-le q.max_size q.entries,
      )

  pub length-dequeue :
      (q : Queue T)
      → ((dequeue q).1 ≡ none) × (length (dequeue q).0.entries ≡ length q.entries)
        ⊎ ((a : T) × ((dequeue q).1 ≡ some a)
            × (suc (length (dequeue q).0.entries) ≡ length q.entries))
  unfolding dequeue
  length-dequeue q = ground arith

  pub length-shutdown : (q : Queue T) → (shutdown q).entries ≡ q.entries
  unfolding shutdown
  length-shutdown q = refl

  pub length-empty_queue : (n : ℕ) → (empty_queue {T = T} n).entries ≡ []
  unfolding empty_queue
  length-empty_queue n = refl
