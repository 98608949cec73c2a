-- ===== src/Llm/Queue/Order.antt =====
-- The queue pops by priority, and first in first out within one priority.
use mathlib.Core.List.{append-nil}
use jetedge_agent.Prelude.{
  false, ℕ, suc, ◌+◌, Bool-cases, ◌≤◌, ◌<◌, ◌≡◌, refl, ◌⊎◌, inl, inr, List, [], ◌∷◌, some, arith,
  All, ◌++◌, if◌then◌else◌, ◌==◌, leb, length,
}
use jetedge_agent.Llm.Queue.{
  RequestPriority, rank, Entry, Queue, push, make_room, enqueue, dequeue, empty_queue,
}

module _ {ℓ} {T : Type ℓ} where
  -- `a` is popped before `b`: it has the better priority, or the same one and came earlier.
  abbrev pub Before : Entry T → Entry T → Type 0
  Before a b =
      (rank a.priority < rank b.priority) ⊎ ((rank a.priority ≡ rank b.priority) × (a.seq < b.seq))

  abbrev pub Sorted : List (Entry T) → Type 0
  Sorted [] = Unit
  Sorted (x ∷ xs) = All (Before x) xs × Sorted xs

  abbrev pub Fresh : ℕ → List (Entry T) → Type 0
  Fresh n = All (λ e. e.seq < n)

  pub record IsValid (q : Queue T) : Type 0 where
    pub sorted : Sorted q.entries
    pub fresh : Fresh q.next_seq q.entries
    pub bounded : length q.entries ≤ q.max_size
    pub room : 1 ≤ q.max_size

  pub Before-trans : (a b c : Entry T) → Before a b → Before b c → Before a c
  Before-trans a b c h k = ground arith

  All-Before :
      (a b : Entry T) (xs : List (Entry T)) → Before a b → All (Before b) xs → All (Before a) xs
  All-Before a b [] h k = tt
  All-Before a b (x ∷ xs) h k = (Before-trans a b x h k.0, All-Before a b xs h k.1)

  pub push-All :
      (P : Entry T → Type 0) (e : Entry T) (xs : List (Entry T))
      → P e
      → All P xs
      → All P (push e xs)
  unfolding push
  push-All P e [] h k = (h, tt)
  push-All P e (x ∷ xs) h k = ground (arith, push-All P e xs h k.1)

  push-Sorted :
      (e : Entry T) (xs : List (Entry T)) → Fresh e.seq xs → Sorted xs → Sorted (push e xs)
  unfolding push
  push-Sorted e [] f s = (tt, tt)
  push-Sorted e (x ∷ xs) f s =
      ground (arith, push-Sorted e xs f.1 s.1, push-All (Before x) e xs, All-Before e x xs)

  Fresh-mono : (n : ℕ) (xs : List (Entry T)) → Fresh n xs → Fresh (n + 1) xs
  Fresh-mono n [] f = tt
  Fresh-mono n (x ∷ xs) f = (omega arith, Fresh-mono n xs f.1)

  pub length-push : (e : Entry T) (xs : List (Entry T)) → length (push e xs) ≡ suc (length xs)
  unfolding push
  length-push e [] = refl
  length-push e (x ∷ xs) = ground (arith, length-push e xs)

  pub make_room-Sorted : (n : ℕ) (xs : List (Entry T)) → Sorted xs → Sorted (make_room n xs)
  unfolding make_room
  make_room-Sorted n [] s = elim (Bool-cases (leb n 0)) [ inl e ↦ rw e tt | inr e ↦ rw e tt ]
  make_room-Sorted n (x ∷ xs) s = ground arith

  pub make_room-All :
      (P : Entry T → Type 0) (n : ℕ) (xs : List (Entry T)) → All P xs → All P (make_room n xs)
  unfolding make_room
  make_room-All P n [] s = elim (Bool-cases (leb n 0)) [ inl e ↦ rw e tt | inr e ↦ rw e tt ]
  make_room-All P n (x ∷ xs) s = ground arith

  pub length-make_room :
      (n : ℕ) (xs : List (Entry T)) → 1 ≤ n → length xs ≤ n → length (make_room n xs) < n
  unfolding make_room
  length-make_room n [] h k = ground arith
  length-make_room n (x ∷ xs) h k = ground arith

  push-IsValid :
      (e : Entry T) (q : Queue T) (xs : List (Entry T))
      → e.seq ≡ q.next_seq
      → Sorted xs
      → Fresh q.next_seq xs
      → length xs < q.max_size
      → IsValid (record q { next_seq = q.next_seq + 1; entries = push e xs })
  push-IsValid e q xs h s f b = record {
    sorted = push-Sorted e xs (rw h f) s;
    fresh =
        push-All (λ e'. e'.seq < q.next_seq + 1) e xs (omega arith) (Fresh-mono q.next_seq xs f);
    bounded = omega (arith, length-push e xs);
    room = omega arith;
  }

  pub enqueue-IsValid :
      (a : T) (p : RequestPriority) (q : Queue T) → IsValid q → IsValid (enqueue a p q).0
  unfolding enqueue
  enqueue-IsValid a p q v = ground (
    arith,
    push-IsValid (record { item = a; priority = p; seq = q.next_seq }) q
        (make_room q.max_size q.entries) refl (make_room-Sorted q.max_size q.entries v.sorted)
        (make_room-All (λ e. e.seq < q.next_seq) q.max_size q.entries v.fresh)
        (length-make_room q.max_size q.entries v.room v.bounded),
  )

  pub empty_queue-IsValid : (n : ℕ) → 1 ≤ n → IsValid (empty_queue n)
  unfolding empty_queue
  empty_queue-IsValid n h = ground arith

  pub dequeue-IsValid : (q : Queue T) → IsValid q → IsValid (dequeue q).0
  unfolding dequeue
  dequeue-IsValid q v = ground arith

  -- On a valid queue that is not shut down a successful `dequeue` hands out an entry that comes
  -- before every one that stays, and takes out exactly that entry.
  pub dequeue_first :
      (q q' : Queue T) (a : T)
      → IsValid q
      → dequeue q ≡ (q', some a)
      → (e : Entry T) × (q.entries ≡ e ∷ q'.entries) × (e.item ≡ a) × All (Before e) q'.entries
  unfolding dequeue
  dequeue_first q q' a v h = go q.entries refl v.sorted
    where
      go :
          (xs : List (Entry T))
          → q.entries ≡ xs
          → Sorted xs
          → (e : Entry T) × (q.entries ≡ e ∷ q'.entries) × (e.item ≡ a) × All (Before e) q'.entries
      go [] e s = absurd (ground arith)
      go (x ∷ xs) e s = (x, ground arith, ground arith, ground arith)

  -- The items of one priority, in pop order.
  abbrev pub of_priority : RequestPriority → List (Entry T) → List T
  of_priority p [] = []
  of_priority p (x ∷ xs) =
      if rank x.priority == rank p then x.item ∷ of_priority p xs else of_priority p xs

  -- Nothing of a better priority stands behind an entry.
  pub of_priority-nil :
      (p : RequestPriority) (x : Entry T) (xs : List (Entry T))
      → rank p < rank x.priority
      → All (Before x) xs
      → of_priority p xs ≡ []
  of_priority-nil p x [] h k = refl
  of_priority-nil p x (y ∷ ys) h k = ground (arith, of_priority-nil p x ys h k.1)

  -- A new entry goes behind those of its own priority, and moves no other.
  of_priority-push :
      (p : RequestPriority) (e : Entry T) (xs : List (Entry T))
      → Sorted xs
      → Fresh e.seq xs
      → of_priority p (push e xs) ≡ of_priority p xs ++ of_priority p (e ∷ [])
  unfolding push
  of_priority-push p e [] s f = refl
  of_priority-push p e (x ∷ xs) s f = ground (
    arith,
    of_priority-push p e xs s.1 f.1,
    of_priority-nil p x xs,
    append-nil (of_priority p (x ∷ xs)),
  )

  pub enqueue-of_priority :
      (r p : RequestPriority) (a : T) (q : Queue T)
      → IsValid q
      → q.shut ≡ false
      → length q.entries < q.max_size
      → of_priority r (enqueue a p q).0.entries
        ≡ of_priority r q.entries ++ (if rank p == rank r then a ∷ [] else [])
  unfolding enqueue make_room
  enqueue-of_priority r p a q v h k = ground (
    arith,
    of_priority-push r (record { item = a; priority = p; seq = q.next_seq }) q.entries v.sorted
        v.fresh,
  )

  pub enqueue_room :
      (p : RequestPriority) (a : T) (q : Queue T)
      → q.shut ≡ false
      → length q.entries < q.max_size
      → let q' = (enqueue a p q).0 in
        (q'.shut ≡ false)
        × (length q'.entries ≡ suc (length q.entries))
        × (q'.max_size ≡ q.max_size)
  unfolding enqueue make_room
  enqueue_room p a q h k =
      ground (arith, length-push (record { item = a; priority = p; seq = q.next_seq }) q.entries)
