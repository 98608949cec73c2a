-- ===== src/Llm/Queue.antt =====
-- include/jetedge/llm/request_queue.h, the bounded priority queue of requests. The mutex makes each
-- call atomic. `std::priority_queue` is the list of its entries in the order in which it pops them:
-- `top` is the head, `pop` drops the head, `push` puts an entry in its place by `Entry::operator<`.
-- The sequence number does not wrap (2^64 requests).
pub mod Order
pub mod Drain
pub mod Shed
pub mod Lengths
mod Examples
use jetedge_agent.Prelude.{
  ℕ, ◌+◌, Bool, true, false, List, [], ◌∷◌, Option, none, some, leb, ltb, ◌==◌, not, if◌then◌else◌,
  length,
}

-- RequestPriority, of llm_types.h: the lower value goes first.
pub data RequestPriority : Type 0 where
  high normal low : RequestPriority

abbrev pub rank : RequestPriority → ℕ
rank high = 0
rank normal = 1
rank low = 2

module _ {ℓ} (T : Type ℓ) where
  pub record Entry : Type ℓ where
    pub item : T
    pub priority : RequestPriority
    pub seq : ℕ

  pub record Queue : Type ℓ where
    pub max_size : ℕ
    pub next_seq : ℕ
    pub shut : Bool
    pub entries : List Entry

module _ {ℓ} {T : Type ℓ} where
  -- `operator<`: `a` is popped after `b`.
  abbrev pub below : Entry T → Entry T → Bool
  below a b =
      if not (rank a.priority == rank b.priority)
      then ltb (rank b.priority) (rank a.priority)
      else ltb b.seq a.seq

  pub push : Entry T → List (Entry T) → List (Entry T)
  push e [] = e ∷ []
  push e (x ∷ xs) = if below e x then x ∷ push e xs else e ∷ x ∷ xs

  abbrev pub pop : List (Entry T) → List (Entry T)
  pop [] = []
  pop (x ∷ xs) = xs

  pub empty_queue : ℕ → Queue T
  empty_queue max_size = record { max_size = max_size; next_seq = 0; shut = false; entries = [] }

  -- "Shed the lowest-priority item", by `queue_.pop()`.
  pub make_room : ℕ → List (Entry T) → List (Entry T)
  make_room max_size xs = if leb max_size (length xs) then pop xs else xs

  pub enqueue : T → RequestPriority → Queue T → Queue T × Bool
  unfolding push make_room
  enqueue item priority q = if q.shut then (q, false) else (
    record q { next_seq = q.next_seq + 1; entries = push e (make_room q.max_size q.entries) },
    true,
  )
    where
      e : Entry T
      e = record { item = item; priority = priority; seq = q.next_seq }

  -- The queue as the wait leaves it: with entries, empty after a timeout, or shut down.
  pub dequeue : Queue T → Queue T × Option T
  dequeue q = elim q.entries [
    | [] ↦ (q, none)
    | e ∷ rest ↦ if q.shut then (q, none) else (record q { entries = rest }, some e.item)
  ]

  pub shutdown : Queue T → Queue T
  shutdown q = record q { shut = true }
