-- ===== src/Metrics/Window.antt =====
-- The entries in flight as a list, oldest first.
use jetedge_agent.Prelude.{
  ℕ, zero, suc, ◌+◌, ◌%◌, ◌==◌, ◌≤◌, ◌<◌, ◌≡◌, refl, true, false, List, [], ◌∷◌, ◌++◌, inr, arith,
  length, ap, ◌∙◌, ◌⊎◌,
}
use jetedge_agent.Metrics.Pending.{Pending, InFlight, pending_cap, put, shift}

-- `n` entries from index `i` on, behind the head.
unfoldable pub window : (ℕ → Pending) → ℕ → ℕ → ℕ → List Pending
window f h i zero = []
window f h i (suc n) = f ((h + i) % pending_cap) ∷ window f h (i + 1) n

abbrev pub view : InFlight → List Pending
view q = window q.pending q.pending_head 0 q.pending_size

pub length-window : (f : ℕ → Pending) (h i n : ℕ) → length (window f h i n) ≡ n
unfolding window
length-window f h i zero = refl
length-window f h i (suc n) = ap suc (length-window f h (i + 1) n)

-- The next head, and one index less.
pub window_next :
    (f : ℕ → Pending) (h i n : ℕ) → window f ((h + 1) % pending_cap) i n ≡ window f h (i + 1) n
unfolding window
window_next f h i zero = refl
window_next f h i (suc n) =
    let slot : ((h + 1) % pending_cap + i) % pending_cap ≡ (h + (i + 1)) % pending_cap =
      omega arith in
    rw (slot, window_next f h (i + 1) n) refl

pub window-append :
    (f : ℕ → Pending) (h i n : ℕ)
    → window f h i (suc n) ≡ window f h i n ++ (f ((h + (i + n)) % pending_cap) ∷ [])
unfolding window
window-append f h i zero = ground arith
window-append f h i (suc n) = ground (arith, window-append f h (i + 1) n)

-- A write at an index outside the window.
pub window-put :
    (f : ℕ → Pending) (x : Pending) (s h i n k : ℕ)
    → s ≡ (h + k) % pending_cap
    → (i + n ≤ k) × (k < i + pending_cap) ⊎ (k < i) × (i + n ≤ k + pending_cap)
    → window (put s x f) h i n ≡ window f h i n
unfolding window
window-put f x s h i zero k e l = refl
window-put f x s h i (suc n) k e l =
    let other : ((h + i) % pending_cap == s) ≡ false = ground arith in
    rw (other, window-put f x s h (i + 1) n k e (ground arith)) refl

abbrev pub remove_at : ℕ → List Pending → List Pending
remove_at k [] = []
remove_at zero (x ∷ xs) = xs
remove_at (suc k) (x ∷ xs) = x ∷ remove_at k xs

-- To copy an entry over the next one and drop it is to drop the next one.
remove_at-put :
    (f : ℕ → Pending) (x : Pending) (s h i n k : ℕ)
    → s ≡ (h + (i + suc k)) % pending_cap
    → x ≡ f ((h + (i + k)) % pending_cap)
    → suc k ≤ n
    → n < pending_cap
    → remove_at k (window (put s x f) h i (suc n)) ≡ remove_at (suc k) (window f h i (suc n))
unfolding window
remove_at-put f x s h i zero k e e' l r = absurd (omega arith)
remove_at-put f x s h i (suc n) zero e e' l r =
    let hit : ((h + (i + 1)) % pending_cap == s) ≡ true = ground (arith, e) in
    let source : (h + (i + 0)) % pending_cap ≡ (h + i) % pending_cap = omega arith in
    rw
      (hit, e', source, window-put f x s h (i + 1 + 1) n (i + 1) e (inr (omega arith, omega arith)))
      refl
remove_at-put f x s h i (suc n) (suc k) e e' l r =
    let other : ((h + i) % pending_cap == s) ≡ false = ground (arith, e) in
    let rest =
      remove_at-put f x s h (i + 1) n k (omega (arith, e)) (e' ∙ ground arith) (omega arith)
        (omega arith) in
    rw other (ap (λ xs. f ((h + i) % pending_cap) ∷ xs) rest)

-- The loop of `on_latency_end` takes the entry at index `k` out and keeps the others in their order.
pub window-shift :
    (f : ℕ → Pending) (h n k : ℕ)
    → k ≤ n
    → n < pending_cap
    → window (shift h k f) h 1 n ≡ remove_at k (window f h 0 (suc n))
unfolding window shift
window-shift f h n zero l r = refl
window-shift f h n (suc k) l r =
    let x = f ((h + k) % pending_cap) in
    let s = (h + suc k) % pending_cap in
    window-shift (put s x f) h n k (omega arith) r
    ∙ remove_at-put f x s h 0 n k (omega arith) (ground arith) l r
