-- ===== src/Control/Recent.antt =====
-- What the error store keeps and shows.
use jetedge_agent.Prelude.{
  ℕ, zero, suc, ◌-◌, ◌==◌, max, false, ◌≤◌, ◌≡◌, refl, ◌∙◌, sym, ap, ltb, leb, if◌then◌else◌, List,
  [], ◌∷◌, ◌++◌, length, drop, take, reverse, length-append, arith, Bool-cases, inl, inr,
}
use jetedge_agent.Control.Errors.{
  ErrorRecord, ErrorStore, empty_store, record_error, recent, collect,
}

pub record_all : List ErrorRecord → ErrorStore → ErrorStore
record_all [] s = s
record_all (r ∷ rs) s = record_all rs (record_error r s)

length-drop_one : (xs : List ErrorRecord) → length (drop 1 xs) ≡ length xs - 1
length-drop_one [] = refl
length-drop_one (x ∷ xs) = ground arith

drop-append :
    (k : ℕ) (xs ys : List ErrorRecord) → k ≤ length xs → drop k (xs ++ ys) ≡ drop k xs ++ ys
drop-append zero xs ys h = refl
drop-append (suc k) [] ys h = ground arith
drop-append (suc k) (x ∷ xs) ys h = drop-append k xs ys (omega arith)

drop-drop_one : (k : ℕ) (xs : List ErrorRecord) → drop 1 (drop k xs) ≡ drop (suc k) xs
drop-drop_one zero [] = refl
drop-drop_one zero (x ∷ xs) = refl
drop-drop_one (suc k) [] = refl
drop-drop_one (suc k) (x ∷ xs) = drop-drop_one k xs

length-drop : (k : ℕ) (xs : List ErrorRecord) → length (drop k xs) ≡ length xs - k
length-drop zero xs = omega arith
length-drop (suc k) [] = omega arith
length-drop (suc k) (x ∷ xs) = ground (arith, length-drop k xs)

-- The last `n` of a list.
abbrev pub last_of : ℕ → List ErrorRecord → List ErrorRecord
last_of n xs = drop (length xs - n) xs

record_error-last_of :
    (r : ErrorRecord) (s : ErrorStore) (all : List ErrorRecord)
    → 1 ≤ s.capacity
    → s.records ≡ last_of s.capacity all
    → (record_error r s).records ≡ last_of s.capacity (all ++ (r ∷ []))
unfolding record_error
record_error-last_of r s all h e =
    let k = length all - s.capacity in
    let grown : length (all ++ (r ∷ [])) ≡ suc (length all) =
      omega (arith, length-append all (r ∷ [])) in
    let size : length s.records ≡ length all - k = ap length e ∙ length-drop k all in
    let pushed : length (s.records ++ (r ∷ [])) ≡ suc (length s.records) =
      omega (arith, length-append s.records (r ∷ [])) in
    let joined : s.records ++ (r ∷ []) ≡ drop k (all ++ (r ∷ [])) =
      ap (λ xs. xs ++ (r ∷ [])) e ∙ sym (drop-append k all (r ∷ []) (omega arith)) in
    elim (Bool-cases (ltb s.capacity (length (s.records ++ (r ∷ []))))) [
      | inl full ↦
          let next : length (all ++ (r ∷ [])) - s.capacity ≡ suc k = ground (arith, full) in
          rw (full, next) (ap (drop 1) joined ∙ drop-drop_one k (all ++ (r ∷ [])))
      | inr room ↦
          let same : length (all ++ (r ∷ [])) - s.capacity ≡ k = ground (arith, room) in
          rw (room, same) joined
    ]

append-nil : (xs : List ErrorRecord) → xs ++ [] ≡ xs
append-nil [] = refl
append-nil (x ∷ xs) = ap (λ ys. x ∷ ys) (append-nil xs)

append_assoc : (xs ys zs : List ErrorRecord) → (xs ++ ys) ++ zs ≡ xs ++ (ys ++ zs)
append_assoc [] ys zs = refl
append_assoc (x ∷ xs) ys zs = ap (λ ws. x ∷ ws) (append_assoc xs ys zs)

record_all-last_of :
    (rs all : List ErrorRecord) (s : ErrorStore)
    → 1 ≤ s.capacity
    → s.records ≡ last_of s.capacity all
    → (record_all rs s).records ≡ last_of s.capacity (all ++ rs)
unfolding record_all record_error
record_all-last_of [] all s h e = e ∙ ap (last_of s.capacity) (sym (append-nil all))
record_all-last_of (r ∷ rs) all s h e =
    record_all-last_of rs (all ++ (r ∷ [])) (record_error r s) h (record_error-last_of r s all h e)
    ∙ ap (last_of s.capacity) (append_assoc all (r ∷ []) rs)

take-nil : (n : ℕ) → take {A = ErrorRecord} n [] ≡ []
take-nil zero = refl
take-nil (suc n) = refl

collect_all : (out rs : List ErrorRecord) → collect 0 out rs ≡ out ++ rs
unfolding collect
collect_all out [] = sym (append-nil out)
collect_all out (r ∷ rs) = collect_all (out ++ (r ∷ [])) rs ∙ append_assoc out (r ∷ []) rs

collect-take :
    (limit : ℕ) (rs out : List ErrorRecord)
    → (limit == 0) ≡ false
    → collect limit out rs ≡ out ++ take (limit - length out) rs
unfolding collect
collect-take limit [] out h = rw (take-nil (limit - length out)) (sym (append-nil out))
collect-take limit (r ∷ rs) out h = elim (Bool-cases (leb limit (length out))) [
  | inl e ↦
      let none_left : limit - length out ≡ 0 = ground (arith, e) in
      rw (h, e, none_left) (sym (append-nil out))
  | inr e ↦
      let grown : limit - length (out ++ (r ∷ [])) ≡ limit - length out - 1 =
        omega (arith, length-append out (r ∷ [])) in
      let left : limit - length out ≡ suc (limit - length out - 1) = ground (arith, e) in
      let rest = collect-take limit rs (out ++ (r ∷ [])) h in
      rw (h, e, left, rest, grown) (append_assoc out (r ∷ []) (take (limit - length out - 1) rs))
]

-- Whatever was recorded, the store holds the last `capacity` records of all (the last one if the
-- capacity is given as 0), and `recent` shows them from the newest on: all of them for a limit of 0,
-- and else the first `limit`.
pub recent-record_all :
    (limit capacity : ℕ) (rs : List ErrorRecord)
    → recent limit (record_all rs (empty_store capacity))
      ≡ let kept = reverse (last_of (max 1 capacity) rs) in
        if limit == 0 then kept else take limit kept
unfolding recent empty_store
recent-record_all limit capacity rs =
    let s = empty_store capacity in
    let room : s.capacity ≡ max 1 capacity = ground arith in
    let unused : 0 - s.capacity ≡ 0 = omega arith in
    let held = record_all-last_of rs [] s (ground arith) (rw unused refl) in
    let kept : (record_all rs s).records ≡ last_of (max 1 capacity) rs =
      held ∙ ap (λ n. last_of n rs) room in
    elim (Bool-cases (limit == 0)) [
      | inl e ↦
          let zero_limit : limit ≡ 0 = ground (arith, e) in
          rw (kept, zero_limit) (collect_all [] (reverse (last_of (max 1 capacity) rs)))
      | inr e ↦
          rw (kept, e)
            (collect-take limit (reverse (last_of (max 1 capacity) rs)) [] e
              ∙ ap (λ n. take n (reverse (last_of (max 1 capacity) rs))) (omega arith))
    ]
