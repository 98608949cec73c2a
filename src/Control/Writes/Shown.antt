-- ===== src/Control/Writes/Shown.antt =====
-- What the statuses of a backend show, as the tests of `write_op` and `handle_rollback` find it.
use Prim.Native.String.{String}
use text.Mathlib.Text.{◌==◌ as str_eq}
use text.Mathlib.TextEquality.{eq_iff}
use jetedge_agent.Prelude.{
  ℕ, ◌≡◌, refl, ap, ◌⊎◌, inl, inr, true, List, [], ◌∷◌, some, get_elem?, All, arith, Bool-cases,
  Option-cases,
}
use jetedge_agent.Prelude.Int.{ℤ, pos, negsuc, eqb_ℤ}
use jetedge_agent.Control.Requests.{find_stream_index}
use jetedge_agent.Control.Writes.{
  StreamStatus, StreamSnapshotEntry, ControlBackend, SnapshotStore, Change, interval_change,
  priority_change, restart_change, shows, status_at, priority_str,
}
use jetedge_agent.Control.Writes.Flow.{verified, restored, all_restored}

eqb_ℤ-eq : (a b : ℤ) → eqb_ℤ a b ≡ true → a ≡ b
eqb_ℤ-eq (pos m) (pos n) h = let same : m ≡ n = ground (arith, h) in ap pos same
eqb_ℤ-eq (pos m) (negsuc n) h = let absurd : ⊥ = ground (arith, h) in elim absurd [ ]
eqb_ℤ-eq (negsuc m) (pos n) h = let absurd : ⊥ = ground (arith, h) in elim absurd [ ]
eqb_ℤ-eq (negsuc m) (negsuc n) h = let same : m ≡ n = ground (arith, h) in ap negsuc same

-- A status that agrees with a change.
abbrev pub Agrees : Change → StreamStatus → Type 0
Agrees (interval_change interval) st = st.infer_interval ≡ interval
Agrees (priority_change s) st = st.priority ≡ s
Agrees restart_change st = (st.state ≡ "RECONNECTING") ⊎ (st.state ≡ "CONNECTING")

shows-Agrees : (change : Change) (st : StreamStatus) → shows change st ≡ true → Agrees change st
unfolding shows
shows-Agrees (interval_change interval) st h = eqb_ℤ-eq st.infer_interval interval h
shows-Agrees (priority_change s) st h = (eq_iff st.priority s).0 h
shows-Agrees restart_change st h = elim (Bool-cases (str_eq st.state "RECONNECTING")) [
  | inl e ↦ inl ((eq_iff st.state "RECONNECTING").0 e)
  | inr e ↦ inr ((eq_iff st.state "CONNECTING").0 (ground (arith, h, e)))
]

status_at-pos :
    (statuses : List StreamStatus) (z : ℤ) (st : StreamStatus)
    → status_at statuses z ≡ some st
    → (idx : ℕ) × (z ≡ pos idx) × (get_elem? statuses idx ≡ some st)
unfolding status_at
status_at-pos statuses (pos idx) st h = (idx, refl, h)
status_at-pos statuses (negsuc n) st h = let absurd : ⊥ = ground (arith, h) in elim absurd [ ]

module _ {B S : Type 0} (backend : ControlBackend B) (store : SnapshotStore S) where
  -- The backend's status of a stream, at the stream's index, has a property.
  abbrev pub ShowsThat : (StreamStatus → Type 0) → String → B → Type 0
  ShowsThat P stream_id b =
      (idx : ℕ) × (st : StreamStatus) × (find_stream_index (backend.stream_ids b) stream_id
        ≡ pos idx)
      × (get_elem? (backend.stream_status b) idx ≡ some st)
      × P st

  found-ShowsThat :
      (P : StreamStatus → Type 0) (stream_id : String) (b : B) (st : StreamStatus)
      → status_at (backend.stream_status b) (find_stream_index (backend.stream_ids b) stream_id)
        ≡ some st
      → P st
      → ShowsThat P stream_id b
  found-ShowsThat P stream_id b st h k =
      let at =
        status_at-pos (backend.stream_status b) (find_stream_index (backend.stream_ids b) stream_id)
          st h in
      (at.0, st, at.1, at.2, k)

  pub verified-ShowsThat :
      (change : Change) (stream_id : String) (b : B)
      → verified backend store change stream_id b ≡ true
      → ShowsThat (Agrees change) stream_id b
  unfolding verified
  verified-ShowsThat change stream_id b h =
      let found =
        status_at (backend.stream_status b) (find_stream_index (backend.stream_ids b) stream_id) in
      elim (Option-cases found) [
        | inl e ↦ let absurd : ⊥ = ground (arith, e, h) in elim absurd [ ]
        | inr (st, e) ↦
            found-ShowsThat (Agrees change) stream_id b st e
              (shows-Agrees change st (ground (arith, e, h)))
      ]

  -- A status with the priority and the interval of an entry.
  abbrev pub HasEntry : StreamSnapshotEntry → StreamStatus → Type 0
  HasEntry entry st =
      (st.priority ≡ priority_str entry.priority) × (st.infer_interval ≡ entry.infer_interval)

  restored-ShowsThat :
      (entry : StreamSnapshotEntry) (b : B)
      → restored backend store entry b ≡ true
      → ShowsThat (HasEntry entry) entry.stream_id b
  unfolding restored
  restored-ShowsThat entry b h =
      let found =
        status_at (backend.stream_status b)
          (find_stream_index (backend.stream_ids b) entry.stream_id) in
      elim (Option-cases found) [
        | inl e ↦ let absurd : ⊥ = ground (arith, e, h) in elim absurd [ ]
        | inr (st, e) ↦
            let text = eq_iff st.priority (priority_str entry.priority) in
            let same_text = text.0 (ground (arith, e, h)) in
            let same_interval =
              eqb_ℤ-eq st.infer_interval entry.infer_interval (ground (arith, e, h)) in
            found-ShowsThat (HasEntry entry) entry.stream_id b st e (same_text, same_interval)
      ]

  pub all_restored-All :
      (entries : List StreamSnapshotEntry) (b : B)
      → all_restored backend store entries b ≡ true
      → All (λ entry. ShowsThat (HasEntry entry) entry.stream_id b) entries
  unfolding all_restored
  all_restored-All [] b h = tt
  all_restored-All (entry ∷ entries) b h = elim (Bool-cases (restored backend store entry b)) [
    | inl e ↦ (restored-ShowsThat entry b e, all_restored-All entries b (ground (arith, e, h)))
    | inr e ↦ let absurd : ⊥ = ground (arith, e, h) in elim absurd [ ]
  ]
