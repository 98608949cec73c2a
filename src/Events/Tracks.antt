-- ===== src/Events/Tracks.antt =====
-- The track map: how often an id occurs in it, and how many of its tracks have not disappeared.
use jetedge_agent.Prelude.{
  ℕ, ◌+◌, ◌≤◌, ◌≡◌, refl, Bool, true, false, ◌==◌, ◌&&◌, not, [], ◌∷◌, ◌++◌, none, some, arith,
}
use jetedge_agent.Prelude.Doubles.{Doubles}
use jetedge_agent.Events.State.{TrackState, Tracks, find, erase, replace}

abbrev pub one_if : Bool → ℕ
one_if true = 1
one_if false = 0

module _ {d : Doubles} where
  abbrev pub occurs : ℕ → Tracks d → ℕ
  occurs i [] = 0
  occurs i ((j, t) ∷ m) = one_if (j == i) + occurs i m

  abbrev pub unfired : TrackState d → Bool
  unfired t = not t.disappearance_fired

  -- The tracks of an id that have not disappeared.
  abbrev pub live : ℕ → Tracks d → ℕ
  live i [] = 0
  live i ((j, t) ∷ m) = one_if (j == i && unfired t) + live i m

  abbrev pub Unique : Tracks d → Type 0
  Unique m = (i : ℕ) → occurs i m ≤ 1

  pub live-le-occurs : (i : ℕ) (m : Tracks d) → live i m ≤ occurs i m
  live-le-occurs i [] = omega arith
  live-le-occurs i ((j, t) ∷ m) = ground (arith, live-le-occurs i m)

  pub find-none : (i : ℕ) (m : Tracks d) → find i m ≡ none → occurs i m ≡ 0
  unfolding find
  find-none i [] e = refl
  find-none i ((j, t) ∷ m) e = ground (arith, find-none i m)

  pub occurs-append :
      (i id : ℕ) (t : TrackState d) (m : Tracks d)
      → occurs i (m ++ ((id, t) ∷ [])) ≡ occurs i m + one_if (id == i)
  occurs-append i id t [] = ground arith
  occurs-append i id t ((j, u) ∷ m) = ground (arith, occurs-append i id t m)

  pub live-append :
      (i id : ℕ) (t : TrackState d) (m : Tracks d)
      → live i (m ++ ((id, t) ∷ [])) ≡ live i m + one_if (id == i && unfired t)
  live-append i id t [] = ground arith
  live-append i id t ((j, u) ∷ m) = ground (arith, live-append i id t m)

  pub occurs-erase :
      (i id : ℕ) (t : TrackState d) (m : Tracks d)
      → find id m ≡ some t
      → occurs i (erase id m) + one_if (id == i) ≡ occurs i m
  unfolding find erase
  occurs-erase i id t [] e = ground arith
  occurs-erase i id t ((j, u) ∷ m) e = ground (arith, occurs-erase i id t m)

  pub live-erase :
      (i id : ℕ) (t : TrackState d) (m : Tracks d)
      → find id m ≡ some t
      → live i (erase id m) + one_if (id == i && unfired t) ≡ live i m
  unfolding find erase
  live-erase i id t [] e = ground arith
  live-erase i id t ((j, u) ∷ m) e = ground (arith, live-erase i id t m)

  pub occurs-replace :
      (i id : ℕ) (t : TrackState d) (m : Tracks d) → occurs i (replace id t m) ≡ occurs i m
  unfolding replace
  occurs-replace i id t [] = refl
  occurs-replace i id t ((j, u) ∷ m) = ground (arith, occurs-replace i id t m)

  pub live-replace :
      (i id : ℕ) (t u : TrackState d) (m : Tracks d)
      → find id m ≡ some u
      → unfired t ≡ unfired u
      → live i (replace id t m) ≡ live i m
  unfolding find replace
  live-replace i id t u [] e h = ground arith
  live-replace i id t u ((j, v) ∷ m) e h = ground (arith, live-replace i id t u m)

  pub find-append :
      (id : ℕ) (t : TrackState d) (m : Tracks d)
      → occurs id m ≡ 0
      → find id (m ++ ((id, t) ∷ [])) ≡ some t
  unfolding find
  find-append id t [] e = ground arith
  find-append id t ((j, u) ∷ m) e = ground (arith, find-append id t m)

  pub find-replace :
      (id : ℕ) (t u : TrackState d) (m : Tracks d)
      → find id m ≡ some u
      → find id (replace id t m) ≡ some t
  unfolding find replace
  find-replace id t u [] e = ground arith
  find-replace id t u ((j, v) ∷ m) e = ground (arith, find-replace id t u m)
