-- ===== src/Control/Feeds.antt =====
-- src/control/control_server.cpp: `tail_lines`, which reads the end of the events file. A file is its
-- bytes, if it can be opened.
pub mod Newest
use jetedge_agent.Prelude.{
  ℕ, ◌+◌, ◌-◌, ◌*◌, Bool, true, false, ltb, ◌==◌, if◌then◌else◌, List, [], ◌∷◌, reverse, Option,
  none, some, length, drop, min,
}
use jetedge_agent.Prelude.Bytes.{cut}

-- kTailMaxBytes
abbrev pub tail_max_bytes : ℕ
tail_max_bytes = 64 * 1024

-- The loop over the lines, with the bytes of the line so far in reverse: a last line without its line
-- feed is dropped.
unfoldable pub collect_lines : List ℕ → List ℕ → List (List ℕ)
collect_lines line [] = []
collect_lines line (c ∷ s) =
    let ended = collect_lines [] s in
    let more = collect_lines (c ∷ line) s in if c == 10 then reverse line ∷ ended else more

-- The lines of a buffer, newest first. One that starts inside the file loses its first line.
unfoldable pub newest_lines : Bool → List ℕ → List (List ℕ)
unfolding collect_lines cut
newest_lines false buf = reverse (collect_lines [] buf)
newest_lines true buf = elim (cut (10 ∷ []) buf) [
  | none ↦ []
  | some p ↦ reverse (collect_lines [] p.1)
]

unfoldable pub tail_of : List ℕ → ℕ → List (List ℕ)
unfolding newest_lines
tail_of content max_bytes =
    let size = length content in
    let read_len = min size max_bytes in
    newest_lines (ltb read_len size) (drop (size - read_len) content)

unfoldable pub tail_lines : Option (List ℕ) → ℕ → List (List ℕ)
unfolding tail_of
tail_lines none max_bytes = []
tail_lines (some content) max_bytes = tail_of content max_bytes
