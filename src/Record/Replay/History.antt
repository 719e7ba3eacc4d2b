-- ===== src/Record/Replay/History.antt =====
-- src/record.cpp, lines 69 to 89: runs of `commit`, and what they refuse.
use new_mavlink.Common.{ℕ, ◌≤◌, ◌≡◌, ◌∙◌, true, false, List, [], ◌∷◌, arith}
use new_mavlink.Record.Replay.{ReplayWindow, accepted, commit}
use new_mavlink.Record.Replay.Window.{
  contains, highest, fresh, remember, Represents, commit-Represents, accepted-fresh,
}

-- `commit` run over a list of numbers, oldest first.
abbrev pub commit_all : ReplayWindow → List ℕ → ReplayWindow
commit_all w [] = w
commit_all w (s ∷ rest) = commit_all (commit w s).0 rest

abbrev pub remember_all : List ℕ → List ℕ → List ℕ
remember_all seen [] = seen
remember_all seen (s ∷ rest) = remember_all (remember seen s) rest

pub commit_all-Represents :
    (w : ReplayWindow) (seen rest : List ℕ)
    → Represents w seen
    → Represents (commit_all w rest) (remember_all seen rest)
commit_all-Represents w seen [] r = r
commit_all-Represents w seen (s ∷ rest) r =
    commit_all-Represents (commit w s).0 (remember seen s) rest (commit-Represents w seen s r).1

highest_member : (seen : List ℕ) (s : ℕ) → contains seen s ≡ true → s ≤ highest seen
highest_member [] s h = cc
highest_member (x ∷ xs) s h = ground (arith, highest_member xs s)

pub not_fresh : (seen : List ℕ) (s : ℕ) → contains seen s ≡ true → fresh seen s ≡ false
not_fresh [] s h = cc
not_fresh (x ∷ xs) s h = ground (arith, highest_member (x ∷ xs) s h)

remembered :
    (seen rest : List ℕ) (s : ℕ)
    → contains seen s ≡ true
    → contains (remember_all seen rest) s ≡ true
remembered seen [] s h = h
remembered seen (t ∷ rest) s h = remembered (remember seen t) rest s (ground arith)

-- A sequence number that `commit` accepted is not accepted again, whatever is committed in between,
-- if the window stood for a history before.
pub replay_refused :
    (w : ReplayWindow) (seen rest : List ℕ) (s : ℕ)
    → Represents w seen
    → (commit w s).1 ≡ true
    → accepted (commit_all (commit w s).0 rest) s ≡ false
replay_refused w seen rest s r passed =
    let (decided, next) = commit-Represents w seen s r in
    let now = remembered (remember seen s) rest s (ground arith) in
    accepted-fresh _ (remember_all (remember seen s) rest) s
      (commit_all-Represents _ (remember seen s) rest next)
    ∙ not_fresh _ s now
