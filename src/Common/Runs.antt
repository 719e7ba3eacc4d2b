-- ===== src/Common/Runs.antt =====
-- Runs of a step relation.
pub data Steps {S : Type 0} (Step : S → S → Type 0) : S → S → Type 0 where
  done : (s : S) → Steps Step s s
  next : (s t u : S) → Step s t → Steps Step t u → Steps Step s u

-- An invariant of every step is one of every run.
pub Steps-invariant :
    {S : Type 0} {Step : S → S → Type 0} (P : S → Type 0)
    → ((s t : S) → Step s t → P s → P t)
    → (s t : S) → Steps Step s t
    → P s
    → P t
Steps-invariant P f s _ (done _) h = h
Steps-invariant P f s u (next _ t _ step rest) h = Steps-invariant P f t u rest (f s t step h)
