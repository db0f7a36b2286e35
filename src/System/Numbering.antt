-- ===== src/System/Numbering.antt =====
-- The ids of the stale completions, which the database gives in increasing order.
use openedx_completion_aggre.Prelude.{
  ℕ, suc, ◌+◌, ◌≤◌, ◌<◌, ◌≡◌, ap, inl, inr, Bool, List, [], ◌∷◌, ◌++◌, In, select, Bool-cases,
  arith,
}
use openedx_completion_aggre.Models.{StaleCompletion}
use openedx_completion_aggre.Core.Updater.{mark_resolved}

-- From `low` on, in increasing order and less than `next`.
abbrev pub Ascending : ℕ → List StaleCompletion → ℕ → Type 0
Ascending low [] next = low ≤ next
Ascending low (row ∷ rows) next = (low ≤ row.id) × Ascending (suc row.id) rows next

Ascending-le :
    (low high next : ℕ) (rows : List StaleCompletion)
    → low ≤ high
    → Ascending high rows next
    → Ascending low rows next
Ascending-le low high next [] le h = omega (arith, h)
Ascending-le low high next (row ∷ rows) le (h, more) = (omega (arith, h), more)

pub Ascending-In :
    (low next : ℕ) (rows : List StaleCompletion) (row : StaleCompletion)
    → Ascending low rows next
    → In row rows
    → row.id < next
Ascending-In low next [] row h m = elim m [ ]
Ascending-In low next (x ∷ rows) row (h, more) (inl e) =
    omega (arith, ap (λ (y : StaleCompletion). y.id) e, le_next (suc x.id) rows more)
  where
    le_next : (low : ℕ) (rows : List StaleCompletion) → Ascending low rows next → low ≤ next
    le_next low [] h = h
    le_next low (y ∷ ys) (h, more) = omega (arith, h, le_next (suc y.id) ys more)
Ascending-In low next (x ∷ rows) row (h, more) (inr m) =
    Ascending-In (suc x.id) next rows row more m

pub Ascending-mark_resolved :
    (low next : ℕ) (p : StaleCompletion → Bool) (rows : List StaleCompletion)
    → Ascending low rows next
    → Ascending low (mark_resolved p rows) next
unfolding mark_resolved
Ascending-mark_resolved low next p [] h = h
Ascending-mark_resolved low next p (row ∷ rows) (h, more) = elim (Bool-cases (p row)) [
  | inl marked ↦ rw marked (h, Ascending-mark_resolved (suc row.id) next p rows more)
  | inr left ↦ rw left (h, Ascending-mark_resolved (suc row.id) next p rows more)
]

pub Ascending-select :
    (low next : ℕ) (p : StaleCompletion → Bool) (rows : List StaleCompletion)
    → Ascending low rows next
    → Ascending low (select p rows) next
Ascending-select low next p [] h = h
Ascending-select low next p (row ∷ rows) (h, more) = elim (Bool-cases (p row)) [
  | inl keep ↦ rw keep (h, Ascending-select (suc row.id) next p rows more)
  | inr drop ↦ rw drop (
      Ascending-le low (suc row.id) next (select p rows) (omega (arith, h))
        (Ascending-select (suc row.id) next p rows more))
]

pub Ascending-append :
    (low next : ℕ) (rows : List StaleCompletion) (row : StaleCompletion)
    → row.id ≡ next
    → Ascending low rows next
    → Ascending low (rows ++ row ∷ []) (next + 1)
Ascending-append low next [] row e h = (omega (arith, h), omega arith)
Ascending-append low next (x ∷ rows) row e (h, more) =
    (h, Ascending-append (suc x.id) next rows row e more)
