-- ===== src/FlowGraph/Unseen.antt =====
-- The tasks that a graph has not visited.
use celery_insights.Common.{
  ℕ, ◌≤◌, ◌<◌, ◌≡◌, Bool, true, false, not, List, [], ◌∷◌, ◌++◌, String, filter, includes, length,
  any, includes-append, ◌==◌, ==_refl, Eq-String, arith, Bool-cases, inl, inr,
}
use celery_insights.FlowGraph.{Task}

-- The tasks that are still to be visited.
abbrev pub unseen : List Task → List String → ℕ
unseen tasks visited = length (filter (λ task. not (includes visited task.id)) tasks)

-- Some task has the id.
abbrev pub has_id : List Task → String → Bool
has_id tasks id = any (λ task. task.id == id) tasks

-- Visiting more leaves fewer tasks.
pub unseen-le :
    (tasks : List Task) (before after : List String)
    → ((id : String) → includes before id ≡ true → includes after id ≡ true)
    → unseen tasks after ≤ unseen tasks before
unfolding filter
unseen-le [] before after h = omega arith
unseen-le (task ∷ tasks) before after h = ground (arith, unseen-le tasks before after h, h task.id)

pub includes-longer :
    (visited : List String) (id other : String)
    → includes visited other ≡ true
    → includes (visited ++ id ∷ []) other ≡ true
includes-longer visited id other h = ground (arith, includes-append visited (id ∷ []) other, h)

pub other_order : (a b : String) → (a == b) ≡ false → includes (b ∷ []) a ≡ false
unfolding includes
other_order a b h = elim (Bool-cases (b == a)) [
  | inl same ↦ absurd (ground (arith, h, ==_refl a, (Eq-String.equals_iff b a).0 same))
  | inr other ↦ ground (arith, other)
]

-- A task that was not visited counts.
pub unseen-lt :
    (tasks : List Task) (visited : List String) (id : String)
    → has_id tasks id ≡ true
    → includes visited id ≡ false
    → unseen tasks (visited ++ id ∷ []) < unseen tasks visited
unfolding filter any includes
unseen-lt [] visited id h k = cc
unseen-lt (task ∷ tasks) visited id h k = elim (Bool-cases (task.id == id)) [
  | inl same ↦ ground (
    arith,
    (Eq-String.equals_iff task.id id).0 same,
    k,
    includes-append visited (id ∷ []) id,
    ==_refl id,
    unseen-le tasks visited (visited ++ id ∷ []) (includes-longer visited id),
  )
  | inr other ↦ ground (
    arith,
    unseen-lt tasks visited id (ground (arith, h, other)) k,
    includes-append visited (id ∷ []) task.id,
    other_order task.id id other,
  )
]
