-- ===== src/Supervisor/Accounts.antt =====
-- What the supervision keeps: which processes are accounted for.
use celery_insights.Common.{
  ℕ, ◌≤◌, ◌≡◌, refl, Bool, true, false, not, ◌||◌, ◌&&◌, Option, some, none, List, [], ◌∷◌, is_some,
  all, includes, leb, ◌==◌, Eq-ℕ, Eq-Option, arith, Bool-cases, inl, inr, ==_refl, nat_eq_iff,
}
use Prim.Native.Nat.{◌^◌}
use native.Mathlib.Nat.{one-le-pow}
use celery_insights.Supervisor.{
  State, Event, becomes_leader, backoff, is_current, is_wanted, signal, step,
}

-- The election does not make an instance a leader that is one, that replays, or that is shutting
-- down.
abbrev pub may_follow : Event → State → Bool
may_follow becomes_leader s = not s.leader && not s.replay && not s.shutting_down
may_follow event s = true

unfoldable pub admissible : List Event → State → Bool
admissible [] s = true
admissible (event ∷ events) s = may_follow event s && admissible events (step event s)

-- A running process is the current one or was told to stop.
abbrev pub is_accounted : List ℕ → Option ℕ → ℕ → Bool
is_accounted signalled python process = includes signalled process || is_current python process

abbrev pub is_delay : ℕ → Bool
is_delay d = leb 1000 d && leb d 30000

pub record IsSupervised (s : State) : Type 0 where
  pub accounted : all (is_accounted s.signalled s.python) s.running ≡ true
  pub wanted : (not (is_some s.python) || is_wanted s) ≡ true
  pub stopped : (not s.shutting_down || not (is_some s.python) || s.python == s.stopping) ≡ true
  pub waiting : (not (is_some s.stopping) || s.shutting_down) ≡ true
  pub delays : all is_delay s.delays ≡ true

all-implied :
    (p q : ℕ → Bool) (xs : List ℕ)
    → ((x : ℕ) → includes xs x ≡ true → p x ≡ true → q x ≡ true)
    → all p xs ≡ true
    → all q xs ≡ true
unfolding all includes
all-implied p q [] h k = refl
all-implied p q (x ∷ xs) h k =
    let rest : all q xs ≡ true =
      all-implied p q xs (λ y i j. h y (ground (arith, i)) j) (ground (arith, k)) in
    ground (arith, rest, h x (ground (arith, ==_refl x)) (ground (arith, k)))

power-le : (n : ℕ) → 1 ≤ 2 ^ n
power-le n = one-le-pow n 2 (omega arith)

pub backoff-bound : (n : ℕ) → is_delay (backoff n) ≡ true
unfolding backoff
backoff-bound n = ground (arith, power-le n)

-- Where no process is current, all running ones were signalled; they stay accounted for.
pub accounted_none :
    (signalled running : List ℕ) (python next : Option ℕ)
    → all (is_accounted signalled none) running ≡ true
    → all (is_accounted signalled next) running ≡ true
accounted_none signalled running python next =
    all-implied (is_accounted signalled none) (is_accounted signalled next) running
      λ x i h. ground (arith, h)

accounted_one :
    (signalled running : List ℕ) (p : ℕ) (next : Option ℕ) (x : ℕ)
    → includes running x ≡ true
    → is_accounted signalled (some p) x ≡ true
    → is_accounted (p ∷ signalled) next x ≡ true
unfolding includes
accounted_one signalled running p next x i h = ground (arith, h)

-- The current process is signalled.
pub accounted_signal :
    (signalled running : List ℕ) (python next : Option ℕ)
    → all (is_accounted signalled python) running ≡ true
    → all (is_accounted (signal python signalled) next) running ≡ true
accounted_signal signalled running none next =
    all-implied (is_accounted signalled none) (is_accounted signalled next) running
      λ x i h. ground (arith, h)
accounted_signal signalled running (some p) next =
    all-implied (is_accounted signalled (some p)) (is_accounted (p ∷ signalled) next) running
      (accounted_one signalled running p next)

-- The current process does not run.
pub accounted_gone :
    (signalled running : List ℕ) (process : ℕ)
    → includes running process ≡ false
    → all (is_accounted signalled (some process)) running ≡ true
    → all (is_accounted signalled none) running ≡ true
accounted_gone signalled running process gone =
    all-implied (is_accounted signalled (some process)) (is_accounted signalled none) running
      λ x i h. elim (Bool-cases (process == x)) [
        | inl same ↦ absurd (ground (arith, gone, i, (nat_eq_iff process x).0 same))
        | inr other ↦ ground (arith, h, other)
      ]
