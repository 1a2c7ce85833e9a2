-- ===== src/Leader/Lock.antt =====
-- The lock record `ingestion_lock:leader` under the statements that runtime/leader-election.ts
-- sends. The database runs each statement alone, at its own time in seconds.
use celery_insights.Common.{
  ℕ, ◌+◌, ◌≤◌, ◌≡◌, refl, Bool, true, false, not, ◌||◌, ◌&&◌, Option, some, none, List, [], ◌∷◌,
  String, arith, if◌then◌else◌, ltb, ◌==◌, Eq-String,
}
use text.Mathlib.TextEquality.{eq_iff}

pub record Lock : Type 0 where
  pub holder : String
  pub acquired_at : ℕ
  pub heartbeat : ℕ
  pub ttl_seconds : ℕ

pub data Statement : Type 0 where
  acquire : (id : String) → (ttl : ℕ) → Statement
  refresh : (id : String) → Statement
  release : (id : String) → Statement

-- The WHERE clause of the UPSERT in `tryAcquireLock`: `heartbeat < time::now() - ttl`.
unfoldable pub may_acquire : ℕ → String → ℕ → Option Lock → Bool
may_acquire now id ttl none = true
may_acquire now id ttl (some lock) = lock.holder == id || ltb (lock.heartbeat + ttl) now

abbrev taken : ℕ → String → ℕ → Lock
taken now id ttl = record { holder = id; acquired_at = now; heartbeat = now; ttl_seconds = ttl }

-- The lock after a statement, and whether it gave a row of this holder.
unfoldable pub execute : ℕ → Statement → Option Lock → Option Lock × Bool
execute now (acquire id ttl) lock =
    if may_acquire now id ttl lock then (some (taken now id ttl), true) else (lock, false)
execute now (refresh id) none = (none, false)
execute now (refresh id) (some lock) =
    if lock.holder == id then (some (record lock { heartbeat = now }), true) else (some lock, false)
execute now (release id) none = (none, true)
execute now (release id) (some lock) = if lock.holder == id then (none, true) else (some lock, true)

-- Statements with the time that passes before each.
abbrev pub History : Type 0
History = List (ℕ × Statement)

unfoldable pub final_lock : ℕ → Option Lock → History → Option Lock
final_lock now lock [] = lock
final_lock now lock ((elapsed, statement) ∷ history) =
    final_lock (now + elapsed) (execute (now + elapsed) statement lock).0 history

abbrev pub duration : History → ℕ
duration [] = 0
duration ((elapsed, statement) ∷ history) = elapsed + duration history

-- An acquisition that another instance than `id` wins.
unfoldable pub is_takeover : String → Statement → Bool → Bool
is_takeover id (acquire other ttl) won = not (other == id) && won
is_takeover id _ won = false

unfoldable pub taken_over : String → ℕ → Option Lock → History → Bool
taken_over id now lock [] = false
taken_over id now lock ((elapsed, statement) ∷ history) =
    let after = execute (now + elapsed) statement lock in
    is_takeover id statement after.1 || taken_over id (now + elapsed) after.0 history

-- Statements of instances that share one time to live, without a release by `id`.
abbrev pub Shares : String → ℕ → Statement → Type 0
Shares id ttl (acquire other ttl') = ttl' ≡ ttl
Shares id ttl (refresh other) = Unit
Shares id ttl (release other) = (other == id) ≡ false

abbrev pub AllShare : String → ℕ → History → Type 0
AllShare id ttl [] = Unit
AllShare id ttl ((elapsed, statement) ∷ history) = Shares id ttl statement × AllShare id ttl history

-- The lock is held by `id`, and was confirmed at `since` or later.
abbrev pub IsHeld : String → ℕ → Option Lock → Type 0
IsHeld id since none = ⊥
IsHeld id since (some lock) = (lock.holder ≡ id) × (since ≤ lock.heartbeat)

execute-IsHeld :
    (id : String) (since ttl now : ℕ) (statement : Statement) (lock : Option Lock)
    → IsHeld id since lock
    → since ≤ now
    → now ≤ since + ttl
    → Shares id ttl statement
    → IsHeld id since (execute now statement lock).0
      × (is_takeover id statement (execute now statement lock).1 ≡ false)
unfolding execute may_acquire is_takeover
execute-IsHeld id since ttl now statement none held past fresh shares = absurd held
execute-IsHeld id since ttl now (acquire other ttl') (some lock) held past fresh shares =
    ground (arith, eq_iff lock.holder other, eq_iff other id)
execute-IsHeld id since ttl now (refresh other) (some lock) held past fresh shares =
    ground (arith, eq_iff lock.holder other)
execute-IsHeld id since ttl now (release other) (some lock) held past fresh shares =
    ground (arith, eq_iff lock.holder other, eq_iff other id)

-- Within the time to live after a confirmation of its lock (an acquisition or a heartbeat), and
-- until it releases the lock, an instance keeps it whatever the others send: no acquisition of
-- another instance succeeds, if all use the same time to live.
pub lock_exclusive :
    (id : String) (since ttl now : ℕ) (lock : Option Lock) (history : History)
    → IsHeld id since lock
    → since ≤ now
    → now + duration history ≤ since + ttl
    → AllShare id ttl history
    → IsHeld id since (final_lock now lock history) × (taken_over id now lock history ≡ false)
unfolding final_lock taken_over
lock_exclusive id since ttl now lock [] held past fresh shares = (held, refl)
lock_exclusive id since ttl now lock ((elapsed, statement) ∷ history) held past fresh shares =
    let (kept, refused) =
      execute-IsHeld id since ttl (now + elapsed) statement lock held (omega arith) (omega arith)
        shares.0 in
    let (last, none_later) =
      lock_exclusive id since ttl (now + elapsed) (execute (now + elapsed) statement lock).0 history
        kept (omega arith) (omega arith) shares.1 in
    (last, rw (refused, none_later))
