-- ===== src/FreeList.antt =====
-- The free list of the four pools: `pool_acquire` and the list part of `pool_release` of
-- packages/dart_db_connector/native/c/src/native_pool.c, which mysql_pool.c, sqlite_pool.c and
-- mongo_pool.c repeat over their own connection types. What a connection must offer is the
-- interface `Lendable`; what happens while acquire sleeps is a list of wake-ups.
pub mod Scan
pub mod Wait
pub mod Lending
use dart_db_connector.Base.{
  ℕ, zero, suc, ◌+◌, ◌≡◌, ℤ, pos_part, is_positive, is_zero, Bool, true, false, not, ◌&&◌, ◌||◌,
  Option, none, some, List, [], ◌∷◌, if◌then◌else◌, ltb, leb, ◌==◌,
}
use dart_db_connector.Clock.{Timespec, deadline_from_ms}

-- A connection with an `in_use` field.
pub record Lendable (C : Type 0) : Type 0 where
  pub in_use : C → Bool
  pub set_in_use : Bool → C → C
  pub in_use-set : (b : Bool) (c : C) → in_use (set_in_use b c) ≡ b

pub record Pool (C : Type 0) : Type 0 where
  pub default_acquire_timeout_ms : ℤ
  pub conns : List C  -- `max_size` entries
  pub shutting_down : Bool

-- The clock has reached the deadline.
abbrev pub reached : Timespec → Timespec → Bool
reached deadline now =
    ltb deadline.sec now.sec || deadline.sec == now.sec && leb deadline.nsec now.nsec

-- A return from the wait on `free_cond`: whether by a signal (or spuriously), when, and the pool as
-- the other threads have left it.
pub record Wake (C : Type 0) : Type 0 where
  pub signalled : Bool
  pub at : Timespec
  pub seen : Pool C

-- `rc == ETIMEDOUT`: only a wait with a deadline times out, and not before it.
abbrev pub timed_out : {C : Type 0} → Option Timespec → Wake C → Bool
timed_out none w = false
timed_out (some deadline) w = not w.signalled && reached deadline w.at

pub data Acquired (C : Type 0) : Type 0 where
  granted : ℕ → Pool C → Acquired C  -- the connection at this index
  refused : Pool C → Acquired C  -- NULL
  waiting : Acquired C  -- the wake-ups ran out

-- `use_deadline` and `deadline`.
abbrev pub wait_until : ℤ → Timespec → Option Timespec
wait_until ms now = if is_positive ms then some (deadline_from_ms now (pos_part ms)) else none

module _ {C : Type 0} ⦃l : Lendable C⦄ where
  -- The linear scan: the index of the first free connection, and the array with it marked.
  unfoldable pub scan : List C → Option (ℕ × List C)
  scan [] = none
  scan (c ∷ cs) =
      let found = scan cs in
      if not (l.in_use c)
      then some (0, l.set_in_use true c ∷ cs)
      else elim found [ none ↦ none | some (i, cs') ↦ some (suc i, c ∷ cs') ]

  -- The `while (1)` under the mutex.
  unfoldable pub acquire_loop : ℤ → Option Timespec → Pool C → List (Wake C) → Acquired C
  unfolding scan
  acquire_loop effective_ms deadline p [] =
      if p.shutting_down then refused p else elim (scan p.conns) [
        | some (i, cs) ↦ granted i (record p { conns = cs })
        | none ↦ if is_zero effective_ms then refused p else waiting
      ]
  acquire_loop effective_ms deadline p (w ∷ ws) =
      let again = acquire_loop effective_ms deadline w.seen ws in
      if p.shutting_down then refused p else elim (scan p.conns) [
        | some (i, cs) ↦ granted i (record p { conns = cs })
        | none ↦
            if is_zero effective_ms
            then refused p
            else if timed_out deadline w
            then refused w.seen
            else again
      ]

  abbrev pub effective : Pool C → ℤ → ℤ
  effective p timeout_ms = if is_zero timeout_ms then p.default_acquire_timeout_ms else timeout_ms

  unfoldable pub acquire : Pool C → ℤ → Timespec → List (Wake C) → Acquired C
  unfolding acquire_loop
  acquire p timeout_ms now wakes =
      if p.shutting_down
      then refused p
      else (let ms = effective p timeout_ms in acquire_loop ms (wait_until ms now) p wakes)

  -- `conn->in_use = 0`, for the connection at an index.
  unfoldable pub give_back : List C → ℕ → List C
  give_back [] i = []
  give_back (c ∷ cs) zero = l.set_in_use false c ∷ cs
  give_back (c ∷ cs) (suc i) = c ∷ give_back cs i

  unfoldable pub release : Pool C → ℕ → Pool C
  unfolding give_back
  release p i = record p { conns = give_back p.conns i }
