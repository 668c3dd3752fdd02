-- ===== src/Handles.antt =====
-- The handles that the pools take from libraries and from pthreads, as a log of what was opened
-- and closed, in order.
pub mod Tally
use dart_db_connector.Base.{one_if, ℕ, ◌+◌, ◌≡◌, Bool, true, false, List, [], ◌∷◌, ◌++◌, arith}

-- A server session (PGconn, MYSQL, sqlite3 or mongoc client), a mutex, a condition variable, a
-- thread.
pub data Kind : Type 0 where
  session mutex cond thread : Kind

pub data Event : Type 0 where
  opens closes : Kind → Event

abbrev pub same : Kind → Kind → Bool
same session session = true
same mutex mutex = true
same cond cond = true
same thread thread = true
same _ _ = false

-- How many handles of a kind a log opens and closes.
abbrev pub opened : Kind → List Event → ℕ
opened k [] = 0
opened k (opens j ∷ es) = one_if (same j k) + opened k es
opened k (closes j ∷ es) = opened k es

abbrev pub closed : Kind → List Event → ℕ
closed k [] = 0
closed k (opens j ∷ es) = closed k es
closed k (closes j ∷ es) = one_if (same j k) + closed k es

pub opened-append :
    (k : Kind) (es fs : List Event) → opened k (es ++ fs) ≡ opened k es + opened k fs
opened-append k [] fs = omega arith
opened-append k (opens j ∷ es) fs = omega (arith, opened-append k es fs)
opened-append k (closes j ∷ es) fs = opened-append k es fs

pub closed-append :
    (k : Kind) (es fs : List Event) → closed k (es ++ fs) ≡ closed k es + closed k fs
closed-append k [] fs = omega arith
closed-append k (opens j ∷ es) fs = closed-append k es fs
closed-append k (closes j ∷ es) fs = omega (arith, closed-append k es fs)
