-- ===== src/Handles/Tally.antt =====
-- Logs of handles, counted by kind: what one connection and one pool open and close.
use dart_db_connector.Base.{ℕ, suc, ◌+◌, ◌≡◌, refl, List, [], ◌∷◌, ◌++◌, arith}
use dart_db_connector.Handles.{
  Event, opens, closes, Kind, session, mutex, cond, thread, opened, closed, opened-append,
  closed-append,
}

-- The handles that a log opened and closed, of one kind.
abbrev pub Tally : Kind → ℕ → ℕ → List Event → Type 0
Tally k o c es = (opened k es ≡ o) × (closed k es ≡ c)

pub four-Tally :
    (k : Kind) → Tally k 0 1 (closes thread ∷ closes cond ∷ closes mutex ∷ closes session ∷ [])
four-Tally session = (refl, refl)
four-Tally mutex = (refl, refl)
four-Tally cond = (refl, refl)
four-Tally thread = (refl, refl)

pub Tally-append :
    (k : Kind) (o c o' c' o'' c'' : ℕ) (es fs : List Event)
    → Tally k o c es
    → Tally k o' c' fs
    → o + o' ≡ o''
    → c + c' ≡ c''
    → Tally k o'' c'' (es ++ fs)
Tally-append k o c o' c' o'' c'' es fs t u e f =
    (omega (arith, opened-append k es fs, t.0, u.0), omega (arith, closed-append k es fs, t.1, u.1))

-- What a pool of `n` connections holds of a kind.
abbrev pub held : Kind → ℕ → ℕ
held session n = n
held thread n = n
held mutex n = suc n
held cond n = suc n

pub held-plus : (k : Kind) (n : ℕ) → held k n ≡ held k 0 + n
held-plus session n = omega arith
held-plus mutex n = omega arith
held-plus cond n = omega arith
held-plus thread n = omega arith

pub pool_opens :
    (k : Kind) (es : List Event)
    → Tally k (held k 0 + opened k es) (closed k es) (opens mutex ∷ opens cond ∷ es)
pool_opens session es = (omega arith, omega arith)
pool_opens mutex es = (omega arith, omega arith)
pool_opens cond es = (omega arith, omega arith)
pool_opens thread es = (omega arith, omega arith)

pub pool_closes_own : (k : Kind) → Tally k 0 (held k 0) (closes cond ∷ closes mutex ∷ [])
pool_closes_own session = (refl, refl)
pool_closes_own mutex = (refl, refl)
pool_closes_own cond = (refl, refl)
pool_closes_own thread = (refl, refl)

pub pool_closes :
    (k : Kind) (es : List Event)
    → Tally k (opened k es) (closed k es + held k 0) (es ++ closes cond ∷ closes mutex ∷ [])
pool_closes k es =
    Tally-append k (opened k es) (closed k es) 0 (held k 0) (opened k es) (closed k es + held k 0)
      es (closes cond ∷ closes mutex ∷ []) (refl, refl) (pool_closes_own k) (omega arith) refl

-- A log that opens and closes the same, between the pool's own.
pub pool_between :
    (k : Kind) (es : List Event)
    → opened k es ≡ closed k es
    → opened k (opens mutex ∷ opens cond ∷ (es ++ closes cond ∷ closes mutex ∷ []))
      ≡ closed k (opens mutex ∷ opens cond ∷ (es ++ closes cond ∷ closes mutex ∷ []))
pool_between k es e =
    let (o, c) = pool_opens k (es ++ closes cond ∷ closes mutex ∷ []) in
    let (o', c') = pool_closes k es in omega (arith, o, c, o', c', e)

pub mutex_pair :
    (k : Kind)
    → opened k (opens mutex ∷ closes mutex ∷ []) ≡ closed k (opens mutex ∷ closes mutex ∷ [])
mutex_pair session = refl
mutex_pair mutex = refl
mutex_pair cond = refl
mutex_pair thread = refl
