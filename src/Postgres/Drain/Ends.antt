-- ===== src/Postgres/Drain/Ends.antt =====
-- The socket loops end at a shutdown or at the deadline, cancel the query exactly there, and
-- report success only where a whole result was ready in time.
use dart_db_connector.Base.{
  ◌≡◌, ◌≤◌, refl, sym, ◌∙◌, ◌⊎◌, inl, inr, true, false, Option, none, some, List, [], ◌∷◌, arith,
  Any, Option-cases, Bool-cases,
}
use dart_db_connector.Clock.{Timespec, Timeval, next_select_tv}
use dart_db_connector.Clock.Bounds.{to_ns, IsNormal, next_select_tv_expired}
use dart_db_connector.Postgres.Drain.{
  Selected-cases, Ended, ended, ok, aborted, cancel, ready, Turn, drain_single, drain_params,
}

-- The deadline has passed by the clock of the round.
abbrev pub IsLate : Option Timespec → Timespec → Type 0
IsLate none now = ⊥
IsLate (some d) now = IsNormal d × IsNormal now × (to_ns d ≤ to_ns now)

-- The round asks the loop to stop.
abbrev pub Stops : Option Timespec → Turn → Type 0
Stops deadline t = (t.shutdown ≡ true) ⊎ IsLate deadline t.now

pub late-none :
    (deadline : Option Timespec) (now : Timespec)
    → IsLate deadline now
    → next_select_tv deadline now ≡ none
late-none none now l = absurd l
late-none (some d) now l = next_select_tv_expired d now l.0 l.1 l.2

-- The drain loop of a single query has ended once some round saw a shutdown request or a clock at
-- or past its deadline.
pub drain_single-Stops :
    (deadline : Option Timespec) (ts : List Turn)
    → Any (Stops deadline) ts
    → (e : Ended) × (drain_single deadline ts ≡ some e)
unfolding drain_single
drain_single-Stops deadline [] a = absurd a
drain_single-Stops deadline (t ∷ ts) (inl (inl s)) = (ended aborted (cancel ∷ []), ground arith)
drain_single-Stops deadline (t ∷ ts) (inl (inr l)) =
    (ended aborted (cancel ∷ []), ground (arith, late-none deadline t.now l))
drain_single-Stops deadline (t ∷ ts) (inr a) =
    elim (Option-cases (drain_single deadline (t ∷ ts))) [
      | inl e ↦ let (f, g) = drain_single-Stops deadline ts a in ground arith
      | inr (f, e) ↦ (f, e)
    ]

-- The round found a whole result: no shutdown, in time, input read, and nothing more to wait for.
pub record Completes (deadline : Option Timespec) (t : Turn) : Type 0 where
  pub running : t.shutdown ≡ false
  pub in_time : (tv : Timeval) × (next_select_tv deadline t.now ≡ some tv)
  pub woken : t.selected ≡ ready
  pub read : t.consumed ≡ true
  pub whole : t.busy ≡ false

-- The round stops the loop by a shutdown or because no time is left.
abbrev pub Expires : Option Timespec → Turn → Type 0
Expires deadline t = (t.shutdown ≡ true) ⊎ (next_select_tv deadline t.now ≡ none)

-- Success means that some round found a whole result in time, and nothing was cancelled; a cancel
-- is sent once, with an abort, and only where a round saw a shutdown or no time left.
abbrev pub Sound : Option Timespec → List Turn → Ended → Type 0
Sound deadline ts e =
    ((e.status ≡ ok) × (e.calls ≡ []) × Any (Completes deadline) ts)
    ⊎ ((e.status ≡ aborted) × (e.calls ≡ cancel ∷ []) × Any (Expires deadline) ts)
    ⊎ ((e.status ≡ aborted) × (e.calls ≡ []))

Sound-later :
    (deadline : Option Timespec) (t : Turn) (ts : List Turn) (e : Ended)
    → Sound deadline ts e
    → Sound deadline (t ∷ ts) e
Sound-later deadline t ts e (inl (s, c, a)) = inl (s, c, inr a)
Sound-later deadline t ts e (inr (inl (s, c, a))) = inr (inl (s, c, inr a))
Sound-later deadline t ts e (inr (inr r)) = inr (inr r)

-- What one round does.
abbrev Round : Option Timespec → Turn → Option Ended → Option Ended → Type 0
Round deadline t more r =
    (Completes deadline t × (r ≡ some (ended ok [])))
    ⊎ (Expires deadline t × (r ≡ some (ended aborted (cancel ∷ []))))
    ⊎ (r ≡ some (ended aborted []))
    ⊎ (r ≡ more)

drain_single-Round :
    (deadline : Option Timespec) (t : Turn) (ts : List Turn)
    → Round deadline t (drain_single deadline ts) (drain_single deadline (t ∷ ts))
unfolding drain_single
drain_single-Round deadline t ts = elim (Bool-cases t.shutdown) [
  | inl s ↦ inr (inl (inl s, ground arith))
  | inr s ↦ elim (Option-cases (next_select_tv deadline t.now)) [
    | inl n ↦ inr (inl (inr n, ground arith))
    | inr (tv, n) ↦ elim (Selected-cases t.selected) [
      | inl q ↦ inr (inr (inr (ground arith)))
      | inr (inl q) ↦ inr (inr (inl (ground arith)))
      | inr (inr (inl q)) ↦ inr (inr (inr (ground arith)))
      | inr (inr (inr q)) ↦ elim (Bool-cases t.consumed) [
        | inr c ↦ inr (inr (inl (ground arith)))
        | inl c ↦ elim (Bool-cases t.busy) [
          | inl b ↦ inr (inr (inr (ground arith)))
          | inr b ↦ inl (
            record { running = s; in_time = (tv, n); woken = q; read = c; whole = b },
            ground arith,
          )
        ]
      ]
    ]
  ]
]

Round-Sound :
    (deadline : Option Timespec) (t : Turn) (ts : List Turn) (more r : Option Ended) (e : Ended)
    → Round deadline t more r
    → ((f : Ended) → more ≡ some f → Sound deadline ts f)
    → r ≡ some e
    → Sound deadline (t ∷ ts) e
Round-Sound deadline t ts more r e (inl (c, q)) ih p = inl (ground arith, ground arith, inl c)
Round-Sound deadline t ts more r e (inr (inl (x, q))) ih p =
    inr (inl (ground arith, ground arith, inl x))
Round-Sound deadline t ts more r e (inr (inr (inl q))) ih p = inr (inr (ground arith))
Round-Sound deadline t ts more r e (inr (inr (inr q))) ih p =
    Sound-later deadline t ts e (ih e (sym q ∙ p))

-- The drain loop of a single query that ends reports success only where some round found a whole
-- result in time with no shutdown, and then has cancelled nothing; it sends at most one cancel,
-- with an abort, and only where some round saw a shutdown or no time left.
pub drain_single-Sound :
    (deadline : Option Timespec) (ts : List Turn) (e : Ended)
    → drain_single deadline ts ≡ some e
    → Sound deadline ts e
unfolding drain_single
drain_single-Sound deadline [] e q = cc
drain_single-Sound deadline (t ∷ ts) e q =
    Round-Sound deadline t ts _ _ e (drain_single-Round deadline t ts)
      (drain_single-Sound deadline ts) q

-- The drain loop of a query with parameters does the same as the drain loop of a single query.
pub drain_params-eq :
    (deadline : Option Timespec) (ts : List Turn)
    → drain_params deadline ts ≡ drain_single deadline ts
unfolding drain_single drain_params
drain_params-eq deadline [] = refl
drain_params-eq deadline (t ∷ ts) = ground (arith, drain_params-eq deadline ts)
