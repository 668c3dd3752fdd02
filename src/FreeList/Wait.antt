-- ===== src/FreeList/Wait.antt =====
-- What each answer of acquire means: the connection was free, or there is a reason to refuse, or
-- nothing was free whenever it looked.
use dart_db_connector.Base.{
  ℕ, ◌+◌, ◌*◌, ◌≡◌, ◌≤◌, refl, sym, ℤ, pos_part, is_positive, is_zero, true, false, Option, none,
  some, List, [], ◌∷◌, arith, Bool-cases, Option-cases, inl, inr, ◌⊎◌, Any, if◌then◌else◌,
}
use dart_db_connector.Clock.{Timespec}
use dart_db_connector.Clock.Bounds.{to_ns, IsNormal, deadline_from_ms-exact}
use dart_db_connector.FreeList.{
  Lendable, Pool, Wake, Acquired, granted, refused, waiting, timed_out, scan, acquire_loop, acquire,
  effective, wait_until,
}
use dart_db_connector.FreeList.Scan.{Claims, scan-Claims, AllOut, scan-AllOut}

module _ {C : Type 0} ⦃l : Lendable C⦄ where
  -- The pool as the call found it, or as one of the wake-ups saw it.
  abbrev pub Seen : Pool C → List (Wake C) → Pool C → Type 0
  Seen p ws q = (q ≡ p) ⊎ Any (λ w. w.seen ≡ q) ws

  -- Some wake-up came without a signal and after the deadline.
  abbrev pub Lapsed : Option Timespec → List (Wake C) → Type 0
  Lapsed deadline ws = Any (λ w. timed_out deadline w ≡ true) ws

  abbrev pub AllSeenOut : List (Wake C) → Type 0
  AllSeenOut [] = Unit
  AllSeenOut (w ∷ ws) = AllOut w.seen.conns × AllSeenOut ws

  -- A grant marks the first free connection of a pool that was not shutting down; a refusal changes
  -- nothing, and the pool was shutting down, or the call does not wait and nothing was free, or the
  -- deadline passed; a call still waits only if nothing was free whenever it looked.
  abbrev pub Explains : ℤ → Option Timespec → Pool C → List (Wake C) → Acquired C → Type 0
  Explains ms deadline p ws (granted i q') =
      (q : Pool C) × Seen p ws q
      × (q.shutting_down ≡ false)
      × (q'.shutting_down ≡ false)
      × Claims q.conns i q'.conns
  Explains ms deadline p ws (refused q) =
      Seen p ws q
      × ((q.shutting_down ≡ true) ⊎ ((is_zero ms ≡ true) × AllOut q.conns) ⊎ Lapsed deadline ws)
  Explains ms deadline p ws waiting =
      (is_zero ms ≡ false) × (p.shutting_down ≡ false) × AllOut p.conns × AllSeenOut ws

  Seen-later :
      (p : Pool C) (w : Wake C) (ws : List (Wake C)) (q : Pool C)
      → Seen w.seen ws q
      → Seen p (w ∷ ws) q
  Seen-later p w ws q (inl e) = inr (inl (sym e))
  Seen-later p w ws q (inr a) = inr (inr a)

  Explains-later :
      (ms : ℤ) (deadline : Option Timespec) (p : Pool C) (w : Wake C) (ws : List (Wake C))
      (r : Acquired C)
      → p.shutting_down ≡ false
      → AllOut p.conns
      → Explains ms deadline w.seen ws r
      → Explains ms deadline p (w ∷ ws) r
  Explains-later ms deadline p w ws (granted i q') s a (q, k, d, e, c) =
      (q, Seen-later p w ws q k, d, e, c)
  Explains-later ms deadline p w ws (refused q) s a (k, inl d) = (Seen-later p w ws q k, inl d)
  Explains-later ms deadline p w ws (refused q) s a (k, inr (inl d)) =
      (Seen-later p w ws q k, inr (inl d))
  Explains-later ms deadline p w ws (refused q) s a (k, inr (inr d)) =
      (Seen-later p w ws q k, inr (inr (inr d)))
  Explains-later ms deadline p w ws waiting s a (z, d, o, t) = (z, s, a, (o, t))

  -- One round of the loop, by its tests.
  loop-down :
      (ms : ℤ) (deadline : Option Timespec) (p : Pool C) (ws : List (Wake C))
      → p.shutting_down ≡ true
      → acquire_loop ms deadline p ws ≡ refused p
  unfolding acquire_loop
  loop-down ms deadline p [] s = ground arith
  loop-down ms deadline p (w ∷ ws) s = ground arith

  loop-grant :
      (ms : ℤ) (deadline : Option Timespec) (p : Pool C) (ws : List (Wake C)) (i : ℕ) (cs : List C)
      → p.shutting_down ≡ false
      → scan p.conns ≡ some (i, cs)
      → acquire_loop ms deadline p ws ≡ granted i (record p { conns = cs })
  unfolding acquire_loop
  loop-grant ms deadline p [] i cs s e = ground arith
  loop-grant ms deadline p (w ∷ ws) i cs s e = ground arith

  loop-probe :
      (ms : ℤ) (deadline : Option Timespec) (p : Pool C) (ws : List (Wake C))
      → p.shutting_down ≡ false
      → scan p.conns ≡ none
      → is_zero ms ≡ true
      → acquire_loop ms deadline p ws ≡ refused p
  unfolding acquire_loop
  loop-probe ms deadline p [] s e z = ground arith
  loop-probe ms deadline p (w ∷ ws) s e z = ground arith

  loop-waits :
      (ms : ℤ) (deadline : Option Timespec) (p : Pool C)
      → p.shutting_down ≡ false
      → scan p.conns ≡ none
      → is_zero ms ≡ false
      → acquire_loop ms deadline p [] ≡ waiting
  unfolding acquire_loop
  loop-waits ms deadline p s e z = ground arith

  loop-wakes :
      (ms : ℤ) (deadline : Option Timespec) (p : Pool C) (w : Wake C) (ws : List (Wake C))
      → p.shutting_down ≡ false
      → scan p.conns ≡ none
      → is_zero ms ≡ false
      → acquire_loop ms deadline p (w ∷ ws)
        ≡ (if timed_out deadline w then refused w.seen else acquire_loop ms deadline w.seen ws)
  unfolding acquire_loop
  loop-wakes ms deadline p w ws s e z = ground arith

  Explains-grant :
      (ms : ℤ) (deadline : Option Timespec) (p : Pool C) (ws : List (Wake C)) (i : ℕ) (cs : List C)
      → p.shutting_down ≡ false
      → scan p.conns ≡ some (i, cs)
      → Explains ms deadline p ws (acquire_loop ms deadline p ws)
  Explains-grant ms deadline p ws i cs s e =
      rw (loop-grant ms deadline p ws i cs s e) (p, inl refl, s, s, scan-Claims p.conns i cs e)

  acquire_loop-Explains :
      (ms : ℤ) (deadline : Option Timespec) (p : Pool C) (ws : List (Wake C))
      → Explains ms deadline p ws (acquire_loop ms deadline p ws)
  acquire_loop-Explains ms deadline p [] = elim (Bool-cases p.shutting_down) [
    | inl s ↦ rw (loop-down ms deadline p [] s) (inl refl, inl s)
    | inr s ↦ elim (Option-cases (scan p.conns)) [
      | inr ((i, cs), e) ↦ Explains-grant ms deadline p [] i cs s e
      | inl e ↦ elim (Bool-cases (is_zero ms)) [
        | inl z ↦
            rw (loop-probe ms deadline p [] s e z) (inl refl, inr (inl (z, scan-AllOut p.conns e)))
        | inr z ↦ rw (loop-waits ms deadline p s e z) (z, s, scan-AllOut p.conns e, tt)
      ]
    ]
  ]
  acquire_loop-Explains ms deadline p (w ∷ ws) = elim (Bool-cases p.shutting_down) [
    | inl s ↦ rw (loop-down ms deadline p (w ∷ ws) s) (inl refl, inl s)
    | inr s ↦ elim (Option-cases (scan p.conns)) [
      | inr ((i, cs), e) ↦ Explains-grant ms deadline p (w ∷ ws) i cs s e
      | inl e ↦ elim (Bool-cases (is_zero ms)) [
        | inl z ↦
            rw (loop-probe ms deadline p (w ∷ ws) s e z)
              (inl refl, inr (inl (z, scan-AllOut p.conns e)))
        | inr z ↦ elim (Bool-cases (timed_out deadline w)) [
          | inl o ↦ rw (loop-wakes ms deadline p w ws s e z, o) (inr (inl refl), inr (inr (inl o)))
          | inr o ↦
              rw (loop-wakes ms deadline p w ws s e z, o)
                (Explains-later ms deadline p w ws (acquire_loop ms deadline w.seen ws) s
                  (scan-AllOut p.conns e) (acquire_loop-Explains ms deadline w.seen ws))
        ]
      ]
    ]
  ]

  acquire-down :
      (p : Pool C) (timeout_ms : ℤ) (now : Timespec) (ws : List (Wake C))
      → p.shutting_down ≡ true
      → acquire p timeout_ms now ws ≡ refused p
  unfolding acquire
  acquire-down p timeout_ms now ws s = ground arith

  acquire-up :
      (p : Pool C) (timeout_ms : ℤ) (now : Timespec) (ws : List (Wake C))
      → p.shutting_down ≡ false
      → acquire p timeout_ms now ws
        ≡ acquire_loop (effective p timeout_ms) (wait_until (effective p timeout_ms) now) p ws
  unfolding acquire
  acquire-up p timeout_ms now ws s = ground arith

  -- What each answer of acquire means, for every sequence of wake-ups. A grant marks the first free
  -- connection of the pool as some look found it, not shutting down, and changes no other. A
  -- refusal changes nothing, and the pool was shutting down, or the call does not wait and nothing
  -- was free, or a wake-up came without a signal and after the deadline. A call still waits only if
  -- it may wait and nothing was free whenever it looked.
  pub acquire-Explains :
      (p : Pool C) (timeout_ms : ℤ) (now : Timespec) (ws : List (Wake C))
      → Explains
          (effective p timeout_ms)
          (wait_until (effective p timeout_ms) now)
          p
          ws
          (acquire p timeout_ms now ws)
  acquire-Explains p timeout_ms now ws = elim (Bool-cases p.shutting_down) [
    | inl s ↦ rw (acquire-down p timeout_ms now ws s) (inl refl, inl s)
    | inr s ↦ rw (acquire-up p timeout_ms now ws s) (
        acquire_loop-Explains (effective p timeout_ms) (wait_until (effective p timeout_ms) now) p
          ws)
  ]

-- From a normalised clock, a wait of acquire that times out was one with a positive timeout, and
-- has lasted at least that long.
pub timed_out-late :
    {C : Type 0} (ms : ℤ) (now : Timespec) (w : Wake C)
    → IsNormal now
    → timed_out (wait_until ms now) w ≡ true
    → (is_positive ms ≡ true) × (to_ns now + pos_part ms * 1_000_000 ≤ to_ns w.at)
timed_out-late ms now w n e = elim (Bool-cases (is_positive ms)) [
  | inr p ↦ ground arith
  | inl p ↦ (p, ground (arith, deadline_from_ms-exact now (pos_part ms) n))
]
