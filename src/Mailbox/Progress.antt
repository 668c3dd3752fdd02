-- ===== src/Mailbox/Progress.antt =====
-- The worker gets on: five steps serve whatever has been accepted, and a worker that has returned
-- has nothing left to serve.
use dart_db_connector.Base.{
  ℕ, suc, ◌≤◌, ◌≡◌, refl, sym, ap, ◌∙◌, ◌⊎◌, subst, ℤ, Bool, true, false, List, [], ◌∷◌, ◌++◌,
  append-nil, arith, length, Bool-cases, inl, inr,
}
use dart_db_connector.Heap.{Heap}
use dart_db_connector.Mailbox.{
  Mailbox, Phase, waiting, exited, executing, clearing, posting, Mail, step_at, worker_step, Reach,
}
use dart_db_connector.Mailbox.Order.{
  asked, owed, due, awaiting, Placed, Ordered, worker_step-Ordered, wait-full, wait-down,
  wait-asleep,
}
use dart_db_connector.Mailbox.Serves.{Reach-Ordered}

abbrev full_left : Bool → ℕ
full_left true = 4
full_left false = 0

-- The steps until everything that waits is answered.
abbrev left : {J S : Type 0} → Phase J S → Bool → ℕ
left waiting full = full_left full
left exited full = 0
left (executing job port_id) full = 3
left (clearing port_id s) full = 2
left (posting port_id s) full = suc (full_left full)

left-bound : {J S : Type 0} (ph : Phase J S) (f : Bool) → left ph f ≤ 5
left-bound waiting f = ground arith
left-bound exited f = omega arith
left-bound (executing j p) f = omega arith
left-bound (clearing p s) f = omega arith
left-bound (posting p s) f = ground arith

module _ {C J R Q S : Type 0} (b : Mailbox C J R Q S) where
  open b use {slot_filled, shutdown_requested, IsClear}

  -- The worker's next steps, with what each execution among them leaves.
  abbrev pub work : List R → Mail C J S → Mail C J S
  work [] m = m
  work (r ∷ rs) m = work rs (worker_step b r m)

  abbrev to_go : Mail C J S → ℕ
  to_go m = left m.phase (slot_filled m.conn)

  step_at-left :
      (ph : Phase J S) (r : R) (m : Mail C J S)
      → m.phase ≡ ph
      → Placed b ph m.conn
      → (to_go (step_at b ph r m) ≡ 0)
        ⊎ (suc (to_go (step_at b ph r m)) ≡ left ph (slot_filled m.conn))
  unfolding step_at
  step_at-left waiting r m e p = elim (Bool-cases (slot_filled m.conn)) [
    | inl s ↦ inr (ap (λ n. suc (to_go n)) (wait-full b r m s) ∙ ap full_left (sym s))
    | inr s ↦ elim (Bool-cases (shutdown_requested m.conn)) [
      | inl d ↦ inl (ap to_go (wait-down b r m s d))
      | inr d ↦ inl (
          ap to_go (wait-asleep b r m s d)
          ∙ ap (λ ph. left ph (slot_filled m.conn)) e
          ∙ ap full_left s)
    ]
  ]
  step_at-left exited r m e p = inl (ap (λ ph. left ph (slot_filled m.conn)) e)
  step_at-left (executing j x) r m e p = inr refl
  step_at-left (clearing x s) r m e p =
      inr (ap (λ f. suc (suc (full_left f))) (b.clear-slot m.conn m.heap).0)
  step_at-left (posting x s) r m e p = inr refl

  step_at-accepted :
      (ph : Phase J S) (r : R) (m : Mail C J S) → (step_at b ph r m).accepted ≡ m.accepted
  unfolding step_at
  step_at-accepted waiting r m = elim (Bool-cases (slot_filled m.conn)) [
    | inl s ↦ ap (λ n. n.accepted) (wait-full b r m s)
    | inr s ↦ elim (Bool-cases (shutdown_requested m.conn)) [
      | inl d ↦ ap (λ n. n.accepted) (wait-down b r m s d)
      | inr d ↦ ap (λ n. n.accepted) (wait-asleep b r m s d)
    ]
  ]
  step_at-accepted exited r m = refl
  step_at-accepted (executing j x) r m = refl
  step_at-accepted (clearing x s) r m = refl
  step_at-accepted (posting x s) r m = refl

  nothing-left :
      (ph : Phase J S) (c : C)
      → left ph (slot_filled c) ≡ 0
      → Placed b ph c
      → (awaiting b ph c ≡ []) × (due ph ≡ [])
  nothing-left waiting c e p = elim (Bool-cases (slot_filled c)) [
    | inl s ↦ absurd (omega (arith, e, ap full_left s))
    | inr s ↦ (cc s, refl)
  ]
  nothing-left exited c e p = (cc (p.0), refl)
  nothing-left (executing j x) c e p = absurd (omega (arith, e))
  nothing-left (clearing x s) c e p = absurd (omega (arith, e))
  nothing-left (posting x s) c e p = absurd (omega (arith, e))

  -- Everything accepted has run, in order, and every run has been answered, in order.
  abbrev pub Served : Mail C J S → List (J × ℤ) → Type 0
  Served m asks = (asked m.ran ≡ asks) × (m.posts ≡ owed m.ran)

  nothing-Served : (m : Mail C J S) → Ordered b m → to_go m ≡ 0 → Served m m.accepted
  nothing-Served m o z =
      let (w, d) = nothing-left m.phase m.conn z o.placed in
      (
        sym (o.accepted ∙ ap (λ l. asked m.ran ++ l) w ∙ append-nil (asked m.ran)),
        sym (o.posted ∙ ap (λ l. m.posts ++ l) d ∙ append-nil m.posts),
      )

  work-Served :
      (rs : List R) (m : Mail C J S)
      → Ordered b m
      → to_go m ≤ length rs
      → ((work rs m).accepted ≡ m.accepted) × Served (work rs m) m.accepted
  unfolding worker_step
  work-Served [] m o le = (refl, nothing-Served m o (omega (arith, le)))
  work-Served (r ∷ rs) m o le =
      let a = step_at-accepted m.phase r m in
      let fewer : to_go (worker_step b r m) ≤ length rs =
        ground (arith, step_at-left m.phase r m refl o.placed) in
      let (k, s) = work-Served rs (worker_step b r m) (worker_step-Ordered b r m o) fewer in
      (k ∙ a, (s.0 ∙ a, s.1))

  -- From every state that an empty slot leads to, five or more further steps of the worker accept
  -- nothing, and then everything accepted has run once, in order, as what it asks, and every run has
  -- been answered once, in order, at its port with its status.
  pub Reach-serves :
      (c : C) (h : Heap) (m : Mail C J S) (rs : List R)
      → slot_filled c ≡ false
      → IsClear c
      → Reach b c h m
      → 5 ≤ length rs
      → ((work rs m).accepted ≡ m.accepted) × Served (work rs m) m.accepted
  Reach-serves c h m rs f k p le =
      work-Served rs m (Reach-Ordered b c h m f k p)
        (omega (arith, le, left-bound m.phase (slot_filled m.conn)))

  -- A worker that has returned has served everything, after a shutdown request.
  pub Reach-returned :
      (c : C) (h : Heap) (m : Mail C J S)
      → slot_filled c ≡ false
      → IsClear c
      → Reach b c h m
      → m.phase ≡ exited
      → Served m m.accepted × (shutdown_requested m.conn ≡ true)
  Reach-returned c h m f k p e =
      let o = Reach-Ordered b c h m f k p in
      (
        nothing-Served m o (ap (λ ph. left ph (slot_filled m.conn)) e),
        (subst (λ ph. Placed b ph m.conn) e o.placed).1,
      )
