-- ===== src/Postgres/Worker/Progress.antt =====
-- The worker always gets on: it answers what waits in at most five steps, and the slot is free where
-- every accepted submission has its post.
use dart_db_connector.Base.{
  ℕ, suc, ◌≤◌, ◌≡◌, refl, sym, ap, ◌∙◌, ℤ, Bool, true, false, List, [], ◌∷◌, ◌++◌, append-nil,
  arith, length, length-append, inl, inr, ◌⊎◌, Bool-cases,
}
use dart_db_connector.Heap.{Heap}
use dart_db_connector.Postgres.Conn.{Conn}
use dart_db_connector.Postgres.Ledger.{IsValid}
use dart_db_connector.Postgres.Worker.{
  Phase, waiting, executing, clearing, posting, exited, Mail, Ran, step_at, worker_step, Reach,
}
use dart_db_connector.Postgres.Worker.Answers.{
  wait-full, wait-down, wait-asleep, worker_step-Orderly, Reach-Orderly,
}
use dart_db_connector.Postgres.Worker.Answers.Submissions.{ports, in_slot, pending, Placed, Orderly}

-- The worker's next steps, with what each execution among them leaves.
abbrev pub work : List Ran → Mail → Mail
work [] m = m
work (r ∷ rs) m = work rs (worker_step r m)

abbrev full_left : Bool → ℕ
full_left true = 4
full_left false = 0

-- The steps until everything that waits is answered.
abbrev left : Phase → Bool → ℕ
left waiting full = full_left full
left (executing job port_id) full = 3
left (clearing port_id s) full = 2
left (posting port_id s) full = suc (full_left full)
left exited full = 0

abbrev to_go : Mail → ℕ
to_go m = left m.phase m.conn.slot_filled

step_at-left :
    (ph : Phase) (r : Ran) (m : Mail)
    → m.phase ≡ ph
    → Placed ph m.conn
    → (to_go (step_at ph r m) ≡ 0) ⊎ (suc (to_go (step_at ph r m)) ≡ left ph m.conn.slot_filled)
unfolding step_at
step_at-left waiting r m e p = elim (Bool-cases m.conn.slot_filled) [
  | inl s ↦ inr (ap (λ n. suc (to_go n)) (wait-full r m s) ∙ ap full_left (sym s))
  | inr s ↦ elim (Bool-cases m.conn.shutdown_requested) [
    | inl d ↦ inl (ap to_go (wait-down r m s d))
    | inr d ↦
        inl (
          ap to_go (wait-asleep r m s d) ∙ ap (λ ph. left ph m.conn.slot_filled) e ∙ ap full_left s)
  ]
]
step_at-left (executing job port_id) r m e p = inr refl
step_at-left (clearing port_id status) r m e p = inr refl
step_at-left (posting port_id status) r m e p = inr refl
step_at-left exited r m e p = inl (ap (λ ph. left ph m.conn.slot_filled) e)

step_at-accepted : (ph : Phase) (r : Ran) (m : Mail) → (step_at ph r m).accepted ≡ m.accepted
unfolding step_at
step_at-accepted waiting r m = elim (Bool-cases m.conn.slot_filled) [
  | inl s ↦ ap (λ n. n.accepted) (wait-full r m s)
  | inr s ↦ elim (Bool-cases m.conn.shutdown_requested) [
    | inl d ↦ ap (λ n. n.accepted) (wait-down r m s d)
    | inr d ↦ ap (λ n. n.accepted) (wait-asleep r m s d)
  ]
]
step_at-accepted (executing job port_id) r m = refl
step_at-accepted (clearing port_id status) r m = refl
step_at-accepted (posting port_id status) r m = refl
step_at-accepted exited r m = refl

nothing-pending :
    (ph : Phase) (c : Conn) → Placed ph c → left ph c.slot_filled ≡ 0 → (pending ph c ≡ [])
nothing-pending waiting c p e = elim (Bool-cases c.slot_filled) [
  | inl s ↦ absurd (omega (arith, e, ap full_left s))
  | inr s ↦ ap (λ b. in_slot b c.port_id) s
]
nothing-pending (executing job port_id) c p e = absurd (omega (arith, e))
nothing-pending (clearing port_id s) c p e = absurd (omega (arith, e))
nothing-pending (posting port_id s) c p e = absurd (omega (arith, e))
nothing-pending exited c p e = ap (λ b. in_slot b c.port_id) p.0

work-answers :
    (rs : List Ran) (m : Mail)
    → Orderly m
    → to_go m ≤ length rs
    → ((work rs m).accepted ≡ m.accepted) × (ports (work rs m).posts ≡ m.accepted)
unfolding worker_step
work-answers [] m v le = (
  refl,
  sym (
      v.answered
      ∙ ap (λ l. ports m.posts ++ l) (nothing-pending m.phase m.conn v.placed (omega arith))
      ∙ append-nil (ports m.posts)),
)
work-answers (r ∷ rs) m v le =
    let (a, b) =
      work-answers rs (worker_step r m) (worker_step-Orderly r m v)
        (ground (arith, step_at-left m.phase r m refl v.placed)) in
    (a ∙ step_at-accepted m.phase r m, b ∙ step_at-accepted m.phase r m)

left-bound : (ph : Phase) (b : Bool) → left ph b ≤ 5
left-bound waiting b = ground arith
left-bound (executing job port_id) b = omega arith
left-bound (clearing port_id s) b = omega arith
left-bound (posting port_id s) b = ground arith
left-bound exited b = omega arith

-- From every such reachable state, five or more further steps of the worker, whatever their
-- executions bring, accept nothing and leave every submission accepted before them answered by
-- exactly one post, in order.
pub Reach-answers :
    (c : Conn) (h : Heap) (m : Mail) (rs : List Ran)
    → IsValid c
    → c.slot_filled ≡ false
    → Reach c h m
    → 5 ≤ length rs
    → ((work rs m).accepted ≡ m.accepted) × (ports (work rs m).posts ≡ m.accepted)
Reach-answers c h m rs v s p le =
    work-answers rs m (Reach-Orderly c h m v s p)
      (omega (arith, left-bound m.phase m.conn.slot_filled))

in_slot-nil : (b : Bool) (p : ℤ) → in_slot b p ≡ [] → b ≡ false
in_slot-nil true p e = ground arith
in_slot-nil false p e = refl

pending-slot : (ph : Phase) (c : Conn) → pending ph c ≡ [] → c.slot_filled ≡ false
pending-slot waiting c e = in_slot-nil c.slot_filled c.port_id e
pending-slot (executing job port_id) c e = in_slot-nil c.slot_filled c.port_id e
pending-slot (clearing port_id s) c e = in_slot-nil c.slot_filled c.port_id e
pending-slot (posting port_id s) c e = ground arith
pending-slot exited c e = in_slot-nil c.slot_filled c.port_id e

none-appended : (xs ys : List ℤ) → xs ≡ xs ++ ys → ys ≡ []
none-appended xs [] e = refl
none-appended xs (y ∷ ys) e = absurd (omega (arith, ap length e, length-append xs (y ∷ ys)))

-- In every such reachable state in which each accepted submission has its post, the slot is free.
pub Reach-free :
    (c : Conn) (h : Heap) (m : Mail)
    → IsValid c
    → c.slot_filled ≡ false
    → Reach c h m
    → ports m.posts ≡ m.accepted
    → m.conn.slot_filled ≡ false
Reach-free c h m v s p e =
    pending-slot m.phase m.conn
      (none-appended (ports m.posts) _ (e ∙ (Reach-Orderly c h m v s p).answered))
