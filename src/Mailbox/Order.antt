-- ===== src/Mailbox/Order.antt =====
-- In every state that the interleavings reach, what was accepted has run or waits, in order, and
-- what has run is posted or about to be.
use dart_db_connector.Base.{
  ◌≡◌, refl, sym, ap, ◌∙◌, subst, ℤ, Bool, true, false, List, [], ◌∷◌, ◌++◌, append-nil, arith,
  Bool-cases, inl, inr,
}
use dart_db_connector.Mailbox.{
  Mailbox, Phase, waiting, exited, executing, clearing, posting, Run, Mail, step_at, worker_step,
}

module _ {J S : Type 0} where
  -- The requests that have run, and the answers that they are owed.
  abbrev pub asked : List (Run J S) → List (J × ℤ)
  asked [] = []
  asked (r ∷ rs) = (r.job, r.port_id) ∷ asked rs

  abbrev pub owed : List (Run J S) → List (ℤ × S)
  owed [] = []
  owed (r ∷ rs) = (r.port_id, r.status) ∷ owed rs

  asked-append : (xs ys : List (Run J S)) → asked (xs ++ ys) ≡ asked xs ++ asked ys
  asked-append [] ys = refl
  asked-append (x ∷ xs) ys = ap (λ l. (x.job, x.port_id) ∷ l) (asked-append xs ys)

  owed-append : (xs ys : List (Run J S)) → owed (xs ++ ys) ≡ owed xs ++ owed ys
  owed-append [] ys = refl
  owed-append (x ∷ xs) ys = ap (λ l. (x.port_id, x.status) ∷ l) (owed-append xs ys)

  -- The answer that is about to be posted.
  abbrev pub due : Phase J S → List (ℤ × S)
  due waiting = []
  due exited = []
  due (executing j p) = []
  due (clearing p s) = (p, s) ∷ []
  due (posting p s) = (p, s) ∷ []

abbrev pub in_slot : {A : Type 0} → Bool → A → List A
in_slot true a = a ∷ []
in_slot false a = []

module _ {C J R Q S : Type 0} (b : Mailbox C J R Q S) where
  open b use {slot_filled, shutdown_requested, port_id, job, IsClear, submit, asks, port_of}

  -- What has been accepted and has not run.
  abbrev pub awaiting : Phase J S → C → List (J × ℤ)
  awaiting waiting c = in_slot (slot_filled c) (job c, port_id c)
  awaiting exited c = in_slot (slot_filled c) (job c, port_id c)
  awaiting (executing j p) c = (j, p) ∷ []
  awaiting (clearing p s) c = []
  awaiting (posting p s) c = in_slot (slot_filled c) (job c, port_id c)

  abbrev pub Placed : Phase J S → C → Type 0
  Placed waiting c = Unit
  Placed exited c = (slot_filled c ≡ false) × (shutdown_requested c ≡ true)
  Placed (executing j p) c = slot_filled c ≡ true
  Placed (clearing p s) c = slot_filled c ≡ true
  Placed (posting p s) c = Unit

  pub record Ordered (m : Mail C J S) : Type 0 where
    pub vacant : slot_filled m.conn ≡ false → IsClear m.conn
    pub accepted : m.accepted ≡ asked m.ran ++ awaiting m.phase m.conn
    pub posted : owed m.ran ≡ m.posts ++ due m.phase
    pub placed : Placed m.phase m.conn

  module _ (r : R) (m : Mail C J S) where
    pub wait-full :
        slot_filled m.conn ≡ true
        → step_at b waiting r m ≡ record m { phase = executing (job m.conn) (port_id m.conn) }
    unfolding step_at
    wait-full s = ground arith

    pub wait-down :
        slot_filled m.conn ≡ false
        → shutdown_requested m.conn ≡ true
        → step_at b waiting r m ≡ record m { phase = exited }
    unfolding step_at
    wait-down s d = ground arith

    pub wait-asleep :
        slot_filled m.conn ≡ false → shutdown_requested m.conn ≡ false → step_at b waiting r m ≡ m
    unfolding step_at
    wait-asleep s d = ground arith

  -- What a phase's fields say.
  abbrev At : Phase J S → Mail C J S → Type 0
  At ph m =
      (slot_filled m.conn ≡ false → IsClear m.conn)
      × (m.accepted ≡ asked m.ran ++ awaiting ph m.conn)
      × (owed m.ran ≡ m.posts ++ due ph)
      × Placed ph m.conn

  step_from-Ordered : (ph : Phase J S) (m : Mail C J S) → m.phase ≡ ph → At ph m → Ordered m
  step_from-Ordered ph m e a =
      let (v, x, p, q) = subst (λ k. At k m) (sym e) a in
      record { vacant = v; accepted = x; posted = p; placed = q }

  step_at-Ordered :
      (ph : Phase J S) (r : R) (m : Mail C J S)
      → m.phase ≡ ph
      → At ph m
      → Ordered (step_at b ph r m)
  unfolding step_at
  step_at-Ordered waiting r m e (v, a, p, q) = elim (Bool-cases (slot_filled m.conn)) [
    | inl s ↦ subst Ordered (sym (wait-full r m s)) (record {
      vacant = v;
      accepted = a ∙ ap (λ f. asked m.ran ++ in_slot f (job m.conn, port_id m.conn)) s;
      posted = p;
      placed = s;
    })
    | inr s ↦ elim (Bool-cases (shutdown_requested m.conn)) [
      | inl d ↦
          subst Ordered (sym (wait-down r m s d))
            (record { vacant = v; accepted = a; posted = p; placed = (s, d) })
      | inr d ↦
          subst Ordered (sym (wait-asleep r m s d)) (step_from-Ordered waiting m e (v, a, p, q))
    ]
  ]
  step_at-Ordered exited r m e a = step_from-Ordered exited m e a
  step_at-Ordered (executing j x) r m e (v, a, p, q) =
      let k = b.keep-slot r m.conn in
      let run : Run J S = record { job = j; port_id = x; status = b.status r } in
      record {
        vacant = λ f. cc (k.0 ∙ q, f);
        accepted =
            a ∙ sym (asked-append m.ran (run ∷ [])) ∙ sym (append-nil (asked (m.ran ++ run ∷ [])));
        posted =
            owed-append m.ran (run ∷ [])
            ∙ ap (λ l. l ++ (x, b.status r) ∷ []) (p ∙ append-nil m.posts);
        placed = k.0 ∙ q;
      }
  step_at-Ordered (clearing x s) r m e (v, a, p, q) =
      let (f, c, d) = b.clear-slot m.conn m.heap in
      let c' = (b.clear m.conn m.heap).0 in
      record {
        vacant = λ _. c;
        accepted = a ∙ ap (λ f. asked m.ran ++ in_slot f (job c', port_id c')) (sym f);
        posted = p;
        placed = tt;
      }
  step_at-Ordered (posting x s) r m e (v, a, p, q) = record {
    vacant = v;
    accepted = a;
    posted = p ∙ sym (append-nil (m.posts ++ (x, s) ∷ []));
    placed = tt;
  }

  pub worker_step-Ordered : (r : R) (m : Mail C J S) → Ordered m → Ordered (worker_step b r m)
  unfolding worker_step
  worker_step-Ordered r m o =
      step_at-Ordered m.phase r m refl (o.vacant, o.accepted, o.posted, o.placed)
