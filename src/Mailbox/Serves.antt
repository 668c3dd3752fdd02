-- ===== src/Mailbox/Serves.antt =====
-- Every state that is reached is in order, and the worker serves what waits in five steps.
use dart_db_connector.Base.{
  ◌≡◌, refl, sym, ap, ◌∙◌, subst, true, false, [], ◌∷◌, ◌++◌, append-nil, arith, Bool-cases, inl,
  inr,
}
use dart_db_connector.Heap.{Heap}
use dart_db_connector.Mailbox.{
  Mailbox, Phase, waiting, exited, executing, clearing, posting, Mail, submitted, shut_down,
  SameSlot, Reach, starts, works, submits, shuts, touches,
}
use dart_db_connector.Mailbox.Order.{asked, awaiting, Placed, Ordered, worker_step-Ordered}

module _ {C J R Q S : Type 0} (b : Mailbox C J R Q S) where
  open b use {slot_filled, shutdown_requested, port_id, job, IsClear, submit, asks, port_of}

  module _ (c c' : C) (v : SameSlot b c c') where
    awaiting-same : (ph : Phase J S) → awaiting b ph c' ≡ awaiting b ph c
    awaiting-same waiting = cc (v.filled, v.work, v.port)
    awaiting-same exited = cc (v.filled, v.work, v.port)
    awaiting-same (executing j p) = refl
    awaiting-same (clearing p s) = refl
    awaiting-same (posting p s) = cc (v.filled, v.work, v.port)

    Placed-same : (ph : Phase J S) → Placed b ph c → Placed b ph c'
    Placed-same waiting p = tt
    Placed-same exited p = (v.filled ∙ p.0, v.shutdown ∙ p.1)
    Placed-same (executing j x) p = v.filled ∙ p
    Placed-same (clearing x s) p = v.filled ∙ p
    Placed-same (posting x s) p = tt

  touched-Ordered :
      (c' : C) (h' : Heap) (m : Mail C J S)
      → SameSlot b m.conn c'
      → Ordered b m
      → Ordered b (record m { conn = c'; heap = h' })
  touched-Ordered c' h' m v o = record {
    vacant = λ f. v.cleared (o.vacant (sym v.filled ∙ f));
    accepted = o.accepted ∙ ap (λ l. asked m.ran ++ l) (sym (awaiting-same m.conn c' v m.phase));
    posted = o.posted;
    placed = Placed-same m.conn c' v m.phase o.placed;
  }

  shut-Placed : (ph : Phase J S) (c : C) → Placed b ph c → Placed b ph (b.shut c)
  shut-Placed waiting c p = tt
  shut-Placed exited c p = ((b.shut-slot c).0 ∙ p.0, (b.shut-slot c).3)
  shut-Placed (executing j x) c p = (b.shut-slot c).0 ∙ p
  shut-Placed (clearing x s) c p = (b.shut-slot c).0 ∙ p
  shut-Placed (posting x s) c p = tt

  shut-awaiting : (ph : Phase J S) (c : C) → awaiting b ph (b.shut c) ≡ awaiting b ph c
  shut-awaiting ph c = let (f, p, j, d, k) = b.shut-slot c in go ph c f p j
    where
      go :
          (ph : Phase J S) (c : C)
          → slot_filled (b.shut c) ≡ slot_filled c
          → port_id (b.shut c) ≡ port_id c
          → job (b.shut c) ≡ job c
          → awaiting b ph (b.shut c) ≡ awaiting b ph c
      go waiting c f p j = cc (f, p, j)
      go exited c f p j = cc (f, p, j)
      go (executing j p) c f q k = refl
      go (clearing p s) c f q k = refl
      go (posting p s) c f q k = cc (f, q, k)

  shut_down-Ordered : (m : Mail C J S) → Ordered b m → Ordered b (shut_down b m)
  unfolding shut_down
  shut_down-Ordered m o = record {
    vacant = λ f. (b.shut-slot m.conn).4 (o.vacant (sym (b.shut-slot m.conn).0 ∙ f));
    accepted = o.accepted ∙ ap (λ l. asked m.ran ++ l) (sym (shut-awaiting m.phase m.conn));
    posted = o.posted;
    placed = shut-Placed m.phase m.conn o.placed;
  }

  module _ (q : Q) (m : Mail C J S) where
    submitted-refused :
        (submit q m.conn m.heap).0 ≡ false
        → submitted b q m ≡ record m { heap = (submit q m.conn m.heap).2 }
    unfolding submitted
    submitted-refused e = let k = b.submit-refused q m.conn m.heap e in ground (arith, k)

    submitted-accepted :
        (submit q m.conn m.heap).0 ≡ true
        → submitted b q m ≡ record m {
          conn = (submit q m.conn m.heap).1;
          heap = (submit q m.conn m.heap).2;
          accepted = m.accepted ++ (asks q, port_of q) ∷ [];
        }
    unfolding submitted
    submitted-accepted e = ground arith

  -- The slot was empty: only a worker that waits or is about to post leaves it so.
  none-awaiting :
      (ph : Phase J S) (c : C)
      → Placed b ph c
      → slot_filled c ≡ false
      → shutdown_requested c ≡ false
      → (awaiting b ph c ≡ [])
        × ((c' : C)
            → slot_filled c' ≡ true
            → (awaiting b ph c' ≡ (job c', port_id c') ∷ []) × Placed b ph c')
  none-awaiting waiting c p f d = (cc f, λ c' f'. (cc f', tt))
  none-awaiting exited c p f d = cc (p.1, d)
  none-awaiting (executing j x) c p f d = cc (p, f)
  none-awaiting (clearing x s) c p f d = cc (p, f)
  none-awaiting (posting x s) c p f d = (cc f, λ c' f'. (cc f', tt))

  submitted-Ordered : (q : Q) (m : Mail C J S) → Ordered b m → Ordered b (submitted b q m)
  submitted-Ordered q m o = elim (Bool-cases (submit q m.conn m.heap).0) [
    | inr e ↦
        subst (Ordered b) (sym (submitted-refused q m e)) (record {
          vacant = o.vacant;
          accepted = o.accepted;
          posted = o.posted;
          placed = o.placed;
        })
    | inl e ↦
        let c' = (submit q m.conn m.heap).1 in
        let (f, d) = b.submit-free q m.conn m.heap e in
        let (f', p, j, d') = b.submit-accepted q m.conn m.heap (o.vacant f) e in
        let (n, more) = none-awaiting m.phase m.conn o.placed f d in
        let (w, pl) = more c' f' in
        let head = o.accepted ∙ ap (λ l. asked m.ran ++ l) n ∙ append-nil (asked m.ran) in
        subst (Ordered b) (sym (submitted-accepted q m e)) (record {
          vacant = λ g. cc (f', g);
          accepted = cc (head, w, p, j);
          posted = o.posted;
          placed = pl;
        })
  ]

  -- From an empty slot.
  pub Reach-Ordered :
      (c : C) (h : Heap) (m : Mail C J S)
      → slot_filled c ≡ false
      → IsClear c
      → Reach b c h m
      → Ordered b m
  Reach-Ordered c h m f k starts = record {
    vacant = λ _. k;
    accepted = cc f;
    posted = refl;
    placed = tt;
  }
  Reach-Ordered c h m f k (works r n p) = worker_step-Ordered b r n (Reach-Ordered c h n f k p)
  Reach-Ordered c h m f k (submits q n p) = submitted-Ordered q n (Reach-Ordered c h n f k p)
  Reach-Ordered c h m f k (shuts n p) = shut_down-Ordered n (Reach-Ordered c h n f k p)
  Reach-Ordered c h m f k (touches c' h' n v p) =
      touched-Ordered c' h' n v (Reach-Ordered c h n f k p)
