-- ===== src/Mysql/Execute/Delivery.antt =====
-- What a MySQL multi-read leaves: every result set in order or none, and no set or wrapper that
-- nobody owns; and that it ends.
pub mod Rounds
use mathlib.Core.Path.{subst}
use dart_db_connector.Base.{
  ℕ, ◌+◌, ◌≡◌, refl, sym, ap, ◌∙◌, ◌⊎◌, inl, inr, Bool, true, false, Option, some, List, [], ◌∷◌,
  ◌++◌, arith, Any, append_assoc, length, length-append, Bool-cases,
}
use dart_db_connector.Heap.{Heap, Grew, malloc, malloc-cases}
use dart_db_connector.Mysql.Results.{Result}
use dart_db_connector.Mysql.Execute.{
  succeeded, aborted, Next, more, done, error, Answer, MysqlRan, sets, chain_sets, abort, wrap_read,
  lacks_result, free_chain, drop_reads, drain_reads, mysql_execute_multi_read,
}
use dart_db_connector.Mysql.Execute.Delivery.Rounds.{
  wrapped, free_chain-frees, chain_sets-append, Handed, Round, Next-cases, drain_reads-Round,
  extended, extended-sets, length-extended, lacks-Handed, refused-Handed, error-Handed, done-Handed,
  more-Handed,
}

granted : (h : Heap) → (malloc h).0 ≡ true → Grew 1 h (malloc h).1
granted h e = ground (arith, malloc-cases h)

denied : (h : Heap) → (malloc h).0 ≡ false → Grew 0 h (malloc h).1
denied h e = ground (arith, malloc-cases h)

Handed-eq :
    (old chain rs : List Result) (h : Heap) (r : Option MysqlRan) (d e : MysqlRan)
    → r ≡ some d
    → r ≡ some e
    → Handed old chain rs h d
    → Handed old chain rs h e
Handed-eq old chain rs h r d e p q k = subst (Handed old chain rs h) (same d e (sym p ∙ q)) k
  where
    same : (x y : MysqlRan) → some x ≡ some y → x ≡ y
    same x y z = cc

none-Handed :
    (old chain : List Result) (seen : ℕ) (h : Heap) (e : MysqlRan)
    → drain_reads old [] chain seen h ≡ some e
    → Handed old chain [] h e
unfolding drain_reads
none-Handed old chain seen h e q = cc

drain_reads-Handed :
    (old : List Result) (answers : List Answer) (chain : List Result) (seen : ℕ) (h : Heap)
    (e : MysqlRan)
    → seen ≡ chain_sets chain
    → drain_reads old answers chain seen h ≡ some e
    → Handed old chain (wrapped answers) h e
drain_reads-Handed old [] chain seen h e s q = none-Handed old chain seen h e q
drain_reads-Handed old (a ∷ as') chain seen h e s q =
    elim (drain_reads-Round old a as' chain seen h) [
      | inl (z, p) ↦
          Handed-eq old chain (wrapped (a ∷ as')) h _ _ e p q
            (lacks-Handed old chain a (wrapped (a ∷ as')) h seen s z)
      | inr (inl (m, p)) ↦
          Handed-eq old chain (wrapped (a ∷ as')) h _ _ e p q
            (refused-Handed old chain a (wrapped (a ∷ as')) h seen s (denied h m))
      | inr (inr (inl (m, n, p))) ↦
          Handed-eq old chain (wrapped (a ∷ as')) h _ _ e p q
            (error-Handed old chain a (wrapped (a ∷ as')) h seen s (granted h m))
      | inr (inr (inr (inl (m, n, p)))) ↦ rw n (
          more-Handed old chain a (wrapped as') h e (granted h m) (
            drain_reads-Handed old as' (chain ++ wrap_read a ∷ []) (seen + sets a.store)
              (malloc h).1 e (omega (arith, s, extended-sets old chain a [] h)) (sym p ∙ q)))
      | inr (inr (inr (inr (m, n, p)))) ↦ rw n (
          Handed-eq old chain (wrap_read a ∷ []) h _ _ e p q
            (done-Handed old chain a [] h seen s (granted h m)))
    ]

-- A MySQL multi-read that ends either succeeds and hands over one wrapper for each statement up to
-- the one that libmysqlclient calls the last, in order, with the blocks of those wrappers and no
-- other taken, and the result sets stored those in them and those freed; or it aborts, leaves what
-- was to be polled as it was, and has freed every result set that it stored and every block that it
-- took.
pub mysql_execute_multi_read-Handed :
    (old : List Result) (sent : Bool) (answers : List Answer) (h : Heap) (e : MysqlRan)
    → mysql_execute_multi_read old sent answers h ≡ some e
    → ((e.status ≡ succeeded)
        × (e.last_result ≡ wrapped answers)
        × (e.stored ≡ e.freed + chain_sets e.last_result)
        × Grew (length e.last_result) h e.heap)
      ⊎ ((e.status ≡ aborted) × (e.last_result ≡ old) × (e.stored ≡ e.freed) × Grew 0 h e.heap)
unfolding mysql_execute_multi_read
mysql_execute_multi_read-Handed old false answers h e q =
    inr (ground arith, ground arith, ground arith, ground arith)
mysql_execute_multi_read-Handed old true answers h e q =
    elim (drain_reads-Handed old answers [] 0 h e refl q) [
      | inl (s, r, n, l) ↦
          inl (s, r, n ∙ ap (λ c. e.freed + chain_sets c) (sym r), omega (arith, l, ap length r))
      | inr (s, r, n, l) ↦ inr (s, r, n, omega (arith, l))
    ]

-- The statement that libmysqlclient calls the last, or refuses.
abbrev pub Last : Answer → Type 0
Last a = (a.next ≡ done) ⊎ (a.next ≡ error)

drain_reads-Last :
    (old : List Result) (answers : List Answer) (chain : List Result) (seen : ℕ) (h : Heap)
    → Any Last answers
    → (e : MysqlRan) × (drain_reads old answers chain seen h ≡ some e)
drain_reads-Last old [] chain seen h l = absurd l
drain_reads-Last old (a ∷ as') chain seen h l = elim (drain_reads-Round old a as' chain seen h) [
  | inl (z, p) ↦ (_, p)
  | inr (inl (m, p)) ↦ (_, p)
  | inr (inr (inl (m, n, p))) ↦ (_, p)
  | inr (inr (inr (inl (m, n, p)))) ↦
      let (e, q) =
        drain_reads-Last old as' (chain ++ wrap_read a ∷ []) (seen + sets a.store) (malloc h).1
          (later a as' n l) in
      (e, p ∙ q)
  | inr (inr (inr (inr (m, n, p)))) ↦ (_, p)
]
  where
    later : (a : Answer) (as' : List Answer) → a.next ≡ more → Any Last (a ∷ as') → Any Last as'
    later a as' n (inl (inl d)) = cc
    later a as' n (inl (inr d)) = cc
    later a as' n (inr k) = k

-- A MySQL multi-read has ended once libmysqlclient has called some statement the last or refused
-- the next.
pub mysql_execute_multi_read-Last :
    (old : List Result) (sent : Bool) (answers : List Answer) (h : Heap)
    → Any Last answers
    → (e : MysqlRan) × (mysql_execute_multi_read old sent answers h ≡ some e)
unfolding mysql_execute_multi_read
mysql_execute_multi_read-Last old false answers h l = (abort old 0 0 h, refl)
mysql_execute_multi_read-Last old true answers h l = drain_reads-Last old answers [] 0 h l
