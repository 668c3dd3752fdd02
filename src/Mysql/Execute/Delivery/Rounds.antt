-- ===== src/Mysql/Execute/Delivery/Rounds.antt =====
-- The loop of `execute_multi_read` of packages/dart_db_connector/native/c/src/mysql_pool_worker.c,
-- round by round.
use dart_db_connector.Base.{
  ℕ, ◌+◌, ◌≡◌, refl, ap, ◌∙◌, ◌⊎◌, inl, inr, true, false, Option, some, List, [], ◌∷◌, ◌++◌, arith,
  append_assoc, length, length-append, Bool-cases,
}
use dart_db_connector.Heap.{Heap, Grew, malloc}
use dart_db_connector.Mysql.Results.{Result}
use dart_db_connector.Mysql.Execute.{
  succeeded, aborted, Next, more, done, error, Answer, MysqlRan, sets, chain_sets, wrap_read,
  lacks_result, free_chain, drop_reads, drain_reads,
}

-- The wrappers of the statements up to the one that libmysqlclient calls the last.
abbrev pub wrapped : List Answer → List Result
wrapped [] = []
wrapped (a ∷ as') = wrap_read a ∷ (elim a.next [ more ↦ wrapped as' | _ ↦ [] ])

pub free_chain-frees :
    (chain : List Result) (h : Heap)
    → let (n, h') = free_chain chain h in
      (n ≡ chain_sets chain) × (h'.frees ≡ h.frees + length chain) × (h'.allocs ≡ h.allocs)
unfolding free_chain
free_chain-frees [] h = (refl, omega arith, refl)
free_chain-frees (r ∷ rs) h =
    let (a, b, c) = free_chain-frees rs (record h { frees = h.frees + 1 }) in
    (ap (λ n. sets r.res + n) a, omega (arith, b), c)

pub chain_sets-append : (c d : List Result) → chain_sets (c ++ d) ≡ chain_sets c + chain_sets d
chain_sets-append [] d = omega arith
chain_sets-append (r ∷ c) d = omega (arith, chain_sets-append c d)

-- With the chain so far and what is still to come: success hands over all wrappers, an abort leaves
-- `last_result` as it was; the sets stored are those freed and those handed over; and the blocks
-- taken beyond the chain's are those of the wrappers handed over.
abbrev pub Handed : List Result → List Result → List Result → Heap → MysqlRan → Type 0
Handed old chain rs h e =
    ((e.status ≡ succeeded)
      × (e.last_result ≡ chain ++ rs)
      × (e.stored ≡ e.freed + chain_sets (chain ++ rs))
      × (e.heap.allocs + h.frees + length chain ≡ h.allocs + e.heap.frees + length (chain ++ rs)))
    ⊎ ((e.status ≡ aborted)
        × (e.last_result ≡ old)
        × (e.stored ≡ e.freed)
        × (e.heap.allocs + h.frees + length chain ≡ h.allocs + e.heap.frees))

-- What one round does.
abbrev pub Round :
    List Result → Answer → List Answer → List Result → ℕ → Heap → Option MysqlRan → Type 0
Round old a as' chain seen h r =
    let n = seen + sets a.store in
    let h' = (malloc h).1 in
    let chain' = chain ++ wrap_read a ∷ [] in
    ((sets a.store ≡ 0) × (r ≡ some (drop_reads old chain n 0 h)))
    ⊎ (((malloc h).0 ≡ false) × (r ≡ some (drop_reads old chain n (sets a.store) h')))
    ⊎ (((malloc h).0 ≡ true) × (a.next ≡ error) × (r ≡ some (drop_reads old chain' n 0 h')))
    ⊎ (((malloc h).0 ≡ true) × (a.next ≡ more) × (r ≡ drain_reads old as' chain' n h'))
    ⊎ (((malloc h).0 ≡ true)
        × (a.next ≡ done)
        × (r
            ≡ some (record {
              status = succeeded;
              last_result = chain';
              stored = n;
              freed = 0;
              heap = h';
            })))

pub Next-cases : (n : Next) → (n ≡ more) ⊎ (n ≡ done) ⊎ (n ≡ error)
Next-cases more = inl refl
Next-cases done = inr (inl refl)
Next-cases error = inr (inr refl)

pub drain_reads-Round :
    (old : List Result) (a : Answer) (as' : List Answer) (chain : List Result) (seen : ℕ) (h : Heap)
    → Round old a as' chain seen h (drain_reads old (a ∷ as') chain seen h)
unfolding drain_reads
drain_reads-Round old a as' chain seen h = elim (Bool-cases (lacks_result a)) [
  | inl l ↦ inl (ground arith, ground arith)
  | inr l ↦ elim (Bool-cases (malloc h).0) [
    | inr m ↦ inr (inl (m, ground arith))
    | inl m ↦ elim (Next-cases a.next) [
      | inl n ↦ inr (inr (inr (inl (m, n, ground arith))))
      | inr (inl n) ↦ inr (inr (inr (inr (m, n, ground arith))))
      | inr (inr n) ↦ inr (inr (inl (m, n, ground arith)))
    ]
  ]
]

module _ (old chain : List Result) (a : Answer) (rs : List Result) (h : Heap) where
  abbrev pub extended : List Result
  extended = chain ++ wrap_read a ∷ []

  pub extended-sets : chain_sets extended ≡ chain_sets chain + sets a.store
  extended-sets = omega (arith, chain_sets-append chain (wrap_read a ∷ []))

  pub length-extended : length extended ≡ length chain + 1
  length-extended = omega (arith, length-append chain (wrap_read a ∷ []))

  pub lacks-Handed :
      (seen : ℕ)
      → seen ≡ chain_sets chain
      → sets a.store ≡ 0
      → Handed old chain rs h (drop_reads old chain (seen + sets a.store) 0 h)
  lacks-Handed seen s z =
      let (n, f, l) = free_chain-frees chain h in
      inr (refl, refl, omega (arith, n, s, z), omega (arith, f, l))

  pub refused-Handed :
      (seen : ℕ)
      → seen ≡ chain_sets chain
      → Grew 0 h (malloc h).1
      → Handed old chain rs h
          (drop_reads old chain (seen + sets a.store) (sets a.store) (malloc h).1)
  refused-Handed seen s g =
      let (n, f, l) = free_chain-frees chain (malloc h).1 in
      inr (refl, refl, omega (arith, n, s), omega (arith, f, l, g))

  pub error-Handed :
      (seen : ℕ)
      → seen ≡ chain_sets chain
      → Grew 1 h (malloc h).1
      → Handed old chain rs h (drop_reads old extended (seen + sets a.store) 0 (malloc h).1)
  error-Handed seen s g =
      let (n, f, l) = free_chain-frees extended (malloc h).1 in
      inr (refl, refl, omega (arith, n, s, extended-sets), omega (arith, f, l, g, length-extended))

  pub done-Handed :
      (seen : ℕ)
      → seen ≡ chain_sets chain
      → Grew 1 h (malloc h).1
      → Handed old chain (wrap_read a ∷ []) h (record {
        status = succeeded;
        last_result = extended;
        stored = seen + sets a.store;
        freed = 0;
        heap = (malloc h).1;
      })
  done-Handed seen s g =
      inl (refl, refl, omega (arith, s, extended-sets), omega (arith, g, length-extended))

  pub more-Handed :
      (e : MysqlRan)
      → Grew 1 h (malloc h).1
      → Handed old extended rs (malloc h).1 e
      → Handed old chain (wrap_read a ∷ rs) h e
  more-Handed e g (inl (s, r, n, l)) =
      let q = append_assoc chain (wrap_read a ∷ []) rs in
      inl (
        s,
        r ∙ q,
        n ∙ ap (λ c. e.freed + chain_sets c) q,
        omega (arith, l, g, length-extended, ap length q),
      )
  more-Handed e g (inr (s, r, n, l)) = inr (s, r, n, omega (arith, l, g, length-extended))
