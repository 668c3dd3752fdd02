-- ===== src/Postgres/Execute/MultiRead/Rounds.antt =====
-- The drain loop of `execute_multi_read` of
-- packages/dart_db_connector/native/c/src/native_pool_worker.c, round by round.
use dart_db_connector.Base.{
  ℕ, ◌+◌, ◌≡◌, ◌≢◌, refl, sym, ap, ◌∙◌, ◌⊎◌, true, false, Option, none, some, List, [], ◌∷◌, ◌++◌,
  arith, Bool-cases, Option-cases, inl, inr, length, length-append, append_assoc, append-nil,
}
use mathlib.Core.Path.{subst}
use dart_db_connector.Heap.{Heap, Grew}
use dart_db_connector.Clock.{Timespec, next_select_tv}
use dart_db_connector.Postgres.Chain.{Chain, chain_append}
use dart_db_connector.Postgres.Chain.Fifo.{
  Entry, Holds, results, chain_append-fifo, free_result_chain-all,
}
use dart_db_connector.Postgres.Drain.{Selected-cases, ok, aborted, Call, cancel, clear}
use dart_db_connector.Postgres.Execute.{ResultTurn, ReadEnded, abandon, drain_multi}

-- The results that libpq delivers before the NULL that ends them.
abbrev pub delivered : List ResultTurn → List ℕ
delivered [] = []
delivered (t ∷ ts) = elim t.busy [
  | true ↦ delivered ts
  | false ↦ elim t.got [ none ↦ [] | some r ↦ r ∷ delivered ts ]
]

pub results-append : (l m : List Entry) → results (l ++ m) ≡ results l ++ results m
results-append [] m = refl
results-append ((a, r) ∷ l) m = ap (λ x. r ∷ x) (results-append l m)

-- One node for each entry of the chain: `l` before and `m` after.
abbrev pub Nodes : List Entry → Heap → List Entry → Heap → Type 0
Nodes l h m h' = h'.allocs + h.frees + length l ≡ h.allocs + h'.frees + length m

-- Success leaves the old results and `rs` behind them; an abort leaves an empty chain.
abbrev pub Reads : List Entry → Heap → List ℕ → ReadEnded → Type 0
Reads l h rs e =
    ((e.status ≡ ok)
      × (m : List Entry) × Holds e.chain m
      × (results m ≡ results l ++ rs)
      × Nodes l h m e.heap)
    ⊎ ((e.status ≡ aborted) × Holds e.chain [] × Nodes l h [] e.heap)

pub abandon-Reads :
    (cs : List Call) (chain : Chain) (h : Heap) (l : List Entry) (rs : List ℕ)
    → Holds chain l
    → Reads l h rs (abandon cs chain h)
abandon-Reads cs chain h l rs v =
    let (c, e, f, a) = free_result_chain-all chain h l v in inr (refl, e, omega (arith, f, a))

-- What one round does.
abbrev pub Round :
    Option Timespec → ResultTurn → List ResultTurn → Chain → Heap → Option ReadEnded → Type 0
Round deadline t ts chain h r =
    ((cs : List Call) × (r ≡ some (abandon cs chain h)))
    ⊎ ((t.busy ≡ true) × (r ≡ drain_multi deadline ts chain h))
    ⊎ ((t.busy ≡ false)
        × (t.got ≡ none)
        × (r ≡ some (record { status = ok; calls = []; chain = chain; heap = h })))
    ⊎ ((x : ℕ) × (t.busy ≡ false)
        × (t.got ≡ some x)
        × (((chain_append chain x h).0 ≡ true)
              × (r ≡ drain_multi deadline ts (chain_append chain x h).1 (chain_append chain x h).2)
            ⊎ ((chain_append chain x h).0 ≡ false)
              × (r
                  ≡ some (
                      abandon (clear x ∷ []) (chain_append chain x h).1
                        (chain_append chain x h).2))))

pub drain_multi-Round :
    (deadline : Option Timespec) (t : ResultTurn) (ts : List ResultTurn) (chain : Chain) (h : Heap)
    → Round deadline t ts chain h (drain_multi deadline (t ∷ ts) chain h)
unfolding drain_multi
drain_multi-Round deadline t ts chain h = elim (Bool-cases t.shutdown) [
  | inl s ↦ inl (cancel ∷ [], ground arith)
  | inr s ↦ elim (Bool-cases t.busy) [
    | inl b ↦ elim (Option-cases (next_select_tv deadline t.now)) [
      | inl n ↦ inl (cancel ∷ [], ground arith)
      | inr (tv, n) ↦ elim (Selected-cases t.selected) [
        | inl q ↦ inr (inl (b, ground arith))
        | inr (inl q) ↦ inl ([], ground arith)
        | inr (inr (inl q)) ↦ inr (inl (b, ground arith))
        | inr (inr (inr q)) ↦ elim (Bool-cases t.consumed) [
          | inl c ↦ inr (inl (b, ground arith))
          | inr c ↦ inl ([], ground arith)
        ]
      ]
    ]
    | inr b ↦ elim (Option-cases t.got) [
      | inl g ↦ inr (inr (inl (b, g, ground arith)))
      | inr (x, g) ↦ elim (Bool-cases (chain_append chain x h).0) [
        | inl a ↦ inr (inr (inr (x, b, g, inl (a, ground arith))))
        | inr a ↦ inr (inr (inr (x, b, g, inr (a, ground arith))))
      ]
    ]
  ]
]

pub not-drained :
    (deadline : Option Timespec) (chain : Chain) (h : Heap) (e : ReadEnded)
    → drain_multi deadline [] chain h ≢ some e
unfolding drain_multi
not-drained deadline chain h e q = cc

pub Reads-shift :
    (l : List Entry) (h h' : Heap) (rs : List ℕ) (e : ReadEnded)
    → Grew 0 h h'
    → Reads l h' rs e
    → Reads l h rs e
Reads-shift l h h' rs e g (inl (s, m, v, q, n)) = inl (s, m, v, q, omega arith)
Reads-shift l h h' rs e g (inr (s, v, n)) = inr (s, v, omega arith)

-- A result that was appended stands behind the old ones.
pub Reads-append :
    (l : List Entry) (a x : ℕ) (h h' : Heap) (rs : List ℕ) (e : ReadEnded)
    → Grew 1 h h'
    → Reads (l ++ (a, x) ∷ []) h' rs e
    → Reads l h (x ∷ rs) e
Reads-append l a x h h' rs e g (inl (s, m, v, q, n)) = inl (
  s,
  m,
  v,
  q ∙ ap (λ y. y ++ rs) (results-append l ((a, x) ∷ [])) ∙ append_assoc (results l) (x ∷ []) rs,
  omega (arith, length-append l ((a, x) ∷ [])),
)
Reads-append l a x h h' rs e g (inr (s, v, n)) =
    inr (s, v, omega (arith, length-append l ((a, x) ∷ [])))

pub Reads-eq :
    (l : List Entry) (h : Heap) (rs : List ℕ) (r : Option ReadEnded) (f e : ReadEnded)
    → r ≡ some f
    → r ≡ some e
    → Reads l h rs f
    → Reads l h rs e
Reads-eq l h rs r f e p q v = subst (λ x. Reads l h rs x) (same f e (sym p ∙ q)) v
  where
    same : (f e : ReadEnded) → some f ≡ some e → f ≡ e
    same f e p = cc

-- An append that failed left the chain and the size of the heap as they were.
pub refused-Reads :
    (chain : Chain) (x : ℕ) (h : Heap) (l : List Entry) (cs : List Call) (rs : List ℕ)
    → Holds chain l
    → (chain_append chain x h).0 ≡ false
    → Reads l h rs (abandon cs (chain_append chain x h).1 (chain_append chain x h).2)
refused-Reads chain x h l cs rs v a = elim (chain_append-fifo chain x h l v) [
  | inl (p, _, _) ↦ cc
  | inr (_, c, g) ↦
      Reads-shift l h (chain_append chain x h).2 rs
        (abandon cs (chain_append chain x h).1 (chain_append chain x h).2) g
        (abandon-Reads cs (chain_append chain x h).1 (chain_append chain x h).2 l rs (rw c v))
]

pub drain_multi-Reads :
    (deadline : Option Timespec) (ts : List ResultTurn) (chain : Chain) (h : Heap) (l : List Entry)
    (e : ReadEnded)
    → Holds chain l
    → drain_multi deadline ts chain h ≡ some e
    → Reads l h (delivered ts) e
drain_multi-Reads deadline [] chain h l e v q = absurd (not-drained deadline chain h e q)
drain_multi-Reads deadline (t ∷ ts) chain h l e v q =
    elim (drain_multi-Round deadline t ts chain h) [
      | inl (cs, p) ↦
          Reads-eq l h (delivered (t ∷ ts)) _ _ e p q
            (abandon-Reads cs chain h l (delivered (t ∷ ts)) v)
      | inr (inl (b, p)) ↦ rw b (drain_multi-Reads deadline ts chain h l e v (sym p ∙ q))
      | inr (inr (inl (b, g, p))) ↦
          rw (b, g)
            (Reads-eq l h [] _ (record { status = ok; calls = []; chain = chain; heap = h }) e p q
              (inl (refl, l, v, sym (append-nil (results l)), omega arith)))
      | inr (inr (inr (x, b, g, inr (a, p)))) ↦
          rw (b, g)
            (Reads-eq l h (x ∷ delivered ts) _ _ e p q
              (refused-Reads chain x h l (clear x ∷ []) (x ∷ delivered ts) v a))
      | inr (inr (inr (x, b, g, inl (a, p)))) ↦
          rw (b, g)
            (elim (chain_append-fifo chain x h l v) [
              | inr (f, _, _) ↦ cc
              | inl (_, w, n) ↦
                  Reads-append l chain.fresh x h (chain_append chain x h).2 (delivered ts) e n (
                    drain_multi-Reads deadline ts (chain_append chain x h).1
                      (chain_append chain x h).2 (l ++ (chain.fresh, x) ∷ []) e w (sym p ∙ q))
            ])
    ]
