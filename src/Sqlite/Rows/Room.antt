-- ===== src/Sqlite/Rows/Room.antt =====
-- The growth of the arrays: what is written is kept, and the blocks are accounted for, whichever of
-- the three reallocs is refused.
use dart_db_connector.Base.{
  ℕ, zero, suc, ◌+◌, ◌*◌, ◌<◌, ◌≡◌, refl, ap, ◌∙◌, subst, Bool, true, false, Option, none, some,
  arith, Bool-cases, inl, inr, ◌⊎◌,
}
use dart_db_connector.Heap.{Refused, Heap, Text, malloc, realloc, free, owned_by}
use dart_db_connector.Sqlite.Rows.{
  Block, Arrays, written, regrow, moved, Loop, next_cap, settle, grow,
}

-- The blocks of the arrays themselves.
abbrev pub held : Arrays → ℕ
held a = owned_by a.types + owned_by a.lens + owned_by a.cells

-- From owning `m` blocks to owning `n`.
abbrev pub Trades : ℕ → ℕ → Heap → Heap → Type 0
Trades m n h h' = (h'.allocs + h.frees + m ≡ h.allocs + h'.frees + n) × (h'.grants ≡ h.grants)

-- What an answer of realloc says.
abbrev Answers : {A : Type 0} → (ℕ → Bool) → ℕ → Option (Block A) → Option (Block A) → Type 0
Answers grants n p q =
    (q ≡ some (record { room = n; filled = written p })) ⊎ ((q ≡ none) × Refused grants)

regrow-cases :
    {A : Type 0} (n : ℕ) (p : Option (Block A)) (h : Heap)
    → let (q, h') = regrow n p h in
      Trades (owned_by p) (owned_by (moved q p)) h h'
      × (written (moved q p) ≡ written p)
      × Answers h.grants n p q
unfolding regrow realloc malloc free
regrow-cases n none h = elim (Bool-cases (h.grants h.calls)) [
  | inl e ↦ rw e ((omega arith, refl), refl, inl refl)
  | inr e ↦ rw e ((omega arith, refl), refl, inr (refl, (h.calls, e)))
]
regrow-cases n (some b) h = elim (Bool-cases (h.grants h.calls)) [
  | inl e ↦ rw e ((omega arith, refl), refl, inl refl)
  | inr e ↦ rw e ((omega arith, refl), refl, inr (refl, (h.calls, e)))
]

abbrev Settled :
    (ℕ → Bool)
    → ℕ
    → Loop
    → Option (Block ℕ)
    → Option (Block ℕ)
    → Option (Block (Option Text))
    → Bool × Loop
    → Type 0
Settled grants n l t2 l2 d2 (ok, l') =
    (l'.nrows ≡ l.nrows)
    × (l'.arrays ≡ record {
      types = moved t2 l.arrays.types;
      lens = moved l2 l.arrays.lens;
      cells = moved d2 l.arrays.cells;
    })
    × (((ok ≡ true)
          × (l'.cap ≡ next_cap l.cap)
          × (t2 ≡ some (record { room = n; filled = written l.arrays.types }))
          × (l2 ≡ some (record { room = n; filled = written l.arrays.lens }))
          × (d2 ≡ some (record { room = n; filled = written l.arrays.cells })))
        ⊎ ((ok ≡ false) × Refused grants))

settle-Settled :
    (ncol n : ℕ) (l : Loop) (t2 l2 : Option (Block ℕ)) (d2 : Option (Block (Option Text)))
    (grants : ℕ → Bool)
    → 0 < ncol
    → Answers grants n l.arrays.types t2
    → Answers grants n l.arrays.lens l2
    → Answers grants n l.arrays.cells d2
    → Settled grants n l t2 l2 d2 (settle ncol l t2 l2 d2)
unfolding settle
settle-Settled zero n l t2 l2 d2 grants pos a b c = elim pos [ ]
settle-Settled (suc k) n l none l2 d2 grants pos (inl e) b c = cc
settle-Settled (suc k) n l none l2 d2 grants pos (inr (e, r)) b c =
    (ground arith, ground arith, inr (ground arith, r))
settle-Settled (suc k) n l (some t) none d2 grants pos a (inl e) c = cc
settle-Settled (suc k) n l (some t) none d2 grants pos a (inr (e, r)) c =
    (ground arith, ground arith, inr (ground arith, r))
settle-Settled (suc k) n l (some t) (some u) none grants pos a b (inl e) = cc
settle-Settled (suc k) n l (some t) (some u) none grants pos a b (inr (e, r)) =
    (ground arith, ground arith, inr (ground arith, r))
settle-Settled (suc k) n l (some t) (some u) (some d) grants pos (inl a) (inl b) (inl c) =
    (ground arith, ground arith, inl (ground arith, ground arith, a, b, c))
settle-Settled (suc k) n l (some t) (some u) (some d) grants pos (inr (a, r)) b c = cc
settle-Settled (suc k) n l (some t) (some u) (some d) grants pos (inl a) (inr (b, r)) c = cc
settle-Settled (suc k) n l (some t) (some u) (some d) grants pos (inl a) (inl b) (inr (c, r)) = cc

-- The loop's variables after the three reallocs, and the answer to the test.
abbrev pub Grown : ℕ → Loop → Heap → Bool × Loop × Heap → Type 0
Grown n l h (ok, l', h') =
    (l'.nrows ≡ l.nrows)
    × Trades (held l.arrays) (held l'.arrays) h h'
    × (written l'.arrays.cells ≡ written l.arrays.cells)
    × (((ok ≡ true)
          × (l'.cap ≡ next_cap l.cap)
          × (l'.arrays.types ≡ some (record { room = n; filled = written l.arrays.types }))
          × (l'.arrays.lens ≡ some (record { room = n; filled = written l.arrays.lens }))
          × (l'.arrays.cells ≡ some (record { room = n; filled = written l.arrays.cells })))
        ⊎ ((ok ≡ false) × Refused h.grants))

pub grow-Grown :
    (ncol : ℕ) (l : Loop) (h : Heap) → 0 < ncol → Grown (next_cap l.cap * ncol) l h (grow ncol l h)
unfolding grow
grow-Grown ncol l h pos =
    let a = l.arrays in
    let n = next_cap l.cap * ncol in
    let h1 = (regrow n a.types h).1 in
    let h2 = (regrow n a.lens h1).1 in
    let t2 = (regrow n a.types h).0 in
    let l2 = (regrow n a.lens h1).0 in
    let d2 = (regrow n a.cells h2).0 in
    let (e1, w1, c1) = regrow-cases n a.types h in
    let (e2, w2, c2) = regrow-cases n a.lens h1 in
    let (e3, w3, c3) = regrow-cases n a.cells h2 in
    let g = e2.1 ∙ e1.1 in
    let (r, k, d) =
      settle-Settled ncol n l t2 l2 d2 h.grants pos c1
        (subst (λ gs. Answers gs n a.lens l2) e1.1 c2)
        (subst (λ gs. Answers gs n a.cells d2) g c3) in
    (
      r,
      (ground (arith, e1.0, e2.0, e3.0), e3.1 ∙ g),
      ap (λ x. written x.cells) k ∙ w3,
      elim d [
        | inr x ↦ inr x
        | inl (ok, cap, t, u, v) ↦ inl (
          ok,
          cap,
          ap (λ x. x.types) k ∙ ap (λ x. moved x a.types) t,
          ap (λ x. x.lens) k ∙ ap (λ x. moved x a.lens) u,
          ap (λ x. x.cells) k ∙ ap (λ x. moved x a.cells) v,
        )
      ],
    )
