-- ===== src/Sqlite/Rows/Ends.antt =====
-- The loop over the rows as a whole: what the arrays hold where it ends, and what the heap has
-- given.
use dart_db_connector.Base.{
  ℕ, zero, suc, ◌+◌, ◌*◌, ◌<◌, ◌≤◌, ◌≡◌, refl, ap, sym, ◌∙◌, subst, Bool, true, false, Option, some,
  List, [], ◌∷◌, ◌++◌, append-nil, append_assoc, arith, ◌==◌, length, length-append, Bool-cases,
  inl, inr, ◌⊎◌,
}
use dart_db_connector.Heap.{Refused, Heap, Grew}
use dart_db_connector.Sqlite.Results.Cells.{Cell, mapped, flat, AllWide}
use dart_db_connector.Sqlite.Rows.{
  Value, Block, Arrays, no_arrays, written, Loop, next_cap, make_room, grow, store_row, Stepped,
  wild, unallocated, stepped, step_rows,
}
use dart_db_connector.Sqlite.Rows.Stored.{
  CopiesRow, buffers, buffers-append, arrays_of, store_row-lem,
}
use dart_db_connector.Sqlite.Rows.Room.{held, Grown, grow-Grown}

-- The arrays at a capacity in rows.
abbrev pub arrays_at : ℕ → ℕ → List Cell → Arrays
arrays_at ncol zero cells = no_arrays
arrays_at ncol (suc k) cells = arrays_of (suc k * ncol) cells

abbrev pub loop_of : ℕ → ℕ → List (List Cell) → Loop
loop_of ncol cap table = record {
  nrows = length table;
  cap = cap;
  arrays = arrays_at ncol cap (flat table);
}

abbrev pub CopiesRows : (ℕ → Bool) → List (List Value) → List (List Cell) → Type 0
CopiesRows grants [] [] = Unit
CopiesRows grants [] (r ∷ table) = ⊥
CopiesRows grants (vs ∷ rows) [] = ⊥
CopiesRows grants (vs ∷ rows) (r ∷ table) = CopiesRow grants vs r × CopiesRows grants rows table

-- Rows of as many values as there are columns.
abbrev pub Wide : ℕ → List (List Value) → Type 0
Wide ncol [] = Unit
Wide ncol (vs ∷ rows) = (length vs ≡ ncol) × Wide ncol rows

flat-append : (xs ys : List (List Cell)) → flat (xs ++ ys) ≡ flat xs ++ flat ys
flat-append [] ys = refl
flat-append (x ∷ xs) ys = rw (flat-append xs ys) (sym (append_assoc x (flat xs) (flat ys)))

AllWide-append :
    (w : ℕ) (xs ys : List (List Cell)) → AllWide w xs → AllWide w ys → AllWide w (xs ++ ys)
AllWide-append w [] ys a b = b
AllWide-append w (x ∷ xs) ys a b = (a.0, AllWide-append w xs ys a.1 b)

pub length-flat :
    (w : ℕ) (table : List (List Cell)) → AllWide w table → length (flat table) ≡ length table * w
length-flat w [] a = omega arith
length-flat w (x ∷ xs) a = grind (arith, length-append x (flat xs), length-flat w xs a.1, a.0)

-- The cells are where they are at any capacity that has room for them.
pub written-at :
    (ncol cap : ℕ) (table : List (List Cell))
    → length table ≤ cap
    → (written (arrays_at ncol cap (flat table)).types ≡ mapped (λ c. c.kind) (flat table))
      × (written (arrays_at ncol cap (flat table)).lens ≡ mapped (λ c. c.len) (flat table))
      × (written (arrays_at ncol cap (flat table)).cells ≡ mapped (λ c. c.bytes) (flat table))
written-at ncol zero [] h = (refl, refl, refl)
written-at ncol zero (x ∷ xs) h = absurd (omega (arith, h))
written-at ncol (suc k) table h = (refl, refl, refl)

-- There is room for a row more, or a realloc has been refused.
abbrev Roomy : ℕ → ℕ → List (List Cell) → Heap → Bool × Loop × Heap → Type 0
Roomy ncol cap table h (ok, l', h') =
    ((cap' : ℕ) × (ok ≡ true)
      × (suc (length table) ≤ cap')
      × (l' ≡ loop_of ncol cap' table)
      × (l'.arrays ≡ arrays_of (cap' * ncol) (flat table))
      × (h'.grants ≡ h.grants)
      × (h'.allocs + h.frees + held (arrays_at ncol cap (flat table)) ≡ h.allocs + h'.frees + 3))
    ⊎ ((ok ≡ false)
        × Refused h.grants
        × (l'.nrows ≡ length table)
        × (written l'.arrays.cells ≡ mapped (λ c. c.bytes) (flat table))
        × (h'.grants ≡ h.grants)
        × (h'.allocs + h.frees + held (arrays_at ncol cap (flat table))
            ≡ h.allocs + h'.frees + held l'.arrays))

arrays_at-suc :
    (ncol cap : ℕ) (cells : List Cell)
    → 0 < cap
    → arrays_at ncol cap cells ≡ arrays_of (cap * ncol) cells
arrays_at-suc ncol zero cells h = elim h [ ]
arrays_at-suc ncol (suc k) cells h = refl

next_cap-lt : (n cap : ℕ) → n ≤ cap → n < next_cap cap
next_cap-lt n cap h = ground arith

abbrev block : {A : Type 0} → ℕ → List A → Option (Block A)
block n xs = some (record { room = n; filled = xs })

Grown-Roomy :
    (ncol cap : ℕ) (table : List (List Cell)) (h : Heap) (ok : Bool) (l' : Loop) (h' : Heap)
    → length table ≤ cap
    → Grown (next_cap cap * ncol) (loop_of ncol cap table) h (ok, l', h')
    → Roomy ncol cap table h (ok, l', h')
Grown-Roomy ncol cap table h ok l' h' le (r, t, w, d) =
    let (types, lens, cells) = written-at ncol cap table le in
    let lt = next_cap-lt (length table) cap le in
    elim d [
      | inr (e, f) ↦ inr (e, f, r, w ∙ cells, t.1, t.0)
      | inl (e, c, a1, a2, a3) ↦
          let n = next_cap cap * ncol in
          let b1 = a1 ∙ ap (block n) types in
          let b2 = a2 ∙ ap (block n) lens in
          let b3 = a3 ∙ ap (block n) cells in
          let q = arrays_at-suc ncol (next_cap cap) (flat table) (omega (arith, lt)) in
          let arr : l'.arrays ≡ arrays_of (next_cap cap * ncol) (flat table) =
            ground (arith, b1, b2, b3) in
          inl (
            next_cap cap,
            e,
            lt,
            ground (arith, r, c, arr, q),
            arr,
            t.1,
            ground (arith, t.0, b1, b2, b3),
          )
    ]

make_room-Roomy :
    (ncol cap : ℕ) (table : List (List Cell)) (h : Heap)
    → 0 < ncol
    → length table ≤ cap
    → Roomy ncol cap table h (make_room ncol (loop_of ncol cap table) h)
unfolding make_room
make_room-Roomy ncol cap table h pos le = elim (Bool-cases (length table == cap)) [
  | inr e ↦
      let lt : length table < cap = ground arith in
      let q = arrays_at-suc ncol cap (flat table) (omega (arith, lt)) in
      rw e (inl (cap, refl, lt, refl, q, refl, ap (λ a. h.allocs + h.frees + held a) q))
  | inl e ↦
      let (ok, l', h') = grow ncol (loop_of ncol cap table) h in
      rw e
        (Grown-Roomy ncol cap table h ok l' h' le (grow-Grown ncol (loop_of ncol cap table) h pos))
]

CopiesRows-append :
    (grants : ℕ → Bool) (rows : List (List Value)) (table : List (List Cell)) (vs : List Value)
    (cs : List Cell)
    → CopiesRows grants rows table
    → CopiesRow grants vs cs
    → CopiesRows grants (rows ++ vs ∷ []) (table ++ cs ∷ [])
CopiesRows-append grants [] [] vs cs a b = (b, tt)
CopiesRows-append grants [] (t ∷ ts) vs cs a b = elim a [ ]
CopiesRows-append grants (r ∷ rs) [] vs cs a b = elim a [ ]
CopiesRows-append grants (r ∷ rs) (t ∷ ts) vs cs a b =
    (a.0, CopiesRows-append grants rs ts vs cs a.1 b)

-- The table copies the rows, and every block granted since `h0` is a copy or an array.
pub record Holds (h0 : Heap) (ncol : ℕ) (rows : List (List Value)) (table : List (List Cell))
    (l : Loop) (h : Heap) : Type 0 where
  pub wide : AllWide ncol table
  pub copies : CopiesRows h0.grants rows table
  pub count : l.nrows ≡ length table
  pub cells : written l.arrays.cells ≡ mapped (λ c. c.bytes) (flat table)
  pub grants : h.grants ≡ h0.grants
  pub ledger : Grew (buffers (flat table) + held l.arrays) h0 h

-- How the loop ends, after the rows.
abbrev pub Ended : Heap → ℕ → List (List Value) → Stepped → Type 0
Ended h0 ncol rows wild = ⊥
Ended h0 ncol rows (unallocated l h) =
    Refused h0.grants
    × ((seen : List (List Value)) × (table : List (List Cell)) × Holds h0 ncol seen table l h)
Ended h0 ncol rows (stepped l h) =
    (table : List (List Cell)) × (cap' : ℕ) × (length table ≤ cap')
    × (l ≡ loop_of ncol cap' table)
    × Holds h0 ncol rows table l h

-- The loop from a table on.
abbrev from_table : ℕ → List (List Value) → ℕ → List (List Cell) → Heap → Stepped
from_table ncol rows cap' table h = step_rows ncol rows (loop_of ncol cap' table) h

module _ (ncol : ℕ) (vs : List Value) (rows : List (List Value)) (l : Loop) (h : Heap) where
  step_rows-row :
      (l1 : Loop) (h2 : Heap) (a : Arrays)
      → (make_room ncol l h).0 ≡ true
      → (make_room ncol l h).1 ≡ l1
      → store_row (l1.nrows * ncol) 0 vs l1.arrays (make_room ncol l h).2 ≡ some (a, h2)
      → step_rows ncol (vs ∷ rows) l h
        ≡ step_rows ncol rows (record l1 { nrows = suc (l1.nrows); arrays = a }) h2
  unfolding step_rows
  step_rows-row l1 h2 a e q s = ground arith

  step_rows-refused :
      (make_room ncol l h).0 ≡ false
      → step_rows ncol (vs ∷ rows) l h ≡ unallocated (make_room ncol l h).1 (make_room ncol l h).2
  unfolding step_rows
  step_rows-refused e = ground arith

fits : (n cap' ncol : ℕ) → n < cap' → n * ncol + ncol ≤ cap' * ncol
fits n cap' ncol h = grind arith

flat-snoc : (table : List (List Cell)) (cs : List Cell) → flat (table ++ cs ∷ []) ≡ flat table ++ cs
flat-snoc table cs = flat-append table (cs ∷ []) ∙ ap (λ r. flat table ++ r) (append-nil cs)

-- With one row more.
module _ (ncol cap' : ℕ) (table : List (List Cell)) (cs : List Cell)
    (lt : length table < cap') where
  loop_of-snoc :
      record {
        nrows = suc (length table);
        cap = cap';
        arrays = arrays_of (cap' * ncol) (flat table ++ cs);
      }
      ≡ loop_of ncol cap' (table ++ cs ∷ [])
  loop_of-snoc =
      let n : suc (length table) ≡ length (table ++ cs ∷ []) =
        omega (arith, length-append table (cs ∷ [])) in
      let a : arrays_of (cap' * ncol) (flat table ++ cs)
          ≡ arrays_at ncol cap' (flat (table ++ cs ∷ [])) =
        ap (arrays_of (cap' * ncol)) (sym (flat-snoc table cs))
        ∙ sym (arrays_at-suc ncol cap' (flat (table ++ cs ∷ [])) (omega (arith, lt))) in
      λ i. record { nrows = n i; cap = cap'; arrays = a i }

  Holds-snoc :
      (h0 h h1 h2 : Heap) (old : Loop) (seen : List (List Value)) (vs : List Value)
      → Holds h0 ncol seen table old h
      → length cs ≡ ncol
      → CopiesRow h0.grants vs cs
      → h2.grants ≡ h0.grants
      → h1.allocs + h.frees + held old.arrays ≡ h.allocs + h1.frees + 3
      → Grew (buffers cs) h1 h2
      → Holds h0 ncol (seen ++ vs ∷ []) (table ++ cs ∷ []) (loop_of ncol cap' (table ++ cs ∷ [])) h2
  Holds-snoc h0 h h1 h2 old seen vs k w c g t t2 =
      let tab = table ++ cs ∷ [] in
      let q = arrays_at-suc ncol cap' (flat tab) (omega (arith, lt)) in
      let b = ap buffers (flat-snoc table cs) ∙ buffers-append (flat table) cs in
      record {
        wide = AllWide-append ncol table (cs ∷ []) k.wide (w, tt);
        copies = CopiesRows-append h0.grants seen table vs cs k.copies c;
        count = refl;
        cells = ap (λ (a : Arrays). written a.cells) q;
        grants = g;
        ledger = omega (arith, b, ap held q, k.ledger, t, t2);
      }

module _ (h0 : Heap) (ncol : ℕ) (pos : 0 < ncol) where
  pub step_rows-Ended :
      (rows seen : List (List Value)) (cap' : ℕ) (table : List (List Cell)) (h : Heap)
      → Wide ncol rows
      → length table ≤ cap'
      → Holds h0 ncol seen table (loop_of ncol cap' table) h
      → Ended h0 ncol (seen ++ rows) (from_table ncol rows cap' table h)
  step_rows-Ended [] seen cap' table h w le k =
      unfold step_rows in
      (
        table,
        cap',
        le,
        refl,
        subst (λ s. Holds h0 ncol s table (loop_of ncol cap' table) h) (sym (append-nil seen)) k,
      )
  step_rows-Ended (vs ∷ rows) seen cap' table h w le k =
      let l = loop_of ncol cap' table in
      let l1 = (make_room ncol l h).1 in
      let h1 = (make_room ncol l h).2 in
      elim (make_room-Roomy ncol cap' table h pos le) [
        | inr (e, r, n, c, g, t) ↦
            subst (Ended h0 ncol (seen ++ vs ∷ rows)) (sym (step_rows-refused ncol vs rows l h e)) (
              subst Refused k.grants r,
              (
                seen,
                table,
                record {
                  wide = k.wide;
                  copies = k.copies;
                  count = n;
                  cells = c;
                  grants = g ∙ k.grants;
                  ledger = omega (arith, t, k.ledger);
                },
              ),
            )
        | inl (cap2, e, le2, q, arr, g, t) ↦
            let lf = length-flat ncol table k.wide in
            let ft = fits (length table) cap2 ncol le2 in
            let at : length table * ncol + 0 ≡ length (flat table) = omega (arith, lf) in
            let room : length (flat table) + length vs ≤ cap2 * ncol = omega (arith, lf, ft, w.0) in
            let (cs, h2, sr, cp, lc, g2, t2) =
              store_row-lem (length table * ncol) 0 (cap2 * ncol) vs (flat table) h1 at room in
            let aq = arrays_at-suc ncol cap2 (flat table) (omega (arith, le2)) in
            let k2 =
              Holds-snoc ncol cap2 table cs le2 h0 h h1 h2 l seen vs k (lc ∙ w.0)
                (subst (λ gs. CopiesRow gs vs cs) (g ∙ k.grants) cp) (g2 ∙ g ∙ k.grants) t t2 in
            let stepped_row =
              step_rows-row ncol vs rows l h (loop_of ncol cap2 table) h2
                (arrays_of (cap2 * ncol) (flat table ++ cs)) e q
                (subst
                  (λ a.
                    store_row (length table * ncol) 0 vs a h1
                    ≡ some (arrays_of (cap2 * ncol) (flat table ++ cs), h2))
                  (sym aq) sr) in
            let le3 : length (table ++ cs ∷ []) ≤ cap2 =
              omega (arith, le2, length-append table (cs ∷ [])) in
            let rest =
              step_rows-Ended rows (seen ++ vs ∷ []) cap2 (table ++ cs ∷ []) h2 w.1 le3 k2 in
            subst (Ended h0 ncol (seen ++ vs ∷ rows))
              (sym (
                stepped_row
                ∙ ap (λ x. step_rows ncol rows x h2) (loop_of-snoc ncol cap2 table cs le2)))
              (subst (λ s. Ended h0 ncol s (from_table ncol rows cap2 (table ++ cs ∷ []) h2))
                (append_assoc seen (vs ∷ []) rows) rest)
      ]
