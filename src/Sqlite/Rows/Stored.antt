-- ===== src/Sqlite/Rows/Stored.antt =====
-- The arrays of the loop hold the cells of the rows stepped so far, row by row, and no write lies
-- outside of them.
use dart_db_connector.Base.{
  ℕ, suc, ◌+◌, ◌<◌, ◌≤◌, ◌≡◌, refl, ap, ◌∙◌, subst, Bool, Option, none, some, List, [], ◌∷◌, ◌++◌,
  append-nil, append_assoc, arith, length, length-append, Bool-cases, inl, inr, ◌⊎◌,
}
use dart_db_connector.Heap.{Refused, Heap, Text, malloc, Grew, owned_by}
use dart_db_connector.Sqlite.Results.{sqlite_null}
use dart_db_connector.Sqlite.Results.Cells.{Cell, mapped}
use dart_db_connector.Sqlite.Rows.{
  Value, null, integer, real, text, blob, Arrays, put, dup_cell, le_bytes, put_cell, put_copy,
  put_bytes, store_cell, store_row,
}

abbrev pub kind_of : Value → ℕ
kind_of null = sqlite_null
kind_of (integer w) = 1
kind_of (real w) = 2
kind_of (text t) = 3
kind_of (blob t) = 4

abbrev pub content : Value → Option Text
content null = none
content (integer w) = some (le_bytes 8 w)
content (real w) = some (le_bytes 8 w)
content (text t) = some t
content (blob t) = some t

abbrev pub size_of : Value → ℕ
size_of null = 0
size_of (integer w) = 8
size_of (real w) = 8
size_of (text t) = length t
size_of (blob t) = length t

-- The cell has the value's type and length, and its bytes unless the copy was refused.
abbrev pub Copies : (ℕ → Bool) → Value → Cell → Type 0
Copies grants v c =
    (c.kind ≡ kind_of v)
    × (c.len ≡ size_of v)
    × ((c.bytes ≡ content v) ⊎ ((c.bytes ≡ none) × Refused grants))

abbrev pub CopiesRow : (ℕ → Bool) → List Value → List Cell → Type 0
CopiesRow grants [] [] = Unit
CopiesRow grants [] (c ∷ cs) = ⊥
CopiesRow grants (v ∷ vs) [] = ⊥
CopiesRow grants (v ∷ vs) (c ∷ cs) = Copies grants v c × CopiesRow grants vs cs

-- The copies that the cells own.
abbrev pub buffers : List Cell → ℕ
buffers [] = 0
buffers (c ∷ cs) = owned_by c.bytes + buffers cs

-- Arrays with the same room that hold the cells.
abbrev pub arrays_of : ℕ → List Cell → Arrays
arrays_of room cells = record {
  types = some (record { room = room; filled = mapped (λ c. c.kind) cells });
  lens = some (record { room = room; filled = mapped (λ c. c.len) cells });
  cells = some (record { room = room; filled = mapped (λ c. c.bytes) cells });
}

module _ {A B : Type 0} where
  pub length-mapped : (f : A → B) (xs : List A) → length (mapped f xs) ≡ length xs
  length-mapped f [] = refl
  length-mapped f (x ∷ xs) = ap suc (length-mapped f xs)

  pub mapped-append :
      (f : A → B) (xs ys : List A) → mapped f (xs ++ ys) ≡ mapped f xs ++ mapped f ys
  mapped-append f [] ys = refl
  mapped-append f (x ∷ xs) ys = ap (λ l. f x ∷ l) (mapped-append f xs ys)

put-end :
    {A : Type 0} (f : Cell → A) (i room : ℕ) (c : Cell) (cells : List Cell)
    → i ≡ length cells
    → i < room
    → put i (f c) (some (record { room = room; filled = mapped f cells }))
      ≡ some (some (record { room = room; filled = mapped f (cells ++ c ∷ []) }))
unfolding put
put-end f i room c cells e h = ground (arith, length-mapped f cells, mapped-append f cells (c ∷ []))

put_cell-end :
    (i room : ℕ) (c : Cell) (cells : List Cell)
    → i ≡ length cells
    → i < room
    → put_cell i c.kind c.len c.bytes (arrays_of room cells)
      ≡ some (arrays_of room (cells ++ c ∷ []))
put_cell-end i room c cells e h = ground (
  arith,
  put-end (λ c. c.kind) i room c cells e h,
  put-end (λ c. c.bytes) i room c cells e h,
  put-end (λ c. c.len) i room c cells e h,
)

-- What the store of one value leaves: the cells with its copy behind them.
abbrev Stored : Value → ℕ → ℕ → List Cell → Heap → Type 0
Stored v i room cells h =
    (c : Cell) × (h' : Heap) × (store_cell i v (arrays_of room cells) h
      ≡ some (arrays_of room (cells ++ c ∷ []), h'))
    × Copies h.grants v c
    × (h'.grants ≡ h.grants)
    × Grew (owned_by c.bytes) h h'

pub dup_cell-cases :
    (t : Text) (h : Heap)
    → let (d, h') = dup_cell t h in
      ((d ≡ some t) ⊎ ((d ≡ none) × Refused h.grants))
      × (h'.grants ≡ h.grants)
      × Grew (owned_by d) h h'
unfolding dup_cell malloc
dup_cell-cases t h = elim (Bool-cases (h.grants h.calls)) [
  | inl e ↦ rw e (inl refl, refl, omega arith)
  | inr e ↦ rw e (inr (refl, (h.calls, e)), refl, omega arith)
]

module _ (i room : ℕ) (cells : List Cell) (e : i ≡ length cells) (l : i < room) where
  put_copy-end :
      (ty : ℕ) (len : ℕ) (p : Option Text × Heap)
      → let c : Cell = record { kind = ty; len = len; bytes = p.0 } in
        put_copy i ty len p (arrays_of room cells) ≡ some (arrays_of room (cells ++ c ∷ []), p.1)
  put_copy-end ty len (d, h) =
      ground (arith, put_cell-end i room (record { kind = ty; len = len; bytes = d }) cells e l)

  put_bytes-end :
      (ty : ℕ) (t : Text) (h : Heap)
      → put_bytes i ty t (arrays_of room cells) h
        ≡ put_copy i ty (length t) (dup_cell t h) (arrays_of room cells)
  put_bytes-end ty [] h = refl
  put_bytes-end ty (b ∷ t) h = ground arith

  copy-Stored :
      (v : Value) (t : Text) (h : Heap)
      → content v ≡ some t
      → store_cell i v (arrays_of room cells) h
        ≡ put_copy i (kind_of v) (size_of v) (dup_cell t h) (arrays_of room cells)
      → Stored v i room cells h
  copy-Stored v t h q s =
      let (d, g, b) = dup_cell-cases t h in
      let c : Cell = record { kind = kind_of v; len = size_of v; bytes = (dup_cell t h).0 } in
      (
        c,
        (dup_cell t h).1,
        s ∙ put_copy-end (kind_of v) (size_of v) (dup_cell t h),
        (refl, refl, rw q d),
        g,
        b,
      )

  store_cell-Stored : (v : Value) (h : Heap) → Stored v i room cells h
  unfolding store_cell
  store_cell-Stored null h =
      let c : Cell = record { kind = sqlite_null; len = 0; bytes = none } in
      (c, h, put_copy-end sqlite_null 0 (none, h), (refl, refl, inl refl), refl, omega arith)
  store_cell-Stored (integer w) h = copy-Stored (integer w) (le_bytes 8 w) h refl refl
  store_cell-Stored (real w) h = copy-Stored (real w) (le_bytes 8 w) h refl refl
  store_cell-Stored (text t) h = copy-Stored (text t) t h refl (put_bytes-end 3 t h)
  store_cell-Stored (blob t) h = copy-Stored (blob t) t h refl (put_bytes-end 4 t h)

pub buffers-append : (xs ys : List Cell) → buffers (xs ++ ys) ≡ buffers xs + buffers ys
buffers-append [] ys = omega arith
buffers-append (x ∷ xs) ys = omega (arith, buffers-append xs ys)

-- The loop over the columns stores a copy of each value, in order.
pub store_row-lem :
    (base col room : ℕ) (vs : List Value) (cells : List Cell) (h : Heap)
    → base + col ≡ length cells
    → length cells + length vs ≤ room
    → (cs : List Cell) × (h' : Heap) × (store_row base col vs (arrays_of room cells) h
        ≡ some (arrays_of room (cells ++ cs), h'))
      × CopiesRow h.grants vs cs
      × (length cs ≡ length vs)
      × (h'.grants ≡ h.grants)
      × Grew (buffers cs) h h'
unfolding store_row
store_row-lem base col room [] cells h e l =
    ([], h, rw append-nil refl, tt, refl, refl, omega arith)
store_row-lem base col room (v ∷ vs) cells h e l =
    let room_left : base + col < room = omega (arith, l, e) in
    let (c, h1, q, k, g, b) = store_cell-Stored (base + col) room cells e room_left v h in
    let n1 = length-append cells (c ∷ []) in
    let e' : base + suc col ≡ length (cells ++ c ∷ []) = omega (arith, e, n1) in
    let l' : length (cells ++ c ∷ []) + length vs ≤ room = omega (arith, l, n1) in
    let (cs, h2, q', k', n, g', b') =
      store_row-lem base (suc col) room vs (cells ++ c ∷ []) h1 e' l' in
    (
      c ∷ cs,
      h2,
      ground (arith, q, q', append_assoc cells (c ∷ []) cs),
      (k, subst (λ gs. CopiesRow gs vs cs) g k'),
      ap suc n,
      g' ∙ g,
      omega (arith, b, b'),
    )
