-- ===== src/Postgres/Ledger.antt =====
-- No block leaks: what a submission takes from the heap is what the slot owns afterwards, on every
-- branch, and clearing the slot gives it all back.
use dart_db_connector.Base.{
  somes, length-somes, ℕ, ◌+◌, ◌≡◌, refl, ap, ◌∙◌, ℤ, pos, pos_part, Bool, false, Option, none,
  some, List, [], ◌∷◌, ◌++◌, arith, length, length-append, take, Option-cases, inl, inr, append-nil,
  append_assoc, ◌≤◌, length-take,
}
use dart_db_connector.Heap.{
  Heap, Text, Grew, owned_by, malloc, dup_string, dup_string-Grew, dup_string-eq,
  free_strings-frees,
}
use dart_db_connector.Postgres.Conn.{Conn, Payload, empty_payload}
use dart_db_connector.Postgres.Submit.{Outcome, copy_queries, alloc_sql, submit_locked}

abbrev pub owned_sql : Option (List Text) → ℕ
owned_sql none = 0
owned_sql (some ts) = 1 + length ts

-- The values that are not NULL.
abbrev pub count_values : List (Option Text) → ℕ
count_values [] = 0
count_values (v ∷ vs) = owned_by v + count_values vs

abbrev pub owned_values : Option (List (Option Text)) → ℕ
owned_values none = 0
owned_values (some vs) = 1 + count_values vs

-- The heap blocks that the payload owns.
abbrev pub owned : Payload → ℕ
owned p =
    owned_sql p.sql
    + owned_values p.param_values
    + owned_by p.param_types
    + owned_by p.param_lengths
    + owned_by p.param_formats

-- The counters are the lengths of the arrays.
abbrev pub Counts {ℓ} : {A : Type ℓ} → ℤ → Option (List A) → Type 0
Counts n none = Unit
Counts n (some l) = n ≡ pos (length l)

-- An empty slot has the empty payload; a full one counts its arrays.
pub record IsValid (c : Conn) : Type 0 where
  pub cleared : c.slot_filled ≡ false → c.payload ≡ empty_payload
  pub sql_counted : Counts c.sql_count c.sql
  pub values_counted : Counts c.n_params c.param_values

-- The heap grew by what `c'` owns beyond `c`.
abbrev pub Accounts : Conn → Heap → Conn → Heap → Type 0
Accounts c h c' h' = h'.allocs + h.frees + owned c.payload ≡ h.allocs + h'.frees + owned c'.payload

copy_queries-Grew :
    (qs : List (Option Text)) (made : List Text) (h : Heap)
    → let (r, h') = copy_queries qs made h in
      h'.allocs + h.frees + length made
      ≡ h.allocs + h'.frees + (elim r [ none ↦ 0 | some ts ↦ length ts ])
unfolding copy_queries
copy_queries-Grew [] made h = omega arith
copy_queries-Grew (q ∷ qs) made h = elim (Option-cases (dup_string q h).0) [
  | inl e ↦ ground (arith, dup_string-Grew q h, free_strings-frees made (dup_string q h).1)
  | inr (t, e) ↦ ground (
    arith,
    dup_string-Grew q h,
    copy_queries-Grew qs (made ++ t ∷ []) (dup_string q h).1,
    length-append made (t ∷ []),
  )
]

alloc_sql-Grew :
    (qs : List (Option Text)) (h : Heap) → let (r, h') = alloc_sql qs h in Grew (owned_sql r) h h'
unfolding alloc_sql
alloc_sql-Grew qs h = ground (arith, copy_queries-Grew qs [] (malloc h).1)

-- The connection after a call.
abbrev pub after : Conn → Outcome → Conn
after c o = elim o.conn [ none ↦ c | some c' ↦ c' ]

-- A successful copy of the vector holds the statements, none of which was NULL.
pub copy_queries-eq :
    (qs : List (Option Text)) (made : List Text) (h : Heap) (ts : List Text)
    → (copy_queries qs made h).0 ≡ some ts
    → (us : List Text) × (ts ≡ made ++ us) × (qs ≡ somes us)
unfolding copy_queries
copy_queries-eq [] made h ts e = ([], ground (arith, append-nil made), refl)
copy_queries-eq (q ∷ qs) made h ts e = elim (Option-cases (dup_string q h).0) [
  | inl f ↦ ground arith
  | inr (t, f) ↦
      let (us, p, r) = copy_queries-eq qs (made ++ t ∷ []) (dup_string q h).1 ts (ground arith) in
      (t ∷ us, p ∙ append_assoc made (t ∷ []) us, ground (arith, dup_string-eq q h t f))
]

pub alloc_sql-eq :
    (qs : List (Option Text)) (h : Heap) (ts : List Text)
    → (alloc_sql qs h).0 ≡ some ts
    → qs ≡ somes ts
unfolding alloc_sql
alloc_sql-eq qs h ts e =
    let (us, p, r) = copy_queries-eq qs [] (malloc h).1 ts (ground arith) in ground arith

module _ (c : Conn) (is_pipeline is_multi_read : Bool) (queries : List (Option Text))
    (count port_id timeout_ms : ℤ) (h : Heap) (enough : pos_part count ≤ length queries)
    (v : IsValid c) where
  abbrev qs : List (Option Text)
  qs = take (pos_part count) queries

  counted : (ts : List Text) → (alloc_sql qs h).0 ≡ some ts → pos_part count ≡ length ts
  counted ts e = omega (
    arith,
    length-take (pos_part count) queries,
    length-somes ts,
    ap length (alloc_sql-eq qs h ts e),
  )

  abbrev o : Outcome
  o = submit_locked (some c) is_pipeline is_multi_read (some queries) count port_id timeout_ms h

  pub submit_locked-Accounts : Accounts c h (after c o) o.heap
  unfolding submit_locked
  submit_locked-Accounts = ground (arith, alloc_sql-Grew (take (pos_part count) queries) h)

  pub submit_locked-IsValid : IsValid (after c o)
  unfolding submit_locked
  submit_locked-IsValid = elim (Option-cases (alloc_sql qs h).0) [
    | inl e ↦ ground arith
    | inr (ts, e) ↦ ground (arith, counted ts e)
  ]
