-- ===== src/Heap.antt =====
-- The C heap as a ledger: malloc, calloc and free, and the string copies that every file of
-- packages/dart_db_connector/native/c/src/ makes with them. Whether a request is granted is the
-- environment's answer, by the number of the request; what a block holds stays with its owner.
use dart_db_connector.Base.{
  ◌⊎◌, inl, inr, Bool-cases, refl, ℕ, ◌+◌, ◌≡◌, Bool, true, false, Option, none, some, List, [],
  ◌∷◌, arith, if◌then◌else◌, length,
}

pub record Heap : Type 0 where
  pub grants : ℕ → Bool  -- the answer to request number n
  pub calls : ℕ  -- requests made
  pub allocs : ℕ  -- blocks granted
  pub frees : ℕ  -- blocks given back

-- Some request is refused.
abbrev pub Refused : (ℕ → Bool) → Type 0
Refused grants = (n : ℕ) × (grants n ≡ false)

-- The bytes of a C string before its NUL.
abbrev pub Text : Type 0
Text = List ℕ

-- malloc or calloc of one block: whether the pointer is not NULL.
unfoldable pub malloc : Heap → Bool × Heap
malloc h =
    if h.grants h.calls
    then (true, record h { calls = h.calls + 1; allocs = h.allocs + 1 })
    else (false, record h { calls = h.calls + 1 })

-- `free(p)`: nothing for NULL.
unfoldable pub free {ℓ} : {A : Type ℓ} → Option A → Heap → Heap
free none h = h
free (some a) h = record h { frees = h.frees + 1 }

-- realloc of a pointer that is NULL, or live: whether the answer is not NULL. Where it is, a live
-- block has been given back.
unfoldable pub realloc {ℓ} : {A : Type ℓ} → Option A → Heap → Bool × Heap
unfolding malloc free
realloc old h = let (ok, h') = malloc h in if ok then (true, free old h') else (false, h')

-- `dup_string` of native_pool.c.
unfoldable pub dup_string : Option Text → Heap → Option Text × Heap
unfolding malloc
dup_string none h = (none, h)
dup_string (some s) h = let (ok, h') = malloc h in if ok then (some s, h') else (none, h')

-- The loops `for (j = 0; j < i; j++) free(copies[j])`.
unfoldable pub free_strings : List Text → Heap → Heap
free_strings [] h = h
free_strings (t ∷ ts) h = free_strings ts (record h { frees = h.frees + 1 })

-- The blocks that are live beyond `h`: what `h'` has granted and not taken back since.
abbrev pub Grew : ℕ → Heap → Heap → Type 0
Grew n h h' = h'.allocs + h.frees ≡ h.allocs + h'.frees + n

-- The heap took back `n` blocks more than it granted.
abbrev pub Gave : ℕ → Heap → Heap → Type 0
Gave n h h' = h'.allocs + h.frees + n ≡ h.allocs + h'.frees

abbrev pub owned_by {ℓ} : {A : Type ℓ} → Option A → ℕ
owned_by none = 0
owned_by (some a) = 1

abbrev pub owned_all : List (Option Text) → ℕ
owned_all [] = 0
owned_all (p ∷ ps) = owned_by p + owned_all ps

pub dup_string-Grew :
    (s : Option Text) (h : Heap) → let (c, h') = dup_string s h in Grew (owned_by c) h h'
unfolding dup_string
dup_string-Grew none h = ground arith
dup_string-Grew (some s) h = ground arith

pub dup_string-eq :
    (s : Option Text) (h : Heap) (t : Text) → (dup_string s h).0 ≡ some t → s ≡ some t
unfolding dup_string
dup_string-eq none h t e = ground arith
dup_string-eq (some s) h t e = ground arith

pub free_strings-frees :
    (ts : List Text) (h : Heap)
    → ((free_strings ts h).frees ≡ h.frees + length ts) × ((free_strings ts h).allocs ≡ h.allocs)
unfolding free_strings
free_strings-frees [] h = omega arith
free_strings-frees (t ∷ ts) h = omega (
  arith,
  (free_strings-frees ts (record h { frees = h.frees + 1 })).0,
  (free_strings-frees ts (record h { frees = h.frees + 1 })).1,
)

pub malloc-cases :
    (h : Heap)
    → (((malloc h).0 ≡ true) × Grew 1 h (malloc h).1)
      ⊎ (((malloc h).0 ≡ false) × Grew 0 h (malloc h).1)
unfolding malloc
malloc-cases h = elim (Bool-cases (h.grants h.calls)) [
  | inl e ↦ rw e (inl (refl, omega arith))
  | inr e ↦ rw e (inr (refl, omega arith))
]

pub malloc-grants : (h : Heap) → (malloc h).1.grants ≡ h.grants
unfolding malloc
malloc-grants h = ground arith

pub malloc-refused : (h : Heap) → (malloc h).0 ≡ false → h.grants h.calls ≡ false
unfolding malloc
malloc-refused h e = ground arith

pub free-Gave : {A : Type 0} (p : Option A) (h : Heap) → Gave (owned_by p) h (free p h)
unfolding free
free-Gave none h = omega arith
free-Gave (some a) h = omega arith
