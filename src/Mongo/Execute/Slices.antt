-- ===== src/Mongo/Execute/Slices.antt =====
-- The slicing of a bulk insert and the documents that it was concatenated from.
use dart_db_connector.Base.{
  ℕ, zero, suc, ◌+◌, ◌^◌, ◌<◌, ◌≤◌, ◌≡◌, refl, sym, ap, subst, ◌∙◌, ◌↔◌, Option-cases,
  take-append-drop, length-take, length-drop, Bool, true, false, some, List, [], ◌∷◌, ◌++◌, arith,
  length, length-append, take, drop, inl, inr, ltb,
}
use dart_db_connector.Heap.{Text}
use dart_db_connector.Mongo.Execute.{
  prefix_of, Sliced, undefined, malformed, sliced, with_slice, too_large, slice_at, slice_docs,
}

-- The documents one after the other.
abbrev pub blob : List Text → Text
blob [] = []
blob (d ∷ ds) = d ++ blob ds

-- A document that bson_init_static takes, of five bytes at least, which starts with its length.
abbrev pub IsDocument : (Text → Bool) → Text → Type 0
IsDocument init d = (prefix_of d ≡ some (length d)) × (5 ≤ length d) × (init d ≡ true)

abbrev pub AllDocuments : (Text → Bool) → List Text → Type 0
AllDocuments init [] = Unit
AllDocuments init (d ∷ ds) = IsDocument init d × AllDocuments init ds

prefix_of-append : (d rest : Text) → 4 ≤ length d → prefix_of (d ++ rest) ≡ prefix_of d
unfolding prefix_of
prefix_of-append [] rest l = elim l [ ]
prefix_of-append (a ∷ []) rest l = ground arith
prefix_of-append (a ∷ b ∷ []) rest l = ground arith
prefix_of-append (a ∷ b ∷ c ∷ []) rest l = ground arith
prefix_of-append (a ∷ b ∷ c ∷ d ∷ t) rest l = refl

take-append : (d rest : Text) → take (length d) (d ++ rest) ≡ d
take-append [] rest = refl
take-append (x ∷ d) rest = ap (λ l. x ∷ l) (take-append d rest)

drop-append : (d rest : Text) → drop (length d) (d ++ rest) ≡ rest
drop-append [] rest = refl
drop-append (x ∷ d) rest = drop-append d rest

no_bytes : (t : Text) → length t ≡ 0 → t ≡ []
no_bytes [] e = refl
no_bytes (c ∷ t) e = ground arith

with_slice-sliced :
    (d : Text) (next : Sliced) (ds : List Text)
    → with_slice d next ≡ sliced ds
    → (es : List Text) × (next ≡ sliced es) × (ds ≡ d ∷ es)
with_slice-sliced d undefined ds e = cc
with_slice-sliced d malformed ds e = cc
with_slice-sliced d (sliced es) ds e = (es, refl, cc)

not_ltb : (a b : ℕ) → b ≤ a → ltb a b ≡ false
not_ltb a b l = ground arith

not_too_large : (n : ℕ) → n < 2 ^ 31 → too_large n ≡ false
not_too_large n l = ground arith

module _ (init : Text → Bool) where
  slice_at-document :
      (d rest : Text) (off total : ℕ) (next : Sliced)
      → IsDocument init d
      → off + length d ≤ total
      → total < 2 ^ 31
      → slice_at init off total (d ++ rest) (length d) next ≡ with_slice d next
  slice_at-document d rest off total next (p, l, i) le lt = ground (arith, take-append d rest)

  slice_docs-all :
      (ds : List Text) (off total : ℕ)
      → AllDocuments init ds
      → off + length (blob ds) ≡ total
      → total < 2 ^ 31
      → slice_docs init (length ds) off total (blob ds) ≡ sliced ds
  unfolding slice_docs
  slice_docs-all [] off total a e lt = ground arith
  slice_docs-all (d ∷ ds) off total ((p, l, i), a) e lt =
      let k = length-append d (blob ds) in
      let q : prefix_of (d ++ blob ds) ≡ some (length d) =
        prefix_of-append d (blob ds) (omega (arith, l)) ∙ p in
      let r = slice_docs-all ds (off + length d) total a (omega (arith, e, k)) lt in
      let small : too_large (off + 4) ≡ false =
        not_too_large (off + 4) (omega (arith, l, e, k, lt)) in
      let inside : ltb total (off + 4) ≡ false = not_ltb total (off + 4) (omega (arith, l, e, k)) in
      rw (small, inside, q, drop-append d (blob ds), r)
        (slice_at-document d (blob ds) off total (sliced ds) (p, l, i) (omega (arith, e, k)) lt)

  -- What a round leads to, if it gives documents.
  slice_at-sliced :
      (off total len : ℕ) (rest : Text) (next : Sliced) (ds : List Text)
      → slice_at init off total rest len next ≡ sliced ds
      → (off + len ≤ total)
        × (5 ≤ len)
        × (init (take len rest) ≡ true)
        × ((es : List Text) × (next ≡ sliced es) × (ds ≡ take len rest ∷ es))
  slice_at-sliced off total len rest next ds e = (
    ground arith,
    ground arith,
    ground arith,
    with_slice-sliced (take len rest) next ds (ground arith),
  )

  slice_docs-only :
      (n off total : ℕ) (rest : Text) (ds : List Text)
      → off + length rest ≡ total
      → slice_docs init n off total rest ≡ sliced ds
      → (blob ds ≡ rest) × (length ds ≡ n) × AllDocuments init ds
  unfolding slice_docs
  slice_docs-only zero off total rest ds k e =
      let empty : rest ≡ [] = no_bytes rest (ground arith) in
      let none : ds ≡ [] = ground arith in rw (none, empty) (refl, refl, tt)
  slice_docs-only (suc n) off total rest ds k e = elim (Option-cases (prefix_of rest)) [
    | inl p ↦ ground arith
    | inr (len, p) ↦
        let next = slice_docs init n (off + len) total (drop len rest) in
        let (fits, five, ok, (es, q, r)) =
          slice_at-sliced off total len rest next ds (ground arith) in
        let (b, l, a) =
          slice_docs-only n (off + len) total (drop len rest) es
            (omega (arith, k, fits, length-drop len rest)) q in
        let whole = take-append-drop len rest in
        let long : length (take len rest) ≡ len = omega (arith, length-take len rest, k, fits) in
        let same : prefix_of (take len rest) ≡ some len =
          sym (prefix_of-append (take len rest) (drop len rest) (omega (arith, long, five)))
          ∙ ap prefix_of whole
          ∙ p in
        rw r (
          ap (λ t. take len rest ++ t) b ∙ whole,
          ap suc l,
          ((same ∙ ap some (sym long), omega (arith, long, five), ok), a),
        )
  ]

-- Slicing a blob of fewer than 2^31 bytes into a number of documents gives documents exactly where
-- the blob is those documents, one after the other, as many as asked for, each of five bytes at
-- least, which libbson takes and which starts with its length.
pub slice_docs-blob :
    (init : Text → Bool) (n : ℕ) (b : Text) (ds : List Text)
    → length b < 2 ^ 31
    → (slice_docs init n 0 (length b) b ≡ sliced ds)
      ↔ ((blob ds ≡ b) × (length ds ≡ n) × AllDocuments init ds)
slice_docs-blob init n b ds lt = (
  λ e. slice_docs-only init n 0 (length b) b ds (omega arith) e,
  λ (q, l, a).
      subst (λ t. slice_docs init n 0 (length t) t ≡ sliced ds) q
        (subst (λ k. slice_docs init k 0 (length (blob ds)) (blob ds) ≡ sliced ds) l
          (slice_docs-all init ds 0 (length (blob ds)) a (omega arith)
            (omega (arith, lt, ap length q)))),
)
