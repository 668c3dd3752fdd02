-- ===== src/Postgres/Chain/Fifo.antt =====
-- The chain of nodes is a first-in first-out queue, and no node leaks.
use dart_db_connector.Base.{
  ℕ, zero, suc, ◌+◌, ◌≤◌, ◌<◌, ◌≡◌, refl, ap, true, Option, none, some, List, [], ◌∷◌, ◌++◌, arith,
  length, Option-cases, inl, inr, ◌∙◌, sym, false, ◌⊎◌, Bool-cases,
}
use dart_db_connector.Heap.{Heap, Grew}
use dart_db_connector.Postgres.Chain.{
  Node, Chain, update, node, written, link, chain_append, free_nodes, free_result_chain, chain_poll,
}

-- An entry of the queue: the address of its node, and its result.
abbrev pub Entry : Type 0
Entry = ℕ × ℕ

abbrev pub head_of : List Entry → Option ℕ
head_of [] = none
head_of ((a, r) ∷ l) = some a

abbrev pub last_of : List Entry → Option ℕ
last_of [] = none
last_of ((a, r) ∷ []) = some a
last_of ((a, r) ∷ (b, s) ∷ l) = last_of ((b, s) ∷ l)

abbrev pub results : List Entry → List ℕ
results [] = []
results ((a, r) ∷ l) = r ∷ results l

-- The nodes of the entries, linked in order, at rising addresses from `lo` and below `fresh`.
abbrev pub Linked : (ℕ → Option Node) → ℕ → ℕ → List Entry → Type 0
Linked cell fresh lo [] = lo ≤ fresh
Linked cell fresh lo ((a, r) ∷ l) =
    (lo ≤ a) × (cell a ≡ some (node r (head_of l))) × Linked cell fresh (suc a) l

-- The chain holds the entries, in order.
pub record Holds (c : Chain) (l : List Entry) : Type 0 where
  pub starts : c.head ≡ head_of l
  pub ends : c.tail ≡ last_of l
  pub linked : Linked c.cell c.fresh 0 l

Linked-le :
    (cell : ℕ → Option Node) (fresh lo : ℕ) (l : List Entry)
    → Linked cell fresh lo l
    → lo + length l ≤ fresh
Linked-le cell fresh lo [] h = omega arith
Linked-le cell fresh lo ((a, r) ∷ l) h = omega (arith, Linked-le cell fresh (suc a) l h.2)

-- A write below the first address changes nothing.
Linked-update :
    (cell : ℕ → Option Node) (fresh lo a : ℕ) (v : Option Node) (l : List Entry)
    → a < lo
    → Linked cell fresh lo l
    → Linked (update cell a v) fresh lo l
Linked-update cell fresh lo a v [] lt h = h
Linked-update cell fresh lo a v ((b, r) ∷ l) lt h =
    (h.0, ground arith, Linked-update cell fresh (suc b) a v l (omega arith) h.2)

abbrev appended : (ℕ → Option Node) → ℕ → ℕ → List Entry → ℕ → Option Node
appended cell fresh r l = written cell fresh r (last_of l)

last-lt :
    (cell : ℕ → Option Node) (fresh lo t : ℕ) (l : List Entry)
    → Linked cell fresh lo l
    → last_of l ≡ some t
    → (lo ≤ t) × (t < fresh)
last-lt cell fresh lo t [] h e = ground arith
last-lt cell fresh lo t ((a, r) ∷ []) h e = ground arith
last-lt cell fresh lo t ((a, r) ∷ (b, s) ∷ l) h e =
    ground (arith, last-lt cell fresh (suc a) t ((b, s) ∷ l) h.2)

-- An address below every entry keeps its node.
appended_below :
    (cell : ℕ → Option Node) (fresh lo r a : ℕ) (l : List Entry)
    → Linked cell fresh lo l
    → a < lo
    → a < fresh
    → appended cell fresh r l a ≡ cell a
appended_below cell fresh lo r a l h p q = elim (Option-cases (last_of l)) [
  | inl e ↦ rw (e, appended) (ground arith)
  | inr (t, e) ↦ rw (e, appended) (ground (arith, last-lt cell fresh lo t l h e))
]

Linked-append :
    (cell : ℕ → Option Node) (fresh lo r : ℕ) (l : List Entry)
    → Linked cell fresh lo l
    → Linked (appended cell fresh r l) (suc fresh) lo (l ++ (fresh, r) ∷ [])
Linked-append cell fresh lo r [] h = (h, ground arith, omega arith)
Linked-append cell fresh lo r ((a, x) ∷ []) h =
    (h.0, ground arith, (h.2, ground arith, omega arith))
Linked-append cell fresh lo r ((a, x) ∷ (b, y) ∷ l) h = (
  h.0,
  appended_below cell fresh (suc a) r a ((b, y) ∷ l) h.2 (omega arith)
        (omega (arith, Linked-le cell fresh (suc a) ((b, y) ∷ l) h.2))
      ∙ h.1,
  Linked-append cell fresh (suc a) r ((b, y) ∷ l) h.2,
)

last-append : (a r : ℕ) (l : List Entry) → last_of (l ++ (a, r) ∷ []) ≡ some a
last-append a r [] = refl
last-append a r ((b, s) ∷ []) = refl
last-append a r ((b, s) ∷ (c, t) ∷ l) = last-append a r ((c, t) ∷ l)

last_of-none : (l : List Entry) → last_of l ≡ none → l ≡ []
last_of-none [] e = refl
last_of-none ((a, r) ∷ []) e = cc
last_of-none ((a, r) ∷ (b, s) ∷ l) e = ground (arith, last_of-none ((b, s) ∷ l))

link-starts :
    (c : Chain) (r : ℕ) (l : List Entry)
    → Holds c l
    → (link c r).head ≡ head_of (l ++ (c.fresh, r) ∷ [])
link-starts c r [] h = ground arith
link-starts c r ((a, x) ∷ l) h = elim (Option-cases (last_of ((a, x) ∷ l))) [
  | inl e ↦ cc (last_of-none ((a, x) ∷ l) e)
  | inr (t, e) ↦ ground arith
]

link-Holds :
    (c : Chain) (r : ℕ) (l : List Entry) → Holds c l → Holds (link c r) (l ++ (c.fresh, r) ∷ [])
link-Holds c r l h = record {
  starts = link-starts c r l h;
  ends = sym (last-append c.fresh r l);
  linked = rw h.ends (Linked-append c.cell c.fresh 0 r l h.linked);
}

-- Appending to a well-formed chain puts the result at the end of the queue and takes one block;
-- where malloc fails it reports so, and the chain is as it was.
pub chain_append-fifo :
    (c : Chain) (r : ℕ) (h : Heap) (l : List Entry)
    → Holds c l
    → let (ok, c', h') = chain_append c r h in
      ((ok ≡ true) × Holds c' (l ++ (c.fresh, r) ∷ []) × Grew 1 h h')
      ⊎ ((ok ≡ false) × (c' ≡ c) × Grew 0 h h')
unfolding chain_append
chain_append-fifo c r h l v = elim (Bool-cases (h.grants h.calls)) [
  | inl e ↦ rw e (inl (refl, link-Holds c r l v, omega arith))
  | inr e ↦ rw e (inr (refl, refl, omega arith))
]

Linked-mono :
    (cell : ℕ → Option Node) (fresh lo lo' : ℕ) (l : List Entry)
    → lo' ≤ lo
    → Linked cell fresh lo l
    → Linked cell fresh lo' l
Linked-mono cell fresh lo lo' [] le h = omega arith
Linked-mono cell fresh lo lo' ((a, r) ∷ l) le h = (omega arith, h.1, h.2)

Linked-tail :
    (cell : ℕ → Option Node) (fresh lo a r : ℕ) (l : List Entry)
    → Linked cell fresh lo ((a, r) ∷ l)
    → (lo' : ℕ) → lo' ≤ suc a
    → Linked (update cell a none) fresh lo' l
Linked-tail cell fresh lo a r l h lo' le =
    Linked-mono _ fresh (suc a) lo' l le
      (Linked-update cell fresh (suc a) a none l (omega arith) h.2)

-- Polling a well-formed chain that is not empty takes its oldest result, keeps the others in order,
-- and gives one node back.
pub chain_poll-fifo :
    (c : Chain) (h : Heap) (a r : ℕ) (l : List Entry)
    → Holds c ((a, r) ∷ l)
    → let (got, c', h') = chain_poll c h in
      (got ≡ some r) × Holds c' l × (h'.frees ≡ h.frees + 1) × (h'.allocs ≡ h.allocs)
unfolding chain_poll
chain_poll-fifo c h a r [] v =
    rw (v.starts, v.linked.1)
      (
        refl,
        record {
          starts = refl;
          ends = refl;
          linked = Linked-tail c.cell c.fresh 0 a r [] v.linked 0 (omega arith);
        },
        refl,
        refl,
      )
chain_poll-fifo c h a r ((b, s) ∷ l) v =
    rw (v.starts, v.linked.1)
      (
        refl,
        record {
          starts = refl;
          ends = v.ends;
          linked = Linked-tail c.cell c.fresh 0 a r ((b, s) ∷ l) v.linked 0 (omega arith);
        },
        refl,
        refl,
      )

-- An empty chain gives nothing and stays as it is.
pub chain_poll-empty : (c : Chain) (h : Heap) → Holds c [] → chain_poll c h ≡ (none, c, h)
unfolding chain_poll
chain_poll-empty c h v = rw v.starts

free_nodes-all :
    (fuel : ℕ) (cell : ℕ → Option Node) (fresh lo : ℕ) (h : Heap) (l : List Entry)
    → Linked cell fresh lo l
    → length l ≤ fuel
    → let (cleared, cell', h') = free_nodes fuel (head_of l) cell h in
      (cleared ≡ results l) × (h'.frees ≡ h.frees + length l) × (h'.allocs ≡ h.allocs)
unfolding free_nodes
free_nodes-all zero cell fresh lo h [] v f = (refl, omega arith, refl)
free_nodes-all zero cell fresh lo h (e ∷ l) v f = absurd (omega arith)
free_nodes-all (suc fuel) cell fresh lo h [] v f = (refl, omega arith, refl)
free_nodes-all (suc fuel) cell fresh lo h ((a, r) ∷ l) v f =
    let (cs, fs, al) =
      free_nodes-all fuel (update cell a none) fresh (suc a) (record h { frees = h.frees + 1 }) l
        (Linked-tail cell fresh lo a r l v (suc a) (omega arith)) (omega arith) in
    rw v.1 (ap (λ xs. r ∷ xs) cs, omega arith, al)

-- Freeing a well-formed chain clears each result once, in order, gives every node back and leaves
-- the chain empty; the walk does not stop early.
pub free_result_chain-all :
    (c : Chain) (h : Heap) (l : List Entry)
    → Holds c l
    → let (cleared, c', h') = free_result_chain c h in
      (cleared ≡ results l) × Holds c' [] × (h'.frees ≡ h.frees + length l) × (h'.allocs ≡ h.allocs)
unfolding free_result_chain
free_result_chain-all c h l v =
    let (cs, fs, al) =
      free_nodes-all c.fresh c.cell c.fresh 0 h l v.linked
        (omega (arith, Linked-le c.cell c.fresh 0 l v.linked)) in
    rw v.starts (cs, record { starts = refl; ends = refl; linked = omega arith }, fs, al)
