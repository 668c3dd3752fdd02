-- ===== src/Postgres/Pool/Polling.antt =====
-- Polling drains a multi-read's chain in order, and a release drops what is left of it.
use mathlib.Core.Path.{subst}
use dart_db_connector.Base.{
  somes, ℕ, zero, suc, ◌+◌, ◌≡◌, ◌≢◌, refl, sym, ap, ◌∙◌, false, Option, none, some, List, [], ◌∷◌,
  arith, length, get_elem?,
}
use dart_db_connector.Heap.{Heap}
use dart_db_connector.FreeList.{release}
use dart_db_connector.FreeList.Scan.{is_out, give_back-out, give_back-others, give_back-elem}
use dart_db_connector.Postgres.Chain.{Chain, chain_poll, free_result_chain}
use dart_db_connector.Postgres.Chain.Fifo.{
  Entry, Holds, results, chain_poll-fifo, free_result_chain-all,
}
use dart_db_connector.Postgres.Conn.{Conn}
use dart_db_connector.Postgres.Pool.{
  NativePool, poll_result, pool_release, drop_chain, conn_lendable,
}

-- Polling `n` times while PQgetResult has nothing to give: what was got, and what is left.
unfoldable pub poll_times : ℕ → Conn → Heap → List (Option ℕ) × Option Conn × Heap
poll_times zero c h = ([], some c, h)
poll_times (suc n) c h =
    let (r, c', h') = poll_result (some c) none h in
    elim c' [
      | none ↦ (r ∷ [], none, h')
      | some d ↦ let (rs, e, h'') = poll_times n d h' in (r ∷ rs, e, h'')
    ]

-- One poll takes the oldest result.
poll_result-oldest :
    (c : Conn) (g : Option ℕ) (h : Heap) (pg a r : ℕ) (l : List Entry)
    → c.pg ≡ some pg
    → Holds c.chain ((a, r) ∷ l)
    → (d : Chain) × (h' : Heap) × (poll_result (some c) g h
        ≡ (some r, some (record c { chain = d }), h'))
      × Holds d l
      × (h'.frees ≡ h.frees + 1)
      × (h'.allocs ≡ h.allocs)
unfolding poll_result
poll_result-oldest c g h pg a r l p v =
    let k = chain_poll c.chain h in
    let (e, w, f, m) = chain_poll-fifo c.chain h a r l v in
    (k.1, k.2, ground (arith, e, v.starts), w, f, m)

poll_times-step :
    (n : ℕ) (c d : Conn) (h h' : Heap) (r : Option ℕ)
    → poll_result (some c) none h ≡ (r, some d, h')
    → poll_times (suc n) c h
      ≡ (r ∷ (poll_times n d h').0, (poll_times n d h').1, (poll_times n d h').2)
unfolding poll_times
poll_times-step n c d h h' r e = ground (arith, e)

-- On an open connection whose well-formed chain holds some results, polling as often as there are
-- results returns all of them, in order, leaves the chain empty and the rest of the connection as
-- it was, and gives every node back.
pub poll_times-all :
    (l : List Entry) (c : Conn) (h : Heap) (pg : ℕ)
    → c.pg ≡ some pg
    → Holds c.chain l
    → let (got, c', h') = poll_times (length l) c h in
      (got ≡ somes (results l))
      × ((d : Chain) × (c' ≡ some (record c { chain = d })) × Holds d [])
      × (h'.frees ≡ h.frees + length l)
      × (h'.allocs ≡ h.allocs)
poll_times-all [] c h pg p v = unfold poll_times in (refl, (c.chain, refl, v), omega arith, refl)
poll_times-all ((a, r) ∷ l) c h pg p v =
    let (d, h', e, w, f, m) = poll_result-oldest c none h pg a r l p v in
    let (g, (d', q, z), f', m') = poll_times-all l (record c { chain = d }) h' pg p w in
    rw (poll_times-step (length l) c (record c { chain = d }) h h' (some r) e)
      (ap (λ xs. some r ∷ xs) g, (d', q, z), omega (arith, f, f'), m' ∙ m)

-- Dropping the chain of connection `c`, at index `i`: its results are cleared and its nodes given
-- back, its chain is empty, and no other connection changes.
abbrev pub Dropped : List Conn → ℕ → Heap → Conn → List Entry → List ℕ × List Conn × Heap → Type 0
Dropped cs i h c l (cleared, ds, h') =
    (cleared ≡ results l)
    × (h'.frees ≡ h.frees + length l)
    × (h'.allocs ≡ h.allocs)
    × ((d : Chain) × (get_elem? ds i ≡ some (record c { chain = d })) × Holds d [])
    × ((j : ℕ) → j ≢ i → get_elem? ds j ≡ get_elem? cs j)

Dropped-head :
    (c : Conn) (cs : List Conn) (h : Heap) (l : List Entry)
    → Holds c.chain l
    → Dropped (c ∷ cs) 0 h c l (drop_chain (c ∷ cs) 0 h)
unfolding drop_chain
Dropped-head c cs h l v =
    let (r, w, f, m) = free_result_chain-all c.chain h l v in
    (r, f, m, ((free_result_chain c.chain h).1, refl, w), others)
  where
    others : (j : ℕ) → j ≢ 0 → get_elem? (drop_chain (c ∷ cs) 0 h).1 j ≡ get_elem? (c ∷ cs) j
    others zero n = absurd (n refl)
    others (suc j) n = refl

Dropped-tail :
    (b c : Conn) (cs : List Conn) (i : ℕ) (h : Heap) (l : List Entry)
    → Dropped cs i h c l (drop_chain cs i h)
    → Dropped (b ∷ cs) (suc i) h c l (drop_chain (b ∷ cs) (suc i) h)
unfolding drop_chain
Dropped-tail b c cs i h l (r, f, m, d, o) = (r, f, m, d, others)
  where
    others :
        (j : ℕ) → j ≢ suc i → get_elem? (drop_chain (b ∷ cs) (suc i) h).1 j ≡ get_elem? (b ∷ cs) j
    others zero n = refl
    others (suc j) n = o j (λ k. n (ap suc k))

drop_chain-Dropped :
    (cs : List Conn) (i : ℕ) (h : Heap) (c : Conn) (l : List Entry)
    → get_elem? cs i ≡ some c
    → Holds c.chain l
    → Dropped cs i h c l (drop_chain cs i h)
drop_chain-Dropped [] i h c l e v = cc
drop_chain-Dropped (b ∷ cs) zero h c l e v =
    let q : b ≡ c = cc in
    subst (λ x. Dropped (b ∷ cs) 0 h x l (drop_chain (b ∷ cs) 0 h)) q
      (Dropped-head b cs h l (subst (λ x. Holds x.chain l) (sym q) v))
drop_chain-Dropped (b ∷ cs) (suc i) h c l e v =
    Dropped-tail b c cs i h l (drop_chain-Dropped cs i h c l e v)

-- Releasing a connection of the pool whose chain is well-formed clears what the client did not
-- drain, in order, gives the nodes back, makes the connection free with an empty chain, and leaves
-- the other connections as they are.
pub pool_release-drops :
    (p : NativePool) (i : ℕ) (h : Heap) (c : Conn) (l : List Entry)
    → get_elem? p.free_list.conns i ≡ some c
    → Holds c.chain l
    → let (cleared, q, h') = pool_release (some p) (some i) h in
      (cleared ≡ results l)
      × (h'.frees ≡ h.frees + length l)
      × (h'.allocs ≡ h.allocs)
      × ((p' : NativePool) × (q ≡ some p')
          × (is_out p'.free_list.conns i ≡ false)
          × ((d : Chain) × (get_elem? p'.free_list.conns i
                ≡ some (record c { chain = d; in_use = false }))
              × Holds d [])
          × ((j : ℕ) → j ≢ i → get_elem? p'.free_list.conns j ≡ get_elem? p.free_list.conns j))
unfolding pool_release release
pool_release-drops p i h c l e v =
    let (r, f, m, (d, k, w), o) = drop_chain-Dropped p.free_list.conns i h c l e v in
    let ds = (drop_chain p.free_list.conns i h).1 in
    (
      r,
      f,
      m,
      (
        _,
        refl,
        give_back-out ds i,
        (d, give_back-elem ds i (record c { chain = d }) k, w),
        λ j n. give_back-others ds i j n ∙ o j n,
      ),
    )
