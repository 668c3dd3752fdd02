-- ===== src/Lifecycle/Gives.antt =====
-- What tearing connections down gives back, and what a pool that is destroyed gives back.
use dart_db_connector.Base.{
  ℕ, suc, ◌+◌, ◌≡◌, refl, ap, ◌∙◌, true, Option, none, some, List, [], ◌∷◌, arith, length,
}
use dart_db_connector.Heap.{Heap, Text, free, Gave, owned_all}
use dart_db_connector.Handles.{Kind}
use dart_db_connector.Handles.Tally.{Tally, Tally-append, four-Tally, held, held-plus, pool_closes}
use dart_db_connector.Lifecycle.{
  Managed, free_all, Owned, teardown_conn, teardown_all, ask_all, undo_all, destroy,
}

pub free_all-Gave : (ss : List (Option Text)) (h : Heap) → Gave (owned_all ss) h (free_all ss h)
unfolding free_all free
free_all-Gave [] h = omega arith
free_all-Gave (none ∷ ss) h = omega (arith, free_all-Gave ss h)
free_all-Gave (some s ∷ ss) h = omega (arith, free_all-Gave ss (free (some s) h))

module _ {C : Type 0} (m : Managed C) where
  open m use {live, owns, ask}

  abbrev pub AllLive : List C → Type 0
  AllLive [] = Unit
  AllLive (c ∷ cs) = (live c ≡ true) × AllLive cs

  -- The blocks that the connections own.
  abbrev pub owned_conns : List C → ℕ
  owned_conns [] = 0
  owned_conns (c ∷ cs) = owns c + owned_conns cs

  -- One handle of each kind, and every block of the connection.
  pub teardown_conn-gives :
      (c : C) (h : Heap) (k : Kind)
      → live c ≡ true
      → let (c', h', es) = teardown_conn m c h in Gave (owns c) h h' × Tally k 0 1 es
  unfolding teardown_conn
  teardown_conn-gives c h k l = rw l (m.release-gives c h, four-Tally k)

  module _ (k : Kind) where
    teardown_all-gives :
        (cs : List C) (h : Heap)
        → AllLive cs
        → let (h', es) = teardown_all m cs h in
          Gave (owned_conns cs) h h' × Tally k 0 (length cs) es
    unfolding teardown_all
    teardown_all-gives [] h a = (omega arith, (refl, refl))
    teardown_all-gives (c ∷ cs) h a =
        let (g, t) = teardown_conn-gives c h k a.0 in
        let (c', h1, es) = teardown_conn m c h in
        let (g', t') = teardown_all-gives cs h1 a.1 in
        let fs = (teardown_all m cs h1).1 in
        (
          omega (arith, g, g'),
          Tally-append k 0 1 0 (length cs) 0 (suc (length cs)) es fs t t' refl (omega arith),
        )

    pub undo_all-gives :
        (cs : List C) (h : Heap)
        → AllLive cs
        → let (h', es) = undo_all m cs h in Gave (owned_conns cs) h h' × Tally k 0 (length cs) es
    unfolding undo_all
    undo_all-gives [] h a = (omega arith, (refl, refl))
    undo_all-gives (c ∷ cs) h a =
        let (g, t) = teardown_conn-gives (ask c) h k (m.live-ask c ∙ a.0) in
        let (c', h1, es) = teardown_conn m (ask c) h in
        let (g', t') = undo_all-gives cs h1 a.1 in
        let fs = (undo_all m cs h1).1 in
        (
          omega (arith, g, g', m.owns-ask c),
          Tally-append k 0 1 0 (length cs) 0 (suc (length cs)) es fs t t' refl (omega arith),
        )

  ask_all-AllLive : (cs : List C) → AllLive cs → AllLive (ask_all m cs)
  unfolding ask_all
  ask_all-AllLive [] a = tt
  ask_all-AllLive (c ∷ cs) a = (m.live-ask c ∙ a.0, ask_all-AllLive cs a.1)

  ask_all-owned : (cs : List C) → owned_conns (ask_all m cs) ≡ owned_conns cs
  unfolding ask_all
  ask_all-owned [] = refl
  ask_all-owned (c ∷ cs) = omega (arith, m.owns-ask c, ask_all-owned cs)

  length-ask_all : (cs : List C) → length (ask_all m cs) ≡ length cs
  unfolding ask_all
  length-ask_all [] = refl
  length-ask_all (c ∷ cs) = ap suc (length-ask_all cs)

  -- A pool that is destroyed gives back what its connections and its strings own and the two blocks
  -- of its own, and closes every handle once.
  pub destroy-gives :
      (p : Owned C) (h : Heap) (k : Kind)
      → AllLive p.free_list.conns
      → let (h', es) = destroy m p h in
        Gave (owned_conns p.free_list.conns + owned_all p.strings + 2) h h'
        × Tally k 0 (held k (length p.free_list.conns)) es
  unfolding destroy free
  destroy-gives p h k a =
      let cs = p.free_list.conns in
      let (g, t) = teardown_all-gives k (ask_all m cs) h (ask_all-AllLive cs a) in
      let (h1, es) = teardown_all m (ask_all m cs) h in
      let f = free_all-Gave p.strings (free (some (ask_all m cs)) h1) in
      let (o, c) = pool_closes k es in
      (
        omega (arith, g, f, ask_all-owned cs),
        (omega (arith, o, t.0), omega (arith, c, t.1, length-ask_all cs, held-plus k (length cs))),
      )
