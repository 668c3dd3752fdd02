-- ===== src/Postgres/Execute/MultiRead.antt =====
-- `execute_multi_read` hands over every result set in order, or none, and leaks no node.
pub mod Rounds
use dart_db_connector.Base.{
  ℕ, ◌+◌, ◌≡◌, ◌≢◌, refl, sym, ap, ◌∙◌, ◌⊎◌, ℤ, pos_part, true, false, Option, none, some, List, [],
  ◌∷◌, ◌++◌, arith, Bool-cases, Option-cases, inl, inr, take, length, length-append, append_assoc,
  append-nil,
}
use mathlib.Core.Path.{subst}
use dart_db_connector.Heap.{Heap, Text, Grew, owned_by, free}
use dart_db_connector.Sql.{join_with_semicolons}
use dart_db_connector.Clock.{Timespec, next_select_tv}
use dart_db_connector.Postgres.Chain.{Chain, chain_append, free_result_chain}
use dart_db_connector.Postgres.Chain.Fifo.{
  Entry, Holds, results, chain_append-fifo, free_result_chain-all,
}
use dart_db_connector.Postgres.Drain.{
  Status-cases, Status, ok, aborted, Call, send_query, cancel, clear, Ended, Selected, interrupted,
  failed, ticked, ready, flush_outgoing,
}
use dart_db_connector.Postgres.Execute.{
  ResultTurn, ReadEnded, abandon, clears, drain_multi, send_joined, execute_multi_read, Opening,
  read_after_flush, after_read_calls, deadline_of,
}
use dart_db_connector.Postgres.Execute.MultiRead.Rounds.{
  delivered, results-append, Nodes, Reads, abandon-Reads, Round, drain_multi-Round, not-drained,
  Reads-shift, Reads-append, Reads-eq, refused-Reads, drain_multi-Reads,
}

read_after_flush-Reads :
    (deadline : Option Timespec) (f : Option Ended) (turns : List ResultTurn) (chain : Chain)
    (h : Heap) (l : List Entry) (e : ReadEnded)
    → Holds chain l
    → read_after_flush f chain h (drain_multi deadline turns chain h) ≡ some e
    → Reads l h (delivered turns) e
read_after_flush-Reads deadline none turns chain h l e v q = cc
read_after_flush-Reads deadline (some f) turns chain h l e v q = elim (Status-cases f.status) [
  | inl s ↦ drain_multi-Reads deadline turns chain h l e v (ground arith)
  | inr s ↦
      Reads-eq l h (delivered turns) (some (abandon f.calls chain h)) (abandon f.calls chain h) e
        refl (ground arith) (abandon-Reads f.calls chain h l (delivered turns) v)
]

join-Grew :
    (qs : List Text) (h : Heap) → let (t, h') = join_with_semicolons qs h in Grew (owned_by t) h h'
unfolding join_with_semicolons
join-Grew qs h = ground arith

-- What the chain holds then: by its status, all or nothing.
abbrev Handed : List Entry → Heap → List ℕ → ReadEnded → Type 0
Handed l h rs e =
    (m : List Entry) × Holds e.chain m
    × Nodes l h m e.heap
    × (e.status ≡ ok → results m ≡ rs)
    × (e.status ≡ aborted → m ≡ [])

Reads-Handed :
    (l : List Entry) (h h' : Heap) (rs : List ℕ) (e : ReadEnded)
    → Nodes l h [] h'
    → Reads [] h' rs e
    → Handed l h rs e
Reads-Handed l h h' rs e n (inl (s, m, v, q, k)) = (m, v, omega (arith, n, k), (λ _. q), λ a. cc)
Reads-Handed l h h' rs e n (inr (s, v, k)) = ([], v, omega (arith, n, k), (λ a. cc), λ _. refl)

Handed-calls :
    (cs : List Call) (l : List Entry) (h : Heap) (rs : List ℕ) (d : Option ReadEnded)
    (e : ReadEnded)
    → after_read_calls cs d ≡ some e
    → ((f : ReadEnded) → d ≡ some f → Handed l h rs f)
    → Handed l h rs e
Handed-calls cs l h rs none e q k = cc
Handed-calls cs l h rs (some d) e q k =
    let (m, v, n, s, a) = k d refl in (m, ground arith, ground arith, ground arith, ground arith)

stopped-Handed :
    (l : List Entry) (h h' : Heap) (rs : List ℕ) (chain : Chain) (e : ReadEnded)
    → Holds chain []
    → Nodes l h [] h'
    → some (record { status = aborted; calls = []; chain = chain; heap = h' }) ≡ some e
    → Handed l h rs e
stopped-Handed l h h' rs chain e v n q =
    ([], ground arith, ground arith, ground arith, ground arith)

send_joined-Handed :
    (text : Text) (deadline : Option Timespec) (o : Opening) (turns : List ResultTurn)
    (chain : Chain) (l : List Entry) (h h' : Heap) (e : ReadEnded)
    → Holds chain []
    → h'.allocs + h.frees + length l ≡ h.allocs + h'.frees + 1
    → send_joined text deadline o turns chain h' ≡ some e
    → Handed l h (delivered turns) e
unfolding send_joined
send_joined-Handed text deadline o turns chain l h h' e v n q = elim (Bool-cases o.accepted) [
  | inr b ↦
      Handed-calls (send_query text ∷ []) l h (delivered turns)
        (some (record { status = aborted; calls = []; chain = chain; heap = free (some text) h' }))
        e (rw b at q)
        (λ x. stopped-Handed l h (free (some text) h') (delivered turns) chain x v (omega arith))
  | inl b ↦
      Handed-calls (send_query text ∷ []) l h (delivered turns)
        (read_after_flush (flush_outgoing deadline o.flushing) chain (free (some text) h')
          (drain_multi deadline turns chain (free (some text) h')))
        e (rw b at q)
        (λ x k. Reads-Handed l h (free (some text) h') (delivered turns) x (omega arith) (
          read_after_flush-Reads deadline (flush_outgoing deadline o.flushing) turns chain
            (free (some text) h') [] x v k))
]

execute_multi_read-Handed :
    (queries : List Text) (count timeout_ms : ℤ) (o : Opening) (turns : List ResultTurn)
    (chain : Chain) (h : Heap) (l : List Entry) (e : ReadEnded)
    → Holds chain l
    → o.socket ≡ true
    → execute_multi_read queries count timeout_ms o turns chain h ≡ some e
    → Handed l h (delivered turns) e
unfolding execute_multi_read
execute_multi_read-Handed queries count timeout_ms o turns chain h l e v s q =
    let k = free_result_chain chain h in
    let qs = take (pos_part count) queries in
    let j = join_with_semicolons qs k.2 in
    let (c, w, f, a) = free_result_chain-all chain h l v in
    elim (Option-cases j.0) [
      | inl n ↦
          Handed-calls (clears k.0) l h (delivered turns)
            (some (record { status = aborted; calls = []; chain = k.1; heap = j.1 })) e
            (rw (s, n) at q)
            (λ x.
              stopped-Handed l h j.1 (delivered turns) k.1 x w (ground (arith, join-Grew qs k.2)))
      | inr (text, n) ↦
          Handed-calls (clears k.0) l h (delivered turns)
            (send_joined text (deadline_of timeout_ms o.started) o turns k.1 j.1) e (rw (s, n) at q)
            (λ x.
              send_joined-Handed text (deadline_of timeout_ms o.started) o turns k.1 l h j.1 x w
                (ground (arith, join-Grew qs k.2)))
    ]

-- What a multi-read leaves: a chain of one node for each entry, which holds all the results or none.
abbrev pub Delivers : List Entry → Heap → List ℕ → ReadEnded → Type 0
Delivers l h rs e =
    (m : List Entry) × Holds e.chain m
    × Nodes l h m e.heap
    × ((e.status ≡ ok) × (results m ≡ rs) ⊎ (e.status ≡ aborted) × (m ≡ []))

-- A multi-read that ends, from an open socket and a well-formed chain, leaves a well-formed chain
-- and no node or buffer beyond it: where it reports success, the chain holds every result that
-- libpq delivered, in order, and nothing older; otherwise it reports an abort and the chain is
-- empty.
pub execute_multi_read-Delivers :
    (queries : List Text) (count timeout_ms : ℤ) (o : Opening) (turns : List ResultTurn)
    (chain : Chain) (h : Heap) (l : List Entry) (e : ReadEnded)
    → Holds chain l
    → o.socket ≡ true
    → execute_multi_read queries count timeout_ms o turns chain h ≡ some e
    → Delivers l h (delivered turns) e
execute_multi_read-Delivers queries count timeout_ms o turns chain h l e v s q =
    let (m, w, n, k, a) =
      execute_multi_read-Handed queries count timeout_ms o turns chain h l e v s q in
    (m, w, n, elim (Status-cases e.status) [ inl z ↦ inl (z, k z) | inr z ↦ inr (z, a z) ])
