-- ===== src/Postgres/Execute/Stops.antt =====
-- The loops of the flush, the pipeline and the multi-read end at a shutdown request, and at the
-- deadline where they wait for the socket.
use dart_db_connector.Base.{
  ℕ, zero, suc, ◌≡◌, refl, ◌∙◌, ◌⊎◌, inl, inr, true, Option, none, some, List, [], ◌∷◌, arith, Any,
  Option-cases,
}
use dart_db_connector.Heap.{Heap}
use dart_db_connector.Clock.{Timespec, next_select_tv}
use dart_db_connector.Postgres.Chain.{Chain, chain_append}
use dart_db_connector.Postgres.Drain.{
  aborted, Ended, ended, cancel, pending, FlushTurn, flush_outgoing,
}
use dart_db_connector.Postgres.Drain.Ends.{IsLate, late-none}
use dart_db_connector.Postgres.Execute.MultiRead.Rounds.{drain_multi-Round}
use dart_db_connector.Postgres.Execute.{ResultTurn, ReadEnded, abandon, drain_pipeline, drain_multi}

-- The round saw a shutdown request, or had to wait at or past its deadline.
abbrev pub StopsRead : Option Timespec → ResultTurn → Type 0
StopsRead deadline t = (t.shutdown ≡ true) ⊎ ((t.busy ≡ true) × IsLate deadline t.now)

-- The round of the flush could not send everything, and saw a shutdown request or was at or past its
-- deadline.
abbrev pub StopsFlush : Option Timespec → FlushTurn → Type 0
StopsFlush deadline t = (t.flush ≡ pending) × ((t.shutdown ≡ true) ⊎ IsLate deadline t.now)

flush-cancels :
    (deadline : Option Timespec) (t : FlushTurn) (ts : List FlushTurn)
    → t.flush ≡ pending
    → (t.shutdown ≡ true) ⊎ (next_select_tv deadline t.now ≡ none)
    → flush_outgoing deadline (t ∷ ts) ≡ some (ended aborted (cancel ∷ []))
unfolding flush_outgoing
flush-cancels deadline t ts f (inl s) = ground arith
flush-cancels deadline t ts f (inr s) = ground arith

flush-later :
    (deadline : Option Timespec) (t : FlushTurn) (ts : List FlushTurn) (e : Ended)
    → flush_outgoing deadline ts ≡ some e
    → (f : Ended) × (flush_outgoing deadline (t ∷ ts) ≡ some f)
unfolding flush_outgoing
flush-later deadline t ts e q = elim (Option-cases (flush_outgoing deadline (t ∷ ts))) [
  | inr (f, p) ↦ (f, p)
  | inl p ↦ absurd (stuck deadline t ts e q p)
]
  where
    stuck :
        (deadline : Option Timespec) (t : FlushTurn) (ts : List FlushTurn) (e : Ended)
        → flush_outgoing deadline ts ≡ some e
        → flush_outgoing deadline (t ∷ ts) ≡ none
        → ⊥
    stuck deadline t ts e q p = ground arith

-- The flush has ended once it could not send everything in some round that saw a shutdown request
-- or was at or past its deadline.
pub flush_outgoing-StopsFlush :
    (deadline : Option Timespec) (ts : List FlushTurn)
    → Any (StopsFlush deadline) ts
    → (e : Ended) × (flush_outgoing deadline ts ≡ some e)
flush_outgoing-StopsFlush deadline [] a = absurd a
flush_outgoing-StopsFlush deadline (t ∷ ts) (inl (f, inl s)) =
    (_, flush-cancels deadline t ts f (inl s))
flush_outgoing-StopsFlush deadline (t ∷ ts) (inl (f, inr l)) =
    (_, flush-cancels deadline t ts f (inr (late-none deadline t.now l)))
flush_outgoing-StopsFlush deadline (t ∷ ts) (inr a) =
    let (e, q) = flush_outgoing-StopsFlush deadline ts a in flush-later deadline t ts e q

pipeline-cancels :
    (deadline : Option Timespec) (n : ℕ) (t : ResultTurn) (ts : List ResultTurn)
    → (t.shutdown ≡ true) ⊎ ((t.busy ≡ true) × (next_select_tv deadline t.now ≡ none))
    → drain_pipeline deadline (suc n) (t ∷ ts) ≡ some (ended aborted (cancel ∷ []))
unfolding drain_pipeline
pipeline-cancels deadline n t ts (inl s) = ground arith
pipeline-cancels deadline n t ts (inr (b, s)) = ground arith

pipeline-later :
    (deadline : Option Timespec) (n : ℕ) (t : ResultTurn) (ts : List ResultTurn) (d e : Ended)
    → drain_pipeline deadline (suc n) ts ≡ some d
    → drain_pipeline deadline n ts ≡ some e
    → (f : Ended) × (drain_pipeline deadline (suc n) (t ∷ ts) ≡ some f)
unfolding drain_pipeline
pipeline-later deadline n t ts d e q p =
    elim (Option-cases (drain_pipeline deadline (suc n) (t ∷ ts))) [
      | inr (f, r) ↦ (f, r)
      | inl r ↦ absurd (ground arith)
    ]

-- The drain loop of a pipeline has ended once some round saw a shutdown request, or had to wait at
-- or past its deadline.
pub drain_pipeline-StopsRead :
    (deadline : Option Timespec) (remaining : ℕ) (ts : List ResultTurn)
    → Any (StopsRead deadline) ts
    → (e : Ended) × (drain_pipeline deadline remaining ts ≡ some e)
unfolding drain_pipeline
drain_pipeline-StopsRead deadline zero ts a = (_, refl)
drain_pipeline-StopsRead deadline (suc n) [] a = absurd a
drain_pipeline-StopsRead deadline (suc n) (t ∷ ts) (inl (inl s)) =
    (_, pipeline-cancels deadline n t ts (inl s))
drain_pipeline-StopsRead deadline (suc n) (t ∷ ts) (inl (inr (b, l))) =
    (_, pipeline-cancels deadline n t ts (inr (b, late-none deadline t.now l)))
drain_pipeline-StopsRead deadline (suc n) (t ∷ ts) (inr a) =
    let (d, q) = drain_pipeline-StopsRead deadline (suc n) ts a in
    let (e, p) = drain_pipeline-StopsRead deadline n ts a in pipeline-later deadline n t ts d e q p

multi-cancels :
    (deadline : Option Timespec) (t : ResultTurn) (ts : List ResultTurn) (chain : Chain) (h : Heap)
    → (t.shutdown ≡ true) ⊎ ((t.busy ≡ true) × (next_select_tv deadline t.now ≡ none))
    → drain_multi deadline (t ∷ ts) chain h ≡ some (abandon (cancel ∷ []) chain h)
unfolding drain_multi
multi-cancels deadline t ts chain h (inl s) = ground arith
multi-cancels deadline t ts chain h (inr (b, s)) = ground arith

multi-later :
    (deadline : Option Timespec) (t : ResultTurn) (ts : List ResultTurn) (chain : Chain) (h : Heap)
    → ((c : Chain) (k : Heap) → (e : ReadEnded) × (drain_multi deadline ts c k ≡ some e))
    → (e : ReadEnded) × (drain_multi deadline (t ∷ ts) chain h ≡ some e)
multi-later deadline t ts chain h ih = elim (drain_multi-Round deadline t ts chain h) [
  | inl (cs, p) ↦ (_, p)
  | inr (inl (b, p)) ↦ let (e, q) = ih chain h in (e, p ∙ q)
  | inr (inr (inl (b, g, p))) ↦ (_, p)
  | inr (inr (inr (x, b, g, inl (a, p)))) ↦
      let (e, q) = ih (chain_append chain x h).1 (chain_append chain x h).2 in (e, p ∙ q)
  | inr (inr (inr (x, b, g, inr (a, p)))) ↦ (_, p)
]

-- The drain loop of a multi-read has ended once some round saw a shutdown request, or had to wait
-- at or past its deadline.
pub drain_multi-StopsRead :
    (deadline : Option Timespec) (ts : List ResultTurn) (chain : Chain) (h : Heap)
    → Any (StopsRead deadline) ts
    → (e : ReadEnded) × (drain_multi deadline ts chain h ≡ some e)
drain_multi-StopsRead deadline [] chain h a = absurd a
drain_multi-StopsRead deadline (t ∷ ts) chain h (inl (inl s)) =
    (_, multi-cancels deadline t ts chain h (inl s))
drain_multi-StopsRead deadline (t ∷ ts) chain h (inl (inr (b, l))) =
    (_, multi-cancels deadline t ts chain h (inr (b, late-none deadline t.now l)))
drain_multi-StopsRead deadline (t ∷ ts) chain h (inr a) =
    multi-later deadline t ts chain h (λ c k. drain_multi-StopsRead deadline ts c k a)
