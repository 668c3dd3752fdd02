-- ===== src/FreeList/Lending.antt =====
-- Histories of the free list: clients take connections by the scan and give back those they hold.
use dart_db_connector.Base.{
  one_if, ℕ, zero, suc, ◌+◌, ◌≡◌, ◌≤◌, refl, ap, ◌∙◌, true, false, none, some, List, [], ◌∷◌, ◌++◌,
  arith, length, length-append, get_elem?, Bool-cases, Option-cases, inl, inr, ◌==◌, ==_iff,
}
use dart_db_connector.FreeList.{Lendable, scan, give_back}
use dart_db_connector.FreeList.Scan.{
  Claims, scan-Claims, is_out, AllOut, scan-AllOut, give_back-out, give_back-others,
}

-- How often a client holds the connection of an index.
abbrev pub count : ℕ → List ℕ → ℕ
count i [] = 0
count i (j ∷ js) = one_if (j == i) + count i js

count-append : (i : ℕ) (js ks : List ℕ) → count i (js ++ ks) ≡ count i js + count i ks
count-append i [] ks = omega arith
count-append i (j ∷ js) ks = omega (arith, count-append i js ks)

-- The array, and the indices that clients hold.
pub record Lent (C : Type 0) : Type 0 where
  pub conns : List C
  pub held : List ℕ

module _ {C : Type 0} ⦃l : Lendable C⦄ where
  -- A client takes what the scan finds, or gives back one that is held.
  pub data Step (s : Lent C) : Lent C → Type 0 where
    takes :
        (i : ℕ) (cs : List C)
        → scan s.conns ≡ some (i, cs)
        → Step s (record { conns = cs; held = i ∷ s.held })
    gives :
        (i : ℕ) (before after : List ℕ)
        → s.held ≡ before ++ i ∷ after
        → Step s (record { conns = give_back s.conns i; held = before ++ after })

  pub data Reach (s : Lent C) : Lent C → Type 0 where
    start : Reach s s
    next : {t u : Lent C} → Reach s t → Step t u → Reach s u

  abbrev pub count_out : List C → ℕ
  count_out [] = 0
  count_out (c ∷ cs) = one_if (l.in_use c) + count_out cs

  -- The connections marked in use are those held, each once.
  pub record Exact (s : Lent C) : Type 0 where
    pub once : (i : ℕ) → count i s.held ≡ one_if (is_out s.conns i)
    pub size : length s.held ≡ count_out s.conns

  is_out-elem :
      (cs ds : List C) (i : ℕ) → get_elem? cs i ≡ get_elem? ds i → is_out cs i ≡ is_out ds i
  is_out-elem [] [] i e = refl
  is_out-elem [] (d ∷ ds) zero e = cc
  is_out-elem [] (d ∷ ds) (suc i) e = is_out-elem [] ds i e
  is_out-elem (c ∷ cs) [] zero e = cc
  is_out-elem (c ∷ cs) [] (suc i) e = is_out-elem cs [] i e
  is_out-elem (c ∷ cs) (d ∷ ds) zero e = ground arith
  is_out-elem (c ∷ cs) (d ∷ ds) (suc i) e = is_out-elem cs ds i e

  scan-count_out :
      (cs : List C) (i : ℕ) (ds : List C)
      → scan cs ≡ some (i, ds)
      → count_out ds ≡ suc (count_out cs)
  unfolding scan
  scan-count_out [] i ds e = cc
  scan-count_out (c ∷ cs) i ds e = elim (Option-cases (scan cs)) [
    | inl n ↦ ground (arith, l.in_use-set true c)
    | inr ((j, es), n) ↦ ground (arith, l.in_use-set true c, scan-count_out cs j es n)
  ]

  give_back-count_out :
      (cs : List C) (i : ℕ) → is_out cs i ≡ true → suc (count_out (give_back cs i)) ≡ count_out cs
  unfolding give_back
  give_back-count_out [] i e = cc
  give_back-count_out (c ∷ cs) zero e = ground (arith, l.in_use-set false c)
  give_back-count_out (c ∷ cs) (suc i) e = ground (arith, give_back-count_out cs i e)

  takes-Exact :
      (s : Lent C) (i : ℕ) (cs : List C)
      → scan s.conns ≡ some (i, cs)
      → Exact s
      → Exact (record { conns = cs; held = i ∷ s.held })
  takes-Exact s i cs e x = record {
    once = once;
    size = ground (arith, scan-count_out s.conns i cs e, x.size);
  }
    where
      k : Claims s.conns i cs
      k = scan-Claims s.conns i cs e

      once : (j : ℕ) → count j (i ∷ s.held) ≡ one_if (is_out cs j)
      once j = elim (Bool-cases (i == j)) [
        | inl q ↦
            let p : i ≡ j = (==_iff i j).0 q in ground (arith, x.once j, k.was_free, k.marked, p)
        | inr q ↦ ground (arith, x.once j, is_out-elem cs s.conns j (k.others j (ground arith)))
      ]

  gives-Exact :
      (s : Lent C) (i : ℕ) (before after : List ℕ)
      → s.held ≡ before ++ i ∷ after
      → Exact s
      → Exact (record { conns = give_back s.conns i; held = before ++ after })
  gives-Exact s i before after e x = record {
    once = once;
    size = ground (
      arith,
      give_back-count_out s.conns i out,
      x.size,
      ap length e,
      length-append before (i ∷ after),
      length-append before after,
    );
  }
    where
      split : (j : ℕ) → count j s.held ≡ count j before + (one_if (i == j) + count j after)
      split j = ap (count j) e ∙ count-append j before (i ∷ after)

      out : is_out s.conns i ≡ true
      out = ground (arith, split i, x.once i)

      once : (j : ℕ) → count j (before ++ after) ≡ one_if (is_out (give_back s.conns i) j)
      once j = elim (Bool-cases (i == j)) [
        | inl q ↦
            let p : i ≡ j = (==_iff i j).0 q in
            ground (
              arith,
              p,
              split i,
              x.once i,
              out,
              count-append i before after,
              give_back-out s.conns i,
            )
        | inr q ↦ ground (
          arith,
          split j,
          x.once j,
          count-append j before after,
          is_out-elem (give_back s.conns i) s.conns j (give_back-others s.conns i j (ground arith)),
        )
      ]

  Step-Exact : {s t : Lent C} → Step s t → Exact s → Exact t
  Step-Exact {s} (takes i cs e) x = takes-Exact s i cs e x
  Step-Exact {s} (gives i before after e) x = gives-Exact s i before after e x

  Reach-Exact : {s t : Lent C} → Reach s t → Exact s → Exact t
  Reach-Exact start x = x
  Reach-Exact (next r st) x = Step-Exact st (Reach-Exact r x)

  -- Whatever clients take by the scan and give back, starting from a list whose marked connections
  -- are those held once: no connection is held twice, and a connection is marked in use exactly
  -- while somebody holds it.
  pub Reach-once :
      {s t : Lent C}
      → Exact s
      → Reach s t
      → (i : ℕ) → (count i t.held ≤ 1) × (count i t.held ≡ one_if (is_out t.conns i))
  Reach-once x r i = ground (arith, (Reach-Exact r x).once i)

  AllOut-count : (cs : List C) → AllOut cs → count_out cs ≡ length cs
  AllOut-count [] a = refl
  AllOut-count (c ∷ cs) a = ground (arith, AllOut-count cs a.1)

  -- In a state that clients reach so, a scan that finds nothing means that as many connections are
  -- held as the pool has.
  pub Reach-exhausted :
      {s t : Lent C} → Exact s → Reach s t → scan t.conns ≡ none → length t.held ≡ length t.conns
  Reach-exhausted {t} x r e = (Reach-Exact r x).size ∙ AllOut-count t.conns (scan-AllOut t.conns e)
