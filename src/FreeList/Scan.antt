-- ===== src/FreeList/Scan.antt =====
-- The scan hands out the first free connection and marks that one only; it fails exactly when every
-- connection is in use.
use mathlib.Core.Path.{subst}
use dart_db_connector.Base.{
  ℕ, zero, suc, ◌≡◌, ◌≢◌, ◌<◌, refl, ap, Bool, true, false, Option, none, some, List, [], ◌∷◌,
  arith, length, get_elem?, Bool-cases, Option-cases, inl, inr,
}
use dart_db_connector.FreeList.{Lendable, scan, give_back}

module _ {C : Type 0} ⦃l : Lendable C⦄ where
  -- Whether the connection at an index is out.
  abbrev pub is_out : List C → ℕ → Bool
  is_out [] i = false
  is_out (c ∷ cs) zero = l.in_use c
  is_out (c ∷ cs) (suc i) = is_out cs i

  -- What a successful scan does.
  pub record Claims (cs : List C) (i : ℕ) (cs' : List C) : Type 0 where
    pub in_range : i < length cs
    pub was_free : is_out cs i ≡ false
    pub marked : is_out cs' i ≡ true
    pub first : (j : ℕ) → j < i → is_out cs j ≡ true
    pub others : (j : ℕ) → j ≢ i → get_elem? cs' j ≡ get_elem? cs j
    pub size_kept : length cs' ≡ length cs

  Claims-eq :
      (cs : List C) (i j : ℕ) (ds es : List C)
      → ◌≡◌ {A = Option (ℕ × List C)} (some (i, ds)) (some (j, es))
      → Claims cs i ds
      → Claims cs j es
  Claims-eq cs i j ds es e k =
      subst (λ (x : ℕ × List C). Claims cs x.0 x.1) (same (i, ds) (j, es) e) k
    where
      same : (x y : ℕ × List C) → some x ≡ some y → x ≡ y
      same x y p = cc

  Claims-head :
      (c : C) (cs : List C) → l.in_use c ≡ false → Claims (c ∷ cs) 0 (l.set_in_use true c ∷ cs)
  Claims-head c cs f = record {
    in_range = omega arith;
    was_free = f;
    marked = l.in_use-set true c;
    first = λ j h. absurd (omega arith);
    others = others;
    size_kept = refl;
  }
    where
      others : (j : ℕ) → j ≢ 0 → get_elem? (l.set_in_use true c ∷ cs) j ≡ get_elem? (c ∷ cs) j
      others zero h = absurd (h refl)
      others (suc j) h = refl

  Claims-tail :
      (c : C) (cs : List C) (i : ℕ) (cs' : List C)
      → l.in_use c ≡ true
      → Claims cs i cs'
      → Claims (c ∷ cs) (suc i) (c ∷ cs')
  Claims-tail c cs i cs' u k = record {
    in_range = omega (arith, k.in_range);
    was_free = k.was_free;
    marked = k.marked;
    first = first;
    others = others;
    size_kept = ap suc k.size_kept;
  }
    where
      first : (j : ℕ) → j < suc i → is_out (c ∷ cs) j ≡ true
      first zero h = u
      first (suc j) h = k.first j (omega arith)

      others : (j : ℕ) → j ≢ suc i → get_elem? (c ∷ cs') j ≡ get_elem? (c ∷ cs) j
      others zero h = refl
      others (suc j) h = k.others j (λ e. h (ap suc e))

  pub scan-Claims : (cs : List C) (i : ℕ) (cs' : List C) → scan cs ≡ some (i, cs') → Claims cs i cs'
  unfolding scan
  scan-Claims [] i cs' e = cc
  scan-Claims (c ∷ cs) i cs' e = elim (Bool-cases (l.in_use c)) [
    | inr f ↦
        Claims-eq (c ∷ cs) 0 i (l.set_in_use true c ∷ cs) cs' (ground arith) (Claims-head c cs f)
    | inl u ↦ elim (Option-cases (scan cs)) [
      | inl n ↦ ground arith
      | inr ((j, ds), n) ↦
          Claims-eq (c ∷ cs) (suc j) i (c ∷ ds) cs' (ground arith)
            (Claims-tail c cs j ds u (scan-Claims cs j ds n))
    ]
  ]

  -- Every connection is in use.
  abbrev pub AllOut : List C → Type 0
  AllOut [] = Unit
  AllOut (c ∷ cs) = (l.in_use c ≡ true) × AllOut cs

  pub scan-AllOut : (cs : List C) → scan cs ≡ none → AllOut cs
  unfolding scan
  scan-AllOut [] e = tt
  scan-AllOut (c ∷ cs) e = (ground arith, scan-AllOut cs (ground arith))

  pub AllOut-scan : (cs : List C) → AllOut cs → scan cs ≡ none
  unfolding scan
  AllOut-scan [] a = refl
  AllOut-scan (c ∷ cs) a = ground (arith, AllOut-scan cs a.1)

  pub give_back-out : (cs : List C) (i : ℕ) → is_out (give_back cs i) i ≡ false
  unfolding give_back
  give_back-out [] i = refl
  give_back-out (c ∷ cs) zero = l.in_use-set false c
  give_back-out (c ∷ cs) (suc i) = give_back-out cs i

  pub give_back-others :
      (cs : List C) (i j : ℕ) → j ≢ i → get_elem? (give_back cs i) j ≡ get_elem? cs j
  unfolding give_back
  give_back-others [] i j h = refl
  give_back-others (c ∷ cs) zero zero h = absurd (h refl)
  give_back-others (c ∷ cs) zero (suc j) h = refl
  give_back-others (c ∷ cs) (suc i) zero h = refl
  give_back-others (c ∷ cs) (suc i) (suc j) h = give_back-others cs i j (λ e. h (ap suc e))

  pub give_back-elem :
      (cs : List C) (i : ℕ) (c : C)
      → get_elem? cs i ≡ some c
      → get_elem? (give_back cs i) i ≡ some (l.set_in_use false c)
  unfolding give_back
  give_back-elem [] i c e = cc
  give_back-elem (b ∷ cs) zero c e = ground arith
  give_back-elem (b ∷ cs) (suc i) c e = give_back-elem cs i c e
