-- ===== src/Sql/Join.antt =====
-- The joined text fits its buffer, is the statements with ';' between (after) them, and splits back
-- into them.
use dart_db_connector.Base.{
  somes, ℕ, suc, ◌+◌, ◌≡◌, ◌≢◌, refl, sym, ap, ◌∙◌, true, false, some, List, [], ◌∷◌, ◌++◌,
  append-nil, append_assoc, arith, length, length-append, ◌==◌,
}
use dart_db_connector.Heap.{Text}
use dart_db_connector.Sql.{semicolon, pg_size, pg_write, mysql_write, sqlite_write, stmts_size}

-- The statements with ';' between them.
abbrev pub joined : List Text → Text
joined [] = []
joined (q ∷ []) = q
joined (q ∷ r ∷ qs) = q ++ semicolon ∷ joined (r ∷ qs)

-- The statements, each after a ';'.
abbrev pub tail_joined : List Text → Text
tail_joined [] = []
tail_joined (q ∷ qs) = semicolon ∷ (q ++ tail_joined qs)

joined-tail : (q : Text) (qs : List Text) → joined (q ∷ qs) ≡ q ++ tail_joined qs
joined-tail q [] = sym (append-nil q)
joined-tail q (r ∷ qs) = ap (λ x. q ++ semicolon ∷ x) (joined-tail r qs)

pg_write-tail :
    (i : ℕ) (out : Text) (qs : List Text) → pg_write (suc i) out qs ≡ out ++ tail_joined qs
unfolding pg_write
pg_write-tail i out [] = sym (append-nil out)
pg_write-tail i out (q ∷ qs) =
    let o = (out ++ semicolon ∷ []) ++ q in
    ground (
      arith,
      pg_write-tail (suc i) o qs,
      append_assoc (out ++ semicolon ∷ []) q (tail_joined qs),
      append_assoc out (semicolon ∷ []) (q ++ tail_joined qs),
    )

-- The PostgreSQL worker sends the statements with ';' between them.
pub pg_write-joined : (qs : List Text) → pg_write 0 [] qs ≡ joined qs
unfolding pg_write
pg_write-joined [] = refl
pg_write-joined (q ∷ qs) = ground (arith, pg_write-tail 0 q qs, joined-tail q qs)

pg_size-tail :
    (i total : ℕ) (qs : List Text) → pg_size (suc i) total qs ≡ total + length (tail_joined qs)
unfolding pg_size
pg_size-tail i total [] = omega arith
pg_size-tail i total (q ∷ qs) =
    ground (arith, pg_size-tail (suc i) (total + length q + 1) qs, length-append q (tail_joined qs))

-- The joined text of the PostgreSQL worker and its NUL fill the allocated buffer exactly.
pub pg_write-fits : (qs : List Text) → length (pg_write 0 [] qs) + 1 ≡ pg_size 0 1 qs
unfolding pg_write pg_size
pg_write-fits [] = omega arith
pg_write-fits (q ∷ qs) = ground (
  arith,
  ap length (pg_write-tail 0 q qs),
  pg_size-tail 0 (1 + length q) qs,
  length-append q (tail_joined qs),
)

pub mysql_write-joined :
    (out : Text) (qs : List Text) → mysql_write (length qs) out qs ≡ out ++ joined qs
unfolding mysql_write
mysql_write-joined out [] = sym (append-nil out)
mysql_write-joined out (q ∷ []) = ground arith
mysql_write-joined out (q ∷ r ∷ qs) =
    let o = (out ++ q) ++ semicolon ∷ [] in
    ground (
      arith,
      mysql_write-joined o (r ∷ qs),
      append_assoc (out ++ q) (semicolon ∷ []) (joined (r ∷ qs)),
      append_assoc out q (semicolon ∷ joined (r ∷ qs)),
    )

-- The MySQL driver joins statements to the same bytes as the PostgreSQL worker.
pub mysql_write-eq-pg : (qs : List Text) → mysql_write (length qs) [] qs ≡ pg_write 0 [] qs
mysql_write-eq-pg qs = mysql_write-joined [] qs ∙ sym (pg_write-joined qs)

-- The statements, each ended by ';'.
abbrev pub terminated : List Text → Text
terminated [] = []
terminated (q ∷ qs) = q ++ semicolon ∷ terminated qs

pub sqlite_write-terminated :
    (out : Text) (qs : List Text) → sqlite_write out qs ≡ out ++ terminated qs
unfolding sqlite_write
sqlite_write-terminated out [] = sym (append-nil out)
sqlite_write-terminated out (q ∷ qs) =
    let o = (out ++ q) ++ semicolon ∷ [] in
    ground (
      arith,
      sqlite_write-terminated o qs,
      append_assoc (out ++ q) (semicolon ∷ []) (terminated qs),
      append_assoc out q (semicolon ∷ terminated qs),
    )

terminated-joined :
    (q : Text) (qs : List Text) → terminated (q ∷ qs) ≡ joined (q ∷ qs) ++ semicolon ∷ []
terminated-joined q [] = refl
terminated-joined q (r ∷ qs) =
    ground
      (arith, terminated-joined r qs, append_assoc q (semicolon ∷ joined (r ∷ qs)) (semicolon ∷ []))

-- For one statement or more, the SQLite driver joins them to what the MySQL driver joins them to,
-- and one ';' more.
pub sqlite_write-eq-mysql :
    (q : Text) (qs : List Text)
    → sqlite_write [] (q ∷ qs) ≡ mysql_write (length (q ∷ qs)) [] (q ∷ qs) ++ semicolon ∷ []
sqlite_write-eq-mysql q qs =
    sqlite_write-terminated [] (q ∷ qs)
    ∙ terminated-joined q qs
    ∙ ap (λ x. x ++ semicolon ∷ []) (sym (mysql_write-joined [] (q ∷ qs)))

stmts_size-terminated :
    (total : ℕ) (qs : List Text)
    → stmts_size total (somes qs) ≡ some (total + length (terminated qs))
unfolding stmts_size
stmts_size-terminated total [] = ground arith
stmts_size-terminated total (q ∷ qs) = ground (
  arith,
  stmts_size-terminated (total + length q + 1) qs,
  length-append q (semicolon ∷ terminated qs),
)

-- For one statement or more, the text that SQLite joins and its NUL fill the allocated buffer
-- exactly, and the text that MySQL joins and its NUL leave one byte of it unused.
pub stmts_size-fits :
    (q : Text) (qs : List Text) (total : ℕ)
    → stmts_size 1 (somes (q ∷ qs)) ≡ some total
    → (length (sqlite_write [] (q ∷ qs)) + 1 ≡ total)
      × (length (mysql_write (length (q ∷ qs)) [] (q ∷ qs)) + 2 ≡ total)
stmts_size-fits q qs total e = ground (
  arith,
  stmts_size-terminated 1 (q ∷ qs),
  ap length (sqlite_write-terminated [] (q ∷ qs)),
  ap length (sqlite_write-eq-mysql q qs),
  length-append (mysql_write (length (q ∷ qs)) [] (q ∷ qs)) (semicolon ∷ []),
)

-- Splitting at every ';', as a server that reads no quotes would.
unfoldable pub split : Text → Text → List Text
split word [] = word ∷ []
split word (c ∷ cs) = elim (c == semicolon) [
  | true ↦ word ∷ split [] cs
  | false ↦ split (word ++ c ∷ []) cs
]

-- The statement has no ';'.
abbrev pub IsPlain : Text → Type 0
IsPlain [] = Unit
IsPlain (c ∷ cs) = (c ≢ semicolon) × IsPlain cs

abbrev pub ArePlain : List Text → Type 0
ArePlain [] = Unit
ArePlain (q ∷ qs) = IsPlain q × ArePlain qs

split-plain : (word q rest : Text) → IsPlain q → split word (q ++ rest) ≡ split (word ++ q) rest
unfolding split
split-plain word [] rest p = rw (append-nil word)
split-plain word (c ∷ q) rest p =
    ground (arith, split-plain (word ++ c ∷ []) q rest p.1, append_assoc word (c ∷ []) q)

-- Statements of which there is at least one and none of which holds a ';' are what the text that
-- the PostgreSQL worker sends splits back into at every ';'.
pub split-joined :
    (q : Text) (qs : List Text) → ArePlain (q ∷ qs) → split [] (pg_write 0 [] (q ∷ qs)) ≡ q ∷ qs
unfolding split
split-joined q qs p = rw (pg_write-joined (q ∷ qs)) (go q qs p)
  where
    go : (q : Text) (qs : List Text) → ArePlain (q ∷ qs) → split [] (joined (q ∷ qs)) ≡ q ∷ qs
    go q [] p = ap (λ x. split [] x) (sym (append-nil q)) ∙ split-plain [] q [] p.0
    go q (r ∷ qs) p =
        split-plain [] q (semicolon ∷ joined (r ∷ qs)) p.0 ∙ ap (λ x. q ∷ x) (go r qs p.1)
