-- ===== src/Postgres/SubmitParams.antt =====
-- `pool_submit_query_params` of packages/dart_db_connector/native/c/src/native_pool.c. Array
-- arguments are lists, `none` is NULL, and the caller gives at least `n_params` entries.
use dart_db_connector.Base.{
  ℕ, ◌-◌, ◌^◌, ℤ, pos, negsuc, pos_part, is_positive, is_zero, is_negative, Bool, true, false, ◌&&◌,
  ◌||◌, Option, none, some, List, [], ◌∷◌, ◌++◌, take, replicate, if◌then◌else◌,
}
use dart_db_connector.Heap.{Heap, Text, malloc, free, dup_string}
use dart_db_connector.Postgres.Conn.{Conn, free_values}
use dart_db_connector.Postgres.Submit.{Outcome, refuse}

-- The parameter arguments of the call.
pub record Args : Type 0 where
  pub n_params : ℤ
  pub param_types : Option (List ℕ)
  pub param_values : Option (List (Option Text))
  pub param_lengths : Option (List ℤ)
  pub param_formats : Option (List ℤ)
  pub result_format : ℤ

-- The copies that the slot will own.
pub record Copies : Type 0 where
  pub types : Option (List ℕ)
  pub values : Option (List (Option Text))
  pub lengths : Option (List ℤ)
  pub formats : Option (List ℤ)

abbrev pub no_copies : Copies
no_copies = record { types = none; values = none; lengths = none; formats = none }

-- `(size_t)length` of an int.
abbrev pub size_t : ℤ → ℕ
size_t (pos n) = n
size_t (negsuc n) = 2 ^ 64 - 1 - n

abbrev pub first : List ℤ → ℤ
first [] = pos 0
first (z ∷ zs) = z

abbrev pub rest : List ℤ → List ℤ
rest [] = []
rest (z ∷ zs) = zs

-- The bytes copied for one value: a text up to its NUL, a binary value by its length.
abbrev pub value_bytes : ℤ → ℤ → Text → Text
value_bytes format length v = if is_zero format then v else take (size_t length) v

-- The loop over the values: on a failed copy it frees those made so far.
unfoldable pub copy_values :
    List (Option Text)
    → List ℤ
    → List ℤ
    → List (Option Text)
    → Heap
    → Option (List (Option Text)) × Heap
unfolding malloc free_values
copy_values [] formats lengths made h = (some made, h)
copy_values (none ∷ vs) formats lengths made h =
    copy_values vs (rest formats) (rest lengths) (made ++ none ∷ []) h
copy_values (some v ∷ vs) formats lengths made h =
    let (ok, h') = malloc h in
    elim ok [
      | true ↦
          copy_values vs (rest formats) (rest lengths)
            (made ++ some (value_bytes (first formats) (first lengths) v) ∷ []) h'
      | false ↦ (none, free_values made h')
    ]

-- A block, or NULL.
abbrev pub block : Bool → Option (Unit {0})
block true = some tt
block false = none

abbrev pub or_empty {ℓ} : {A : Type ℓ} → Option (List A) → List A
or_empty none = []
or_empty (some l) = l

-- The four arrays, with the types left zero where the caller gives none.
unfoldable pub alloc_params : Args → Heap → Option Copies × Heap
unfolding malloc free copy_values
alloc_params a h =
    let n = pos_part a.n_params in
    let (ok1, h1) = malloc h in
    let (ok2, h2) = malloc h1 in
    let (ok3, h3) = malloc h2 in
    let (ok4, h4) = malloc h3 in
    if ok1 && ok2 && ok3 && ok4
    then (let lengths = take n (or_empty a.param_lengths) in
        let formats = take n (or_empty a.param_formats) in
        let (made, h5) = copy_values (take n (or_empty a.param_values)) formats lengths [] h4 in
        elim made [
          | none ↦
              (none, free (block ok4) (free (block ok3) (free (block ok2) (free (block ok1) h5))))
          | some vs ↦ (
            some (record {
              types = some (elim a.param_types [ none ↦ replicate n 0 | some ts ↦ take n ts ]);
              values = some vs;
              lengths = some lengths;
              formats = some formats;
            }),
            h5,
          )
        ])
    else (none, free (block ok4) (free (block ok3) (free (block ok2) (free (block ok1) h4))))

-- `if (n_params > 0) { ... }`
abbrev pub copy_params : Args → Heap → Option Copies × Heap
copy_params a h = if is_positive a.n_params then alloc_params a h else (some no_copies, h)

-- `n_params < 0`, or an array missing where there are parameters.
abbrev pub lacks_arrays : Args → Bool
lacks_arrays a =
    is_negative a.n_params
    || is_positive a.n_params
      && (is_null a.param_values || is_null a.param_lengths || is_null a.param_formats)
  where
    is_null : {A : Type 0} → Option A → Bool
    is_null none = true
    is_null (some p) = false

-- The slot is committed; `is_multi_read` is left as it is.
abbrev pub fill_params : Conn → Text → Args → Copies → ℤ → ℤ → Conn
fill_params c sql a k port_id timeout_ms = record c {
  slot_filled = true;
  payload = record (c.payload) {
    is_pipeline = false;
    is_params = true;
    sql = some (sql ∷ []);
    sql_count = pos 1;
    n_params = a.n_params;
    param_types = k.types;
    param_values = k.values;
    param_lengths = k.lengths;
    param_formats = k.formats;
    result_format = a.result_format;
    port_id = port_id;
    timeout_ms = timeout_ms;
  };
}

-- From the copy of the statement on, with the slot known to be free.
unfoldable pub commit_params : Conn → Text → Args → ℤ → ℤ → Heap → Outcome
unfolding malloc free
commit_params c sql a port_id timeout_ms h =
    let (sql_copy, h1) = dup_string (some sql) h in
    elim sql_copy [
      | none ↦ refuse (some c) h1
      | some t ↦
          let (ok, h2) = malloc h1 in
          if ok
          then (let (copies, h3) = copy_params a h2 in
              elim copies [
                | none ↦ refuse (some c) (free (block ok) (free (some t) h3))
                | some k ↦ record {
                  accepted = true;
                  conn = some (fill_params c t a k port_id timeout_ms);
                  heap = h3;
                }
              ])
          else refuse (some c) (free (some t) h2)
    ]

unfoldable pub submit_query_params : Option Conn → Option Text → Args → ℤ → ℤ → Heap → Outcome
unfolding commit_params
submit_query_params none sql a port_id timeout_ms h = refuse none h
submit_query_params (some c) none a port_id timeout_ms h = refuse (some c) h
submit_query_params (some c) (some sql) a port_id timeout_ms h =
    if lacks_arrays a
    then refuse (some c) h
    else if c.slot_filled || c.shutdown_requested
    then refuse (some c) h
    else commit_params c sql a port_id timeout_ms h
