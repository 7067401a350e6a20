-- ===== src/D1/Statements/Cursor.antt =====
-- The cursor of a statement (deploy/worker/index.mjs): `d1_run` materialises the rows of the answer,
-- and `d1_step` gives each of them once, in their order.
use akamata.Prelude.{
  ℕ, zero, suc, ◌+◌, ◌≤◌, ◌≡◌, refl, sym, ap, ap₂, ◌∙◌, true, Option, none, some, List, [], ◌∷◌,
  ◌++◌, map, append_assoc, arith, length, get_elem?, length-append, get_elem?-append_length,
}
use akamata.Prelude.Numbers.{ℤ, pos, negsuc, minus}
use akamata.D1.Values.{RawResult, array, Bound}
use akamata.D1.Registry.{Row, Statement, Registry, get, put, read_entry}
use akamata.D1.Registry.Laws.{get-put, with_entry-some, read_entry-some}
use akamata.D1.Statements.{bound, materialise, d1_run, step_entry, d1_step}

module _ {Base Num : Type 0} where
  -- the row under the cursor
  unfoldable pub current : ℕ → Registry Base Num → Option (Row Num)
  unfolding read_entry
  current h r = read_entry h none (λ e. e.current_row) r

  -- The rows that a caller sees who steps until the answer is not 1, at most `n` times.
  unfoldable pub drain : ℕ → ℕ → Registry Base Num → List (Option (Row Num))
  drain zero h r = []
  drain (suc n) h r =
      let s : ℤ × Registry Base Num = d1_step h r in
      let rest = current h s.1 ∷ drain n h s.1 in
      elim s.0 [ pos k ↦ elim k [ zero ↦ [] | suc _ ↦ rest ] | negsuc k ↦ [] ]

  -- The entry of `h` has these rows, and its cursor stands behind the first of them.
  record At (h : ℕ) (before after : List (Row Num)) (r : Registry Base Num) : Type 0 where
    entry : Statement Base Num
    found : get h r.stmts ≡ some entry
    rows : entry.rows ≡ some (before ++ after)
    cursor : entry.cursor ≡ length before

  step_entry-done :
      (e : Statement Base Num) (rows : List (Row Num))
      → e.rows ≡ some rows
      → length rows ≤ e.cursor
      → (step_entry e).0 ≡ pos 0
  unfolding step_entry
  step_entry-done e rows h le = ground arith

  step_entry-row :
      (e : Statement Base Num) (rows : List (Row Num))
      → e.rows ≡ some rows
      → suc e.cursor ≤ length rows
      → step_entry e
        ≡ (pos 1, record e { current_row = get_elem? rows e.cursor; cursor = e.cursor + 1 })
  unfolding step_entry
  step_entry-row e rows h le = ground arith

  step-done :
      (h : ℕ) (before : List (Row Num)) (r : Registry Base Num)
      → At h before [] r
      → (d1_step h r).0 ≡ pos 0
  unfolding d1_step
  step-done h before r a =
      ap (λ (x : ℤ × Registry Base Num). x.0)
        (with_entry-some h (minus 1) r step_entry a.entry a.found)
      ∙ step_entry-done a.entry (before ++ []) a.rows
          (omega (arith, a.cursor, length-append {0} before []))

  abbrev moved : Statement Base Num → List (Row Num) → Statement Base Num
  moved e rows = record e { current_row = get_elem? rows e.cursor; cursor = e.cursor + 1 }

  step-eq :
      (h : ℕ) (before after : List (Row Num)) (row : Row Num) (r : Registry Base Num)
      (a : At h before (row ∷ after) r)
      → d1_step h r
        ≡ (pos 1, record r { stmts = put h (moved a.entry (before ++ row ∷ after)) r.stmts })
  unfolding d1_step
  step-eq h before after row r a =
      with_entry-some h (minus 1) r step_entry a.entry a.found
      ∙ ap (λ (x : ℤ × Statement Base Num). (x.0, record r { stmts = put h x.1 r.stmts }))
          (step_entry-row a.entry (before ++ row ∷ after) a.rows
            (omega (arith, a.cursor, length-append {0} before (row ∷ after))))

  found-moved :
      (h : ℕ) (before after : List (Row Num)) (row : Row Num) (r : Registry Base Num)
      (a : At h before (row ∷ after) r)
      → get h (put h (moved a.entry (before ++ row ∷ after)) r.stmts)
        ≡ some (moved a.entry (before ++ row ∷ after))
  found-moved h before after row r a =
      ground (arith, get-put h h (moved a.entry (before ++ row ∷ after)) r.stmts)

  At-moved :
      (h : ℕ) (before after : List (Row Num)) (row : Row Num) (r : Registry Base Num)
      (a : At h before (row ∷ after) r)
      → At h
          (before ++ row ∷ [])
          after
          (record r { stmts = put h (moved a.entry (before ++ row ∷ after)) r.stmts })
  At-moved h before after row r a = record {
    entry = moved a.entry (before ++ row ∷ after);
    found = found-moved h before after row r a;
    rows = a.rows ∙ ap some (sym (append_assoc before (row ∷ []) after));
    cursor = omega (arith, a.cursor, length-append {0} before (row ∷ []));
  }

  current-moved :
      (h : ℕ) (before after : List (Row Num)) (row : Row Num) (r : Registry Base Num)
      (a : At h before (row ∷ after) r)
      → current h (record r { stmts = put h (moved a.entry (before ++ row ∷ after)) r.stmts })
        ≡ some row
  unfolding current
  current-moved h before after row r a =
      read_entry-some h none
        (record r { stmts = put h (moved a.entry (before ++ row ∷ after)) r.stmts })
        (λ e. e.current_row) (moved a.entry (before ++ row ∷ after))
        (found-moved h before after row r a)
      ∙ ap (get_elem? (before ++ row ∷ after)) a.cursor
      ∙ get_elem?-append_length before after row

  abbrev rest_of : ℕ → ℕ → ℤ × Registry Base Num → List (Option (Row Num))
  rest_of n h s =
      let rest = current h s.1 ∷ drain n h s.1 in
      elim s.0 [ pos k ↦ elim k [ zero ↦ [] | suc _ ↦ rest ] | negsuc k ↦ [] ]

  drain-At :
      (h : ℕ) (before after : List (Row Num)) (r : Registry Base Num)
      → At h before after r
      → drain (suc (length after)) h r ≡ map some after
  unfolding drain
  drain-At h before [] r a = rw (step-done h before r a, drain)
  drain-At h before (row ∷ after) r a =
      ap (rest_of (suc (length after)) h) (step-eq h before after row r a)
      ∙ ap₂ (λ c (rows : List (Option (Row Num))). c ∷ rows) (current-moved h before after row r a)
          (drain-At h (before ++ row ∷ []) after _ (At-moved h before after row r a))

  At-start :
      (h : ℕ) (names : Row Num) (rows : List (Row Num)) (e : Statement Base Num)
      (r : Registry Base Num)
      → At h [] rows (record r {
        stmts =
            put h (record e { column_names = some names; rows = some rows; cursor = 0 }) r.stmts;
      })
  At-start h names rows e r = record {
    entry = record e { column_names = some names; rows = some rows; cursor = 0 };
    found = ground (
      arith,
      get-put h h (record e { column_names = some names; rows = some rows; cursor = 0 }) r.stmts,
    );
    rows = refl;
    cursor = refl;
  }

  -- `d1_run` of an answer with rows: what it returns, and the registry after it
  run-eq :
      (raw : Bound Base Num → RawResult Num) (h : ℕ) (names : Row Num) (rows : List (Row Num))
      (e : Statement Base Num) (r : Registry Base Num)
      → get h r.stmts ≡ some e
      → raw (bound e.base e.bind_args) ≡ array (names ∷ rows)
      → d1_run true raw h r ≡ (
        pos (length rows),
        record r {
          stmts =
              put h (record e { column_names = some names; rows = some rows; cursor = 0 }) r.stmts;
        },
      )
  unfolding d1_run
  run-eq raw h names rows e r g a =
      with_entry-some h (minus 1) r (λ e'. materialise (raw (bound e'.base e'.bind_args)) e') e g
      ∙ ap (λ x. let (c, e') = materialise x e in (c, record r { stmts = put h e' r.stmts })) a

-- If the database answers a statement with column names and rows, `d1_run` returns the number of the
-- rows; stepping then gives each row once, in their order, and after the last one the answer is no
-- longer 1.
pub run-drain :
    {Base Num : Type 0} (raw : Bound Base Num → RawResult Num) (h : ℕ) (names : Row Num)
    (rows : List (Row Num)) (e : Statement Base Num) (r : Registry Base Num)
    → get h r.stmts ≡ some e
    → raw (bound e.base e.bind_args) ≡ array (names ∷ rows)
    → ((d1_run true raw h r).0 ≡ pos (length rows))
      × (drain (suc (length rows)) h (d1_run true raw h r).1 ≡ map some rows)
run-drain raw h names rows e r g a =
    let eq = run-eq raw h names rows e r g a in
    (
      ap (λ (x : ℤ × Registry _ _). x.0) eq,
      ap (λ (x : ℤ × Registry _ _). drain (suc (length rows)) h x.1) eq
          ∙ drain-At h [] rows _ (At-start h names rows e r),
    )
