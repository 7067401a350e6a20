-- ===== src/Guestbook/Simulation.antt =====
-- The guestbook's bridge to D1 (deploy/guestbook/worker/index.mjs) is that of deploy/worker/index.mjs without what `run()` reports.
use mathlib.Core.Option
use akamata.Prelude.{◌≡◌, refl, sym, ap, subst, ◌∙◌, true, false, Option, none, some, List, [], ◌∷◌}
use akamata.Prelude.Numbers.{ℤ}
use akamata.Memory.{Memory, read_bytes, read_string}
use akamata.D1.Values.{null, number, string, bytes, Platform, RunMeta}
use akamata.D1.Registry.{Registry}
use akamata.D1.Statements.{
  Reply, reply, trap, exec_on, prepare_on, suspending, reset_entry, set_arg, bound, materialise,
  step_entry,
}
use akamata.D1.Statements as Main
use akamata.D1.Statements.Handles.{
  Call, prepare, bind_int64, bind_double, bind_text, bind_blob, bind_null, run, step, reset,
  finalize, exec,
}
use akamata.Guestbook.Statements.{
  Table, change, look, prepare_with, ran, store, bind_arg, query, keep_rows, asked, advance_in,
  advance, value_at,
}
use akamata.Guestbook.Statements as Guest
use akamata.Guestbook.Entries.{
  table_of, forget, change-with_entry, change-same, prepare-same, bind-same, run-same, step-same,
}
use akamata.Guestbook.Readings.{ReadsAlike, reads_alike}

-- What the instance sees of a call.
pub data Seen : Type 0 where
  code : ℤ → Seen
  answer : Reply ℤ → Seen
  nothing : Seen

module _ (p : Platform) where
  -- one call in the worker of deploy/worker/index.mjs, and one in the guestbook's
  unfoldable pub main_call : Call p → Registry p.Base p.Num → Seen × Registry p.Base p.Num
  main_call (prepare db m ptr len) r = let (c, r') = Main.d1_prepare db m ptr len r in (code c, r')
  main_call (bind_int64 h i v) r =
      let (c, r') = Main.d1_bind_int64 p.number_of h i v r in (answer c, r')
  main_call (bind_double h i v) r = let (c, r') = Main.d1_bind_double h i v r in (answer c, r')
  main_call (bind_text m h i ptr len) r =
      let (c, r') = Main.d1_bind_text m h i ptr len r in (answer c, r')
  main_call (bind_blob m h i ptr len) r =
      let (c, r') = Main.d1_bind_blob m h i ptr len r in (answer c, r')
  main_call (bind_null h i) r = let (c, r') = Main.d1_bind_null h i r in (answer c, r')
  main_call (run jspi raw h) r = let (c, r') = Main.d1_run jspi raw h r in (code c, r')
  main_call (step h) r = let (c, r') = Main.d1_step h r in (code c, r')
  main_call (reset h) r = (nothing, Main.d1_reset h r)
  main_call (finalize h) r = (nothing, Main.d1_finalize h r)
  main_call (exec jspi db m ptr len) r =
      let (c, r') = Main.d1_exec p.to_number p.number_of jspi db m ptr len r in (code c, r')

  unfoldable pub guest_call : Call p → Table p.Base p.Num → Seen × Table p.Base p.Num
  guest_call (prepare db m ptr len) t =
      let (c, t') = Guest.d1_prepare db m ptr len t in (code c, t')
  guest_call (bind_int64 h i v) t =
      let (c, t') = Guest.d1_bind_int64 p.number_of h i v t in (answer c, t')
  guest_call (bind_double h i v) t = let (c, t') = Guest.d1_bind_double h i v t in (answer c, t')
  guest_call (bind_text m h i ptr len) t =
      let (c, t') = Guest.d1_bind_text m h i ptr len t in (answer c, t')
  guest_call (bind_blob m h i ptr len) t =
      let (c, t') = Guest.d1_bind_blob m h i ptr len t in (answer c, t')
  guest_call (bind_null h i) t = let (c, t') = Guest.d1_bind_null h i t in (answer c, t')
  guest_call (run jspi raw h) t = let (c, t') = Guest.d1_run jspi raw h t in (code c, t')
  guest_call (step h) t = let (c, t') = Guest.d1_step h t in (code c, t')
  guest_call (reset h) t = (nothing, Guest.d1_reset h t)
  guest_call (finalize h) t = (nothing, Guest.d1_finalize h t)
  guest_call (exec jspi db m ptr len) t =
      let (c, t') = Guest.d1_exec jspi db m ptr len t in (code c, t')

  -- a sequence of calls, with what the instance sees
  unfoldable pub main_calls :
      List (Call p) → Registry p.Base p.Num → List Seen × Registry p.Base p.Num
  unfolding main_call
  main_calls [] r = ([], r)
  main_calls (c ∷ cs) r =
      let (s, r') = main_call c r in let (ss, r'') = main_calls cs r' in (s ∷ ss, r'')

  unfoldable pub guest_calls : List (Call p) → Table p.Base p.Num → List Seen × Table p.Base p.Num
  unfolding guest_call
  guest_calls [] t = ([], t)
  guest_calls (c ∷ cs) t =
      let (s, t') = guest_call c t in let (ss, t'') = guest_calls cs t' in (s ∷ ss, t'')

  abbrev named : {A : Type 0} → (A → Seen) → A × Table p.Base p.Num → Seen × Table p.Base p.Num
  named f (a, t) = (f a, t)

  exec_same :
      (o : Option (RunMeta p.Num)) (r : Registry p.Base p.Num)
      → ran o (table_of r) ≡ forget (exec_on p.to_number p.number_of o r)
  unfolding ran exec_on
  exec_same none r = refl
  exec_same (some x) r = refl

  call_same :
      (c : Call p) (r : Registry p.Base p.Num) → guest_call c (table_of r) ≡ forget (main_call c r)
  unfolding guest_call main_call suspending Guest.d1_prepare Main.d1_prepare Guest.d1_bind_int64
      Main.d1_bind_int64 Guest.d1_bind_double Main.d1_bind_double Guest.d1_bind_text
      Main.d1_bind_text Guest.d1_bind_blob Main.d1_bind_blob Guest.d1_bind_null Main.d1_bind_null
      Guest.d1_run Main.d1_run Guest.d1_step Main.d1_step Guest.d1_reset Main.d1_reset
      Guest.d1_finalize Main.d1_finalize Guest.d1_exec Main.d1_exec
  call_same (prepare none m ptr len) r = refl
  call_same (prepare (some db) m ptr len) r =
      ap (named code) (prepare-same (Option.bind (read_string m ptr len) db.prepare) r)
  call_same (bind_int64 h i v) r =
      ap (named answer) (bind-same h i (some (number (p.number_of v))) r)
  call_same (bind_double h i v) r = ap (named answer) (bind-same h i (some (number v)) r)
  call_same (bind_text m h i ptr len) r =
      ap (named answer) (bind-same h i (Option.map string (read_string m ptr len)) r)
  call_same (bind_blob m h i ptr len) r =
      ap (named answer) (bind-same h i (Option.map bytes (read_bytes m ptr len)) r)
  call_same (bind_null h i) r = ap (named answer) (bind-same h i (some null) r)
  call_same (run true raw h) r = ap (named code) (change-same h _ _ _ r (run-same raw))
  call_same (run false raw h) r = refl
  call_same (step h) r = ap (named code) (change-same h _ _ _ r step-same)
  call_same (reset h) r =
      ap (λ (x : Unit × Table p.Base p.Num). (nothing, x.1))
        (change-with_entry h tt (λ e. (tt, reset_entry e)) r)
  call_same (finalize h) r = refl
  call_same (exec jspi none m ptr len) r = refl
  call_same (exec false (some db) m ptr len) r = refl
  call_same (exec true (some db) m ptr len) r =
      ap (named code)
        (exec_same (Option.bind (Option.bind (read_string m ptr len) db.prepare) db.run) r)

  calls_same :
      (cs : List (Call p)) (r : Registry p.Base p.Num)
      → guest_calls cs (table_of r) ≡ forget (main_calls cs r)
  unfolding guest_calls main_calls
  calls_same [] r = refl
  calls_same (c ∷ cs) r =
      ap (λ (x : Seen × Table p.Base p.Num). let (ss, t') = guest_calls cs x.1 in (x.0 ∷ ss, t'))
        (call_same c r)
      ∙ ap (λ (y : List Seen × Table p.Base p.Num). ((main_call c r).0 ∷ y.0, y.1))
          (calls_same cs (main_call c r).1)

-- Any sequence of calls of the D1 bridge, with any answers of the database: the guestbook's bridge gives the instance the same codes, answers and throws as
-- the bridge of the main worker, has the same statements afterwards, and every column reads the same.
pub guest_calls-main_calls :
    (p : Platform) (cs : List (Call p)) (r : Registry p.Base p.Num) (m : Memory)
    → ((guest_calls p cs (table_of r)).0 ≡ (main_calls p cs r).0)
      × ((guest_calls p cs (table_of r)).1 ≡ table_of (main_calls p cs r).1)
      × ReadsAlike p (guest_calls p cs (table_of r)).1 (main_calls p cs r).1 m
guest_calls-main_calls p cs r m =
    let same = calls_same p cs r in
    let after = ap (λ (x : List Seen × Table p.Base p.Num). x.1) same in
    (
      ap (λ (x : List Seen × Table p.Base p.Num). x.0) same,
      after,
      subst (λ t. ReadsAlike p t (main_calls p cs r).1 m) (sym after)
          (reads_alike p (main_calls p cs r).1 m),
    )
