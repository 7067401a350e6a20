-- ===== src/D1/Registry.antt =====
-- deploy/worker/index.mjs: `d1stmts`, `nextStmtId`, `lastD1Meta` and the entries of the registry.
pub mod Laws
use akamata.Prelude.{ℕ, ◌+◌, Option, none, some, List, [], ◌∷◌, ◌==◌, if◌then◌else◌}
use akamata.D1.Values.{Value, Platform}

-- A `Map` with integer keys
module _ {E : Type 0} where
  unfoldable pub get : ℕ → List (ℕ × E) → Option E
  get h [] = none
  get h ((k, e) ∷ m) = if k == h then some e else get h m

  -- a new key goes to the end
  unfoldable pub put : ℕ → E → List (ℕ × E) → List (ℕ × E)
  put h e [] = (h, e) ∷ []
  put h e ((k, e') ∷ m) = if k == h then (k, e) ∷ m else (k, e') ∷ put h e m

  unfoldable pub remove : ℕ → List (ℕ × E) → List (ℕ × E)
  remove h [] = []
  remove h ((k, e) ∷ m) = if k == h then remove h m else (k, e) ∷ remove h m

abbrev pub Row : Type 0 → Type 0
Row Num = List (Value Num)

pub record Statement (Base Num : Type 0) : Type 0 where
  pub base : Base
  pub bind_args : List (Value Num)
  pub rows : Option (List (Row Num))
  pub cursor : ℕ
  pub current_row : Option (Row Num)
  pub column_names : Option (Row Num)

-- `lastD1Meta`
pub record Meta (Num : Type 0) : Type 0 where
  pub changes : Num
  pub last_row_id : Num

pub record Registry (Base Num : Type 0) : Type 0 where
  pub stmts : List (ℕ × Statement Base Num)
  pub next_id : ℕ
  pub last_meta : Meta Num

module _ {Base Num : Type 0} where
  -- `stmtRegistryAlloc`
  unfoldable pub stmt_registry_alloc :
      Statement Base Num → Registry Base Num → ℕ × Registry Base Num
  unfolding put
  stmt_registry_alloc e r =
      (r.next_id, record r { stmts = put r.next_id e r.stmts; next_id = r.next_id + 1 })

  -- `const e = d1stmts.get(h); if (!e) return …`, and else a change of that entry in place
  unfoldable pub with_entry :
      {A : Type 0}
      → ℕ
      → A
      → (Statement Base Num → A × Statement Base Num)
      → Registry Base Num
      → A × Registry Base Num
  unfolding get put
  with_entry h absent f r = elim (get h r.stmts) [
    | none ↦ (absent, r)
    | some e ↦ ((f e).0, record r { stmts = put h (f e).1 r.stmts })
  ]

  -- The same for a call that only reads.
  unfoldable pub read_entry :
      {A : Type 0} → ℕ → A → (Statement Base Num → A) → Registry Base Num → A
  unfolding get
  read_entry h absent f r = elim (get h r.stmts) [ none ↦ absent | some e ↦ f e ]
