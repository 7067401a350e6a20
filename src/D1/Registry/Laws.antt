-- ===== src/D1/Registry/Laws.antt =====
-- Laws of the `Map` behind the handles (deploy/worker/index.mjs).
use akamata.Prelude.{ℕ, ◌+◌, ◌<◌, ◌≡◌, refl, none, some, List, [], ◌∷◌, ◌==◌, if◌then◌else◌, arith}
use akamata.D1.Registry.{Statement, Registry, get, put, remove, with_entry, read_entry}

module _ {E : Type 0} where
  pub get-put :
      (h k : ℕ) (e : E) (m : List (ℕ × E))
      → get k (put h e m) ≡ (if h == k then some e else get k m)
  unfolding get put
  get-put h k e [] = refl
  get-put h k e ((j, e') ∷ m) = ground (arith, get-put h k e m)

  pub get-remove :
      (h k : ℕ) (m : List (ℕ × E)) → get k (remove h m) ≡ (if h == k then none else get k m)
  unfolding get remove
  get-remove h k [] = ground arith
  get-remove h k ((j, e') ∷ m) = ground (arith, get-remove h k m)

  -- every key is below `n`
  abbrev pub KeysBelow : ℕ → List (ℕ × E) → Type 0
  KeysBelow n [] = Unit
  KeysBelow n ((k, e) ∷ m) = (k < n) × KeysBelow n m

  pub KeysBelow-put :
      (n h : ℕ) (e : E) (m : List (ℕ × E)) → h < n → KeysBelow n m → KeysBelow n (put h e m)
  unfolding put
  KeysBelow-put n h e [] lt b = (lt, tt)
  KeysBelow-put n h e ((k, e') ∷ m) lt b = ground (arith, KeysBelow-put n h e m lt b.1)

  pub KeysBelow-remove : (n h : ℕ) (m : List (ℕ × E)) → KeysBelow n m → KeysBelow n (remove h m)
  unfolding remove
  KeysBelow-remove n h [] b = tt
  KeysBelow-remove n h ((k, e') ∷ m) b = ground (arith, KeysBelow-remove n h m b.1)

  pub KeysBelow-weaken : (n n' : ℕ) (m : List (ℕ × E)) → n < n' → KeysBelow n m → KeysBelow n' m
  KeysBelow-weaken n n' [] lt b = tt
  KeysBelow-weaken n n' ((k, e) ∷ m) lt b = (omega arith, KeysBelow-weaken n n' m lt b.1)

  -- a key that is not below the bound has no entry
  pub get-above : (n h : ℕ) (m : List (ℕ × E)) → KeysBelow n m → n < h + 1 → get h m ≡ none
  unfolding get
  get-above n h [] b le = refl
  get-above n h ((k, e) ∷ m) b le = ground (arith, get-above n h m b.1 le)

  pub get-below : (n h : ℕ) (m : List (ℕ × E)) (e : E) → KeysBelow n m → get h m ≡ some e → h < n
  unfolding get
  get-below n h [] e b f = cc
  get-below n h ((k, e') ∷ m) e b f = ground (arith, get-below n h m e b.1)

module _ {Base Num A : Type 0} (h : ℕ) (absent : A) (r : Registry Base Num) where
  pub with_entry-some :
      (f : Statement Base Num → A × Statement Base Num) (e : Statement Base Num)
      → get h r.stmts ≡ some e
      → with_entry h absent f r ≡ ((f e).0, record r { stmts = put h (f e).1 r.stmts })
  unfolding with_entry
  with_entry-some f e g = rw (g, with_entry)

  pub with_entry-none :
      (f : Statement Base Num → A × Statement Base Num)
      → get h r.stmts ≡ none
      → with_entry h absent f r ≡ (absent, r)
  unfolding with_entry
  with_entry-none f g = rw (g, with_entry)

  pub read_entry-some :
      (f : Statement Base Num → A) (e : Statement Base Num)
      → get h r.stmts ≡ some e
      → read_entry h absent f r ≡ f e
  unfolding read_entry
  read_entry-some f e g = rw (g, read_entry)

  pub read_entry-none :
      (f : Statement Base Num → A) → get h r.stmts ≡ none → read_entry h absent f r ≡ absent
  unfolding read_entry
  read_entry-none f g = rw (g, read_entry)
