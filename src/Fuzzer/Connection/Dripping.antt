-- ===== src/Fuzzer/Connection/Dripping.antt =====
-- When `slowloris` settles (tools/fuzz/http_fuzz.mjs).
use akamata.Prelude.{
  ℕ, suc, ◌+◌, ◌≤◌, ◌<◌, ◌≡◌, refl, ap, sym, subst, Bool-cases, inl, inr, ◌∙◌, Bool, true, false,
  List, [], ◌∷◌, arith, leb, if◌then◌else◌, ◌||◌,
}
use akamata.Fuzzer.Connection.{
  Stats, DripEvent, tick, ends, errs, times_out, Drip, open_drip, on_tick, on_drip, slowloris,
}

-- the calls of the interval's function
unfoldable pub ticks : List DripEvent → ℕ
ticks [] = 0
ticks (tick ∷ es) = suc (ticks es)
ticks (e ∷ es) = ticks es

abbrev pub NoTimeout : List DripEvent → Type 0
NoTimeout [] = Unit
NoTimeout (times_out ∷ es) = ⊥
NoTimeout (e ∷ es) = NoTimeout es

-- Without the interval, nothing settles and nothing is sent any more.
stopped :
    (total : ℕ) (es : List DripEvent) (d : Drip)
    → d.ticking ≡ false
    → ((slowloris total es d).settled ≡ d.settled)
      × ((slowloris total es d).stats.sent ≡ d.stats.sent)
unfolding slowloris on_drip
stopped total [] d t = (refl, refl)
stopped total (tick ∷ es) d t =
    let e = ap (λ b. slowloris total es (if b then on_tick total d else d)) t in
    let (a, b) = stopped total es d t in
    (ap (λ (x : Drip). x.settled) e ∙ a, ap (λ (x : Drip). x.stats.sent) e ∙ b)
stopped total (ends ∷ es) d t = stopped total es (on_drip total ends d) t
stopped total (errs ∷ es) d t = stopped total es (on_drip total errs d) t
stopped total (times_out ∷ es) d t = stopped total es (on_drip total times_out d) refl

-- what a call of the interval's function leaves
abbrev ticked : Bool → Drip → Drip
ticked b d =
    if b
    then record {
      stats = record d.stats { sent = suc d.stats.sent };
      position = d.position;
      ticking = false;
      destroyed = true;
      settled = true;
    }
    else record d { position = suc d.position }

abbrev Settles : ℕ → List DripEvent → ℕ → Drip → Type 0
Settles total es sent d =
    ((slowloris total es d).settled ≡ true) × ((slowloris total es d).stats.sent ≡ suc sent)

not_over : (a b : ℕ) (c : Bool) → (leb a b || c) ≡ false → b < a
not_over a b c e = ground arith

dripping :
    (total : ℕ) (es : List DripEvent) (d : Drip)
    → NoTimeout es
    → d.ticking ≡ true
    → d.position ≤ total
    → total < d.position + ticks es
    → Settles total es d.stats.sent d
unfolding slowloris on_drip on_tick ticks
dripping total [] d n t le lt = absurd (omega arith)
dripping total (times_out ∷ es) d n t le lt = absurd n
dripping total (ends ∷ es) d n t le lt = dripping total es (on_drip total ends d) n t le lt
dripping total (errs ∷ es) d n t le lt = dripping total es (on_drip total errs d) n t le lt
dripping total (tick ∷ es) d n t le lt =
    subst (λ b. Settles total es d.stats.sent (if b then on_tick total d else d)) (sym t)
      (elim (Bool-cases (leb total d.position || d.destroyed)) [
        | inl e ↦
            subst (λ b. Settles total es d.stats.sent (ticked b d)) (sym e)
              (stopped total es (ticked true d) refl)
        | inr e ↦
            subst (λ b. Settles total es d.stats.sent (ticked b d)) (sym e)
              (dripping total es (ticked false d) n t (not_over total d.position d.destroyed e)
                (omega (arith, lt)))
      ])

-- Without a timeout, whether the socket fails, is ended by the server, or neither: once the interval's function has been called one time more than the text has units, the promise of `slowloris` has settled, and
-- the attempt is counted as sent, once.
pub slowloris-settles :
    (total : ℕ) (es : List DripEvent) (st : Stats)
    → NoTimeout es
    → total < ticks es
    → ((slowloris total es (open_drip st)).settled ≡ true)
      × ((slowloris total es (open_drip st)).stats.sent ≡ suc st.sent)
unfolding open_drip
slowloris-settles total es st n lt =
    dripping total es (open_drip st) n refl (omega arith) (omega (arith, lt))

-- After a timeout the promise of `slowloris` does not settle any more, whatever comes: the worker that awaits it makes no further attempt.
pub slowloris-hangs :
    (total : ℕ) (es : List DripEvent) (d : Drip)
    → d.settled ≡ false
    → (slowloris total (times_out ∷ es) d).settled ≡ false
unfolding slowloris on_drip
slowloris-hangs total es d e = (stopped total es (on_drip total times_out d) refl).0 ∙ e
