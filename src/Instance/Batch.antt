-- ===== src/Instance/Batch.antt =====
-- What becomes of the messages of a batch (`queue` of deploy/worker/index.mjs).
use akamata.Prelude.{
  ℕ, zero, suc, ◌≡◌, ◌⊎◌, refl, sym, ap, subst, Bool, true, false, Option, none, some, List, [],
  ◌∷◌, map, length, of_some, Option-cases, inl, inr,
}
use akamata.Prelude.Numbers.{ℤ, pos, negsuc}
use akamata.Text.{text}
use akamata.Text.Utf8.{encode}
use akamata.Json.{Json, Codec, object, member, end, string, integer}
use akamata.Instance.{
  Exports, Verdict, ack, retry, verdict, QueueMessage, payload_with, payload, BatchDone, write,
  enter_queue, consume, consume_all, retry_all, queue,
}

module _ {S : Type 0} (x : Exports S) (codec : Codec) where
  -- The bytes are in a buffer of the instance, and its `handle_queue` answers 0.
  abbrev pub Succeeds : List ℕ → S → Type 0
  Succeeds bs s =
      (s' : S) × (write x (x.alloc (length bs) s).0 bs (x.alloc (length bs) s).1 ≡ some s')
      × ((x.handle_queue (x.alloc (length bs) s).0 (length bs) s').0 ≡ some (pos 0))

  -- A message with its verdict: the instance was given its JSON text at some state, and the verdict is
  -- `ack` just if that has succeeded.
  pub record WasTried (q : QueueMessage) (v : Verdict) : Type 0 where
    pub body : Json
    pub timestamp : List ℕ
    pub has_body : q.body ≡ some body
    pub has_timestamp : q.timestamp ≡ some timestamp
    pub state : S
    pub settled :
        let bs = encode (
          codec.stringify (
            object (
              member (text "body") body (
                member (text "event_id") (string q.id) (
                  member
                    (text "attempt")
                    (integer (pos q.attempts))
                    (member (text "timestamp") (string timestamp) end)))))) in
        ((v ≡ ack) × Succeeds bs state) ⊎ ((v ≡ retry) × ¬ Succeeds bs state)

  -- The messages have their verdicts one by one, up to the end of the batch or up to a message that cannot be written
  -- as JSON, at which the call throws.
  abbrev pub IsThrough : List QueueMessage → List Verdict → Bool → Type 0
  IsThrough [] [] false = Unit
  IsThrough (q ∷ batch) [] true = (q.body ≡ none) ⊎ (q.timestamp ≡ none)
  IsThrough (q ∷ batch) (v ∷ vs) threw = WasTried q v × IsThrough batch vs threw
  IsThrough _ _ _ = ⊥

  abbrev Settled : Verdict → List ℕ → S → Type 0
  Settled v bs s = ((v ≡ ack) × Succeeds bs s) ⊎ ((v ≡ retry) × ¬ Succeeds bs s)

  answered :
      (bs : List ℕ) (s s' : S) (o : Option ℤ)
      → write x (x.alloc (length bs) s).0 bs (x.alloc (length bs) s).1 ≡ some s'
      → (x.handle_queue (x.alloc (length bs) s).0 (length bs) s').0 ≡ o
      → Settled (verdict o) bs s
  unfolding verdict
  answered bs s s' none w e = inr (refl, λ y. let (t, u, a) = y in cc (w, u, e, a))
  answered bs s s' (some (pos zero)) w e = inl (refl, (s', w, e))
  answered bs s s' (some (pos (suc n))) w e = inr (refl, λ y. let (t, u, a) = y in cc (w, u, e, a))
  answered bs s s' (some (negsuc n)) w e = inr (refl, λ y. let (t, u, a) = y in cc (w, u, e, a))

  consumed_by :
      (bs : List ℕ) (s : S) (o : Option S)
      → write x (x.alloc (length bs) s).0 bs (x.alloc (length bs) s).1 ≡ o
      → Settled
          (verdict
            (enter_queue x (x.alloc (length bs) s).0 (length bs) (x.alloc (length bs) s).1 o).value)
          bs
          s
  unfolding enter_queue verdict
  consumed_by bs s none w = inr (refl, λ y. let (t, u, a) = y in cc (w, u))
  consumed_by bs s (some s') w = answered bs s s' _ w refl

  consumed : (bs : List ℕ) (s : S) → Settled (verdict (consume x bs s).value) bs s
  unfolding consume
  consumed bs s = consumed_by bs s _ refl

  tried :
      (q : QueueMessage) (bs : List ℕ) (v : Verdict) (s : S)
      → payload codec q ≡ some bs
      → Settled v bs s
      → WasTried q v
  unfolding payload
  tried q bs v s e settled = written q.body q.timestamp refl refl (sym e)
    where
      written :
          (o : Option Json) (t : Option (List ℕ))
          → q.body ≡ o
          → q.timestamp ≡ t
          → some bs ≡ payload_with codec q.id q.attempts o t
          → WasTried q v
      written none t b c f = cc
      written (some body) none b c f = cc
      written (some body) (some timestamp) b c f = record {
        body = body;
        timestamp = timestamp;
        has_body = b;
        has_timestamp = c;
        state = s;
        settled = subst (λ w. Settled v w s) (of_some f) settled;
      }

  unwritten : (q : QueueMessage) → payload codec q ≡ none → (q.body ≡ none) ⊎ (q.timestamp ≡ none)
  unfolding payload
  unwritten q e = without q.body q.timestamp e
    where
      without :
          (o : Option Json) (t : Option (List ℕ))
          → payload_with codec q.id q.attempts o t ≡ none
          → (o ≡ none) ⊎ (t ≡ none)
      without none t f = inl refl
      without (some body) none f = inr refl
      without (some body) (some timestamp) f = cc

  abbrev after_payload :
      (ℕ → S → S) → QueueMessage → List QueueMessage → S → Option (List ℕ) → BatchDone S
  after_payload between q batch s none = record { verdicts = []; threw = true; state = s }
  after_payload between q batch s (some bs) =
      let b : BatchDone S =
        consume_all x codec (λ n. between (suc n)) batch (consume x bs (between 0 s)).state in
      record b { verdicts = verdict (consume x bs (between 0 s)).value ∷ b.verdicts }

  abbrev IsThroughOf : List QueueMessage → BatchDone S → Type 0
  IsThroughOf batch b = IsThrough batch b.verdicts b.threw

  consume_all-IsThrough :
      (between : ℕ → S → S) (batch : List QueueMessage) (s : S)
      → IsThrough batch
          (consume_all x codec between batch s).verdicts
          (consume_all x codec between batch s).threw
  unfolding consume_all
  consume_all-IsThrough between [] s = tt
  consume_all-IsThrough between (q ∷ batch) s = elim (Option-cases (payload codec q)) [
    | inl e ↦
        subst (λ o. IsThroughOf (q ∷ batch) (after_payload between q batch s o)) (sym e)
          (unwritten q e)
    | inr (bs, e) ↦
        subst (λ o. IsThroughOf (q ∷ batch) (after_payload between q batch s o)) (sym e)
          (
            tried q bs _ (between 0 s) e (consumed bs (between 0 s)),
            consume_all-IsThrough (λ n. between (suc n)) batch (consume x bs (between 0 s)).state,
          )
  ]

  retry_all-eq : (batch : List QueueMessage) → retry_all x batch ≡ map (λ q. retry) batch
  unfolding retry_all
  retry_all-eq [] = refl
  retry_all-eq (q ∷ batch) = ap (λ vs. retry ∷ vs) (retry_all-eq batch)

-- With a `handle_queue`, the messages of a batch get their verdicts one by one: each was given to the instance as its JSON text, at some state, and
-- is acknowledged just if `handle_queue` has answered 0 there. That goes on to the end of the batch, or, if `JSON.stringify` or
-- `toISOString` throws on a message, up to it: then the call throws, and this message and those behind it have no verdict. Without
-- a `handle_queue`, every message is retried, and nothing throws.
pub queue-IsThrough :
    {S : Type 0} (x : Exports S) (codec : Codec) (between : ℕ → S → S) (batch : List QueueMessage)
    (s : S)
    → IsThrough x codec batch
        (queue x codec true between batch s).verdicts
        (queue x codec true between batch s).threw
      × ((queue x codec false between batch s).verdicts ≡ map (λ q. retry) batch)
      × ((queue x codec false between batch s).threw ≡ false)
unfolding queue
queue-IsThrough x codec between batch s =
    (consume_all-IsThrough x codec between batch s, retry_all-eq x codec batch, refl)
