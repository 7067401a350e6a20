-- ===== src/Producer/Messages.antt =====
-- The messages that `akamata_queue_send` of deploy/worker/index.mjs gives to a queue, and its codes.
use akamata.Prelude.{
  Bool, true, ℕ, ◌≡◌, ◌≢◌, ◌⊎◌, refl, sym, ap, subst, ◌∙◌, false, Option, none, some, arith, inl,
  inr, Bool-cases, if◌then◌else◌,
}
use akamata.Prelude.Numbers.{pos, minus}
use akamata.Text.{Text, text, same}
use akamata.Text.Laws.{same_iff, same_refl}
use akamata.Memory.{Memory, read_string}
use akamata.Json.{Json, Members, end, member, Codec, find, get}
use akamata.D1.Statements.{reply}
use akamata.Producer.{
  put_member, spread, queue_message, parse_at, Sent, Send, send_to, both, send_by, send_named,
  akamata_queue_send,
}

find-put_member : (k : Text) (v : Json) (ms : Members) → find k (put_member k v ms) ≡ some v
unfolding find put_member
find-put_member k v end = ground (arith, same_refl k)
find-put_member k v (member j w ms) = ground (arith, find-put_member k v ms, same_refl k)

find-put_other :
    (k l : Text) (v : Json) (ms : Members)
    → same k l ≡ false
    → find l (put_member k v ms) ≡ find l ms
unfolding find put_member
find-put_other k l v end n = ground arith
find-put_other k l v (member j w ms) n = elim (Bool-cases (same j k)) [
  | inl e ↦ let q : same j l ≡ false = ap (λ t. same t l) ((same_iff j k).0 e) ∙ n in rw (e, q) refl
  | inr e ↦ rw e (ap (λ r. if same j l then some w else r) (find-put_other k l v ms n))
]

not_same : (k : Text) → k ≢ text "payload" → same (text "payload") k ≡ false
not_same k ne = elim (Bool-cases (same (text "payload") k)) [
  | inl e ↦ absurd (ne (sym ((same_iff (text "payload") k).0 e)))
  | inr e ↦ e
]

-- What a call of `send` was given
pub record IsMessage (metadata payload message : Json) : Type 0 where
  pub payload_field : get (text "payload") message ≡ some payload
  pub other_fields : (k : Text) → k ≢ text "payload" → get k message ≡ find k (spread metadata)

queue_message-IsMessage :
    (metadata payload : Json) → IsMessage metadata payload (queue_message metadata payload)
unfolding queue_message get
queue_message-IsMessage metadata payload = record {
  payload_field = find-put_member (text "payload") payload (spread metadata);
  other_fields =
      λ k ne. find-put_other (text "payload") k payload (spread metadata) (not_same k ne);
}

of_reply : {s t : Sent} → reply s ≡ reply t → s ≡ t
of_reply e = cc

module _ (jspi : Bool) (env : Text → Option Send) (codec : Codec)
    (binding_ptr binding_len meta_ptr meta_len payload_ptr payload_len : ℕ) (m : Memory) where
  -- a call that has handed over a message
  pub record HandedOver (s : Sent) : Type 0 where
    pub suspends : jspi ≡ true
    pub binding : Text
    pub send : Send
    pub metadata : Json
    pub payload : Json
    pub message : Json
    pub named : read_string m binding_ptr binding_len ≡ some binding
    pub bound : env binding ≡ some send
    pub metadata_read : parse_at codec m meta_ptr meta_len ≡ some metadata
    pub payload_read : parse_at codec m payload_ptr payload_len ≡ some payload
    pub sent : s.message ≡ some message
    pub shape : IsMessage metadata payload message
    pub code : s.code ≡ (if send message then pos 0 else minus 1)

  -- a call that has handed over nothing
  pub record GaveNothing (s : Sent) : Type 0 where
    pub nothing : s.message ≡ none
    pub code :
        ((s.code ≡ minus 1)
          × ((parse_at codec m meta_ptr meta_len ≡ none)
              ⊎ (parse_at codec m payload_ptr payload_len ≡ none)))
        ⊎ ((s.code ≡ minus 2)
            × ((jspi ≡ false)
                ⊎ ((binding : Text) × (read_string m binding_ptr binding_len ≡ some binding)
                    × (env binding ≡ none))))

  given :
      (binding : Text) (send : Send) (o p : Option Json)
      → jspi ≡ true
      → read_string m binding_ptr binding_len ≡ some binding
      → env binding ≡ some send
      → parse_at codec m meta_ptr meta_len ≡ o
      → parse_at codec m payload_ptr payload_len ≡ p
      → HandedOver (send_to send (both o p)) ⊎ GaveNothing (send_to send (both o p))
  unfolding send_to
  given binding send none p j n b q r = inr (record { nothing = refl; code = inl (refl, inl q) })
  given binding send (some metadata) none j n b q r =
      inr (record { nothing = refl; code = inl (refl, inr r) })
  given binding send (some metadata) (some payload) j n b q r = inl (record {
    suspends = j;
    binding = binding;
    send = send;
    metadata = metadata;
    payload = payload;
    message = queue_message metadata payload;
    named = n;
    bound = b;
    metadata_read = q;
    payload_read = r;
    sent = refl;
    shape = queue_message-IsMessage metadata payload;
    code = refl;
  })

  bound_to :
      (binding : Text) (o : Option Send)
      → jspi ≡ true
      → read_string m binding_ptr binding_len ≡ some binding
      → env binding ≡ o
      → HandedOver (send_by codec meta_ptr meta_len payload_ptr payload_len m o)
        ⊎ GaveNothing (send_by codec meta_ptr meta_len payload_ptr payload_len m o)
  bound_to binding none j n b =
      inr (record { nothing = refl; code = inr (refl, inr (binding, n, b)) })
  bound_to binding (some send) j n b = given binding send _ _ j n b refl refl

  finished :
      (s : Sent) (o : Option Text)
      → jspi ≡ true
      → read_string m binding_ptr binding_len ≡ o
      → send_named env codec meta_ptr meta_len payload_ptr payload_len m o ≡ reply s
      → HandedOver s ⊎ GaveNothing s
  finished s none j q e = cc
  finished s (some binding) j q e =
      subst (λ t. HandedOver t ⊎ GaveNothing t) (of_reply e)
        (bound_to binding (env binding) j q refl)

  refused :
      (s : Sent) → jspi ≡ false → record { code = minus 2; message = none } ≡ s → GaveNothing s
  refused s j e = subst GaveNothing e (record { nothing = refl; code = inr (refl, inl j) })

-- Let `akamata_queue_send` return. Either it has called `send` of the named binding once, with a message in which `payload` is what the
-- payload parses to and every other field is as in the metadata, and its code is 0 or -1 as `send` has accepted
-- it or not; or it has called nothing, and its code is -1, since one of the two texts is none or does not parse, or -2, since
-- the binding has no `send` or there is no JSPI.
pub akamata_queue_send-sends :
    (jspi : Bool) (env : Text → Option Send) (codec : Codec)
    (binding_ptr binding_len meta_ptr meta_len payload_ptr payload_len : ℕ) (m : Memory) (s : Sent)
    → akamata_queue_send jspi env codec binding_ptr binding_len meta_ptr meta_len payload_ptr
        payload_len m
      ≡ reply s
    → HandedOver jspi env codec binding_ptr binding_len meta_ptr meta_len payload_ptr payload_len m
        s
      ⊎ GaveNothing jspi env codec binding_ptr binding_len meta_ptr meta_len payload_ptr payload_len
          m s
unfolding akamata_queue_send
akamata_queue_send-sends true env codec binding_ptr binding_len meta_ptr meta_len payload_ptr
      payload_len m s e =
    finished true env codec binding_ptr binding_len meta_ptr meta_len payload_ptr payload_len m s
      (read_string m binding_ptr binding_len) refl refl e
akamata_queue_send-sends false env codec binding_ptr binding_len meta_ptr meta_len payload_ptr
      payload_len m s e =
    inr (
      refused false env codec binding_ptr binding_len meta_ptr meta_len payload_ptr payload_len m s
        refl (of_reply e))
