-- ===== src/Realtime/Growth.antt =====
-- Sockets to which texts are added, and no more is done (deploy/worker/realtime_object.mjs).
use akamata.Prelude.{
  ℕ, ◌≡◌, refl, sym, ap, ◌∙◌, List, [], ◌∷◌, ◌++◌, arith, append-nil, append_assoc,
}
use akamata.Prelude.Numbers.{ℤ}
use akamata.Text.{Text}
use akamata.Realtime.Room.{Socket}
use akamata.Realtime.Delivery.{delivered, broadcast, send_others, send_to, closing, close_socket}

abbrev pub All {ℓ} : {A : Type 0} → (A → Type ℓ) → List A → Type ℓ
All P [] = Unit
All P (x ∷ xs) = P x × All P xs

module _ (P : Text → Type 0) where
  -- The same socket, with more texts sent to it, each of which is as `P` says.
  pub record Grows (old new : Socket) : Type 0 where
    pub same_id : new.id ≡ old.id
    pub same_attachment : new.attachment ≡ old.attachment
    pub added : List Text
    pub grown : new.sent ≡ old.sent ++ added
    pub all : All P added

  abbrev pub AllGrow : List Socket → List Socket → Type 0
  AllGrow [] [] = Unit
  AllGrow (o ∷ os) (n ∷ ns) = Grows o n × AllGrow os ns
  AllGrow _ _ = ⊥

  pub Grows-refl : (ws : Socket) → Grows ws ws
  Grows-refl ws = record {
    same_id = refl;
    same_attachment = refl;
    added = [];
    grown = sym (append-nil ws.sent);
    all = tt;
  }

  pub AllGrow-refl : (ss : List Socket) → AllGrow ss ss
  AllGrow-refl [] = tt
  AllGrow-refl (ws ∷ ss) = (Grows-refl ws, AllGrow-refl ss)

  Grows-delivered : (m : Text) (ws : Socket) → P m → Grows ws (delivered m ws)
  Grows-delivered m ws p = record {
    same_id = refl;
    same_attachment = refl;
    added = m ∷ [];
    grown = refl;
    all = (p, tt);
  }

  All-append : (xs ys : List Text) → All P xs → All P ys → All P (xs ++ ys)
  All-append [] ys a b = b
  All-append (x ∷ xs) ys a b = (a.0, All-append xs ys a.1 b)

  Grows-trans : (a b c : Socket) → Grows a b → Grows b c → Grows a c
  Grows-trans a b c g h = record {
    same_id = h.same_id ∙ g.same_id;
    same_attachment = h.same_attachment ∙ g.same_attachment;
    added = g.added ++ h.added;
    grown = h.grown ∙ ap (λ s. s ++ h.added) g.grown ∙ append_assoc a.sent g.added h.added;
    all = All-append g.added h.added g.all h.all;
  }

  pub AllGrow-trans : (xs ys zs : List Socket) → AllGrow xs ys → AllGrow ys zs → AllGrow xs zs
  AllGrow-trans [] [] [] g h = tt
  AllGrow-trans [] [] (c ∷ zs) g h = h
  AllGrow-trans [] (b ∷ ys) zs g h = absurd g
  AllGrow-trans (a ∷ xs) [] zs g h = absurd g
  AllGrow-trans (a ∷ xs) (b ∷ ys) [] g h = h
  AllGrow-trans (a ∷ xs) (b ∷ ys) (c ∷ zs) g h =
      (Grows-trans a b c g.0 h.0, AllGrow-trans xs ys zs g.1 h.1)

  module _ (m : Text) (p : P m) where
    pub broadcast-AllGrow : (ss : List Socket) → AllGrow ss (broadcast m ss).1
    unfolding broadcast
    broadcast-AllGrow [] = tt
    broadcast-AllGrow (ws ∷ ss) =
        ground (arith, broadcast-AllGrow ss, Grows-refl ws, Grows-delivered m ws p)

    pub send_others-AllGrow :
        (sender : ℕ) (ss : List Socket) → AllGrow ss (send_others sender m ss).1
    unfolding send_others
    send_others-AllGrow sender [] = tt
    send_others-AllGrow sender (ws ∷ ss) = ground (
      arith,
      send_others-AllGrow sender ss,
      AllGrow-refl ss,
      Grows-refl ws,
      Grows-delivered m ws p,
    )

    pub send_to-AllGrow : (c : Text) (ss : List Socket) → AllGrow ss (send_to c m ss).1
    unfolding send_to
    send_to-AllGrow c [] = tt
    send_to-AllGrow c (ws ∷ ss) =
        ground (arith, send_to-AllGrow c ss, AllGrow-refl ss, Grows-refl ws, Grows-delivered m ws p)

  Grows-closing : (code : ℤ) (reason : Text) (ws : Socket) → Grows ws (closing code reason ws)
  Grows-closing code reason ws = record {
    same_id = ground arith;
    same_attachment = ground arith;
    added = [];
    grown = ground (arith, append-nil ws.sent);
    all = tt;
  }

  pub close_socket-AllGrow :
      (id : ℕ) (code : ℤ) (reason : Text) (ss : List Socket)
      → AllGrow ss (close_socket id code reason ss)
  unfolding close_socket
  close_socket-AllGrow id code reason [] = tt
  close_socket-AllGrow id code reason (ws ∷ ss) = ground (
    arith,
    close_socket-AllGrow id code reason ss,
    AllGrow-refl ss,
    Grows-refl ws,
    Grows-closing code reason ws,
  )

module _ {P Q : Text → Type 0} (weaken : (m : Text) → P m → Q m) where
  All-weaken : (xs : List Text) → All P xs → All Q xs
  All-weaken [] a = tt
  All-weaken (x ∷ xs) a = (weaken x a.0, All-weaken xs a.1)

  Grows-weaken : (a b : Socket) → Grows P a b → Grows Q a b
  Grows-weaken a b g = record {
    same_id = g.same_id;
    same_attachment = g.same_attachment;
    added = g.added;
    grown = g.grown;
    all = All-weaken g.added g.all;
  }

  pub AllGrow-weaken : (xs ys : List Socket) → AllGrow P xs ys → AllGrow Q xs ys
  AllGrow-weaken [] [] g = tt
  AllGrow-weaken [] (b ∷ ys) g = absurd g
  AllGrow-weaken (a ∷ xs) [] g = absurd g
  AllGrow-weaken (a ∷ xs) (b ∷ ys) g = (Grows-weaken a b g.0, AllGrow-weaken xs ys g.1)
