-- ===== src/R2/Upload/Buffer.antt =====
-- The buffer in which `akamata_r2_put_finish` puts the chunks together (deploy/worker/index.mjs).
use mathlib.Core.Option
use akamata.Prelude.{
  ℕ, zero, suc, ◌+◌, ◌≡◌, refl, sym, ap, ap₂, ◌∙◌, some, List, [], ◌∷◌, ◌++◌, arith, append_assoc,
  length, drop, length-append, take-length_append, drop-length_append,
}
use akamata.R2.Upload.{zeros, set_range, set_chunks}

abbrev pub concat : List (List ℕ) → List ℕ
concat [] = []
concat (c ∷ cs) = c ++ concat cs

abbrev pub total : List (List ℕ) → ℕ
total [] = 0
total (c ∷ cs) = length c + total cs

length-zeros : (n : ℕ) → length (zeros n) ≡ n
length-zeros zero = refl
length-zeros (suc n) = omega (arith, length-zeros n)

zeros-split : (a n : ℕ) → zeros (a + n) ≡ zeros a ++ zeros n
zeros-split zero n = ap zeros (omega arith)
zeros-split (suc a) n =
    ap zeros {x = suc a + n} {y = suc (a + n)} (omega arith) ∙ ap (λ z. 0 ∷ z) (zeros-split a n)

drop-done :
    (done c : List ℕ) (n : ℕ)
    → drop (length done + length c) (done ++ zeros (length c + n)) ≡ zeros n
drop-done done c n =
    let front = done ++ zeros (length c) in
    ap₂ drop (omega (arith, length-append done (zeros (length c)), length-zeros (length c))) (
      ap (λ z. done ++ z) (zeros-split (length c) n)
      ∙ sym (append_assoc done (zeros (length c)) (zeros n)))
    ∙ drop-length_append front (zeros n)

set_range-zeros :
    (done c : List ℕ) (n : ℕ)
    → set_range (done ++ zeros (length c + n)) (length done) c ≡ some (done ++ (c ++ zeros n))
unfolding set_range
set_range-zeros done c n =
    rw (take-length_append done (zeros (length c + n)), drop-done done c n)
      (ground (arith, length-append done (zeros (length c + n)), length-zeros (length c + n)))

-- The loop fills a buffer of the right size exactly.
pub set_chunks-concat :
    (done : List ℕ) (chunks : List (List ℕ))
    → set_chunks (done ++ zeros (total chunks)) (length done) chunks ≡ some (done ++ concat chunks)
unfolding set_chunks Option.bind
set_chunks-concat done [] = refl
set_chunks-concat done (c ∷ chunks) =
    ap (λ o. Option.bind o (λ bs. set_chunks bs (length done + length c) chunks))
      (set_range-zeros done c (total chunks))
    ∙ ap₂ (λ b o. set_chunks b o chunks) (sym (append_assoc done c (zeros (total chunks))))
        (sym (length-append done c))
    ∙ set_chunks-concat (done ++ c) chunks
    ∙ ap some (append_assoc done c (concat chunks))
