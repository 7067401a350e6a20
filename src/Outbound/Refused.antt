-- ===== src/Outbound/Refused.antt =====
-- Why `parseResponse` (src/http_client.zig) refuses an answer of `akamata_fetch` (deploy/worker/index.mjs) whose
-- upstream has sent its length.
use mathlib.Core.Option
use akamata.Prelude.{
  ℕ, ◌+◌, ◌⊎◌, ◌≡◌, refl, sym, ap, ap₂, ◌∙◌, true, false, Option, none, some, List, [], ◌∷◌, ◌++◌,
  arith, length, take, drop, Option-cases, Bool-cases, inl, inr,
}
use akamata.Text.{Text, text, same, index_of, to_lower}
use akamata.Text.Laws.{IsAscii, same_iff}
use akamata.Http.{Fields, field_line}
use akamata.Http.Decimal.{decimal}
use akamata.Http.Parts.{field_lines}
use akamata.Outbound.{Upstream, reply_bytes}
use akamata.Outbound.Client.{
  ascii_lower, eql_ignore_case, trim_blanks, Framing, with_length, see_field, see_line, see_lines,
  consistent, parse_int_below, response_head,
}
use akamata.Outbound.Replies.{
  passed, passed-transfer, passed-other, length_of, AllTokens, IsReply, response_head-lines,
}
use akamata.Outbound.Framed.{
  unframed, see_line-field, eql_ignore_case-same, is_length, not_transfer, see_length,
  client_status-reply,
}

-- A header is called `content-length`.
abbrev pub HasLength : Fields → Type 0
HasLength [] = ⊥
HasLength ((k, v) ∷ hs) = (eql_ignore_case k (text "content-length") ≡ true) ⊎ HasLength hs

see_field-keeps :
    (name value : Text) (f g : Framing) (n : ℕ)
    → see_field name value f ≡ some g
    → f.content_length ≡ some n
    → g.content_length ≡ some n
unfolding see_field
see_field-keeps name value f g n e c = ground arith

abbrev see_at : Text → Framing → Option ℕ → Option Framing
see_at line f o = elim o [
  | none ↦ some f
  | some colon ↦ see_field (trim_blanks (take colon line)) (trim_blanks (drop (colon + 1) line)) f
]

see_at-keeps :
    (line : Text) (f g : Framing) (n : ℕ) (o : Option ℕ)
    → see_at line f o ≡ some g
    → f.content_length ≡ some n
    → g.content_length ≡ some n
see_at-keeps line f g n none e c = ground arith
see_at-keeps line f g n (some i) e c = see_field-keeps _ _ f g n e c

see_line-keeps :
    (line : Text) (f g : Framing) (n : ℕ)
    → see_line line f ≡ some g
    → f.content_length ≡ some n
    → g.content_length ≡ some n
unfolding see_line
see_line-keeps line f g n e c = see_at-keeps line f g n (index_of (text ":") line) e c

-- A second length is refused.
see_length_again :
    (u : Upstream) (f : Framing) (n : ℕ)
    → f.content_length ≡ some n
    → see_line (length_of u) f ≡ none
unfolding see_field eql_ignore_case ascii_lower
see_length_again u f n c =
    see_length u f
    ∙ ap (λ o. with_length f o (parse_int_below 0x100000000 (decimal (length u.body)))) c

see_lines-again :
    (u : Upstream) (ls : List Text) (f : Framing) (n : ℕ)
    → f.content_length ≡ some n
    → see_lines (ls ++ length_of u ∷ []) f ≡ none
unfolding see_lines Option.bind
see_lines-again u [] f n c = ap (λ o. Option.bind o (see_lines [])) (see_length_again u f n c)
see_lines-again u (l ∷ ls) f n c = elim (Option-cases (see_line l f)) [
  | inl q ↦ ap (λ o. Option.bind o (see_lines (ls ++ length_of u ∷ []))) q
  | inr (g, q) ↦
      ap (λ o. Option.bind o (see_lines (ls ++ length_of u ∷ []))) q
      ∙ see_lines-again u ls g n (see_line-keeps l f g n q c)
]

with_length-some :
    (f g : Framing) (old seen : Option ℕ)
    → with_length f old seen ≡ some g
    → (n : ℕ) × (g.content_length ≡ some n)
with_length-some f g (some n) seen e = cc
with_length-some f g none none e = cc
with_length-some f g none (some n) e = (n, ground arith)

see_field-length :
    (name value : Text) (f g : Framing)
    → eql_ignore_case name (text "transfer-encoding") ≡ false
    → is_length name ≡ true
    → see_field name value f ≡ some g
    → (n : ℕ) × (g.content_length ≡ some n)
unfolding see_field
see_field-length name value f g t l e =
    let seen = parse_int_below 0x100000000 value in
    let q : see_field name value f ≡ with_length f f.content_length seen = rw (t, l) refl in
    with_length-some f g f.content_length seen (sym q ∙ e)

transfer_no_length :
    (k : Text)
    → IsAscii k
    → same (to_lower k) (text "transfer-encoding") ≡ true
    → is_length k ≡ true
    → ⊥
unfolding same ascii_lower
transfer_no_length k a e l =
    let q = (same_iff (to_lower k) (text "transfer-encoding")).0 e in
    let r : eql_ignore_case k (text "content-length") ≡ same (to_lower k) (text "content-length") =
      eql_ignore_case-same k (text "content-length") a (omega arith) in
    cc (r, ap (λ t. same t (text "content-length")) q)

see_lines-length :
    (u : Upstream) (hs : Fields) (f : Framing)
    → AllTokens hs
    → HasLength hs
    → see_lines (field_lines (passed hs) ++ length_of u ∷ []) f ≡ none
unfolding see_lines Option.bind
see_lines-length u [] f h n = absurd n
see_lines-length u ((k, v) ∷ hs) f h (inl l) =
    elim (Bool-cases (same (to_lower k) (text "transfer-encoding"))) [
      | inl e ↦ absurd (transfer_no_length k h.0.1.1 e l)
      | inr e ↦
          ap (λ fs. see_lines (field_lines fs ++ length_of u ∷ []) f) (passed-other k v hs e)
          ∙ elim (Option-cases (see_line (field_line k v) f)) [
            | inl q ↦
                ap (λ o. Option.bind o (see_lines (field_lines (passed hs) ++ length_of u ∷ []))) q
            | inr (g, q) ↦
                let seen =
                  see_field-length k (trim_blanks (32 ∷ v)) f g (not_transfer k h.0.1.1 e) l
                    (sym (see_line-field k v f h.0.0 h.0.3) ∙ q) in
                ap (λ o. Option.bind o (see_lines (field_lines (passed hs) ++ length_of u ∷ []))) q
                ∙ see_lines-again u (field_lines (passed hs)) g seen.0 seen.1
          ]
    ]
see_lines-length u ((k, v) ∷ hs) f h (inr n) =
    elim (Bool-cases (same (to_lower k) (text "transfer-encoding"))) [
      | inl e ↦
          ap (λ fs. see_lines (field_lines fs ++ length_of u ∷ []) f) (passed-transfer k v hs e)
          ∙ see_lines-length u hs f h.1 n
      | inr e ↦
          ap (λ fs. see_lines (field_lines fs ++ length_of u ∷ []) f) (passed-other k v hs e)
          ∙ elim (Option-cases (see_line (field_line k v) f)) [
            | inl q ↦
                ap (λ o. Option.bind o (see_lines (field_lines (passed hs) ++ length_of u ∷ []))) q
            | inr (g, q) ↦
                ap (λ o. Option.bind o (see_lines (field_lines (passed hs) ++ length_of u ∷ []))) q
                ∙ see_lines-length u hs g h.1 n
          ]
    ]

-- Let the status be below 65536, the body shorter than 2 ^ 32 bytes, the header names free of colons and of blanks around
-- them, and status text, names and values ASCII without CR. If a header of the upstream's is called content-length, in
-- any case and with any value, then `parseResponse` refuses the bytes that `akamata_fetch` writes: it has two lengths.
pub response_head-refused :
    (u : Upstream) → IsReply u → HasLength u.headers → response_head (reply_bytes u) ≡ none
unfolding Option.bind
response_head-refused u w n =
    response_head-lines u w
    ∙ ap₂
        (λ st fr. Option.bind st λ status.
          Option.map (λ f. record { status = status; framing = f; rest = u.body })
            (Option.bind fr consistent))
        (client_status-reply u w.status) (see_lines-length u u.headers unframed w.fields n)
