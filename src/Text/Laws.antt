-- ===== src/Text/Laws.antt =====
-- Laws of the strings: equality, searching, splitting, and UTF-8 of ASCII text.
use akamata.Prelude.{
  false, ◌≢◌, Bool-cases, inl, inr, ◌<◌, ◌≡◌, ◌↔◌, refl, true, [], ◌∷◌, ◌++◌, arith,
}
use akamata.Text.{Text, same}
use akamata.Text.Utf8.{
  encode, scalars, encode_scalars, decode, decode_bytes, ready, without_bom, units,
}

pub same_iff : (s t : Text) → (same s t ≡ true) ↔ (s ≡ t)
unfolding same
same_iff [] [] = ground arith
same_iff [] (b ∷ t) = ground arith
same_iff (a ∷ s) [] = ground arith
same_iff (a ∷ s) (b ∷ t) = ground (arith, same_iff s t)

pub same_refl : (s : Text) → same s s ≡ true
same_refl s = (same_iff s s).1 refl

abbrev pub IsAscii : Text → Type 0
IsAscii [] = Unit
IsAscii (c ∷ s) = (c < 0x80) × IsAscii s

scalars_ascii : (s : Text) → IsAscii s → scalars s ≡ s
unfolding scalars
scalars_ascii [] h = refl
scalars_ascii (c ∷ []) h = ground arith
scalars_ascii (c ∷ d ∷ s) h = ground (arith, scalars_ascii (d ∷ s) h.1)

encode_scalars_ascii : (s : Text) → IsAscii s → encode_scalars s ≡ s
unfolding encode_scalars
encode_scalars_ascii [] h = refl
encode_scalars_ascii (c ∷ s) h = ground (arith, encode_scalars_ascii s h.1)

-- ASCII text is encoded as itself.
pub encode_ascii : (s : Text) → IsAscii s → encode s ≡ s
unfolding encode
encode_ascii s h = rw (scalars_ascii s h) (encode_scalars_ascii s h)

decode_bytes_ascii : (s : Text) → IsAscii s → decode_bytes ready s ≡ s
unfolding decode_bytes
decode_bytes_ascii [] h = refl
decode_bytes_ascii (c ∷ s) h = ground (arith, decode_bytes_ascii s h.1)

without_bom_ascii : (s : Text) → IsAscii s → without_bom s ≡ s
unfolding without_bom
without_bom_ascii [] h = refl
without_bom_ascii (c ∷ s) h = ground arith

units_ascii : (s : Text) → IsAscii s → units s ≡ s
unfolding units
units_ascii [] h = refl
units_ascii (c ∷ s) h = ground (arith, units_ascii s h.1)

-- ASCII bytes are decoded as themselves.
pub decode_ascii : (s : Text) → IsAscii s → decode s ≡ s
unfolding decode
decode_ascii s h = rw (decode_bytes_ascii s h, without_bom_ascii s h) (units_ascii s h)

pub IsAscii-append : (s t : Text) → IsAscii s → IsAscii t → IsAscii (s ++ t)
IsAscii-append [] t a b = b
IsAscii-append (c ∷ s) t a b = (a.0, IsAscii-append s t a.1 b)

pub same-false : (s t : Text) → same s t ≡ false → s ≢ t
same-false s t e q = let p : same s t ≡ true = (same_iff s t).1 q in cc

pub same_ne : (s t : Text) → s ≢ t → same s t ≡ false
same_ne s t n = elim (Bool-cases (same s t)) [ inl e ↦ absurd (n ((same_iff s t).0 e)) | inr e ↦ e ]
