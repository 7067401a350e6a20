-- ===== src/Docgen/Page.antt =====
-- A title in the page of tools/docgen/md_to_pdf.mjs cannot end its element or its attribute.
use akamata.Prelude.{
  ℕ, zero, suc, ◌≡◌, refl, sym, subst, ap, ◌∙◌, some, [], ◌∷◌, ◌++◌, arith, ◌==◌, if◌then◌else◌,
  length, take, drop, take-length_append, drop-length_append,
}
use akamata.Text.{Text, text, starts_with, index_of}
use akamata.Text.Search.{Avoids, Avoids-append, index_of-append}
use akamata.Docgen.{escape_unit, escape_html, page_start, page_middle, page_end, build_html}

-- The entity behind an ampersand: its unit, and how many units it takes
unfoldable pub entity_of : Text → ℕ × ℕ
unfolding starts_with
entity_of s =
    if starts_with (text "amp;") s
    then (b'&', 4)
    else if starts_with (text "lt;") s
    then (b'<', 3)
    else if starts_with (text "gt;") s
    then (b'>', 3)
    else if starts_with (text "quot;") s
    then (b'"', 5)
    else (b'&', 0)

-- What a reader of HTML makes of a text, after `skip` units that it has read already
unfoldable pub unescape : ℕ → Text → Text
unfolding entity_of
unescape skip [] = []
unescape (suc skip) (c ∷ s) = unescape skip s
unescape zero (c ∷ s) =
    let (d, skip) = (if c == b'&' then entity_of s else (c, 0)) in d ∷ unescape skip s

unescape-unit : (c : ℕ) (t : Text) → unescape 0 (escape_unit c ++ t) ≡ c ∷ unescape 0 t
unfolding unescape escape_unit
unescape-unit c t = ground arith

unescape-escape_html : (s : Text) → unescape 0 (escape_html s) ≡ s
unfolding escape_html unescape
unescape-escape_html [] = refl
unescape-escape_html (c ∷ s) =
    unescape-unit c (escape_html s) ∙ ap (λ t. c ∷ t) (unescape-escape_html s)

unit-Avoids :
    (c : ℕ)
    → Avoids b'<' (escape_unit c) × Avoids b'>' (escape_unit c) × Avoids b'"' (escape_unit c)
unfolding escape_unit
unit-Avoids c = ground arith

escape_html-Avoids :
    (s : Text)
    → Avoids b'<' (escape_html s) × Avoids b'>' (escape_html s) × Avoids b'"' (escape_html s)
unfolding escape_html
escape_html-Avoids [] = (tt, tt, tt)
escape_html-Avoids (c ∷ s) =
    let (a, b, q) = unit-Avoids c in
    let (a', b', q') = escape_html-Avoids s in
    (
      Avoids-append b'<' (escape_unit c) (escape_html s) a a',
      Avoids-append b'>' (escape_unit c) (escape_html s) b b',
      Avoids-append b'"' (escape_unit c) (escape_html s) q q',
    )

-- The element behind `<title>` and the attribute behind `data-title="`
abbrev pub title_element : Text → Text
title_element page = drop (length page_start) page

abbrev pub title_attribute : Text → Text → Text → Text
title_attribute css title page =
    drop (length (page_middle css)) (drop (length (escape_html title)) (title_element page))

start-page :
    (css title body : Text)
    → title_element (build_html css title body)
      ≡ escape_html title ++ (page_middle css ++ (escape_html title ++ page_end body))
unfolding build_html
start-page css title body = drop-length_append page_start _

middle-page :
    (css title body : Text)
    → title_attribute css title (build_html css title body) ≡ escape_html title ++ page_end body
middle-page css title body =
    ap (λ (s : Text). drop (length (page_middle css)) (drop (length (escape_html title)) s))
      (start-page css title body)
    ∙ ap (λ (s : Text). drop (length (page_middle css)) s)
        (drop-length_append (escape_html title)
          (page_middle css ++ (escape_html title ++ page_end body)))
    ∙ drop-length_append (page_middle css) (escape_html title ++ page_end body)

-- A reader of HTML finds the title in the page: `s` up to the first `stop` stands for `title`.
abbrev pub ReadsAs : ℕ → Text → Text → Type 0
ReadsAs stop s title =
    (index_of (stop ∷ []) s ≡ some (length (escape_html title)))
    × (unescape 0 (take (length (escape_html title)) s) ≡ title)

escaped-ReadsAs :
    (stop : ℕ) (title rest : Text)
    → Avoids stop (escape_html title)
    → ReadsAs stop (escape_html title ++ (stop ∷ rest)) title
escaped-ReadsAs stop title rest a = (
  index_of-append stop [] (escape_html title) rest a,
  ap (unescape 0) (take-length_append (escape_html title) (stop ∷ rest))
      ∙ unescape-escape_html title,
)

-- For any style sheet, title and body: in the page of buildHtml, the text from `<title>` to the next `<`, and the text from
-- `data-title="` to the next quotation mark, both read as the title with its entities decoded. So no title ends
-- its element or its attribute early.
pub build_html-ReadsAs :
    (css title body : Text)
    → ReadsAs b'<' (title_element (build_html css title body)) title
      × ReadsAs b'"' (title_attribute css title (build_html css title body)) title
unfolding page_middle page_end
build_html-ReadsAs css title body = (
  subst (λ (s : Text). ReadsAs b'<' s title) (sym (start-page css title body))
      (escaped-ReadsAs b'<' title _ (escape_html-Avoids title).0),
  subst (λ (s : Text). ReadsAs b'"' s title) (sym (middle-page css title body))
      (escaped-ReadsAs b'"' title _ (escape_html-Avoids title).2),
)
