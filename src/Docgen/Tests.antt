-- ===== src/Docgen/Tests.antt =====
-- Runs of the documents of tools/docgen
use mathlib.Core.Option
use akamata.Prelude.{◌≡◌, refl, none, some, [], ◌∷◌}
use akamata.Text.{Text, text}
use akamata.Docgen.{derive_title, md_parse_args, build_html}
use akamata.Docgen.Page.{build_html-ReadsAs, ReadsAs, title_element, title_attribute}

stem : Text → Text
stem path = text "readme"

heading_in_a_line :
    derive_title stem (text "intro\n#  A & B  \nmore") (text "readme.md") ≡ text "A & B"
unfolding derive_title
heading_in_a_line = refl

second_level_is_none : derive_title stem (text "## A") (text "readme.md") ≡ text "readme"
unfolding derive_title stem
second_level_is_none = refl

heading_on_the_next_line : derive_title stem (text "#\n\nA") (text "readme.md") ≡ text "A"
unfolding derive_title
heading_on_the_next_line = refl

title_argument :
    Option.map
      (λ o. o.title)
      (md_parse_args (λ p. p) (text "chrome") (text "a" ∷ text "b" ∷ text "--title=T" ∷ []))
    ≡ some (some (text "T"))
unfolding md_parse_args
title_argument = refl

one_path_is_missing : md_parse_args (λ p. p) (text "chrome") (text "a" ∷ []) ≡ none
unfolding md_parse_args
one_path_is_missing = refl

abbrev tag : Text
tag = text "</title>\"&amp;"

abbrev page : Text
page = build_html (text "p {}") tag (text "<p>x</p>")

build_html-ReadsAs_example :
    ReadsAs b'<' (title_element page) tag
    × ReadsAs b'"' (title_attribute (text "p {}") tag page) tag
build_html-ReadsAs_example = build_html-ReadsAs (text "p {}") tag (text "<p>x</p>")
