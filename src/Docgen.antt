-- ===== src/Docgen.antt =====
-- tools/docgen: md_to_pdf.mjs and html_to_pdf.mjs, which print documents by a headless browser. Here are their arguments, the page that is made of a
-- document, and the browser's command line.
pub mod Page
mod Tests
use mathlib.Core.Option
use akamata.Prelude.{
  ℕ, zero, suc, Bool, true, false, ◌||◌, Option, none, some, List, [], ◌∷◌, ◌++◌, ◌==◌,
  if◌then◌else◌, length, drop,
}
use akamata.Text.{Text, text, starts_with, is_space, trim}

-- What `parseArgs` of md_to_pdf.mjs returns; a `title` of `none` is null.
pub record MdOptions : Type 0 where
  pub input : Text
  pub output : Text
  pub title : Option Text
  pub chrome : Text

unfoldable pub md_argument : Text → MdOptions → MdOptions
unfolding starts_with
md_argument a o =
    if starts_with (text "--title=") a
    then record o { title = some (drop 8 a) }
    else if starts_with (text "--chrome=") a
    then record o { chrome = drop 9 a }
    else o

unfoldable pub md_arguments : List Text → MdOptions → MdOptions
unfolding md_argument
md_arguments [] o = o
md_arguments (a ∷ rest) o = md_arguments rest (md_argument a o)

-- `resolve` is that of node:path, `chrome` is DEFAULT_CHROME; `argv` is behind the interpreter and the script. `none` is exit code 64.
unfoldable pub md_parse_args : (Text → Text) → Text → List Text → Option MdOptions
unfolding md_arguments
md_parse_args resolve chrome ((i ∷ input) ∷ (o ∷ output) ∷ rest) = some (
    md_arguments rest (record {
      input = resolve (i ∷ input);
      output = resolve (o ∷ output);
      title = none;
      chrome = chrome;
    }))
md_parse_args resolve chrome _ = none

-- `parseArgs` of html_to_pdf.mjs
pub record HtmlOptions : Type 0 where
  pub input : Text
  pub output : Text
  pub chrome : Text

unfoldable pub html_arguments : List Text → HtmlOptions → HtmlOptions
unfolding starts_with
html_arguments [] o = o
html_arguments (a ∷ rest) o =
    html_arguments rest
      (if starts_with (text "--chrome=") a then record o { chrome = drop 9 a } else o)

unfoldable pub html_parse_args : (Text → Text) → Text → List Text → Option HtmlOptions
unfolding html_arguments
html_parse_args resolve chrome ((i ∷ input) ∷ (o ∷ output) ∷ rest) = some (
    html_arguments rest
      (record { input = resolve (i ∷ input); output = resolve (o ∷ output); chrome = chrome }))
html_parse_args resolve chrome _ = none

-- the entity of a code unit, or the unit
unfoldable pub escape_unit : ℕ → Text
escape_unit c =
    if c == b'&'
    then text "&amp;"
    else if c == b'<'
    then text "&lt;"
    else if c == b'>'
    then text "&gt;"
    else if c == b'"'
    then text "&quot;"
    else c ∷ []

-- `escapeHtml`
unfoldable pub escape_html : Text → Text
unfolding escape_unit
escape_html [] = []
escape_html (c ∷ s) = escape_unit c ++ escape_html s

abbrev pub newline : Text
newline = 10 ∷ []

-- the page up to its title
unfoldable pub page_start : Text
page_start =
    text "<!doctype html>"
    ++ (newline
        ++ (text "<html lang=\"ja\">"
            ++ (newline
                ++ (text "<head>"
                    ++ (newline
                        ++ (text "<meta charset=\"utf-8\">" ++ (newline ++ text "<title>")))))))

-- from the title to the attribute; `css` is the style sheet of the file
unfoldable pub page_middle : Text → Text
page_middle css =
    text "</title>"
    ++ (newline
        ++ (text "<style>"
            ++ (css
                ++ (text "</style>"
                    ++ (newline ++ (text "</head>" ++ (newline ++ text "<body data-title=\"")))))))

unfoldable pub page_end : Text → Text
page_end body =
    text "\">"
    ++ (newline ++ (body ++ (newline ++ (text "</body>" ++ (newline ++ text "</html>")))))

-- `buildHtml`
unfoldable pub build_html : Text → Text → Text → Text
unfolding page_start page_middle page_end escape_html
build_html css title body =
    page_start ++ (escape_html title ++ (page_middle css ++ (escape_html title ++ page_end body)))

-- the arguments of the browser, by md_to_pdf.mjs and by html_to_pdf.mjs
unfoldable pub chrome_arguments : Text → Text → List Text
chrome_arguments html_path pdf_path =
    text "--headless=new"
    ∷ text "--disable-gpu"
    ∷ text "--no-pdf-header-footer"
    ∷ text "--no-margins=false"
    ∷ (text "--print-to-pdf=" ++ pdf_path)
    ∷ (text "file://" ++ html_path)
    ∷ []

unfoldable pub run_arguments : HtmlOptions → List Text
run_arguments o =
    text "--headless=new"
    ∷ text "--disable-gpu"
    ∷ text "--no-pdf-header-footer"
    ∷ (text "--print-to-pdf=" ++ o.output)
    ∷ (text "file://" ++ o.input)
    ∷ []

-- LineTerminator, at which `^` and `$` hold and which `.` does not match
unfoldable pub is_terminator : ℕ → Bool
is_terminator c = c == 10 || c == 13 || c == 0x2028 || c == 0x2029

unfoldable pub until_terminator : Text → Text
unfolding is_terminator
until_terminator [] = []
until_terminator (c ∷ s) = let rest = until_terminator s in if is_terminator c then [] else c ∷ rest

-- white space at the head, and what is behind it
unfoldable pub split_space : Text → Text × Text
unfolding is_space
split_space [] = ([], [])
split_space (c ∷ s) =
    let (ws, rest) = split_space s in if is_space c then (c ∷ ws, rest) else ([], c ∷ s)

unfoldable pub has_blank : Text → Bool
unfolding is_terminator
has_blank [] = false
has_blank (c ∷ s) = let rest = has_blank s in if is_terminator c then rest else true

-- `\s+(.+)$` behind the `#`, with the group trimmed. Where nothing but white space follows, the group is
-- white space that `\s+` gives back: all but its first unit may be given back, up to one that `.` matches.
abbrev pub heading_group : Text × Text → Option Text
heading_group ([], rest) = none
heading_group (w ∷ ws, []) = if has_blank ws then some [] else none
heading_group (w ∷ ws, c ∷ rest) = some (trim (until_terminator (c ∷ rest)))

-- The search of `/^#\s+(.+)$/m`; `start` tells whether the text is at the start of a line.
unfoldable pub find_heading : Bool → Text → Option Text
unfolding is_terminator split_space until_terminator has_blank trim
find_heading start [] = none
find_heading start (c ∷ s) =
    let later = find_heading (is_terminator c) s in
    if start
    then (if c == b'#'
        then elim (heading_group (split_space s)) [ none ↦ later | some t ↦ some t ]
        else later)
    else later

-- `deriveTitle`; `stem` is `basename(path).replace(/\.[^.]+$/, "")`
unfoldable pub derive_title : (Text → Text) → Text → Text → Text
unfolding find_heading
derive_title stem md path = elim (find_heading true md) [ some t ↦ t | none ↦ stem path ]

-- `args.title ?? deriveTitle(md, args.input)`
unfoldable pub title_of : (Text → Text) → Text → MdOptions → Text
unfolding derive_title
title_of stem md o = elim o.title [ some t ↦ t | none ↦ derive_title stem md o.input ]

-- The page of `main`; `parse` is that of the package marked.
unfoldable pub page_of : Text → (Text → Text) → (Text → Text) → Text → MdOptions → Text
unfolding build_html title_of
page_of css parse stem md o = build_html css (title_of stem md o) (parse md)
