-- ===== src/Tests/Pages.antt =====
-- A page of a script and an article, and what the chunker makes of it.
use ject6_4th_ai_analyzer.Base.{
  Option, none, some, List, [], ◌∷◌, ◌++◌, Text, codes, ◌==◌, text_eq, if◌then◌else◌,
}
use ject6_4th_ai_analyzer.Service.Chunker.{TextChunker}
use ject6_4th_ai_analyzer.Service.HtmlExtractor.{BeautifulSoup, page_text, extract_text}
use ject6_4th_ai_analyzer.Service.HtmlExtractor.Paragraphs.{Extracted, extract_text-chunk}
use ject6_4th_ai_analyzer.Tests.World.{code_points}

-- A flat page: the names of its tags with their texts.
abbrev Page : Type 0
Page = List (Text × Text)

abbrev tags_named : Text → Page → Page
tags_named name [] = []
tags_named name (t ∷ page) =
    let rest = tags_named name page in if t.0 == name then t ∷ rest else rest

abbrev without_tag : Text × Text → Page → Page
without_tag tag [] = []
without_tag tag (t ∷ page) =
    let rest = without_tag tag page in if t.0 == tag.0 then rest else t ∷ rest

abbrev first_of : Page → Option (Text × Text)
first_of [] = none
first_of (t ∷ page) = some t

abbrev first_named : List Text → Page → Option (Text × Text)
first_named [] page = none
first_named (name ∷ names) page = elim (first_of (tags_named name page)) [
  | none ↦ first_named names page
  | some t ↦ some t
]

abbrev all_text : Page → Text
all_text [] = []
all_text (t ∷ page) = t.1 ++ all_text page

abbrev flat_pages : BeautifulSoup
flat_pages = record {
  Soup = Page;
  Tag = Text × Text;
  parse = λ html. (codes "script", codes "only()") ∷ (codes "article", html) ∷ [];
  find_all = tags_named;
  decompose = without_tag;
  find = first_named;
  body = λ page. none;
  title = λ page. none;
  whole = λ page. ([], all_text page);
  get_text = λ sep t. t.1;
  string = λ t. some t.1;
}

abbrev eight_tokens : TextChunker
eight_tokens = record { chunk_size = 8; overlap = 0; encoder = code_points }

extract_text-chunk_example :
    Extracted eight_tokens
      (page_text flat_pages (codes " one\n\n two \n"))
      (extract_text flat_pages (codes " one\n\n two \n"))
extract_text-chunk_example = extract_text-chunk flat_pages eight_tokens (codes " one\n\n two \n")
