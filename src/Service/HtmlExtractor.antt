-- ===== src/Service/HtmlExtractor.antt =====
-- app/service/html_extractor.py: the readable text of a page. BeautifulSoup is a parameter: its trees,
-- from which tags are taken away, and what it reads of them.
pub mod Paragraphs
use ject6_4th_ai_analyzer.Base.{
  Option, none, some, List, [], ◌∷◌, Text, codes, strip, splitlines, join, is_empty, if◌then◌else◌,
}
use ject6_4th_ai_analyzer.Core.Parsing.{non_empty}
use ject6_4th_ai_analyzer.Core.Effects.{Result, ok, err}
use ject6_4th_ai_analyzer.Core.Exceptions.{raised, validation_error}
use ject6_4th_ai_analyzer.Service.Chunker.{stripped_paragraphs, separator}

pub record BeautifulSoup : Type 1 where
  pub Soup : Type 0
  pub Tag : Type 0
  -- `BeautifulSoup(html, "html.parser")`
  pub parse : Text → Soup
  -- `soup.find_all(name)`, and `tag.decompose()` with the tree after it
  pub find_all : Text → Soup → List Tag
  pub decompose : Tag → Soup → Soup
  -- the first tag with one of the names; `soup.body`, `soup.title`, and the tree itself
  pub find : List Text → Soup → Option Tag
  pub body : Soup → Option Tag
  pub title : Soup → Option Tag
  pub whole : Soup → Tag
  -- `tag.get_text(separator, strip=True)` and `tag.string`
  pub get_text : Text → Tag → Text
  pub string : Tag → Option Text

-- `_REMOVE_SELECTORS`
abbrev pub remove_selectors : List Text
remove_selectors =
    codes "script"
    ∷ codes "style"
    ∷ codes "nav"
    ∷ codes "footer"
    ∷ codes "header"
    ∷ codes "noscript"
    ∷ []

-- `a or b` on tags, each of which is true
unfoldable pub or_tag : {T : Type 0} → Option T → Option T → Option T
or_tag none b = b
or_tag (some a) b = some a

module _ (bs : BeautifulSoup) where
  unfoldable pub decompose_all : List bs.Tag → bs.Soup → bs.Soup
  decompose_all [] soup = soup
  decompose_all (tag ∷ tags) soup = decompose_all tags (bs.decompose tag soup)

  unfoldable pub without : List Text → bs.Soup → bs.Soup
  unfolding decompose_all
  without [] soup = soup
  without (tag_name ∷ names) soup = without names (decompose_all (bs.find_all tag_name soup) soup)

  -- The text of the page, before it is put in lines.
  unfoldable pub page_text : Text → Text
  unfolding without or_tag
  page_text html =
      let soup = without remove_selectors (bs.parse html) in
      let found =
        or_tag (bs.find (codes "article" ∷ []) soup)
          (or_tag (bs.find (codes "main" ∷ []) soup) (bs.body soup)) in
      bs.get_text (codes "\n") (elim found [ none ↦ bs.whole soup | some tag ↦ tag ])

  -- The comprehension over the lines is the one that the chunker has over its paragraphs.
  unfoldable pub extract_text : Text → Result Text
  unfolding page_text
  extract_text html =
      let lines = stripped_paragraphs (splitlines (page_text html)) in
      let content = join separator lines in
      if is_empty content
      then err (raised validation_error (codes "no readable text found in crawled html") none)
      else ok content

  unfoldable pub extract_title : Text → Option Text
  extract_title html =
      let soup = bs.parse html in
      let of_heading : Option Text = elim (bs.find (codes "h1" ∷ codes "h2" ∷ []) soup) [
        | none ↦ none
        | some heading ↦ non_empty (some (bs.get_text (codes " ") heading))
      ] in
      elim (bs.title soup) [
        | none ↦ of_heading
        | some tag ↦ elim (non_empty (bs.string tag)) [
          | none ↦ of_heading
          | some title ↦ non_empty (some (strip title))
        ]
      ]
