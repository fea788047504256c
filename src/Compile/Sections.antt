-- ===== src/Compile/Sections.antt =====
-- How minifleet/compile.py reads a document: its title, its sections, and their keys.
--
-- `str.lower`, `float` of a text and the `\d` of the regular expressions are arguments.
use Prim.Native.Char.{code}
use Prim.Native.String.{[] as no_chars, ◌∷◌ as and_char, ◌++◌ as append}
use minifleet.Prelude.{
  ℕ, String, Bool, false, not, ◌&&◌, Option, none, some, List, [], ◌∷◌, ◌++◌, ◌==◌, if◌then◌else◌,
  eqb, is_space, trim, trim_right, Dict, lookup, insert,
}
use minifleet.Model.{Float}
use minifleet.Worktree.Files.{text_lines}
use minifleet.Compile.{bullets, before_char, behind_char}

pub record Texts : Type 0 where
  pub lower : String → String
  pub to_float : String → Option Float
  pub is_digit : ℕ → Bool

-- white space and a text, behind the marks of a heading
abbrev heading : String → Option String
heading no_chars = none
heading (and_char c s) = if is_space (code c) && not (trim s == "") then some (trim s) else none

-- TITLE_RE on a line that is stripped on the right
unfoldable pub title_of : String → Option String
unfolding trim
title_of no_chars = none
title_of (and_char a s) = if eqb (code a) b'#' then heading s else none

-- SECTION_RE
unfoldable pub section_of : String → Option String
unfolding trim
section_of (and_char a (and_char b s)) =
    if eqb (code a) b'#' && eqb (code b) b'#' then heading s else none
section_of s = none

pub record Parse : Type 0 where
  pub title : String
  pub preamble : List String
  pub sections : Dict (List String)
  pub current : Option String

-- `sections.get(name, [])`
abbrev pub lines_at : String → Dict (List String) → List String
lines_at name d = elim (lookup name d) [ none ↦ [] | some lines ↦ lines ]

-- `values.get(key, default)`
abbrev pub value_or : String → String → Dict String → String
value_or default key d = elim (lookup key d) [ none ↦ default | some value ↦ value ]

-- `values.get(key, "")`
abbrev pub value_at : String → Dict String → String
value_at key d = value_or "" key d

-- `d.setdefault(name, [])`
abbrev set_default : String → Dict (List String) → Dict (List String)
set_default name d = insert name (lines_at name d) d

-- `"\n".join(lines)`
unfoldable pub lines_joined : List String → String
lines_joined [] = ""
lines_joined (x ∷ []) = x
lines_joined (x ∷ y ∷ xs) = let rest = lines_joined (y ∷ xs) in append x (append "\n" rest)

module _ (texts : Texts) where
  -- a line that is not the title: a heading, or a line of the preamble or of the current section
  abbrev pub place : Option String → String → Parse → Parse
  place (some name) line p =
      let key = texts.lower name in
      record p { current = some key; sections = set_default key p.sections }
  place none line p = elim p.current [
    | none ↦ record p { preamble = p.preamble ++ line ∷ [] }
    | some key ↦ record p {
      sections = insert key (lines_at key p.sections ++ line ∷ []) p.sections;
    }
  ]

  unfoldable pub parse_line : String → Parse → Parse
  unfolding title_of section_of
  parse_line raw p =
      let line = trim_right raw in
      elim (if p.title == "" then title_of line else none) [
        | none ↦ place (section_of line) line p
        | some title ↦ record p { title = title }
      ]

  unfoldable pub parse_lines : List String → Parse → Parse
  unfolding parse_line
  parse_lines [] p = p
  parse_lines (line ∷ lines) p = parse_lines lines (parse_line line p)

  unfoldable pub parse_sections : String → Parse
  unfolding parse_lines
  parse_sections document =
      let start : Parse = record { title = ""; preamble = []; sections = []; current = none } in
      parse_lines (text_lines false document) start

  abbrev pub add_value : String → Dict String → Dict String
  add_value item d =
      let value = trim (behind_char b':' item) in
      if value == "" then d else insert (texts.lower (trim (before_char b':' item))) value d

  abbrev pub add_values : List String → Dict String → Dict String
  add_values [] d = d
  add_values (item ∷ items) d = add_values items (add_value item d)

  unfoldable pub key_values : List String → Dict String
  unfolding bullets before_char behind_char trim
  key_values lines = add_values (bullets lines) []
