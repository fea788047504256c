-- ===== src/Compile/Names.antt =====
-- The id of a document and its contract: `_slug` and `contracts_from_sections` of
-- minifleet/compile.py. `str.lower` is an argument.
use Prim.Native.Char.{code}
use Prim.Native.String.{[] as no_chars, ◌∷◌ as and_char}
use minifleet.Prelude.{
  ℕ, String, Bool, true, false, not, ◌&&◌, ◌||◌, List, [], ◌∷◌, ◌++◌, ◌==◌, if◌then◌else◌, is_empty,
  leb, trim, starts_with, Dict, insert,
}
use minifleet.Model.{Contract}
use minifleet.Compile.{before_char, behind_char}
use minifleet.Compile.Components.{has_text, strip_prefix}
use minifleet.Compile.Sections.{Texts, lines_at, lines_joined}

-- `given or default`
abbrev pub text_or_else : String → String → String
text_or_else given default = if given == "" then default else given

abbrev is_slug_char : ℕ → Bool
is_slug_char c = leb b'a' c && leb c b'z' || leb b'0' c && leb c b'9'

-- runs of other characters become a dash between what they separate
abbrev slug_from : Bool → Bool → String → String
slug_from started pending no_chars = ""
slug_from started pending (and_char c s) =
    let kept = slug_from true false s in
    let skipped = slug_from started started s in
    if is_slug_char (code c)
    then if pending then and_char "-" (and_char c kept) else and_char c kept
    else skipped

-- the exports and the prose of the contract, line by line
abbrev contract_line : String → Dict String × List String → Dict String × List String
contract_line line (exports, prose) =
    let stripped = trim line in
    let entry = strip_prefix "- " stripped in
    let signature = trim (behind_char b':' entry) in
    if starts_with stripped "- " && not (signature == "")
    then (insert (trim (before_char b':' entry)) signature exports, prose)
    else (exports, prose ++ line ∷ [])

abbrev contract_lines : List String → Dict String × List String → Dict String × List String
contract_lines [] parts = parts
contract_lines (line ∷ lines) parts = contract_lines lines (contract_line line parts)

unfoldable pub contracts_from_sections : Dict (List String) → List Contract
unfolding before_char behind_char trim lines_joined
contracts_from_sections sections =
    let lines = lines_at "contract" sections in
    let (exports, prose) = contract_lines lines ([], []) in
    let contract : Contract = record {
      id = "C-1";
      path = "contracts/C-1.md";
      summary = "frozen interface derived from the intent";
      exports = exports;
      frozen = true;
      content = trim (lines_joined prose);
    } in
    if is_empty lines then [] else contract ∷ []

module _ (texts : Texts) where
  unfoldable pub slug_words : String → String
  unfolding has_text behind_char trim
  slug_words title =
      let tail = if has_text ":" title then behind_char b':' title else title in
      slug_from false false (texts.lower (trim tail))

  -- `_slug`
  unfoldable pub slug : String → String
  unfolding slug_words
  slug title = text_or_else (slug_words title) "intent"
