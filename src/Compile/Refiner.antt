-- ===== src/Compile/Refiner.antt =====
-- The back ends of minifleet/compile.py: `HttpRefiner` and `compile_text`.
--
-- The endpoint and the JSON decoder are arguments; `none` is an exception. A compilation is the
-- intent of its data, so the name of its back end and its notes are left out.
use minifleet.Prelude.{String, Option, none, some, ◌==◌, if◌then◌else◌, Bool, is_empty}
use minifleet.Model.{Value, object, Fields, IntentSpec}
use minifleet.Model.Codec.{◌>>=◌}
use minifleet.Model.Codec.Intents.{intent_of}
use minifleet.Intent.{validate}
use minifleet.Gatelib.{Formats}
use minifleet.Workers.{Endpoint, available}
use minifleet.Workers.Runtime.{content_of}
use minifleet.Compile.Components.{Pathlib}
use minifleet.Compile.Document.{require, compile_document}
use minifleet.Compile.Sections.{Texts}

-- what answers a prompt with the draft and the text, and `json.loads`
pub record Model : Type 0 where
  pub ask : Endpoint → IntentSpec → String → Option Value
  pub loads : String → Option Value

abbrev as_fields : Value → Option Fields
as_fields (object fs) = some fs
as_fields v = none

module _ (fnmatch : String → String → Bool) (texts : Texts) where
  -- `validate_intent`, with the intent that it reads
  unfoldable pub validate_intent : Fields → Option IntentSpec
  unfolding intent_of validate
  validate_intent fields = do
    spec ← intent_of texts.to_float fields
    _ ← require (is_empty (validate fnmatch spec))
    some spec

  unfoldable pub refine : Model → Endpoint → IntentSpec → String → Option IntentSpec
  unfolding content_of validate_intent
  refine model endpoint draft document = do
    _ ← require (available endpoint)
    payload ← model.ask endpoint draft document
    content ← content_of payload
    refined ← model.loads content
    fields ← as_fields refined
    validate_intent fields

  -- the draft, or what the model makes of it; another back end is refused
  abbrev chosen : Model → Endpoint → String → String → IntentSpec → Option IntentSpec
  chosen model endpoint backend document draft =
      if backend == "rules"
      then some draft
      else if backend == "llm"
      then refine model endpoint draft document
      else none

  unfoldable pub compile_text :
      Pathlib → Formats → Model → Endpoint → String → String → Option IntentSpec
  unfolding compile_document refine
  compile_text paths fmt model endpoint backend document = do
    draft ← compile_document paths texts fmt fnmatch document
    chosen model endpoint backend document draft
