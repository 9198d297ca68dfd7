-- ===== src/Assemble/Expand.antt =====
-- `expand_templates` and what it calls. A template may hold templates, so the recursion is on fuel:
-- one unit for each level of nesting.
use evtx.Base.{ℕ, zero, suc, List, [], ◌∷◌, ◌++◌, Option, none, some, get_elem?, set, if◌then◌else◌}
use evtx.Base.Result.{Result, ok, stuck, ◌>>=◌, map_err}
use evtx.Crates.{Crates}
use evtx.Error.{EvtxError, deserialization_error}
use evtx.Model.Deserialized.{
  null_type, bin_xml_type, BinXmlTemplateRef, template_ref, BinXmlDeserializedTokens,
  template_instance, value, substitution, TemplateSubstitutionDescriptor, BinXmlTemplateDefinition,
  items,
}
use evtx.Binxml.Deserializer.{read_binxml_fragment}
use evtx.Binxml.Tokens.{read_template_definition}
use evtx.Chunk.Data.{EvtxChunk}
use evtx.StringCache.{value_of}
use evtx.TemplateCache.{get_template}

module _ ⦃x : Crates⦄ where
  -- The `stack` of the source: the tokens that are expanded so far.
  abbrev pub Stack : Type 0
  Stack = List BinXmlDeserializedTokens

  -- `_expand_templates` of an inner token.
  abbrev pub Expand : Type 0
  Expand = BinXmlDeserializedTokens → Stack → Result EvtxError Stack

  -- `for token in tokens`
  unfoldable pub expand_all :
      Expand → List BinXmlDeserializedTokens → Stack → Result EvtxError Stack
  expand_all expand [] stack = ok stack
  expand_all expand (token ∷ tokens) stack = do
    stack' ← expand token stack
    expand_all expand tokens stack'

  abbrev pub null_token : BinXmlDeserializedTokens
  null_token = value null_type

  -- The value is taken out of the array, and a null is left in its place.
  abbrev pub take_substitution :
      Expand
      → Option BinXmlDeserializedTokens
      → List BinXmlDeserializedTokens
      → ℕ
      → Stack
      → Result EvtxError (List BinXmlDeserializedTokens × Stack)
  take_substitution expand (some v) substitution_array i stack = do
    stack' ← expand v stack
    ok (set substitution_array i null_token, stack')
  take_substitution expand none substitution_array i stack = do
    stack' ← expand null_token stack
    ok (substitution_array, stack')

  unfoldable pub expand_token_substitution :
      Expand
      → List BinXmlDeserializedTokens
      → TemplateSubstitutionDescriptor
      → Stack
      → Result EvtxError (List BinXmlDeserializedTokens × Stack)
  expand_token_substitution expand substitution_array descriptor stack =
      if descriptor.ignore
      then ok (substitution_array, stack)
      else take_substitution expand (get_elem? substitution_array descriptor.substitution_index)
          substitution_array descriptor.substitution_index stack

  -- The loop over the tokens of the definition.
  unfoldable pub expand_definition :
      Expand
      → List BinXmlDeserializedTokens
      → List BinXmlDeserializedTokens
      → Stack
      → Result EvtxError Stack
  expand_definition expand substitution_array [] stack = ok stack
  expand_definition expand substitution_array (substitution descriptor ∷ tokens) stack = do
    (substitution_array', stack') ←
        expand_token_substitution expand substitution_array descriptor stack
    expand_definition expand substitution_array' tokens stack'
  expand_definition expand substitution_array (token ∷ tokens) stack = do
    stack' ← expand token stack
    expand_definition expand substitution_array tokens stack'

  abbrev cached_or_read :
      EvtxChunk → ℕ → Option BinXmlTemplateDefinition → Result EvtxError BinXmlTemplateDefinition
  cached_or_read chunk offset (some template_def) = ok template_def
  cached_or_read chunk offset none = map_err deserialization_error (
      value_of (
        read_template_definition (read_binxml_fragment (some chunk.chunk_bytes) chunk.ansi_codec)
          (record { data_ref = chunk.chunk_bytes; position = offset })))

  -- A template that the cache has not is read from the chunk.
  unfoldable pub find_template : EvtxChunk → ℕ → Result EvtxError BinXmlTemplateDefinition
  find_template chunk offset =
      cached_or_read chunk offset (get_template chunk.template_table offset)

  unfoldable pub expand_template :
      Expand → EvtxChunk → BinXmlTemplateRef → Stack → Result EvtxError Stack
  expand_template expand chunk (template_ref template_def_offset substitution_array) stack = do
    template_def ← find_template chunk template_def_offset
    expand_definition expand (items substitution_array) (items template_def.tokens) stack

  -- `_expand_templates`
  unfoldable pub expand_token : ℕ → EvtxChunk → Expand
  expand_token zero chunk token stack = stuck
  expand_token (suc fuel) chunk (value (bin_xml_type tokens)) stack =
      expand_all (expand_token fuel chunk) (items tokens) stack
  expand_token (suc fuel) chunk (template_instance template) stack =
      expand_template (expand_token fuel chunk) chunk template stack
  expand_token (suc fuel) chunk token stack = ok (stack ++ (token ∷ []))

  unfoldable pub expand_templates :
      ℕ → List BinXmlDeserializedTokens → EvtxChunk → Result EvtxError Stack
  expand_templates fuel token_tree chunk = expand_all (expand_token fuel chunk) token_tree []
