-- ===== src/Assemble/Fuel.antt =====
-- A template of src/binxml/assemble.rs that no fuel is enough for.
use evtx.Base.{ℕ, zero, suc, ◌≡◌, refl, List, [], ◌∷◌}
use evtx.Base.Result.{ok, stuck}
use evtx.Crates.{Crates}
use evtx.Model.Deserialized.{
  template_ref, BinXmlDeserializedTokens, template_instance, BinXmlTemplateDefinition, items,
  Tokens,
}
use evtx.Chunk.Data.{EvtxChunk}
use evtx.Assemble.Expand.{
  Stack, expand_all, expand_definition, find_template, expand_template, expand_token,
  expand_templates,
}

module _ ⦃x : Crates⦄ (chunk : EvtxChunk) (offset : ℕ) (definition : BinXmlTemplateDefinition) where
  self_instance :
      (inner : Tokens) (rest : List BinXmlDeserializedTokens)
      → find_template chunk offset ≡ ok definition
      → items definition.tokens ≡ template_instance (template_ref offset inner) ∷ rest
      → (fuel : ℕ) (array : Tokens) (stack : Stack)
      → expand_token fuel chunk (template_instance (template_ref offset array)) stack ≡ stuck
  unfolding expand_token expand_template expand_definition
  self_instance inner rest found self zero array stack = refl
  self_instance inner rest found self (suc fuel) array stack =
      rw (found, self, self_instance inner rest found self fuel inner stack)

-- Where the definition that is found at an offset begins with an instance of the template at that offset, no
-- fuel is enough to expand tokens that begin with an instance of it.
pub expand_templates_self :
    ⦃x : Crates⦄ (fuel : ℕ) (chunk : EvtxChunk) (offset : ℕ) (definition : BinXmlTemplateDefinition)
    (array inner : Tokens) (rest tokens : List BinXmlDeserializedTokens)
    → find_template chunk offset ≡ ok definition
    → items definition.tokens ≡ template_instance (template_ref offset inner) ∷ rest
    → expand_templates fuel (template_instance (template_ref offset array) ∷ tokens) chunk ≡ stuck
unfolding expand_templates expand_all
expand_templates_self fuel chunk offset definition array inner rest tokens found self =
    rw (self_instance chunk offset definition inner rest found self fuel array [])
