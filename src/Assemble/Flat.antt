-- ===== src/Assemble/Flat.antt =====
-- What `expand_templates` of src/binxml/assemble.rs leaves of the tokens.
use evtx.Base.{
  ℕ, zero, suc, ◌≡◌, List, [], ◌∷◌, Option, none, some, All, All-append, get_elem?, Bool-cases, inl,
  inr,
}
use evtx.Base.Result.{ok, Ensures, Ensures-bind, Ensures-ok, Ensures-all}
use evtx.Crates.{Crates}
use evtx.Model.Deserialized.{
  bin_xml_type, BinXmlTemplateRef, template_ref, BinXmlDeserializedTokens, template_instance, value,
  substitution, TemplateSubstitutionDescriptor, items,
}
use evtx.Chunk.Data.{EvtxChunk}
use evtx.Assemble.Expand.{
  Stack, Expand, expand_all, take_substitution, expand_token_substitution, expand_definition,
  find_template, expand_template, expand_token, expand_templates,
}

module _ ⦃x : Crates⦄ where
  -- A token that holds no tokens that are still to be expanded.
  abbrev pub IsExpanded : BinXmlDeserializedTokens → Type 0
  IsExpanded (template_instance template) = ⊥
  IsExpanded (value (bin_xml_type tokens)) = ⊥
  IsExpanded token = Unit

  abbrev IsFlat : Stack → Type 0
  IsFlat = All IsExpanded

  -- The function adds only such tokens.
  abbrev Adds : Expand → Type 0
  Adds expand =
      (token : BinXmlDeserializedTokens) (stack : Stack)
      → IsFlat stack
      → Ensures IsFlat (expand token stack)

  module _ (expand : Expand) (adds : Adds expand) where
    expand_all-IsFlat :
        (tokens : List BinXmlDeserializedTokens) (stack : Stack)
        → IsFlat stack
        → Ensures IsFlat (expand_all expand tokens stack)
    unfolding expand_all
    expand_all-IsFlat [] stack a = a
    expand_all-IsFlat (token ∷ tokens) stack a =
        Ensures-bind IsFlat IsFlat (expand token stack) _ (adds token stack a)
          λ stack' b. expand_all-IsFlat tokens stack' b

    abbrev SecondIsFlat : List BinXmlDeserializedTokens × Stack → Type 0
    SecondIsFlat r = IsFlat r.1

    take_substitution-IsFlat :
        (v : Option BinXmlDeserializedTokens) (array : List BinXmlDeserializedTokens) (i : ℕ)
        (stack : Stack)
        → IsFlat stack
        → Ensures SecondIsFlat (take_substitution expand v array i stack)
    take_substitution-IsFlat (some v) array i stack a =
        Ensures-bind IsFlat SecondIsFlat (expand v stack) _ (adds v stack a) λ stack' b. b
    take_substitution-IsFlat none array i stack a =
        Ensures-bind IsFlat SecondIsFlat (expand _ stack) _ (adds _ stack a) λ stack' b. b

    substitution-IsFlat :
        (array : List BinXmlDeserializedTokens) (descriptor : TemplateSubstitutionDescriptor)
        (stack : Stack)
        → IsFlat stack
        → Ensures SecondIsFlat (expand_token_substitution expand array descriptor stack)
    unfolding expand_token_substitution
    substitution-IsFlat array descriptor stack a = elim (Bool-cases descriptor.ignore) [
      | inl e ↦ rw e a
      | inr e ↦ rw e (
          take_substitution-IsFlat (get_elem? array descriptor.substitution_index) array
            descriptor.substitution_index stack a)
    ]

    expand_definition-IsFlat :
        (array tokens : List BinXmlDeserializedTokens) (stack : Stack)
        → IsFlat stack
        → Ensures IsFlat (expand_definition expand array tokens stack)
    unfolding expand_definition
    expand_definition-IsFlat array [] stack a = a
    expand_definition-IsFlat array (substitution descriptor ∷ tokens) stack a =
        Ensures-bind SecondIsFlat IsFlat (expand_token_substitution expand array descriptor stack) _
          (substitution-IsFlat array descriptor stack a)
          λ r b. expand_definition-IsFlat r.0 tokens r.1 b
    expand_definition-IsFlat array (token ∷ tokens) stack a =
        Ensures-bind IsFlat IsFlat (expand token stack) _ (adds token stack a)
          λ stack' b. expand_definition-IsFlat array tokens stack' b

    expand_template-IsFlat :
        (chunk : EvtxChunk) (template : BinXmlTemplateRef) (stack : Stack)
        → IsFlat stack
        → Ensures IsFlat (expand_template expand chunk template stack)
    unfolding expand_template
    expand_template-IsFlat chunk (template_ref offset array) stack a =
        Ensures-bind (λ d. Unit {0}) IsFlat (find_template chunk offset) _
          (Ensures-all (λ d. Unit {0}) (find_template chunk offset) λ d. tt)
          λ d u. expand_definition-IsFlat (items array) (items d.tokens) stack a

  expand_token-Adds : (fuel : ℕ) (chunk : EvtxChunk) → Adds (expand_token fuel chunk)
  unfolding expand_token
  expand_token-Adds zero chunk token stack a = tt
  expand_token-Adds (suc fuel) chunk (value (bin_xml_type tokens)) stack a =
      expand_all-IsFlat (expand_token fuel chunk) (expand_token-Adds fuel chunk) (items tokens)
        stack a
  expand_token-Adds (suc fuel) chunk (template_instance template) stack a =
      expand_template-IsFlat (expand_token fuel chunk) (expand_token-Adds fuel chunk) chunk template
        stack a
  expand_token-Adds (suc fuel) chunk token stack a =
      All-append IsExpanded stack (token ∷ []) a (tt, tt)

-- Where `expand_templates` returns tokens, whatever the fuel, the tokens and the chunk, none of them is a
-- template instance and none is a value of binary XML.
pub expand_templates-IsExpanded :
    ⦃x : Crates⦄ (fuel : ℕ) (tokens expanded : List BinXmlDeserializedTokens) (chunk : EvtxChunk)
    → expand_templates fuel tokens chunk ≡ ok expanded
    → All IsExpanded expanded
unfolding expand_templates
expand_templates-IsExpanded fuel tokens expanded chunk h =
    Ensures-ok (All IsExpanded) (expand_templates fuel tokens chunk) expanded
      (expand_all-IsFlat (expand_token fuel chunk) (expand_token-Adds fuel chunk) tokens [] tt) h
