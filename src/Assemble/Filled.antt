-- ===== src/Assemble/Filled.antt =====
-- What a template of src/binxml/assemble.rs is expanded to, where its values hold no tokens to be expanded.
use evtx.Base.{
  ℕ, zero, suc, ◌≡◌, ◌≢◌, refl, sym, ap, subst, ◌∙◌, List, [], ◌∷◌, ◌++◌, append_assoc, append-nil,
  Bool, true, false, ◌||◌, Option, none, some, get_elem?, set, All, ◌==◌, ==→eq, if◌then◌else◌,
  Bool-cases, inl, inr, arith,
}
use mathlib.Core.Option.{get_or}
use evtx.Base.Result.{ok}
use evtx.Crates.{Crates}
use evtx.Model.Deserialized.{
  bin_xml_type, template_ref, BinXmlDeserializedTokens, template_instance, value, substitution,
  BinXmlTemplateDefinition, Tokens, items,
}
use evtx.Chunk.Data.{EvtxChunk}
use evtx.Assemble.Expand.{
  Stack, null_token, expand_all, take_substitution, expand_token_substitution, expand_definition,
  find_template, expand_template, expand_token, expand_templates,
}
use evtx.Assemble.Flat.{IsExpanded}

abbrev pub is_among : ℕ → List ℕ → Bool
is_among i [] = false
is_among i (k ∷ ks) = (i == k) || is_among i ks

module _ ⦃x : Crates⦄ where
  -- The value of a substitution, a null where there is none or where it was used.
  abbrev pub value_of_use : Bool → Option BinXmlDeserializedTokens → BinXmlDeserializedTokens
  value_of_use true o = null_token
  value_of_use false o = get_or o null_token

  -- The tokens of a definition with the values in the place of the substitutions, behind the uses of some.
  unfoldable pub filled :
      List BinXmlDeserializedTokens
      → List ℕ
      → List BinXmlDeserializedTokens
      → List BinXmlDeserializedTokens
  filled array used [] = []
  filled array used (substitution descriptor ∷ tokens) =
      let i = descriptor.substitution_index in
      if descriptor.ignore
      then filled array used tokens
      else value_of_use (is_among i used) (get_elem? array i) ∷ filled array (i ∷ used) tokens
  filled array used (token ∷ tokens) = token ∷ filled array used tokens

  expand_token-plain :
      (fuel : ℕ) (chunk : EvtxChunk) (token : BinXmlDeserializedTokens) (stack : Stack)
      → IsExpanded token
      → expand_token (suc fuel) chunk token stack ≡ ok (stack ++ (token ∷ []))
  unfolding expand_token
  expand_token-plain fuel chunk (value (bin_xml_type tokens)) stack h = absurd h
  expand_token-plain fuel chunk (template_instance template) stack h = absurd h
  expand_token-plain fuel chunk token stack h = refl

  abbrev at : List BinXmlDeserializedTokens → ℕ → BinXmlDeserializedTokens
  at array i = get_or (get_elem? array i) null_token

  at-set_same :
      (array : List BinXmlDeserializedTokens) (i : ℕ) → at (set array i null_token) i ≡ null_token
  at-set_same [] i = refl
  at-set_same (x ∷ xs) zero = refl
  at-set_same (x ∷ xs) (suc i) = at-set_same xs i

  at-set_other :
      (array : List BinXmlDeserializedTokens) (i k : ℕ)
      → k ≢ i
      → at (set array i null_token) k ≡ at array k
  at-set_other [] i k h = refl
  at-set_other (x ∷ xs) zero zero h = absurd (h refl)
  at-set_other (x ∷ xs) zero (suc k) h = refl
  at-set_other (x ∷ xs) (suc i) zero h = refl
  at-set_other (x ∷ xs) (suc i) (suc k) h = at-set_other xs i k (λ e. h (ap (λ n. suc n) e))

  set-IsExpanded :
      (array : List BinXmlDeserializedTokens) (i : ℕ)
      → All IsExpanded array
      → All IsExpanded (set array i null_token)
  set-IsExpanded [] i h = tt
  set-IsExpanded (x ∷ xs) zero h = (tt, h.1)
  set-IsExpanded (x ∷ xs) (suc i) h = (h.0, set-IsExpanded xs i h.1)

  at-IsExpanded :
      (array : List BinXmlDeserializedTokens) (i : ℕ)
      → All IsExpanded array
      → IsExpanded (at array i)
  at-IsExpanded [] i h = tt
  at-IsExpanded (x ∷ xs) zero h = h.0
  at-IsExpanded (x ∷ xs) (suc i) h = at-IsExpanded xs i h.1

  missing-set :
      (array : List BinXmlDeserializedTokens) (i : ℕ)
      → get_elem? array i ≡ none
      → set array i null_token ≡ array
  missing-set [] i h = refl
  missing-set (x ∷ xs) zero h = absurd cc
  missing-set (x ∷ xs) (suc i) h = ap (λ l. x ∷ l) (missing-set xs i h)

  module _ (fuel : ℕ) (chunk : EvtxChunk) where
    take-plain :
        (array : List BinXmlDeserializedTokens) (i : ℕ) (stack : Stack)
        (o : Option BinXmlDeserializedTokens)
        → get_elem? array i ≡ o
        → IsExpanded (get_or o null_token)
        → take_substitution (expand_token (suc fuel) chunk) o array i stack
          ≡ ok (set array i null_token, stack ++ (get_or o null_token ∷ []))
    take-plain array i stack (some v) h e = rw (expand_token-plain fuel chunk v stack e) refl
    take-plain array i stack none h e =
        rw (expand_token-plain fuel chunk null_token stack tt, missing-set array i h) refl

    -- The array has a null where a value was used, and else what it had.
    abbrev Left : List BinXmlDeserializedTokens → List ℕ → List BinXmlDeserializedTokens → Type 0
    Left array used left = (k : ℕ) → at left k ≡ value_of_use (is_among k used) (get_elem? array k)

    Left-used :
        (array : List BinXmlDeserializedTokens) (used : List ℕ)
        (left : List BinXmlDeserializedTokens) (i : ℕ)
        → Left array used left
        → Left array (i ∷ used) (set left i null_token)
    Left-used array used left i h k = elim (Bool-cases (k == i)) [
      | inl e ↦
          let same : at (set left i null_token) k ≡ null_token =
            subst (λ n. at (set left i null_token) n ≡ null_token) (sym (==→eq k i e))
              (at-set_same left i) in
          rw e same
      | inr e ↦
          let other : k ≢ i = λ q. absurd (ground arith) in rw e (at-set_other left i k other ∙ h k)
    ]

    definition-filled :
        (array : List BinXmlDeserializedTokens) (used : List ℕ)
        (left tokens : List BinXmlDeserializedTokens) (stack : Stack)
        → Left array used left
        → All IsExpanded left
        → All IsExpanded tokens
        → expand_definition (expand_token (suc fuel) chunk) left tokens stack
          ≡ ok (stack ++ filled array used tokens)
    unfolding expand_definition expand_token_substitution filled
    definition-filled array used left [] stack h p q = ap (λ l. ok l) (sym (append-nil stack))
    definition-filled array used left (substitution descriptor ∷ tokens) stack h p q =
        let i : ℕ = descriptor.substitution_index in
        let v : BinXmlDeserializedTokens = value_of_use (is_among i used) (get_elem? array i) in
        elim (Bool-cases descriptor.ignore) [
          | inl e ↦ rw e (definition-filled array used left tokens stack h p q.1)
          | inr e ↦
              let taken : take_substitution (expand_token (suc fuel) chunk) (get_elem? left i) left
                    i stack
                  ≡ ok (set left i null_token, stack ++ (v ∷ [])) =
                subst
                  (λ u.
                    take_substitution (expand_token (suc fuel) chunk) (get_elem? left i) left i
                      stack
                    ≡ ok (set left i null_token, stack ++ (u ∷ [])))
                  (h i)
                  (take-plain left i stack (get_elem? left i) refl (at-IsExpanded left i p)) in
              rw (e, taken)
                (definition-filled array (i ∷ used) (set left i null_token) tokens
                    (stack ++ (v ∷ [])) (Left-used array used left i h) (set-IsExpanded left i p)
                    q.1
                  ∙ ap (λ l. ok l) (append_assoc stack (v ∷ []) (filled array (i ∷ used) tokens)))
        ]
    definition-filled array used left (token ∷ tokens) stack h p q =
        rw (expand_token-plain fuel chunk token stack q.0) (
          definition-filled array used left tokens (stack ++ (token ∷ [])) h p q.1
          ∙ ap (λ l. ok l) (append_assoc stack (token ∷ []) (filled array used tokens)))

-- A template instance, whose definition holds no templates and no binary XML and whose values hold none either, is
-- expanded to the tokens of its definition in order, with nothing in the place of a substitution that is ignored
-- and, in the place of another, its value, or a null if there is no such value or a substitution before it in the
-- definition has used it.
pub expand_templates-filled :
    ⦃x : Crates⦄ (fuel : ℕ) (chunk : EvtxChunk) (offset : ℕ) (array : Tokens)
    (definition : BinXmlTemplateDefinition)
    → find_template chunk offset ≡ ok definition
    → All IsExpanded (items array)
    → All IsExpanded (items definition.tokens)
    → expand_templates (suc (suc fuel)) (template_instance (template_ref offset array) ∷ []) chunk
      ≡ ok (filled (items array) [] (items definition.tokens))
unfolding expand_templates expand_all expand_token expand_template
expand_templates-filled fuel chunk offset array definition found plain flat =
    rw
      (
        found,
        definition-filled fuel chunk (items array) [] (items array) (items definition.tokens) []
            (λ k. refl) plain flat,
      )
      refl
