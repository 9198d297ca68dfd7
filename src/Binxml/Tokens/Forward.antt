-- ===== src/Binxml/Tokens/Forward.antt =====
-- The readers of tokens end, and only move forward, where the reader of fragments does and no
-- chunk is given, so that no data size is taken back.
use evtx.Base.{
  ℕ, zero, suc, ◌+◌, ◌%◌, ◌^◌, ◌≤◌, ◌≡◌, List, [], ◌∷◌, ◌++◌, Bool, false, Option, none, some, leb,
  ◌==◌, if◌then◌else◌, leb→le, Bool-cases, inl, inr, arith,
}
use evtx.Crates.{Crates}
use evtx.Cursor.{Cursor, pure}
use evtx.Cursor.Walks.{
  Walks, Walks-weaken, Walks-pure, Walks-bind, Walks-context, Walks-if, Walks-tell_bind,
}
use evtx.Error.{failed_to_deserialize_template}
use evtx.Macros.Forward.{Walks-u8, Walks-u16, Walks-u32, Walks-guid, Walks-try_seek}
use evtx.Macros.{try_seek}
use evtx.Model.Deserialized.{
  TemplateValueDescriptor, BinXmlDeserializedTokens, value, to_vec, template_ref,
}
use evtx.Binxml.Name.Forward.{Walks-name_ref}
use evtx.Binxml.Value.{Fragment}
use evtx.Binxml.Value.Forward.{Walks-value_type, Walks-value_type_of}
use evtx.Binxml.Tokens.{
  read_template_definition_header, skip_template_data, read_value_descriptor,
  read_value_descriptors, is_null_type, seek_expected, read_substitution_at, read_substitution,
  read_substitutions, read_template, read_template_at, read_template_definition, read_entity_ref,
  read_attribute, read_fragment_header, read_processing_instruction_target,
  read_processing_instruction_data, read_substitution_descriptor, read_element_name, read_data_size,
  open_start_element_rounds, read_open_start_element,
}
use evtx.Utils.Forward.{Walks-try_len_prefixed}

module _ ⦃x : Crates⦄ (d : List ℕ) where
  pub Walks-definition_header : (p : ℕ) → Walks d p 1 read_template_definition_header
  unfolding read_template_definition_header
  Walks-definition_header p = Walks-bind d p 1 _ _ (Walks-u32 d p "next_template_offset") λ n.
      Walks-bind d _ 0 _ _ (Walks-weaken d _ _ (Walks-guid d _ "template_guid")) λ g.
        Walks-bind d _ 0 _ _ (Walks-weaken d _ _ (Walks-u32 d _ "template_data_size"))
          λ s. Walks-pure d _ _

  Walks-skip_template : (p : ℕ) → Walks d p 0 skip_template_data
  unfolding skip_template_data
  Walks-skip_template p =
      Walks-bind d p 0 _ _ (Walks-weaken d p _ (Walks-definition_header p)) λ header.
        Walks-tell_bind d _ 0 (λ q. try_seek (q + header.data_size))
          λ q h. Walks-try_seek d q (q + header.data_size) (omega arith)

  Walks-seek_expected : (p n : ℕ) → Walks d p 0 (seek_expected n)
  unfolding seek_expected
  Walks-seek_expected p n =
      Walks-tell_bind d p 0 (λ q. if leb q n then try_seek n else pure tt) λ q h. step q
    where
      step : (q : ℕ) → Walks d q 0 (if leb q n then try_seek n else pure tt)
      step q = elim (Bool-cases (leb q n)) [
        | inl t ↦ rw t (Walks-try_seek d q n (leb→le q n t))
        | inr t ↦ rw t (Walks-pure d q tt)
      ]

  pub Walks-attribute : (p : ℕ) → Walks d p 0 read_attribute
  unfolding read_attribute
  Walks-attribute p =
      Walks-bind d p 0 _ _ (Walks-weaken d p _ (Walks-name_ref d p)) λ n. Walks-pure d _ _

  pub Walks-entity_ref : (p : ℕ) → Walks d p 0 read_entity_ref
  unfolding read_entity_ref
  Walks-entity_ref p =
      Walks-bind d p 0 _ _ (Walks-weaken d p _ (Walks-name_ref d p)) λ n. Walks-pure d _ _

  pub Walks-pi_target : (p : ℕ) → Walks d p 0 read_processing_instruction_target
  unfolding read_processing_instruction_target
  Walks-pi_target p =
      Walks-bind d p 0 _ _ (Walks-weaken d p _ (Walks-name_ref d p)) λ n. Walks-pure d _ _

  pub Walks-pi_data : (p : ℕ) → Walks d p 0 read_processing_instruction_data
  unfolding read_processing_instruction_data
  Walks-pi_data p =
      Walks-bind d p 0 _ _ (Walks-weaken d p _ (Walks-try_len_prefixed d p "pi_data"))
        λ n. Walks-pure d _ _

  pub Walks-fragment_header : (p : ℕ) → Walks d p 0 read_fragment_header
  unfolding read_fragment_header
  Walks-fragment_header p =
      Walks-bind d p 0 _ _ (Walks-weaken d p _ (Walks-u8 d p "fragment_header_major_version")) λ a.
        Walks-bind d _ 0 _ _ (Walks-weaken d _ _ (Walks-u8 d _ "fragment_header_minor_version"))
          λ b.
            Walks-bind d _ 0 _ _ (Walks-weaken d _ _ (Walks-u8 d _ "fragment_header_flags"))
              λ c. Walks-pure d _ _

  pub Walks-substitution_descriptor :
      (p : ℕ) (optional : Bool) → Walks d p 0 (read_substitution_descriptor optional)
  unfolding read_substitution_descriptor
  Walks-substitution_descriptor p optional =
      Walks-bind d p 0 _ _ (Walks-weaken d p _ (Walks-u16 d p "<Unknown>")) λ i.
        Walks-bind d _ 0 _ _ (Walks-weaken d _ _ (Walks-u8 d _ "<Unknown>"))
          λ token. Walks-bind d _ 0 _ _ (Walks-value_type_of d _ token) λ t. Walks-pure d _ _

  pub Walks-data_size : (p : ℕ) (inside : Bool) → Walks d p 0 (read_data_size inside)
  unfolding read_data_size
  Walks-data_size p inside =
      Walks-bind d p 0 _ _
        (Walks-if d p 0 inside _ _ (Walks-pure d p tt) (
          Walks-bind d p 0 _ _
            (Walks-weaken d p _ (Walks-u16 d p "open_start_element_dependency_identifier"))
            λ u. Walks-pure d _ tt))
        λ v. Walks-weaken d _ _ (Walks-u32 d _ "open_start_element_data_size")

  pub Walks-element_name :
      (p : ℕ) (has_attributes : Bool) (n : ℕ) → Walks d p 0 (read_element_name has_attributes n)
  unfolding read_element_name
  Walks-element_name p has_attributes n =
      Walks-bind d p 0 _ _ (Walks-weaken d p _ (Walks-name_ref d p)) λ name.
        Walks-bind d _ 0 _ _
          (Walks-if d _ 0 has_attributes _ _
            (Walks-bind d _ 0 _ _
              (Walks-weaken d _ _ (Walks-u32 d _ "open_start_element_attribute_list_data_size"))
              λ u. Walks-pure d _ tt)
            (Walks-pure d _ tt))
          λ v. Walks-pure d _ _

  Walks-element_rounds :
      (p fuel : ℕ) (has_attributes inside : Bool)
      → Walks d p 0 (open_start_element_rounds (suc fuel) none has_attributes inside)
  unfolding open_start_element_rounds
  Walks-element_rounds p fuel has_attributes inside =
      Walks-bind d p 0 _ _ (Walks-data_size p inside) λ n. Walks-element_name _ has_attributes n

  pub Walks-open_start_element :
      (p : ℕ) (has_attributes inside : Bool)
      → Walks d p 0 (read_open_start_element none has_attributes inside)
  unfolding read_open_start_element
  Walks-open_start_element p has_attributes inside = record {
    ends =
        λ c. rw (fuel c) ((Walks-element_rounds p (c.position + 1) has_attributes inside).ends c);
    at = λ c. rw (fuel c) ((Walks-element_rounds p (c.position + 1) has_attributes inside).at c);
  }
    where
      fuel : (c : Cursor) → c.position + 2 ≡ suc (c.position + 1)
      fuel c = omega arith

  Walks-value_descriptor : (p : ℕ) → Walks d p 0 read_value_descriptor
  unfolding read_value_descriptor
  Walks-value_descriptor p =
      Walks-bind d p 0 _ _ (Walks-weaken d p _ (Walks-u16 d p "<Unknown>")) λ s.
        Walks-bind d _ 0 _ _ (Walks-weaken d _ _ (Walks-u8 d _ "<Unknown>")) λ token.
          Walks-bind d _ 0 _ _ (Walks-value_type_of d _ token) λ t.
            Walks-bind d _ 0 _ _ (Walks-weaken d _ _ (Walks-u8 d _ "<Unknown>"))
              λ e. Walks-pure d _ _

  Walks-value_descriptors :
      (p n : ℕ) (vs : List TemplateValueDescriptor) → Walks d p 0 (read_value_descriptors n vs)
  unfolding read_value_descriptors
  Walks-value_descriptors p zero vs = Walks-pure d p vs
  Walks-value_descriptors p (suc n) vs =
      Walks-bind d p 0 _ _ (Walks-value_descriptor p)
        λ v. Walks-value_descriptors (p + 0) n (vs ++ (v ∷ []))

  module _ (p₀ : ℕ) (fragment : Fragment)
      (w : (q : ℕ) (size : Option ℕ) (inside : Bool) → p₀ ≤ q → Walks d q 0 (fragment size inside))
      (codec : x.Codec) where
    Walks-substitution :
        (p : ℕ) (descriptor : TemplateValueDescriptor)
        → p₀ ≤ p
        → Walks d p 0 (read_substitution fragment codec descriptor)
    unfolding read_substitution read_substitution_at
    Walks-substitution p descriptor h =
        Walks-tell_bind d p 0 (read_substitution_at fragment codec descriptor) λ q g.
          Walks-bind d q 0 _ _
            (Walks-value_type d p₀ fragment w codec q descriptor.value_type (some descriptor.size)
              (omega arith))
            λ v.
              Walks-bind d _ 0 _ _
                (Walks-if d _ 0 (is_null_type v) _ _
                  (Walks-tell_bind d _ 0 (λ r. try_seek (r + descriptor.size))
                    λ r k. Walks-try_seek d r (r + descriptor.size) (omega arith))
                  (Walks-pure d _ tt))
                λ u.
                  Walks-bind d _ 0 _ _ (Walks-seek_expected _ (q + descriptor.size))
                    λ t. Walks-pure d _ v

    Walks-substitutions :
        (p : ℕ) (ds : List TemplateValueDescriptor) (vs : List BinXmlDeserializedTokens)
        → p₀ ≤ p
        → Walks d p 0 (read_substitutions fragment codec ds vs)
    unfolding read_substitutions
    Walks-substitutions p [] vs h = Walks-pure d p vs
    Walks-substitutions p (descriptor ∷ ds) vs h =
        Walks-bind d p 0 _ _ (Walks-substitution p descriptor h)
          λ v. Walks-substitutions (p + 0) ds (vs ++ (value v ∷ [])) (omega arith)

    Walks-template_at :
        (p offset : ℕ) → p₀ ≤ p → Walks d p 0 (read_template_at fragment codec offset p)
    unfolding read_template_at
    Walks-template_at p offset h =
        Walks-bind d p 0 _ _
          (Walks-if d p 0 (p % 2 ^ 32 == offset) _ _ (Walks-skip_template p) (Walks-pure d p tt))
          λ u. Walks-bind d _ 0 _ _ (Walks-weaken d _ _ (Walks-u32 d _ "<Unknown>")) λ n.
            Walks-bind d _ 0 _ _ (Walks-value_descriptors _ n []) λ ds.
              Walks-bind d _ 0 _ _ (Walks-substitutions _ ds [] (omega arith))
                λ vs. Walks-pure d _ (template_ref offset (to_vec vs))

    pub Walks-template : (p : ℕ) → p₀ ≤ p → Walks d p 0 (read_template fragment codec)
    unfolding read_template
    Walks-template p h = Walks-bind d p 0 _ _ (Walks-weaken d p _ (Walks-u8 d p "<Unknown>")) λ a.
        Walks-bind d _ 0 _ _ (Walks-weaken d _ _ (Walks-u32 d _ "<Unknown>")) λ id.
          Walks-bind d _ 0 _ _ (Walks-weaken d _ _ (Walks-u32 d _ "<Unknown>")) λ offset.
            Walks-tell_bind d _ 0 (read_template_at fragment codec offset)
              λ q g. Walks-template_at q offset (omega arith)

    pub Walks-template_definition :
        (p : ℕ) → p₀ ≤ p → Walks d p 1 (read_template_definition fragment)
    unfolding read_template_definition
    Walks-template_definition p h = Walks-bind d p 1 _ _ (Walks-definition_header p) λ header.
        Walks-bind d _ 0 _ _
          (Walks-context d _ 0 (λ e. failed_to_deserialize_template header.guid e) _
            (w _ (some header.data_size) false (omega arith)))
          λ tokens. Walks-pure d _ _
