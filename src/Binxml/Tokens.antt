-- ===== src/Binxml/Tokens.antt =====
-- src/binxml/tokens.rs
pub mod Forward
pub mod Rounds
use evtx.Base.{
  ℕ, zero, suc, ◌+◌, ◌-◌, ◌%◌, ◌^◌, List, [], ◌∷◌, ◌++◌, Bool, true, false, ◌&&◌, Option, none,
  some, Str, length, ltb, leb, ◌==◌, if◌then◌else◌,
}
use mathlib.Core.Option.{get_or}
use evtx.Base.Result.{Result, ok, err, panic, stuck}
use evtx.Crates.{Crates}
use evtx.Cursor.{Cursor, Reader, ◌>>=◌, ◌>>◌, continue, pure, fail, with_context, tell, seek_back}
use evtx.Error.{DeserializationError, failed_to_deserialize_template, unexpected_io_error}
use evtx.Macros.{Read, try_read_u8, try_read_u16, try_read_u32, try_read_guid, try_seek}
use evtx.Model.ValueType.{BinXmlValueType}
use evtx.Model.Deserialized.{
  BinXmlNameRef, BinXmlProcessingInstructionTarget, BinXmlOpenStartElement, BinXmlEntityReference,
  TemplateValueDescriptor, TemplateSubstitutionDescriptor, BinXmlFragmentHeader, BinXmlAttribute,
  BinXmlValue, BinXmlTemplateRef, template_ref, BinXmlDeserializedTokens, value, to_vec,
  BinXmlTemplateDefinitionHeader, BinXmlTemplateDefinition,
}
use evtx.Binxml.Name.{read_name_ref}
use evtx.Binxml.Value.{Fragment, deserialize_value_type, value_type_of}
use evtx.Utils.Strings.{try_read_len_prefixed}

module _ ⦃x : Crates⦄ where
  unfoldable pub read_template_definition_header : Read BinXmlTemplateDefinitionHeader
  read_template_definition_header = do
    next_template_offset ← try_read_u32 "next_template_offset"
    template_guid ← try_read_guid "template_guid"
    data_size ← try_read_u32 "template_data_size"
    pure (record {
      next_template_offset = next_template_offset;
      guid = template_guid;
      data_size = data_size;
    })

  -- Skips over the template data.
  unfoldable pub skip_template_data : Read Unit
  unfolding read_template_definition_header
  skip_template_data = do
    template_header ← read_template_definition_header
    position ← tell
    try_seek (position + template_header.data_size)

  unfoldable pub read_value_descriptor : Read TemplateValueDescriptor
  read_value_descriptor = do
    size ← try_read_u16 "<Unknown>"
    value_type_token ← try_read_u8 "<Unknown>"
    value_type ← value_type_of value_type_token
    try_read_u8 "<Unknown>"
    pure (record { size = size; value_type = value_type })

  -- `for _ in 0..number_of_substitutions`
  unfoldable pub read_value_descriptors :
      ℕ → List TemplateValueDescriptor → Read (List TemplateValueDescriptor)
  unfolding read_value_descriptor
  read_value_descriptors zero value_descriptors = pure value_descriptors
  read_value_descriptors (suc n) value_descriptors = do
    descriptor ← read_value_descriptor
    read_value_descriptors n (value_descriptors ++ (descriptor ∷ []))

  -- `value == BinXmlValue::NullType`
  unfoldable pub is_null_type : BinXmlValue → Bool
  is_null_type BinXmlValue.null_type = true
  is_null_type v = false

  -- The seek after a value that did not end at `expected_position`: ahead only.
  unfoldable pub seek_expected : ℕ → Read Unit
  seek_expected expected_position = do
    current_position ← tell
    if leb current_position expected_position then try_seek expected_position else pure tt

  -- A null value is skipped by the size of its descriptor.
  unfoldable pub read_substitution_at :
      Fragment → x.Codec → TemplateValueDescriptor → ℕ → Read BinXmlValue
  unfolding is_null_type seek_expected
  read_substitution_at fragment ansi_codec descriptor position_before_reading_value = do
    v ← deserialize_value_type fragment ansi_codec descriptor.value_type (some descriptor.size)
    (if is_null_type v
        then (do position ← tell; try_seek (position + descriptor.size))
        else pure tt)
    seek_expected (position_before_reading_value + descriptor.size)
    pure v

  unfoldable pub read_substitution : Fragment → x.Codec → TemplateValueDescriptor → Read BinXmlValue
  unfolding read_substitution_at
  read_substitution fragment ansi_codec descriptor = do
    position_before_reading_value ← tell
    read_substitution_at fragment ansi_codec descriptor position_before_reading_value

  unfoldable pub read_substitutions :
      Fragment
      → x.Codec
      → List TemplateValueDescriptor
      → List BinXmlDeserializedTokens
      → Read (List BinXmlDeserializedTokens)
  unfolding read_substitution
  read_substitutions fragment ansi_codec [] substitution_array = pure substitution_array
  read_substitutions fragment ansi_codec (descriptor ∷ rest) substitution_array = do
    v ← read_substitution fragment ansi_codec descriptor
    read_substitutions fragment ansi_codec rest (substitution_array ++ (value v ∷ []))

  -- What follows the offset of the definition, from the position behind it.
  unfoldable pub read_template_at : Fragment → x.Codec → ℕ → ℕ → Read BinXmlTemplateRef
  unfolding skip_template_data read_value_descriptors read_substitutions
  read_template_at fragment ansi_codec template_definition_data_offset position = do
    (if position % 2 ^ 32 == template_definition_data_offset then skip_template_data else pure tt)
    number_of_substitutions ← try_read_u32 "<Unknown>"
    value_descriptors ← read_value_descriptors number_of_substitutions []
    substitution_array ← read_substitutions fragment ansi_codec value_descriptors []
    pure (template_ref template_definition_data_offset (to_vec substitution_array))

  unfoldable pub read_template : Fragment → x.Codec → Read BinXmlTemplateRef
  unfolding read_template_at
  read_template fragment ansi_codec = do
    try_read_u8 "<Unknown>"
    template_id ← try_read_u32 "<Unknown>"
    template_definition_data_offset ← try_read_u32 "<Unknown>"
    position ← tell
    read_template_at fragment ansi_codec template_definition_data_offset position

  unfoldable pub read_template_definition : Fragment → Read BinXmlTemplateDefinition
  unfolding read_template_definition_header
  read_template_definition fragment = do
    header ← read_template_definition_header
    tokens ←
        with_context (λ e. failed_to_deserialize_template header.guid e)
          (fragment (some header.data_size) false)
    pure (record { header = header; tokens = tokens })

  unfoldable pub read_entity_ref : Read BinXmlEntityReference
  read_entity_ref = do name ← read_name_ref; pure (record { name = name })

  unfoldable pub read_attribute : Read BinXmlAttribute
  read_attribute = do name ← read_name_ref; pure (record { name = name })

  unfoldable pub read_fragment_header : Read BinXmlFragmentHeader
  read_fragment_header = do
    major_version ← try_read_u8 "fragment_header_major_version"
    minor_version ← try_read_u8 "fragment_header_minor_version"
    flags ← try_read_u8 "fragment_header_flags"
    pure (record { major_version = major_version; minor_version = minor_version; flags = flags })

  unfoldable pub read_processing_instruction_target : Read BinXmlProcessingInstructionTarget
  read_processing_instruction_target = do name ← read_name_ref; pure (record { name = name })

  unfoldable pub read_processing_instruction_data : Read Str
  read_processing_instruction_data = do
    pi_data ← try_read_len_prefixed "pi_data"
    pure (get_or pi_data [])

  -- `value_type == BinXmlValueType::NullType`
  unfoldable pub is_null_value_type : BinXmlValueType → Bool
  is_null_value_type BinXmlValueType.null_type = true
  is_null_value_type t = false

  unfoldable pub read_substitution_descriptor : Bool → Read TemplateSubstitutionDescriptor
  unfolding is_null_value_type
  read_substitution_descriptor optional = do
    substitution_index ← try_read_u16 "<Unknown>"
    value_type_token ← try_read_u8 "<Unknown>"
    value_type ← value_type_of value_type_token
    pure (record {
      substitution_index = substitution_index;
      value_type = value_type;
      ignore = optional && is_null_value_type value_type;
    })

  -- The chunk's data, where there is a chunk: `data_size >= c.data.len() as u32`.
  unfoldable pub exceeds_chunk : Option (List ℕ) → ℕ → Bool
  exceeds_chunk none data_size = false
  exceeds_chunk (some chunk_data) data_size = leb (length chunk_data % 2 ^ 32) data_size

  -- What follows the data size that was accepted.
  unfoldable pub read_element_name : Bool → ℕ → Read BinXmlOpenStartElement
  read_element_name has_attributes data_size = do
    name ← read_name_ref
    (if has_attributes
        then (do try_read_u32 "open_start_element_attribute_list_data_size"; pure tt)
        else pure tt)
    pure (record { data_size = data_size; name = name })

  unfoldable pub read_data_size : Bool → Read ℕ
  read_data_size is_substitution = do
    (if is_substitution
        then pure tt
        else (do try_read_u16 "open_start_element_dependency_identifier"; pure tt))
    try_read_u32 "open_start_element_data_size"

  -- The cursor goes back by 6 bytes before the next round.
  abbrev pub roll_back : Read BinXmlOpenStartElement → Read BinXmlOpenStartElement
  roll_back again = do with_context (λ e. unexpected_io_error) (seek_back 6); again

  -- The dependency identifier is not present in a substitution. A data size that exceeds the
  -- chunk rolls the cursor back and tries again without the identifier.
  unfoldable pub open_start_element_rounds :
      ℕ → Option (List ℕ) → Bool → Bool → Read BinXmlOpenStartElement
  unfolding read_data_size exceeds_chunk read_element_name
  open_start_element_rounds zero chunk has_attributes is_substitution c = stuck
  open_start_element_rounds (suc fuel) chunk has_attributes is_substitution c =
      continue (read_data_size is_substitution c) λ data_size.
        let again : Read BinXmlOpenStartElement =
          roll_back (open_start_element_rounds fuel chunk has_attributes true) in
        if exceeds_chunk chunk data_size then again else read_element_name has_attributes data_size

  -- Each round after the second starts 2 bytes before the one before it, so that `position + 2`
  -- rounds are enough.
  unfoldable pub read_open_start_element :
      Option (List ℕ) → Bool → Bool → Read BinXmlOpenStartElement
  unfolding open_start_element_rounds
  read_open_start_element chunk has_attributes is_substitution c =
      open_start_element_rounds (c.position + 2) chunk has_attributes is_substitution c
