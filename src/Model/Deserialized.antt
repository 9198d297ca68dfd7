-- ===== src/Model/Deserialized.antt =====
-- src/model/deserialized.rs, with `BinXmlValue` of src/binxml/value_variant.rs and `BinXmlNameRef`
-- of src/binxml/name.rs. Values and tokens hold one another, so they stand in one block; a
-- `Vec` of tokens is the type `Tokens`. An `f32` or `f64` is its bit pattern.
use evtx.Base.{ℕ, Bool, List, [], ◌∷◌, Str}
use evtx.Base.Int.{ℤ}
use evtx.Crates.{Crates}
use evtx.Model.ValueType.{BinXmlValueType}

pub record BinXmlNameRef : Type 0 where
  pub offset : ℕ

pub record BinXmlProcessingInstructionTarget : Type 0 where
  pub name : BinXmlNameRef

pub record BinXmlOpenStartElement : Type 0 where
  pub data_size : ℕ
  pub name : BinXmlNameRef

pub record BinXmlEntityReference : Type 0 where
  pub name : BinXmlNameRef

pub record TemplateValueDescriptor : Type 0 where
  pub size : ℕ
  pub value_type : BinXmlValueType

pub record TemplateSubstitutionDescriptor : Type 0 where
  -- Zero-based (0 is first replacement)
  pub substitution_index : ℕ
  pub value_type : BinXmlValueType
  pub ignore : Bool

pub record BinXmlFragmentHeader : Type 0 where
  pub major_version : ℕ
  pub minor_version : ℕ
  pub flags : ℕ

pub record BinXmlAttribute : Type 0 where
  pub name : BinXmlNameRef

module _ ⦃x : Crates⦄ where
  mutual
    pub data BinXmlValue : Type 0 where
      null_type : BinXmlValue
      string_type : Str → BinXmlValue
      ansi_string_type : Str → BinXmlValue
      int8_type : ℤ → BinXmlValue
      uint8_type : ℕ → BinXmlValue
      int16_type : ℤ → BinXmlValue
      uint16_type : ℕ → BinXmlValue
      int32_type : ℤ → BinXmlValue
      uint32_type : ℕ → BinXmlValue
      int64_type : ℤ → BinXmlValue
      uint64_type : ℕ → BinXmlValue
      real32_type : ℕ → BinXmlValue
      real64_type : ℕ → BinXmlValue
      bool_type : Bool → BinXmlValue
      binary_type : List ℕ → BinXmlValue
      guid_type : x.Guid → BinXmlValue
      size_t_type : ℕ → BinXmlValue
      file_time_type : x.DateTime → BinXmlValue
      sys_time_type : x.DateTime → BinXmlValue
      sid_type : x.Sid → BinXmlValue
      hex_int32_type : Str → BinXmlValue
      hex_int64_type : Str → BinXmlValue
      evt_handle : BinXmlValue
      bin_xml_type : Tokens → BinXmlValue
      evt_xml : BinXmlValue
      string_array_type : List Str → BinXmlValue
      ansi_string_array_type : BinXmlValue
      int8_array_type : List ℤ → BinXmlValue
      uint8_array_type : List ℕ → BinXmlValue
      int16_array_type : List ℤ → BinXmlValue
      uint16_array_type : List ℕ → BinXmlValue
      int32_array_type : List ℤ → BinXmlValue
      uint32_array_type : List ℕ → BinXmlValue
      int64_array_type : List ℤ → BinXmlValue
      uint64_array_type : List ℕ → BinXmlValue
      real32_array_type : List ℕ → BinXmlValue
      real64_array_type : List ℕ → BinXmlValue
      bool_array_type : List Bool → BinXmlValue
      binary_array_type : BinXmlValue
      guid_array_type : List x.Guid → BinXmlValue
      size_t_array_type : BinXmlValue
      file_time_array_type : List x.DateTime → BinXmlValue
      sys_time_array_type : List x.DateTime → BinXmlValue
      sid_array_type : List x.Sid → BinXmlValue
      hex_int32_array_type : List Str → BinXmlValue
      hex_int64_array_type : List Str → BinXmlValue
      evt_array_handle : BinXmlValue
      bin_xml_array_type : BinXmlValue
      evt_xml_array_type : BinXmlValue

    pub data BinXmlTemplateRef : Type 0 where
      -- `template_def_offset` and `substitution_array`
      template_ref : ℕ → Tokens → BinXmlTemplateRef

    pub data BinXmlDeserializedTokens : Type 0 where
      fragment_header : BinXmlFragmentHeader → BinXmlDeserializedTokens
      template_instance : BinXmlTemplateRef → BinXmlDeserializedTokens
      open_start_element : BinXmlOpenStartElement → BinXmlDeserializedTokens
      attribute_list : BinXmlDeserializedTokens
      attribute : BinXmlAttribute → BinXmlDeserializedTokens
      close_start_element : BinXmlDeserializedTokens
      close_empty_element : BinXmlDeserializedTokens
      close_element : BinXmlDeserializedTokens
      value : BinXmlValue → BinXmlDeserializedTokens
      cdata_section : BinXmlDeserializedTokens
      char_ref : BinXmlDeserializedTokens
      entity_ref : BinXmlEntityReference → BinXmlDeserializedTokens
      pi_target : BinXmlProcessingInstructionTarget → BinXmlDeserializedTokens
      pi_data : Str → BinXmlDeserializedTokens
      substitution : TemplateSubstitutionDescriptor → BinXmlDeserializedTokens
      end_of_stream : BinXmlDeserializedTokens
      start_of_stream : BinXmlDeserializedTokens

    pub data Tokens : Type 0 where
      nil : Tokens
      cons : BinXmlDeserializedTokens → Tokens → Tokens

  -- A `Vec` of tokens, from the list of its items.
  abbrev pub to_vec : List BinXmlDeserializedTokens → Tokens
  to_vec [] = nil
  to_vec (t ∷ ts) = cons t (to_vec ts)

  abbrev pub items : Tokens → List BinXmlDeserializedTokens
  items nil = []
  items (cons t ts) = t ∷ items ts

  pub record BinXmlTemplateDefinitionHeader : Type 0 where
    -- A pointer to the next template in the bucket.
    pub next_template_offset : ℕ
    pub guid : x.Guid
    pub data_size : ℕ

  pub record BinXmlTemplateDefinition : Type 0 where
    pub header : BinXmlTemplateDefinitionHeader
    pub tokens : Tokens
