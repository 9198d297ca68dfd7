-- ===== src/Binxml/Format/Token.antt =====
-- Each token is read as it is written.
use evtx.Base.{ℕ, ◌+◌, refl, List, Bool, true, false, Option, none, some, arith}
use evtx.Crates.{Crates}
use evtx.Cursor.Reads.{Reads}
use evtx.Model.Raw
use evtx.Model.Raw.{BinXmlRawToken}
use evtx.Model.Deserialized.{
  BinXmlNameRef, BinXmlDeserializedTokens, BinXmlAttribute, BinXmlEntityReference,
  BinXmlProcessingInstructionTarget, BinXmlOpenStartElement, template_ref, to_vec,
}
use evtx.Binxml.Value.{Fragment, from_binxml_stream}
use evtx.Binxml.Tokens.{
  read_entity_ref, read_attribute, read_fragment_header, read_processing_instruction_target,
  read_processing_instruction_data, read_substitution_descriptor, read_template,
  read_open_start_element,
}
use evtx.Binxml.Deserializer.{visit_token, read_token}
use evtx.Binxml.Format.{value_bytes, value_meant, text_bytes, name_at}
use evtx.Binxml.Format.Written.{
  WrittenToken, token_rest, token_bytes, token_meant, TokenFits, name_place, values_meant,
}
use evtx.Binxml.Format.Values.{Reads-value}
use evtx.Binxml.Format.Elements.{Reads-element}
use evtx.Binxml.Format.Templates.{Reads-template}
use evtx.Binxml.Format.Tokens.{
  Reads-data, header_of, Reads-header, descriptor_of, Reads-descriptor, Reads-byte, Reads-under,
  Reads-named,
}

-- The raw token of a token.
abbrev pub raw_of : WrittenToken → BinXmlRawToken
raw_of WrittenToken.end_of_stream = BinXmlRawToken.end_of_stream
raw_of (WrittenToken.open_start_element dependency data_size name none) =
    BinXmlRawToken.open_start_element false
raw_of (WrittenToken.open_start_element dependency data_size name (some n)) =
    BinXmlRawToken.open_start_element true
raw_of WrittenToken.close_start_element = BinXmlRawToken.close_start_element
raw_of WrittenToken.close_empty_element = BinXmlRawToken.close_empty_element
raw_of WrittenToken.close_element = BinXmlRawToken.close_element
raw_of (WrittenToken.value more v) = BinXmlRawToken.value
raw_of (WrittenToken.attribute more name) = BinXmlRawToken.attribute more
raw_of (WrittenToken.entity_reference more name) = BinXmlRawToken.entity_reference
raw_of (WrittenToken.pi_target name) = BinXmlRawToken.processing_instruction_target
raw_of (WrittenToken.pi_data s) = BinXmlRawToken.processing_instruction_data
raw_of (WrittenToken.normal_substitution index value_type) = BinXmlRawToken.normal_substitution
raw_of (WrittenToken.conditional_substitution index value_type) =
    BinXmlRawToken.conditional_substitution
raw_of (WrittenToken.fragment_header major minor flags) = BinXmlRawToken.start_of_stream
raw_of (WrittenToken.template_instance id offset definition values) =
    BinXmlRawToken.template_instance

module _ ⦃x : Crates⦄ where
  abbrev attribute_of : BinXmlNameRef → BinXmlAttribute
  attribute_of name = record { name = name }

  abbrev entity_of : BinXmlNameRef → BinXmlEntityReference
  entity_of name = record { name = name }

  abbrev target_of : BinXmlNameRef → BinXmlProcessingInstructionTarget
  target_of name = record { name = name }

  abbrev start_of : ℕ → BinXmlNameRef → BinXmlOpenStartElement
  start_of data_size name = record { data_size = data_size; name = name }

module _ ⦃x : Crates⦄ (fragment : Fragment) (chunk : Option (List ℕ)) (codec : x.Codec) where
  pub Reads-token :
      (inside : Bool) (p : ℕ) (t : WrittenToken)
      → TokenFits chunk inside p t
      → Reads p
          (read_token fragment chunk codec inside)
          (token_bytes inside p t)
          (raw_of t, token_meant inside p t)
  unfolding visit_token Raw.from_u8 read_attribute read_entity_ref
      read_processing_instruction_target
  Reads-token inside p WrittenToken.end_of_stream h =
      Reads-byte fragment chunk codec inside p 0x00 BinXmlRawToken.end_of_stream
        BinXmlDeserializedTokens.end_of_stream (omega arith) refl refl
  Reads-token inside p WrittenToken.close_start_element h =
      Reads-byte fragment chunk codec inside p 0x02 BinXmlRawToken.close_start_element
        BinXmlDeserializedTokens.close_start_element (omega arith) refl refl
  Reads-token inside p WrittenToken.close_empty_element h =
      Reads-byte fragment chunk codec inside p 0x03 BinXmlRawToken.close_empty_element
        BinXmlDeserializedTokens.close_empty_element (omega arith) refl refl
  Reads-token inside p WrittenToken.close_element h =
      Reads-byte fragment chunk codec inside p 0x04 BinXmlRawToken.close_element
        BinXmlDeserializedTokens.close_element (omega arith) refl refl
  Reads-token inside p (WrittenToken.open_start_element dependency data_size name none) h =
      Reads-under fragment chunk codec inside p 0x01 (BinXmlRawToken.open_start_element false)
        BinXmlDeserializedTokens.open_start_element (read_open_start_element chunk false inside)
        (token_rest inside p (WrittenToken.open_start_element dependency data_size name none))
        (start_of data_size (name_at (name_place inside p) name)) (omega arith) refl refl
        (Reads-element chunk inside p dependency data_size name none h.0 h.1 h.2 h.3 h.4)
  Reads-token inside p (WrittenToken.open_start_element dependency data_size name (some n)) h =
      Reads-under fragment chunk codec inside p 0x41 (BinXmlRawToken.open_start_element true)
        BinXmlDeserializedTokens.open_start_element (read_open_start_element chunk true inside)
        (token_rest inside p (WrittenToken.open_start_element dependency data_size name (some n)))
        (start_of data_size (name_at (name_place inside p) name)) (omega arith) refl refl
        (Reads-element chunk inside p dependency data_size name (some n) h.0 h.1 h.2 h.3 h.4)
  Reads-token inside p (WrittenToken.value false v) h =
      Reads-under fragment chunk codec inside p 0x05 BinXmlRawToken.value
        BinXmlDeserializedTokens.value (from_binxml_stream fragment codec none) (value_bytes v)
        (value_meant v) (omega arith) refl refl (Reads-value fragment codec (p + 1) v h)
  Reads-token inside p (WrittenToken.value true v) h =
      Reads-under fragment chunk codec inside p 0x45 BinXmlRawToken.value
        BinXmlDeserializedTokens.value (from_binxml_stream fragment codec none) (value_bytes v)
        (value_meant v) (omega arith) refl refl (Reads-value fragment codec (p + 1) v h)
  Reads-token inside p (WrittenToken.attribute false name) h =
      Reads-named fragment chunk codec inside p 0x06 (BinXmlRawToken.attribute false)
        BinXmlDeserializedTokens.attribute read_attribute attribute_of name (omega arith) refl refl
        refl h
  Reads-token inside p (WrittenToken.attribute true name) h =
      Reads-named fragment chunk codec inside p 0x46 (BinXmlRawToken.attribute true)
        BinXmlDeserializedTokens.attribute read_attribute attribute_of name (omega arith) refl refl
        refl h
  Reads-token inside p (WrittenToken.entity_reference false name) h =
      Reads-named fragment chunk codec inside p 0x09 BinXmlRawToken.entity_reference
        BinXmlDeserializedTokens.entity_ref read_entity_ref entity_of name (omega arith) refl refl
        refl h
  Reads-token inside p (WrittenToken.entity_reference true name) h =
      Reads-named fragment chunk codec inside p 0x49 BinXmlRawToken.entity_reference
        BinXmlDeserializedTokens.entity_ref read_entity_ref entity_of name (omega arith) refl refl
        refl h
  Reads-token inside p (WrittenToken.pi_target name) h =
      Reads-named fragment chunk codec inside p 0x0a BinXmlRawToken.processing_instruction_target
        BinXmlDeserializedTokens.pi_target read_processing_instruction_target target_of name
        (omega arith) refl refl refl h
  Reads-token inside p (WrittenToken.pi_data s) h =
      Reads-under fragment chunk codec inside p 0x0b BinXmlRawToken.processing_instruction_data
        BinXmlDeserializedTokens.pi_data read_processing_instruction_data (text_bytes s) s
        (omega arith) refl refl (Reads-data (p + 1) s h)
  Reads-token inside p (WrittenToken.normal_substitution index value_type) h =
      Reads-under fragment chunk codec inside p 0x0d BinXmlRawToken.normal_substitution
        BinXmlDeserializedTokens.substitution (read_substitution_descriptor false)
        (token_rest inside p (WrittenToken.normal_substitution index value_type))
        (descriptor_of false index value_type) (omega arith) refl refl
        (Reads-descriptor false (p + 1) index value_type h.0 h.1)
  Reads-token inside p (WrittenToken.conditional_substitution index value_type) h =
      Reads-under fragment chunk codec inside p 0x0e BinXmlRawToken.conditional_substitution
        BinXmlDeserializedTokens.substitution (read_substitution_descriptor true)
        (token_rest inside p (WrittenToken.conditional_substitution index value_type))
        (descriptor_of true index value_type) (omega arith) refl refl
        (Reads-descriptor true (p + 1) index value_type h.0 h.1)
  Reads-token inside p (WrittenToken.fragment_header major minor flags) h =
      Reads-under fragment chunk codec inside p 0x0f BinXmlRawToken.start_of_stream
        BinXmlDeserializedTokens.fragment_header read_fragment_header
        (token_rest inside p (WrittenToken.fragment_header major minor flags))
        (header_of major minor flags) (omega arith) refl refl
        (Reads-header (p + 1) major minor flags h.0 h.1 h.2)
  Reads-token inside p (WrittenToken.template_instance id offset definition values) h =
      Reads-under fragment chunk codec inside p 0x0c BinXmlRawToken.template_instance
        BinXmlDeserializedTokens.template_instance (read_template fragment codec)
        (token_rest inside p (WrittenToken.template_instance id offset definition values))
        (template_ref offset (to_vec (values_meant values))) (omega arith) refl refl
        (Reads-template fragment codec (p + 1) id offset definition values h.0 h.1 h.2 h.3 h.4)
