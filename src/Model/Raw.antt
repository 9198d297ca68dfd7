-- ===== src/Model/Raw.antt =====
-- src/model/raw.rs: the token bytes of binary XML.
use evtx.Base.{ℕ, Bool, true, false, Option, none, some, ◌==◌, ◌||◌, if◌then◌else◌}

pub data BinXmlRawToken : Type 0 where
  end_of_stream : BinXmlRawToken
  -- `has_attributes`
  open_start_element : Bool → BinXmlRawToken
  close_start_element close_empty_element close_element value : BinXmlRawToken
  -- `more_attributes_expected`
  attribute : Bool → BinXmlRawToken
  cdata_section char_reference entity_reference : BinXmlRawToken
  processing_instruction_target processing_instruction_data : BinXmlRawToken
  template_instance normal_substitution conditional_substitution : BinXmlRawToken
  start_of_stream : BinXmlRawToken

unfoldable pub from_u8 : ℕ → Option BinXmlRawToken
from_u8 byte =
    if byte == 0x00
    then some end_of_stream
    else if byte == 0x01
    then some (open_start_element false)
    else if byte == 0x41
    then some (open_start_element true)
    else if byte == 0x02
    then some close_start_element
    else if byte == 0x03
    then some close_empty_element
    else if byte == 0x04
    then some close_element
    else if byte == 0x05 || byte == 0x45
    then some value
    else if byte == 0x06
    then some (attribute false)
    else if byte == 0x46
    then some (attribute true)
    else if byte == 0x07 || byte == 0x47
    then some cdata_section
    else if byte == 0x08 || byte == 0x48
    then some char_reference
    else if byte == 0x09 || byte == 0x49
    then some entity_reference
    else if byte == 0x0a
    then some processing_instruction_target
    else if byte == 0x0b
    then some processing_instruction_data
    else if byte == 0x0c
    then some template_instance
    else if byte == 0x0d
    then some normal_substitution
    else if byte == 0x0e
    then some conditional_substitution
    else if byte == 0x0f
    then some start_of_stream
    else none
