-- ===== src/Binxml/Format/Written.antt =====
-- How tokens are written in the format.
use evtx.Base.{
  ℕ, ◌+◌, ◌%◌, ◌^◌, ◌<◌, ◌≡◌, ◌==◌, List, [], ◌∷◌, ◌++◌, Bool, true, false, Option, none, some, Str,
  length, All,
}
use evtx.Crates.{Crates}
use evtx.Macros.{try_read_guid}
use evtx.Cursor.Reads.{Reads, le, capacity}
use evtx.Model.ValueType.{BinXmlValueType}
use evtx.Model.Codes.{code}
use evtx.Model.Deserialized.{BinXmlDeserializedTokens, template_ref, to_vec}
use evtx.Binxml.Tokens.{is_null_value_type}
use evtx.Binxml.Format.{
  WrittenName, name_bytes, name_at, NameFits, WrittenValue, text_bytes, value_bytes, type_of,
  sized_bytes, TextFits, ValueFits, value_meant,
}

-- A template's definition in place: the offset of the next one, its identifier's bytes, and its data.
pub record WrittenDefinition : Type 0 where
  pub next : ℕ
  pub guid : List ℕ
  pub data_bytes : List ℕ

-- A token. A template has its definition elsewhere or in place, and the values of its substitutions. An element has its dependency identifier outside of substitutions, its data
-- size, its name, and the size of its attributes if it has any; a flag says that more follow.
pub data WrittenToken : Type 0 where
  end_of_stream close_start_element close_empty_element close_element : WrittenToken
  open_start_element : ℕ → ℕ → WrittenName → Option ℕ → WrittenToken
  value : Bool → WrittenValue → WrittenToken
  attribute entity_reference : Bool → WrittenName → WrittenToken
  pi_target : WrittenName → WrittenToken
  pi_data : Str → WrittenToken
  normal_substitution conditional_substitution : ℕ → BinXmlValueType → WrittenToken
  fragment_header : ℕ → ℕ → ℕ → WrittenToken
  template_instance : ℕ → ℕ → Option WrittenDefinition → List WrittenValue → WrittenToken

abbrev pub dependency_bytes : Bool → ℕ → List ℕ
dependency_bytes true dependency = []
dependency_bytes false dependency = le 2 dependency

-- The place of an element's name.
abbrev pub name_place : Bool → ℕ → ℕ
name_place true p = p + 5
name_place false p = p + 7

abbrev pub is_some : Option ℕ → Bool
is_some none = false
is_some (some n) = true

abbrev pub size_bytes : Option ℕ → List ℕ
size_bytes none = []
size_bytes (some n) = le 4 n

-- The first byte of a token.
abbrev pub token_byte : WrittenToken → ℕ
token_byte WrittenToken.end_of_stream = 0x00
token_byte (WrittenToken.open_start_element dependency data_size name none) = 0x01
token_byte (WrittenToken.open_start_element dependency data_size name (some n)) = 0x41
token_byte WrittenToken.close_start_element = 0x02
token_byte WrittenToken.close_empty_element = 0x03
token_byte WrittenToken.close_element = 0x04
token_byte (WrittenToken.value false v) = 0x05
token_byte (WrittenToken.value true v) = 0x45
token_byte (WrittenToken.attribute false name) = 0x06
token_byte (WrittenToken.attribute true name) = 0x46
token_byte (WrittenToken.entity_reference false name) = 0x09
token_byte (WrittenToken.entity_reference true name) = 0x49
token_byte (WrittenToken.pi_target name) = 0x0a
token_byte (WrittenToken.pi_data s) = 0x0b
token_byte (WrittenToken.normal_substitution index value_type) = 0x0d
token_byte (WrittenToken.conditional_substitution index value_type) = 0x0e
token_byte (WrittenToken.fragment_header major minor flags) = 0x0f
token_byte (WrittenToken.template_instance id offset definition values) = 0x0c

abbrev pub definition_bytes : Option WrittenDefinition → List ℕ
definition_bytes none = []
definition_bytes (some d) =
    (le 4 d.next ++ (d.guid ++ (le 4 (length d.data_bytes) ++ []))) ++ d.data_bytes

-- The descriptors of the values, and the values.
abbrev pub descriptor_bytes : WrittenValue → List ℕ
descriptor_bytes v = le 2 (length (sized_bytes v)) ++ (le 1 (code (type_of v)) ++ (le 1 0 ++ []))

abbrev pub descriptors_bytes : List WrittenValue → List ℕ
descriptors_bytes [] = []
descriptors_bytes (v ∷ vs) = descriptor_bytes v ++ descriptors_bytes vs

abbrev pub values_bytes : List WrittenValue → List ℕ
values_bytes [] = []
values_bytes (v ∷ vs) = sized_bytes v ++ values_bytes vs

abbrev pub substitution_bytes : List WrittenValue → List ℕ
substitution_bytes vs = le 4 (length vs) ++ (descriptors_bytes vs ++ (values_bytes vs ++ []))

-- The bytes behind it, of a token whose first byte stands at the position.
abbrev pub token_rest : Bool → ℕ → WrittenToken → List ℕ
token_rest inside p (WrittenToken.open_start_element dependency data_size name attributes) =
    (dependency_bytes inside dependency ++ le 4 data_size)
    ++ (name_bytes (name_place inside p) name ++ size_bytes attributes)
token_rest inside p (WrittenToken.value more v) = value_bytes v
token_rest inside p (WrittenToken.attribute more name) = name_bytes (p + 1) name
token_rest inside p (WrittenToken.entity_reference more name) = name_bytes (p + 1) name
token_rest inside p (WrittenToken.pi_target name) = name_bytes (p + 1) name
token_rest inside p (WrittenToken.pi_data s) = text_bytes s
token_rest inside p (WrittenToken.normal_substitution index value_type) =
    le 2 index ++ (le 1 (code value_type) ++ [])
token_rest inside p (WrittenToken.conditional_substitution index value_type) =
    le 2 index ++ (le 1 (code value_type) ++ [])
token_rest inside p (WrittenToken.fragment_header major minor flags) =
    le 1 major ++ (le 1 minor ++ (le 1 flags ++ []))
token_rest inside p (WrittenToken.template_instance id offset definition values) =
    le 1 1
    ++ (le 4 id ++ (le 4 offset ++ (definition_bytes definition ++ substitution_bytes values)))
token_rest inside p t = []

abbrev pub token_bytes : Bool → ℕ → WrittenToken → List ℕ
token_bytes inside p t = le 1 (token_byte t) ++ token_rest inside p t

abbrev pub SizeFits : Option ℕ → Type 0
SizeFits none = Unit
SizeFits (some n) = n < capacity 4

-- A data size that fits in the chunk, where there is one.
abbrev pub SizeInChunk : Option (List ℕ) → ℕ → Type 0
SizeInChunk none n = Unit
SizeInChunk (some chunk_data) n = n < length chunk_data % 2 ^ 32

module _ ⦃x : Crates⦄ where
  -- The bytes that the crate reads as an identifier, wherever they stand.
  pub record GuidFits (bytes : List ℕ) : Type 0 where
    pub guid : x.Guid
    pub reads : (p : ℕ) → Reads p (try_read_guid "template_guid") bytes guid

  -- A definition is in place exactly if its offset is the place behind the offset.
  abbrev pub DefinitionFits : ℕ → ℕ → Option WrittenDefinition → Type 0
  DefinitionFits place offset none = (place % 2 ^ 32 == offset) ≡ false
  DefinitionFits place offset (some d) =
      ((place % 2 ^ 32 == offset) ≡ true)
      × (d.next < capacity 4)
      × GuidFits d.guid
      × (length d.data_bytes < capacity 4)

  abbrev pub TokenFits : Option (List ℕ) → Bool → ℕ → WrittenToken → Type 0
  TokenFits chunk inside p (WrittenToken.open_start_element dependency data_size name attributes) =
      (dependency < capacity 2)
      × (data_size < capacity 4)
      × SizeInChunk chunk data_size
      × NameFits (name_place inside p) name
      × SizeFits attributes
  TokenFits chunk inside p (WrittenToken.value more v) = ValueFits v
  TokenFits chunk inside p (WrittenToken.attribute more name) = NameFits (p + 1) name
  TokenFits chunk inside p (WrittenToken.entity_reference more name) = NameFits (p + 1) name
  TokenFits chunk inside p (WrittenToken.pi_target name) = NameFits (p + 1) name
  TokenFits chunk inside p (WrittenToken.pi_data s) = TextFits s
  TokenFits chunk inside p (WrittenToken.normal_substitution index value_type) =
      (index < capacity 2) × (code value_type < capacity 1)
  TokenFits chunk inside p (WrittenToken.conditional_substitution index value_type) =
      (index < capacity 2) × (code value_type < capacity 1)
  TokenFits chunk inside p (WrittenToken.fragment_header major minor flags) =
      (major < capacity 1) × (minor < capacity 1) × (flags < capacity 1)
  TokenFits chunk inside p (WrittenToken.template_instance id offset definition values) =
      (id < capacity 4)
      × (offset < capacity 4)
      × DefinitionFits (p + 1 + 1 + 4 + 4) offset definition
      × (length values < capacity 4)
      × All ValueFits values
  TokenFits chunk inside p t = Unit

  abbrev pub values_meant : List WrittenValue → List BinXmlDeserializedTokens
  values_meant [] = []
  values_meant (v ∷ vs) = BinXmlDeserializedTokens.value (value_meant v) ∷ values_meant vs

  -- The token that the bytes stand for.
  abbrev pub token_meant : Bool → ℕ → WrittenToken → BinXmlDeserializedTokens
  token_meant inside p WrittenToken.end_of_stream = BinXmlDeserializedTokens.end_of_stream
  token_meant inside p WrittenToken.close_start_element =
      BinXmlDeserializedTokens.close_start_element
  token_meant inside p WrittenToken.close_empty_element =
      BinXmlDeserializedTokens.close_empty_element
  token_meant inside p WrittenToken.close_element = BinXmlDeserializedTokens.close_element
  token_meant inside p (WrittenToken.open_start_element dependency data_size name attributes) =
      BinXmlDeserializedTokens.open_start_element
        (record { data_size = data_size; name = name_at (name_place inside p) name })
  token_meant inside p (WrittenToken.value more v) = BinXmlDeserializedTokens.value (value_meant v)
  token_meant inside p (WrittenToken.attribute more name) =
      BinXmlDeserializedTokens.attribute (record { name = name_at (p + 1) name })
  token_meant inside p (WrittenToken.entity_reference more name) =
      BinXmlDeserializedTokens.entity_ref (record { name = name_at (p + 1) name })
  token_meant inside p (WrittenToken.pi_target name) =
      BinXmlDeserializedTokens.pi_target (record { name = name_at (p + 1) name })
  token_meant inside p (WrittenToken.pi_data s) = BinXmlDeserializedTokens.pi_data s
  token_meant inside p (WrittenToken.normal_substitution index value_type) =
      BinXmlDeserializedTokens.substitution
        (record { substitution_index = index; value_type = value_type; ignore = false })
  token_meant inside p (WrittenToken.conditional_substitution index value_type) =
      BinXmlDeserializedTokens.substitution (record {
        substitution_index = index;
        value_type = value_type;
        ignore = is_null_value_type value_type;
      })
  token_meant inside p (WrittenToken.fragment_header major minor flags) =
      BinXmlDeserializedTokens.fragment_header
        (record { major_version = major; minor_version = minor; flags = flags })
  token_meant inside p (WrittenToken.template_instance id offset definition values) =
      BinXmlDeserializedTokens.template_instance
        (template_ref offset (to_vec (values_meant values)))
