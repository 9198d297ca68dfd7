-- ===== src/Output.antt =====
-- The trait `BinXmlOutput` of src/xml_output.rs: the interface between the assembler and its
-- outputs. `S` is the state of the implementor.
use evtx.Base.Result.{Result}
use evtx.Crates.{Crates}
use evtx.Error.{SerializationError}
use evtx.Model.Deserialized.{BinXmlValue}
use evtx.Model.Xml.{XmlElement, BinXmlPi}
use evtx.Binxml.Name.{BinXmlName}

module _ ⦃x : Crates⦄ where
  pub record BinXmlOutput (S : Type 0) : Type 0 where
    pub visit_end_of_stream : S → Result SerializationError S
    pub visit_open_start_element : XmlElement → S → Result SerializationError S
    pub visit_close_element : XmlElement → S → Result SerializationError S
    pub visit_characters : BinXmlValue → S → Result SerializationError S
    pub visit_entity_reference : BinXmlName → S → Result SerializationError S
    pub visit_processing_instruction : BinXmlPi → S → Result SerializationError S
    pub visit_start_of_stream : S → Result SerializationError S
