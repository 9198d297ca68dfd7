-- ===== src/Model/Xml.antt =====
-- src/model/xml.rs. A `Cow` is its value.
use evtx.Base.{List, [], ◌∷◌, ◌++◌, Option, none, some, Str}
use evtx.Base.Result.{Result, ok, err, panic, ok_or, ◌>>=◌}
use evtx.Crates.{Crates}
use evtx.Error.{EvtxError, failed_to_create_record_model}
use evtx.Model.Deserialized.{BinXmlValue}
use evtx.Binxml.Name.{BinXmlName}

pub record BinXmlPi : Type 0 where
  pub name : BinXmlName
  pub text : Str

pub record XmlPiBuilder : Type 0 where
  pub name : Option BinXmlName
  pub text : Option Str

module _ ⦃x : Crates⦄ where
  pub record XmlAttribute : Type 0 where
    pub name : BinXmlName
    pub value : BinXmlValue

  pub record XmlElement : Type 0 where
    pub name : BinXmlName
    pub attributes : List XmlAttribute

  pub data XmlModel : Type 0 where
    open_element : XmlElement → XmlModel
    close_element : XmlModel
    pi : BinXmlPi → XmlModel
    entity_ref : BinXmlName → XmlModel
    value : BinXmlValue → XmlModel
    end_of_stream start_of_stream : XmlModel

  pub record XmlElementBuilder : Type 0 where
    pub name : Option BinXmlName
    pub attributes : List XmlAttribute
    pub current_attribute_name : Option BinXmlName
    pub current_attribute_value : Option BinXmlValue

  -- `XmlElementBuilder::new`
  abbrev pub new_element : XmlElementBuilder
  new_element = record {
    name = none;
    attributes = [];
    current_attribute_name = none;
    current_attribute_value = none;
  }

  unfoldable pub set_name : BinXmlName → XmlElementBuilder → XmlElementBuilder
  set_name name builder = record builder { name = some name }

  -- A name that waits for its value is overridden.
  unfoldable pub attribute_name : BinXmlName → XmlElementBuilder → XmlElementBuilder
  attribute_name name builder = record builder { current_attribute_name = some name }

  abbrev push_attribute :
      Option BinXmlName
      → Option BinXmlValue
      → BinXmlValue
      → XmlElementBuilder
      → Result EvtxError XmlElementBuilder
  push_attribute none pending v builder = ok builder
  push_attribute (some name) none v builder = ok (record builder {
    attributes = builder.attributes ++ (record { name = name; value = v } ∷ []);
    current_attribute_name = none;
    current_attribute_value = none;
  })
  push_attribute (some name) (some w) v builder =
      err (failed_to_create_record_model "invalid state, there should not be a value")

  -- A value without a name is ignored, as Windows does.
  unfoldable pub attribute_value :
      BinXmlValue → XmlElementBuilder → Result EvtxError XmlElementBuilder
  attribute_value v builder =
      push_attribute builder.current_attribute_name builder.current_attribute_value v builder

  unfoldable pub finish : XmlElementBuilder → Result EvtxError XmlElement
  finish builder = do
    name ← ok_or builder.name (failed_to_create_record_model "Element name should be set")
    ok (record { name = name; attributes = builder.attributes })

  abbrev pub pi_of : Option BinXmlName → Option Str → Result EvtxError XmlModel
  pi_of (some name) (some text) = ok (pi (record { name = name; text = text }))
  pi_of none text = panic
  pi_of (some name) none = panic

  -- `XmlPiBuilder::finish`, with its two `expect`.
  unfoldable pub finish_pi : XmlPiBuilder → Result EvtxError XmlModel
  finish_pi builder = pi_of builder.name builder.text

-- `XmlPiBuilder::new`, `name` and `data`.
abbrev pub new_pi : XmlPiBuilder
new_pi = record { name = none; text = none }

unfoldable pub pi_name : BinXmlName → XmlPiBuilder → XmlPiBuilder
pi_name name builder = record builder { name = some name }

unfoldable pub pi_data : Str → XmlPiBuilder → XmlPiBuilder
pi_data text builder = record builder { text = some text }
