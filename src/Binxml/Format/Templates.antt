-- ===== src/Binxml/Format/Templates.antt =====
-- Templates are read as they are written.
use evtx.Base.{
  ℕ, ◌+◌, ◌%◌, ◌^◌, ◌<◌, refl, List, [], ◌++◌, map, Option, none, some, length, ◌==◌, if◌then◌else◌,
  arith, All,
}
use evtx.Crates.{Crates}
use evtx.Cursor.{◌>>=◌, pure, tell}
use evtx.Cursor.Reads.{Reads, Reads-pure, Reads-bind, Reads-tell_bind, le, capacity}
use evtx.Macros.{Read, try_read_u8, try_read_u32, try_read_guid, try_seek}
use evtx.Model.Deserialized.{
  BinXmlTemplateRef, template_ref, BinXmlTemplateDefinitionHeader, TemplateValueDescriptor, to_vec,
}
use evtx.Binxml.Value.{Fragment}
use evtx.Binxml.Tokens.{
  read_template_definition_header, skip_template_data, read_value_descriptors, read_substitutions,
  read_template_at, read_template,
}
use evtx.Binxml.Format.{WrittenValue, ValueFits}
use evtx.Binxml.Format.Written.{
  WrittenDefinition, GuidFits, DefinitionFits, definition_bytes, descriptors_bytes, values_bytes,
  substitution_bytes, values_meant,
}
use evtx.Binxml.Format.Names.{Reads-u8, Reads-u32, Reads-seek}
use evtx.Binxml.Format.Elements.{Reads-map}
use evtx.Binxml.Format.Substitutions.{descriptor_of, Reads-descriptors, Reads-substitutions}

module _ ⦃x : Crates⦄ where
  abbrev pub header_of : ℕ → x.Guid → ℕ → BinXmlTemplateDefinitionHeader
  header_of next guid size = record { next_template_offset = next; guid = guid; data_size = size }

  pub Reads-definition_header :
      (p next size : ℕ) (guid : List ℕ) (g : GuidFits guid)
      → next < capacity 4
      → size < capacity 4
      → Reads p read_template_definition_header
          (le 4 next ++ (guid ++ (le 4 size ++ [])))
          (header_of next g.guid size)
  unfolding read_template_definition_header
  Reads-definition_header p next size guid g h k =
      let sized : ℕ → x.Guid → Read BinXmlTemplateDefinitionHeader =
        λ n i. try_read_u32 "template_data_size" >>= λ z. pure (header_of n i z) in
      let e : BinXmlTemplateDefinitionHeader = header_of next g.guid size in
      let q : ℕ = p + 4 + length guid in
      Reads-bind p (try_read_u32 "next_template_offset")
        (λ n. try_read_guid "template_guid" >>= sized n) (le 4 next) (guid ++ (le 4 size ++ []))
        next e (Reads-u32 p "next_template_offset" next h)
        (Reads-bind (p + 4) (try_read_guid "template_guid") (sized next) guid (le 4 size ++ [])
          g.guid e (g.reads (p + 4))
          (Reads-map q (λ z. header_of next g.guid z) (try_read_u32 "template_data_size")
            (le 4 size) size (Reads-u32 q "template_data_size" size k)))

  Reads-skip :
      (p : ℕ) (d : WrittenDefinition) (g : GuidFits d.guid)
      → d.next < capacity 4
      → length d.data_bytes < capacity 4
      → Reads p skip_template_data (definition_bytes (some d)) tt
  unfolding skip_template_data
  Reads-skip p d g h k =
      let size : ℕ = length d.data_bytes in
      let header : List ℕ = le 4 d.next ++ (d.guid ++ (le 4 size ++ [])) in
      let q : ℕ = p + length header in
      Reads-bind p read_template_definition_header
        (λ t. tell >>= λ position. try_seek (position + t.data_size)) header d.data_bytes
        (header_of d.next g.guid size) tt (Reads-definition_header p d.next size d.guid g h k)
        (Reads-tell_bind q (λ position. try_seek (position + size)) d.data_bytes tt
          (Reads-seek q (q + size) d.data_bytes refl))

  -- The definition is skipped if it is in place.
  Reads-definition :
      (place offset : ℕ) (definition : Option WrittenDefinition)
      → DefinitionFits place offset definition
      → Reads place
          (if place % 2 ^ 32 == offset then skip_template_data else pure tt)
          (definition_bytes definition)
          tt
  Reads-definition place offset none h = rw h (Reads-pure place tt)
  Reads-definition place offset (some d) h = rw h.0 (Reads-skip place d h.2 h.1 h.3)

  module _ (fragment : Fragment) (codec : x.Codec) where
    abbrev substituted : ℕ → Read BinXmlTemplateRef
    substituted offset = do
      number ← try_read_u32 "<Unknown>"
      descriptors ← read_value_descriptors number []
      array ← read_substitutions fragment codec descriptors []
      pure (template_ref offset (to_vec array))

    Reads-substituted :
        (p offset : ℕ) (vs : List WrittenValue)
        → length vs < capacity 4
        → All ValueFits vs
        → Reads p
            (substituted offset)
            (substitution_bytes vs)
            (template_ref offset (to_vec (values_meant vs)))
    Reads-substituted p offset vs h k =
        let e : BinXmlTemplateRef = template_ref offset (to_vec (values_meant vs)) in
        let values : List TemplateValueDescriptor → Read BinXmlTemplateRef = λ ds.
          read_substitutions fragment codec ds [] >>= λ a. pure (template_ref offset (to_vec a)) in
        let q : ℕ = p + 4 in
        let r : ℕ = q + length (descriptors_bytes vs) in
        Reads-bind p (try_read_u32 "<Unknown>") (λ n. read_value_descriptors n [] >>= values)
          (le 4 (length vs)) (descriptors_bytes vs ++ (values_bytes vs ++ [])) (length vs) e
          (Reads-u32 p "<Unknown>" (length vs) h)
          (Reads-bind q (read_value_descriptors (length vs) []) values (descriptors_bytes vs)
            (values_bytes vs ++ []) (map descriptor_of vs) e (Reads-descriptors q vs [] k)
            (Reads-bind r (read_substitutions fragment codec (map descriptor_of vs) [])
              (λ a. pure (template_ref offset (to_vec a))) (values_bytes vs) [] (values_meant vs) e
              (Reads-substitutions fragment codec r vs [] k)
              (Reads-pure (r + length (values_bytes vs)) e)))

    pub Reads-template :
        (p id offset : ℕ) (definition : Option WrittenDefinition) (vs : List WrittenValue)
        → id < capacity 4
        → offset < capacity 4
        → DefinitionFits (p + 1 + 4 + 4) offset definition
        → length vs < capacity 4
        → All ValueFits vs
        → Reads p
            (read_template fragment codec)
            (le 1 1
              ++ (le 4 id
                  ++ (le 4 offset ++ (definition_bytes definition ++ substitution_bytes vs))))
            (template_ref offset (to_vec (values_meant vs)))
    unfolding read_template read_template_at
    Reads-template p id offset definition vs h k d l f =
        let e : BinXmlTemplateRef = template_ref offset (to_vec (values_meant vs)) in
        let bs : List ℕ = definition_bytes definition ++ substitution_bytes vs in
        let place : ℕ = p + 1 + 4 + 4 in
        let at : ℕ → Read BinXmlTemplateRef = λ o. tell >>= read_template_at fragment codec o in
        let skipped : Read (Unit {0}) =
          if place % 2 ^ 32 == offset then skip_template_data else pure tt in
        let rest : Reads place (read_template_at fragment codec offset place) bs e =
          Reads-bind place skipped (λ u. substituted offset) (definition_bytes definition)
            (substitution_bytes vs) tt e (Reads-definition place offset definition d)
            (Reads-substituted (place + length (definition_bytes definition)) offset vs l f) in
        Reads-bind p (try_read_u8 "<Unknown>")
          (λ v. try_read_u32 "<Unknown>" >>= λ i. try_read_u32 "<Unknown>" >>= at) (le 1 1)
          (le 4 id ++ (le 4 offset ++ bs)) 1 e (Reads-u8 p "<Unknown>" 1 (omega arith))
          (Reads-bind (p + 1) (try_read_u32 "<Unknown>") (λ i. try_read_u32 "<Unknown>" >>= at)
            (le 4 id) (le 4 offset ++ bs) id e (Reads-u32 (p + 1) "<Unknown>" id h)
            (Reads-bind (p + 1 + 4) (try_read_u32 "<Unknown>") at (le 4 offset) bs offset e
              (Reads-u32 (p + 1 + 4) "<Unknown>" offset k)
              (Reads-tell_bind place (read_template_at fragment codec offset) bs e rest)))
