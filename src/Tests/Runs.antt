-- ===== src/Tests/Runs.antt =====
-- The theorems at concrete inputs.
use evtx.Base.{◌⊎◌, arith, ◌≤◌, ◌≡◌, ◌≢◌, ◌↔◌, refl, List, [], ◌∷◌, none, some, false, All, chars}
use evtx.Base.Map.{get}
use evtx.Base.Tests.{str_eq}
use evtx.Base.Text.{decimal, digits}
use evtx.Base.Result.{ok, err, stuck, ◌>>=◌}
use evtx.Cursor.{Cursor}
use evtx.Model.Deserialized.{Tokens, BinXmlDeserializedTokens, end_of_stream, BinXmlValue}
use evtx.Binxml.Deserializer.{read_binxml_fragment}
use evtx.Binxml.Deserializer.Ends.{fragment_ends}
use evtx.TemplateCache.{get_template}
use evtx.Assemble.Expand.{
  expand_templates, expand_all, expand_token, expand_template, expand_definition,
  expand_token_substitution, find_template,
}
use evtx.Assemble.Flat.{IsExpanded, expand_templates-IsExpanded}
use evtx.Assemble.Fuel.{expand_templates_self}
use evtx.Assemble.Parse.{visit_models, visit_model, visit_close}
use evtx.Assemble.Nesting.{open_elements}
use evtx.Json.Path.{
  drop_last, get_key, ensure_child, put_key, update_at, create_path, update_object, update_current,
  update_parent, JsonResult,
}
use evtx.Json.Insert.{
  JsonOutput, attribute_map, insert_node_with_attributes, new_output,
  insert_node_without_attributes, insert_placeholder, is_null, is_empty_object, slot_key, find_slot,
  move_to_slot,
}
use evtx.Json.Visit.{
  visit_open_start_element, visit_close_element, visit_characters, json_visitor, into_value,
}
use evtx.Convert.ToJson.{to_json, json_null}
use evtx.Convert.Text.{as_cow_str}
use evtx.Json.Keys.{into_value_iff}
use evtx.Json.Reach.{lookup, leaves}
use evtx.Json.Reach.Writes.{reach, update_current-writes}
use evtx.Json.Reach.Attributes.{bug, attributed, is_object, insert_node_with_attributes-is_object}
use evtx.Serde.{View}
use evtx.Model.Xml.{XmlElement}
use evtx.Assemble.Forest.{Forest, flatten, visit_forest, visit_models-flatten}
use evtx.Json.Slots.{Keeps, insert_placeholder-Keeps, insert_node_without_attributes-ok}
use evtx.Parser.Chunks.{find_next_chunk}
use evtx.Parser.Search.{IsFirst, find_next_chunk-IsFirst}
use evtx.Tests.Sample.{sample_crates}
use evtx.Tests.SampleJson.{Json, Entries, sample_json, sample_formats}
use evtx.Tests.SampleChunk.{
  sample_chunk, text, nested_tokens, self_definition, instance_at, event, event_model, short_file,
}

-- A fragment header and the end of the stream.
abbrev two_tokens : Cursor
two_tokens = record { data_ref = 0x0f ∷ 1 ∷ 1 ∷ 0 ∷ 0x00 ∷ []; position = 0 }

fragment_ends_example :
    (read_binxml_fragment none tt (some 5) false two_tokens ≢ stuck)
    × ((ts : Tokens) (c' : Cursor)
        → read_binxml_fragment none tt (some 5) false two_tokens ≡ ok (ts, c')
        → (c'.data_ref ≡ two_tokens.data_ref) × (two_tokens.position ≤ c'.position))
fragment_ends_example = fragment_ends tt (some 5) false two_tokens

-- The second use of the value gives a null.
abbrev expanded : List BinXmlDeserializedTokens
expanded =
    text (chars "a") ∷ BinXmlDeserializedTokens.value BinXmlValue.null_type ∷ text (chars "b") ∷ []

expands : expand_templates 3 nested_tokens sample_chunk ≡ ok expanded
unfolding expand_templates expand_all expand_token expand_template expand_definition
    expand_token_substitution find_template get_template get
expands = refl

expand_templates-IsExpanded_example : All IsExpanded expanded
expand_templates-IsExpanded_example =
    expand_templates-IsExpanded 3 nested_tokens expanded sample_chunk expands

found_self : find_template sample_chunk 700 ≡ ok self_definition
unfolding find_template get_template get
found_self = refl

expand_templates_self_example :
    expand_templates 9 (instance_at 700 ∷ text (chars "b") ∷ []) sample_chunk ≡ stuck
expand_templates_self_example =
    expand_templates_self 9 sample_chunk 700 self_definition Tokens.nil Tokens.nil
      (end_of_stream ∷ []) (text (chars "b") ∷ []) found_self refl

-- The document {"Event": "a"}.
abbrev event_document : Json
event_document =
    Json.object (Entries.entry (chars "Event") (Json.string (chars "a")) Entries.no_entries)

abbrev at_end : JsonOutput
at_end = record { document = event_document; stack = []; separate_json_attributes = false }

visited : visit_models json_visitor event_model [] (new_output false) ≡ ok ([], at_end)
unfolding visit_models visit_model visit_close visit_open_start_element visit_close_element
    visit_characters insert_node_without_attributes insert_placeholder drop_last get_key
    ensure_child put_key update_at create_path update_object update_current update_parent is_null
    is_empty_object slot_key to_json as_cow_str str_eq
visited = refl

-- The tree of the model, whose visits are those of the walk.
abbrev event_forest : Forest
event_forest =
    Forest.element event (Forest.characters (BinXmlValue.string_type (chars "a")) Forest.done)
      Forest.done

flattens : flatten event_forest ≡ event_model
flattens = refl

visit_models-flatten_example :
    visit_models json_visitor (flatten event_forest) [] (new_output false)
    ≡ (visit_forest json_visitor event_forest (new_output false) >>= λ out. ok ([], out))
visit_models-flatten_example = visit_models-flatten json_visitor event_forest [] (new_output false)

into_value_iff_example :
    (open_elements event_model [] ≡ some []) ↔ (into_value at_end ≡ ok event_document)
into_value_iff_example = into_value_iff false event_model [] at_end visited

find_next_chunk-IsFirst_example : IsFirst short_file 0 (find_next_chunk short_file 0)
find_next_chunk-IsFirst_example = find_next_chunk-IsFirst short_file 0 (omega arith)

-- The change of a text to null.
abbrev to_null : Json → JsonResult
to_null v = ok json_null

update_current-writes_example :
    (v' : Json) × (update_current (chars "Event" ∷ []) to_null event_document ≡ ok v')
    × (lookup (chars "Event" ∷ []) v' ≡ some Json.null)
    × ((leaves (chars "Event" ∷ []) (chars "Data" ∷ []) ≡ false)
        ⊎ (lookup (chars "Data" ∷ []) v' ≡ lookup (chars "Data" ∷ []) event_document))
update_current-writes_example =
    update_current-writes (chars "Event" ∷ []) (chars "Data" ∷ []) to_null event_document Json.null
      refl

-- An element with an attribute, where its name holds a text.
abbrev attributed_event : XmlElement
attributed_event = record {
  name = record { str = chars "Event" };
  attributes =
      record { name = record { str = chars "x" }; value = BinXmlValue.string_type (chars "y") }
      ∷ [];
}

abbrev event_attributes : Entries
event_attributes = Entries.entry (chars "x") (Json.string (chars "y")) Entries.no_entries

has_attributes : attribute_map attributed_event.attributes Entries.no_entries ≡ ok event_attributes
unfolding attribute_map is_null to_json str_eq
has_attributes = refl

insert_node_with_attributes-is_object_example :
    ((m : Entries) × (out' : JsonOutput) × (sample_json.view
          (reach (chars "Event" ∷ []) event_document)
        ≡ View.object m)
      × (insert_node_with_attributes attributed_event (chars "Event") at_end ≡ ok out')
      × (lookup (chars "Event" ∷ []) out'.document ≡ some (attributed event_attributes m)))
    ⊎ ((is_object (sample_json.view (reach (chars "Event" ∷ []) event_document)) ≡ false)
        × (insert_node_with_attributes attributed_event (chars "Event") at_end ≡ err bug))
insert_node_with_attributes-is_object_example =
    insert_node_with_attributes-is_object attributed_event (chars "Event") at_end event_attributes
      refl has_attributes refl

-- It fails.
fails : insert_node_with_attributes attributed_event (chars "Event") at_end ≡ err bug
unfolding insert_node_with_attributes attribute_map is_null to_json str_eq update_object
    update_current create_path update_at ensure_child get_key put_key
fails = refl

abbrev event_map : Entries
event_map = Entries.entry (chars "Event") (Json.string (chars "a")) Entries.no_entries

insert_placeholder-Keeps_example :
    (m' : Entries) × (insert_placeholder (chars "Event") event_map ≡ ok m')
    × Keeps (chars "Event") event_map m'
insert_placeholder-Keeps_example = insert_placeholder-Keeps (chars "Event") event_map

insert_node_without_attributes-ok_example :
    (document : Json) × (insert_node_without_attributes (chars "Event") at_end
      ≡ ok (record at_end { document = document; stack = chars "Event" ∷ [] }))
insert_node_without_attributes-ok_example = insert_node_without_attributes-ok (chars "Event") at_end

-- The old text moves to a numbered key.
moves_old :
    insert_placeholder (chars "Event") event_map
    ≡ ok (
        Entries.entry
          (chars "Event")
          Json.null
          (Entries.entry (chars "Event_1") (Json.string (chars "a")) Entries.no_entries))
unfolding insert_placeholder slot_key find_slot move_to_slot decimal digits str_eq is_null
    is_empty_object
moves_old = refl
