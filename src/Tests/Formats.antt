-- ===== src/Tests/Formats.antt =====
-- The round trip of fragments at a concrete one.
use evtx.Base.{
  Option, drop, take, leb, ap, subst, suc, String, if◌then◌else◌, length-append, ℕ, ◌+◌, inl, ◌≡◌,
  refl, List, [], ◌∷◌, ◌++◌, true, false, none, some, arith, chars, length,
}
use evtx.Base.Result.{ok}
use evtx.Cursor.{Cursor}
use evtx.Cursor.Reads.{Reads, length-drop, take-append}
use evtx.Binxml.Tokens.{read_template_definition}
use evtx.Binxml.Format.Templates.{header_of}
use evtx.Model.ValueType.{BinXmlValueType}
use evtx.Model.Deserialized.{to_vec}
use evtx.Binxml.Deserializer.{read_binxml_fragment}
use evtx.Binxml.Format.{WrittenName, WrittenValue}
use evtx.Binxml.Format.Written.{WrittenToken}
use evtx.Binxml.Format.Fragment.{fragment_bytes, fragment_meant, FragmentFits}
use evtx.Binxml.Format.Written.{definition_bytes, GuidFits, WrittenDefinition}
use evtx.Macros.{try_read_guid, from_reader}
use evtx.Binxml.Format.RoundTrip.{
  read_template_definition-definition_bytes, read_binxml_fragment-fragment_bytes,
}
use evtx.Base.Map.{insert}
use evtx.Cursor.{seek_start}
use evtx.Macros.{try_seek}
use evtx.Buckets.{IsComplete}
use evtx.TemplateCache.{
  TemplateCache, populate, populate_buckets, populate_bucket, read_cached_template,
}
use evtx.TemplateCache.Entries.{Entry, populate-IsComplete}
use evtx.Tests.Sample.{bytes_from_reader, sample_crates}

-- An identifier of 16 bytes.
abbrev id_bytes : List ℕ
id_bytes = 1 ∷ 2 ∷ 3 ∷ 4 ∷ 5 ∷ 6 ∷ 7 ∷ 8 ∷ 9 ∷ 10 ∷ 11 ∷ 12 ∷ 13 ∷ 14 ∷ 15 ∷ 16 ∷ []

from_reader-some :
    {A : Type 0} (f : Cursor → Option (A × Cursor)) (t name : String) (c : Cursor) (r : A × Cursor)
    → f c ≡ some r
    → from_reader f t name c ≡ ok r
unfolding from_reader
from_reader-some f t name c r h = rw (h, from_reader) refl

-- The bytes of a reader of a crate, where there are enough.
bytes_from_reader-some :
    (n p : ℕ) (bs rest : List ℕ) (c : Cursor)
    → length bs ≡ suc n
    → c.position ≡ p
    → drop p c.data_ref ≡ bs ++ rest
    → bytes_from_reader n c ≡ some (bs, record c { position = p + suc n })
bytes_from_reader-some n p bs rest c h e d =
    let s : length (drop p c.data_ref) ≡ length (bs ++ rest) = ap length d in
    let l : leb (p + suc n) (length c.data_ref) ≡ true =
      ground (arith, length-drop p c.data_ref, length-append bs rest) in
    let t : take (suc n) (bs ++ rest) ≡ bs =
      subst (λ k. take k (bs ++ rest) ≡ bs) h (take-append bs rest) in
    rw (e, d, t) (ap (λ b. if b then some (bs, record c { position = p + suc n }) else none) l)

id_read : (p : ℕ) → Reads p (try_read_guid "template_guid") id_bytes id_bytes
unfolding try_read_guid
id_read p = record {
  at = λ rest c e d.
      from_reader-some (bytes_from_reader 15) "guid" "template_guid" c
        (id_bytes, record c { position = p + 16 })
        (bytes_from_reader-some 15 p id_bytes rest c refl e d);
}

abbrev id_fits : GuidFits id_bytes
id_fits = record { guid = id_bytes; reads = id_read }

-- The definition of a template, where it is in place at 68.
abbrev definition_tokens : List WrittenToken
definition_tokens =
    WrittenToken.fragment_header 1 1 0
    ∷ WrittenToken.normal_substitution 0 BinXmlValueType.string_type
    ∷ []

abbrev definition : WrittenDefinition
definition = record {
  next = 0;
  guid = id_bytes;
  data_bytes = fragment_bytes true false 92 definition_tokens;
}

abbrev template_values : List WrittenValue
template_values =
    WrittenValue.string (chars "ok") ∷ WrittenValue.uint32 70000 ∷ WrittenValue.null ∷ []

-- An element with an attribute, a substitution and a text.
abbrev element_tokens : List WrittenToken
element_tokens =
    WrittenToken.fragment_header 1 1 0
    ∷ WrittenToken.open_start_element 0xFFFF 30 (WrittenName.here 0 0x1234 (65 ∷ 66 ∷ [])) (some 11)
    ∷ WrittenToken.attribute false (WrittenName.elsewhere 100)
    ∷ WrittenToken.conditional_substitution 0 BinXmlValueType.string_type
    ∷ WrittenToken.close_start_element
    ∷ WrittenToken.value false (WrittenValue.string (chars "hi"))
    ∷ WrittenToken.value false (WrittenValue.uint16 300)
    ∷ WrittenToken.close_element
    ∷ WrittenToken.template_instance 5 68 (some definition) template_values
    ∷ []

-- Behind two bytes, with a byte that follows.
abbrev element_data : List ℕ
element_data = 7 ∷ 7 ∷ (fragment_bytes true false 2 element_tokens ++ (9 ∷ []))

element_fits : FragmentFits (some element_data) true false none 0 2 element_tokens
element_fits = (
  omega arith,
  refl,
  (omega arith, omega arith, omega arith),
  (
    omega arith,
    refl,
    (
      omega arith,
      omega arith,
      omega arith,
      (omega arith, omega arith, omega arith, omega arith),
      omega arith,
    ),
    (
      omega arith,
      refl,
      (omega arith, refl),
      (
        omega arith,
        refl,
        (omega arith, omega arith),
        (
          omega arith,
          refl,
          tt,
          (
            omega arith,
            refl,
            (
              ((omega arith, inl (omega arith)), ((omega arith, inl (omega arith)), tt)),
              omega arith,
            ),
            (
              omega arith,
              refl,
              omega arith,
              (
                omega arith,
                refl,
                tt,
                (
                  omega arith,
                  refl,
                  (
                    omega arith,
                    omega arith,
                    (refl, omega arith, id_fits, omega arith),
                    omega arith,
                    (
                      (
                        ((omega arith, inl (omega arith)), ((omega arith, inl (omega arith)), tt)),
                        omega arith,
                      ),
                      (omega arith, (tt, tt)),
                    ),
                  ),
                  omega arith,
                ),
              ),
            ),
          ),
        ),
      ),
    ),
  ),
)

abbrev element_cursor : Cursor
element_cursor = record { data_ref = element_data; position = 2 }

read_binxml_fragment-fragment_bytes_example :
    read_binxml_fragment (some element_data) tt none false element_cursor
    ≡ ok (
      to_vec (fragment_meant true false 2 element_tokens),
      record element_cursor { position = 2 + length (fragment_bytes true false 2 element_tokens) },
    )
read_binxml_fragment-fragment_bytes_example =
    read_binxml_fragment-fragment_bytes (some element_data) tt true false none element_tokens
      (9 ∷ []) element_cursor element_fits refl

-- The definition alone.
abbrev definition_cursor : Cursor
definition_cursor = record { data_ref = element_data; position = 68 }

definition_fits :
    FragmentFits
      (some element_data)
      true
      false
      (some (length definition.data_bytes))
      0
      92
      definition_tokens
definition_fits = (
  (omega arith, omega arith),
  refl,
  (omega arith, omega arith, omega arith),
  ((omega arith, omega arith), refl, (omega arith, omega arith), (omega arith, omega arith)),
)

read_template_definition-definition_bytes_example :
    read_template_definition (read_binxml_fragment (some element_data) tt) definition_cursor
    ≡ ok (
      record {
        header = header_of 0 id_bytes (length definition.data_bytes);
        tokens = to_vec (fragment_meant true false 92 definition_tokens);
      },
      record definition_cursor { position = 68 + length (definition_bytes (some definition)) },
    )
read_template_definition-definition_bytes_example =
    read_template_definition-definition_bytes (some element_data) tt true definition
      definition_tokens (drop (68 + length (definition_bytes (some definition))) element_data)
      definition_cursor id_fits (omega arith) (omega arith) refl definition_fits refl

-- The definition as the only one of a chunk's template cache.
abbrev cached_definition : WrittenDefinition
cached_definition = record {
  next = 0;
  guid = id_bytes;
  data_bytes = fragment_bytes true false 26 definition_tokens;
}

abbrev cached_data : List ℕ
cached_data = 7 ∷ 7 ∷ (definition_bytes (some cached_definition) ++ [])

abbrev cached : TemplateCache
cached =
    (
      2,
      record {
        header = header_of 0 id_bytes (length cached_definition.data_bytes);
        tokens = to_vec (fragment_meant true false 26 definition_tokens);
      },
    )
    ∷ []

cached_fits :
    FragmentFits none true false (some (length cached_definition.data_bytes)) 0 26 definition_tokens
cached_fits = (
  (omega arith, omega arith),
  refl,
  (omega arith, omega arith, omega arith),
  ((omega arith, omega arith), refl, (omega arith, omega arith), (omega arith, omega arith)),
)

caches : populate cached_data (0 ∷ 2 ∷ []) tt ≡ ok cached
unfolding populate populate_buckets populate_bucket read_cached_template insert try_seek seek_start
caches =
    rw
      (read_template_definition-definition_bytes none tt true cached_definition definition_tokens []
        (record { data_ref = cached_data; position = 2 }) id_fits (omega arith) (omega arith) refl
        cached_fits refl)
      refl

populate-IsComplete_example : IsComplete cached_data (Entry cached_data tt) (0 ∷ 2 ∷ []) cached
populate-IsComplete_example = populate-IsComplete cached_data (0 ∷ 2 ∷ []) tt cached caches
