-- ===== src/Binxml/Format/RoundTrip.antt =====
-- Fragments and template definitions are read as they are written.
use evtx.Base.{
  ℕ, ◌<◌, sym, subst, Option, some, false, suc, ◌+◌, ◌-◌, ◌≤◌, ◌≡◌, refl, ap, List, [], ◌++◌, Bool,
  true, Option, length, length-append, leb, arith, drop,
}
use evtx.Base.Result.{ok}
use evtx.Crates.{Crates}
use evtx.Cursor.{Cursor, seek_ahead}
use evtx.Cursor.Reads.{length-drop}
use evtx.Model.Deserialized.{to_vec}
use evtx.Binxml.Deserializer.{iter_tokens, seek_to, fragment_rounds, read_binxml_fragment}
use evtx.Binxml.Format.Written.{WrittenToken}
use evtx.Binxml.Format.Fragment.{fragment_bytes, fragment_meant, FragmentFits, bytes_enough}
use evtx.Binxml.Format.Loop.{state, moved, Gives, Gives-fragment}
use evtx.Cursor.{with_context, ◌>>=◌, pure}
use evtx.Cursor.Reads.{Reads, Reads-bind, Reads-context, le, capacity}
use evtx.Error.{failed_to_deserialize_template}
use evtx.Macros.{Read}
use evtx.Model.Deserialized.{BinXmlTemplateDefinition, BinXmlTemplateDefinitionHeader, Tokens}
use evtx.Binxml.Value.{Fragment}
use evtx.Binxml.Tokens.{read_template_definition, read_template_definition_header}
use evtx.Binxml.Format.Written.{WrittenDefinition, GuidFits, definition_bytes}
use evtx.Binxml.Format.Elements.{Reads-map}
use evtx.Binxml.Format.Templates.{header_of, Reads-definition_header}

module _ ⦃x : Crates⦄ where
  seek-ahead : (c : Cursor) (n : ℕ) → seek_to (c.position + n) c ≡ ok (tt, moved c (c.position + n))
  unfolding seek_to seek_ahead
  seek-ahead c n =
      let l : leb c.position (c.position + n) ≡ true = ground arith in
      let z : c.position + (c.position + n - c.position) ≡ c.position + n = omega arith in
      rw (l, z) refl

  -- A fragment is read as the tokens that its bytes were written for, and the cursor ends behind them, whatever
  -- follows, on these conditions. Each number fits its bytes, a text holds characters in fewer than 32768 units, and the data size
  -- of an element is below the chunk's. The offset of a name or of a template's definition is the place behind it
  -- exactly if it is in place, and the crate reads the definition's identifier from its bytes. Fewer than 2 ^ 32
  -- bytes stand before the last token, and no token ends the stream but the one that closes the fragment. The
  -- fragment's size, where it has one, is that of its tokens, or, if it is closed, more than stands before each token.
  pub read_binxml_fragment-fragment_bytes :
      (chunk : Option (List ℕ)) (codec : x.Codec) (closed inside : Bool) (size : Option ℕ)
      (ts : List WrittenToken) (rest : List ℕ) (c : Cursor)
      → FragmentFits chunk closed inside size 0 c.position ts
      → drop c.position c.data_ref ≡ fragment_bytes closed inside c.position ts ++ rest
      → read_binxml_fragment chunk codec size inside c
        ≡ ok (
          to_vec (fragment_meant closed inside c.position ts),
          record c { position = c.position + length (fragment_bytes closed inside c.position ts) },
        )
  unfolding read_binxml_fragment fragment_rounds iter_tokens
  read_binxml_fragment-fragment_bytes chunk codec closed inside size ts rest c h d =
      let bs : List ℕ = fragment_bytes closed inside c.position ts in
      let fuel : ℕ = suc (length c.data_ref) in
      let there : length (drop c.position c.data_ref) ≡ length (bs ++ rest) = ap length d in
      let enough : length ts + 2 ≤ suc fuel = omega (
        arith,
        length-drop c.position c.data_ref,
        length-append bs rest,
        bytes_enough closed inside c.position ts,
      ) in
      let g : Gives (fragment_rounds fuel chunk codec) chunk codec inside (suc fuel) []
          (fragment_meant closed inside c.position ts) (state c size 0) (c.position + length bs) =
        Gives-fragment (fragment_rounds fuel chunk codec) chunk codec inside (suc fuel) closed [] c
          size 0 ts rest enough h d in
      let z : length c.data_ref + 2 ≡ suc fuel = omega arith in
      rw (z, g.run, g.at, seek-ahead c (length bs)) refl

  Reads-fragment :
      (chunk : Option (List ℕ)) (codec : x.Codec) (closed inside : Bool) (size : Option ℕ) (p : ℕ)
      (ts : List WrittenToken)
      → FragmentFits chunk closed inside size 0 p ts
      → Reads p
          (read_binxml_fragment chunk codec size inside)
          (fragment_bytes closed inside p ts)
          (to_vec (fragment_meant closed inside p ts))
  Reads-fragment chunk codec closed inside size p ts h = record {
    at = λ rest c e d.
        let bs : ℕ → List ℕ = λ n. fragment_bytes closed inside n ts in
        subst
          (λ n.
            read_binxml_fragment chunk codec size inside c
            ≡ ok (
              to_vec (fragment_meant closed inside n ts),
              record c { position = n + length (bs n) },
            ))
          e
          (read_binxml_fragment-fragment_bytes chunk codec closed inside size ts rest c
            (subst (λ n. FragmentFits chunk closed inside size 0 n ts) (sym e) h)
            (subst (λ n. drop n c.data_ref ≡ bs n ++ rest) (sym e) d));
  }

  -- Where the data of a definition stands.
  abbrev data_place : ℕ → WrittenDefinition → ℕ
  data_place p d = p + length (le 4 d.next ++ (d.guid ++ (le 4 (length d.data_bytes) ++ [])))

  -- A template's definition is read as its header, with the identifier that the crate reads from its bytes, and
  -- the tokens that its data was written for, and the cursor ends behind it, if its numbers fit their bytes and its
  -- data is a fragment, written for its place, of the size that the header states.
  pub read_template_definition-definition_bytes :
      (chunk : Option (List ℕ)) (codec : x.Codec) (closed : Bool) (d : WrittenDefinition)
      (ts : List WrittenToken) (rest : List ℕ) (c : Cursor) (g : GuidFits d.guid)
      → d.next < capacity 4
      → length d.data_bytes < capacity 4
      → d.data_bytes ≡ fragment_bytes closed false (data_place c.position d) ts
      → FragmentFits chunk closed false (some (length d.data_bytes)) 0 (data_place c.position d) ts
      → drop c.position c.data_ref ≡ definition_bytes (some d) ++ rest
      → read_template_definition (read_binxml_fragment chunk codec) c
        ≡ ok (
          record {
            header = header_of d.next g.guid (length d.data_bytes);
            tokens = to_vec (fragment_meant closed false (data_place c.position d) ts);
          },
          record c { position = c.position + length (definition_bytes (some d)) },
        )
  unfolding read_template_definition
  read_template_definition-definition_bytes chunk codec closed d ts rest c g n l b f w =
      let fragment : Fragment = read_binxml_fragment chunk codec in
      let size : ℕ = length d.data_bytes in
      let q : ℕ = data_place c.position d in
      let tokens : Tokens = to_vec (fragment_meant closed false q ts) in
      let header : BinXmlTemplateDefinitionHeader = header_of d.next g.guid size in
      let definition_of : BinXmlTemplateDefinitionHeader → Tokens → BinXmlTemplateDefinition =
        λ h t. record { header = h; tokens = t } in
      let body : BinXmlTemplateDefinitionHeader → Read Tokens = λ h.
        with_context (λ e. failed_to_deserialize_template h.guid e)
          (fragment (some h.data_size) false) in
      let r : Reads q (body header) d.data_bytes tokens =
        Reads-context q (λ e. failed_to_deserialize_template g.guid e) (fragment (some size) false)
          d.data_bytes tokens
          (subst (λ l. Reads q (fragment (some size) false) l tokens) (sym b)
            (Reads-fragment chunk codec closed false (some size) q ts f)) in
      (Reads-bind c.position read_template_definition_header
          (λ h. body h >>= λ t. pure (definition_of h t))
          (le 4 d.next ++ (d.guid ++ (le 4 size ++ []))) d.data_bytes header
          (definition_of header tokens)
          (Reads-definition_header c.position d.next size d.guid g n l)
          (Reads-map q (definition_of header) (body header) d.data_bytes tokens r)).at
        rest c refl w
