-- ===== src/Binxml/Deserializer.antt =====
-- src/binxml/deserializer.rs. A fragment holds values that hold fragments: the inner
-- `read_binxml_fragment` is an argument of the readers of values, and the recursion is on fuel.
pub mod Forward
pub mod Ends
use evtx.Base.{
  ℕ, zero, suc, ◌+◌, ◌-◌, ◌%◌, ◌^◌, List, [], ◌∷◌, ◌++◌, Bool, true, false, Option, none, some,
  length, leb, ltb, String, if◌then◌else◌,
}
use evtx.Base.Result.{Result, ok, err, panic, stuck}
use evtx.Crates.{Crates}
use evtx.Cursor.{
  Cursor, Reader, ◌>>=◌, ◌>>◌, continue, pure, fail, with_context, tell, seek_ahead, seek_back,
}
use evtx.Error.{DeserializationError, invalid_token, unimplemented_token, remove_me}
use evtx.Macros.{Read, try_read_u8}
use evtx.Model.Raw
use evtx.Model.Raw.{BinXmlRawToken}
use evtx.Model.Deserialized.{
  BinXmlDeserializedTokens, fragment_header, template_instance, open_start_element, attribute,
  close_start_element, close_empty_element, close_element, value, entity_ref, pi_target, pi_data,
  substitution, end_of_stream, Tokens, to_vec,
}
use evtx.Binxml.Value.{Fragment, from_binxml_stream}
use evtx.Binxml.Tokens.{
  read_template, read_entity_ref, read_attribute, read_fragment_header,
  read_processing_instruction_target, read_processing_instruction_data,
  read_substitution_descriptor, read_open_start_element,
}

-- `IterTokens`; its chunk, codec and `is_inside_substitution` are arguments of its methods.
pub record IterTokens : Type 0 where
  pub cursor : Cursor
  pub data_size : Option ℕ
  pub data_read_so_far : ℕ
  pub eof : Bool

-- The test at the head of `inner_next`: nothing is left to read.
unfoldable pub is_finished : IterTokens → Bool
is_finished iter =
    if iter.eof
    then true
    else elim iter.data_size [ none ↦ false | some sz ↦ leb sz iter.data_read_so_far ]

unfoldable pub is_end_of_stream : BinXmlRawToken → Bool
is_end_of_stream BinXmlRawToken.end_of_stream = true
is_end_of_stream t = false

-- The fields after a token: the count is a `u32`, and the difference of positions a `u64`.
unfoldable pub advance_to : IterTokens → BinXmlRawToken → Cursor → IterTokens
unfolding is_end_of_stream
advance_to iter raw_token cursor = record {
  cursor = cursor;
  data_size = iter.data_size;
  data_read_so_far =
      (iter.data_read_so_far + (cursor.position + 2 ^ 64 - iter.cursor.position) % 2 ^ 64 % 2 ^ 32)
      % 2 ^ 32;
  eof = if is_end_of_stream raw_token then true else iter.eof;
}

module _ ⦃x : Crates⦄ where
  -- A read thing under its token.
  unfoldable pub as_token :
      {A : Type 0} → (A → BinXmlDeserializedTokens) → Read A → Read BinXmlDeserializedTokens
  as_token f m = do a ← m; pure (f a)

  unfoldable pub unimplemented_here : String → Read BinXmlDeserializedTokens
  unimplemented_here name = do offset ← tell; fail (unimplemented_token name offset)

  unfoldable pub raw_token_of : ℕ → Read BinXmlRawToken
  raw_token_of token c = elim (Raw.from_u8 token) [
    | none ↦ err (invalid_token token c.position)
    | some t ↦ ok (t, c)
  ]

  unfoldable pub read_next_token : Read BinXmlRawToken
  unfolding raw_token_of
  read_next_token = do token ← try_read_u8 "<Unknown>"; raw_token_of token

  abbrev pub NextToken : Type 0
  NextToken = Result DeserializationError (Option (BinXmlDeserializedTokens × IterTokens))

  abbrev pub yield_token :
      IterTokens
      → Result DeserializationError ((BinXmlRawToken × BinXmlDeserializedTokens) × Cursor)
      → NextToken
  yield_token iter (ok ((raw_token, token), cursor)) =
      ok (some (token, advance_to iter raw_token cursor))
  yield_token iter (err e) = err e
  yield_token iter panic = panic
  yield_token iter stuck = stuck

  abbrev pub Drained : Type 0
  Drained = Result DeserializationError (List BinXmlDeserializedTokens × IterTokens)

  abbrev pub collect :
      List BinXmlDeserializedTokens
      → IterTokens
      → (List BinXmlDeserializedTokens → IterTokens → Drained)
      → NextToken
      → Drained
  collect tokens iter more (ok none) = ok (tokens, iter)
  collect tokens iter more (ok (some (t, iter'))) = more (tokens ++ (t ∷ [])) iter'
  collect tokens iter more (err e) = err e
  collect tokens iter more panic = panic
  collect tokens iter more stuck = stuck

  module _ (fragment : Fragment) (chunk : Option (List ℕ)) (ansi_codec : x.Codec) where
    unfoldable pub visit_token : Bool → BinXmlRawToken → Read BinXmlDeserializedTokens
    unfolding as_token unimplemented_here
    visit_token inside BinXmlRawToken.end_of_stream = pure end_of_stream
    visit_token inside (BinXmlRawToken.open_start_element has_attributes) =
        as_token open_start_element (read_open_start_element chunk has_attributes inside)
    visit_token inside BinXmlRawToken.close_start_element = pure close_start_element
    visit_token inside BinXmlRawToken.close_empty_element = pure close_empty_element
    visit_token inside BinXmlRawToken.close_element = pure close_element
    visit_token inside BinXmlRawToken.value =
        as_token value (from_binxml_stream fragment ansi_codec none)
    visit_token inside (BinXmlRawToken.attribute more) = as_token attribute read_attribute
    visit_token inside BinXmlRawToken.cdata_section = unimplemented_here "CDataSection"
    visit_token inside BinXmlRawToken.char_reference = unimplemented_here "CharReference"
    visit_token inside BinXmlRawToken.entity_reference = as_token entity_ref read_entity_ref
    visit_token inside BinXmlRawToken.processing_instruction_target =
        as_token pi_target read_processing_instruction_target
    visit_token inside BinXmlRawToken.processing_instruction_data =
        as_token pi_data read_processing_instruction_data
    visit_token inside BinXmlRawToken.template_instance =
        as_token template_instance (read_template fragment ansi_codec)
    visit_token inside BinXmlRawToken.normal_substitution =
        as_token substitution (read_substitution_descriptor false)
    visit_token inside BinXmlRawToken.conditional_substitution =
        as_token substitution (read_substitution_descriptor true)
    visit_token inside BinXmlRawToken.start_of_stream =
        as_token fragment_header read_fragment_header

    -- The token at the cursor, with its raw token.
    unfoldable pub read_token : Bool → Read (BinXmlRawToken × BinXmlDeserializedTokens)
    unfolding read_next_token visit_token
    read_token inside = do
      raw_token ← read_next_token
      token ← visit_token inside raw_token
      pure (raw_token, token)

    -- An error is what the iterator yields; its callers stop there.
    unfoldable pub inner_next : Bool → IterTokens → NextToken
    inner_next inside iter =
        if is_finished iter then ok none else yield_token iter (read_token inside iter.cursor)

    -- The loop of `read_binxml_fragment`.
    unfoldable pub read_tokens : ℕ → Bool → List BinXmlDeserializedTokens → IterTokens → Drained
    read_tokens zero inside tokens iter = stuck
    read_tokens (suc fuel) inside tokens iter =
        collect tokens iter (read_tokens fuel inside) (inner_next inside iter)

  -- `iter_tokens` from the position of the cursor.
  unfoldable pub iter_tokens : Cursor → Option ℕ → IterTokens
  iter_tokens cursor data_size = record {
    cursor = cursor;
    data_size = data_size;
    data_read_so_far = 0;
    eof = false;
  }

  -- `cursor.seek(SeekFrom::Current(position - offset))`
  unfoldable pub seek_to : ℕ → Read Unit
  seek_to position = do
    offset ← tell
    with_context remove_me (
        if leb offset position
        then seek_ahead (position - offset)
        else seek_back (offset - position))

  abbrev pub drained : Cursor → Drained → Result DeserializationError (Tokens × Cursor)
  drained c (ok (tokens, iter)) = (do seek_to iter.cursor.position; pure (to_vec tokens)) c
  drained c (err e) = err e
  drained c panic = panic
  drained c stuck = stuck

  -- One unit of fuel for each level of nesting, and as many rounds of the loop as there is fuel.
  unfoldable pub fragment_rounds : ℕ → Option (List ℕ) → x.Codec → Fragment
  unfolding iter_tokens
  fragment_rounds zero chunk ansi_codec data_size inside c = stuck
  fragment_rounds (suc fuel) chunk ansi_codec data_size inside c = drained c (
      read_tokens (fragment_rounds fuel chunk ansi_codec) chunk ansi_codec (suc fuel) inside []
        (iter_tokens c data_size))

  -- A token takes a byte at least, so the bytes of the data bound both.
  unfoldable pub read_binxml_fragment : Option (List ℕ) → x.Codec → Fragment
  read_binxml_fragment chunk ansi_codec data_size inside c =
      fragment_rounds (length c.data_ref + 2) chunk ansi_codec data_size inside c
