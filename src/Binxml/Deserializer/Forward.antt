-- ===== src/Binxml/Deserializer/Forward.antt =====
-- The tokens of src/binxml/deserializer.rs are read forward, where what is nested in them is.
use evtx.Base.{ℕ, ◌+◌, ◌≤◌, ◌≡◌, List, Bool, true, false, Option, none, String, length, arith}
use evtx.Base.Result.{err}
use evtx.Crates.{Crates}
use evtx.Cursor.{Cursor, fail}
use evtx.Cursor.Walks.{Walks, Walks-weaken, Walks-pure, Walks-fail, Walks-bind, Walks-tell_bind}
use evtx.Error.{DeserializationError, unimplemented_token, failed_to_read_token}
use evtx.Macros.{Read}
use evtx.Macros.Forward.{Walks-u8, u8_outside}
use evtx.Model.Raw.{BinXmlRawToken}
use evtx.Model.Deserialized.{BinXmlDeserializedTokens}
use evtx.Binxml.Value.{Fragment}
use evtx.Binxml.Value.Forward.{Walks-stream}
use evtx.Binxml.Tokens.Forward.{
  Walks-open_start_element, Walks-attribute, Walks-entity_ref, Walks-pi_target, Walks-pi_data,
  Walks-template, Walks-substitution_descriptor, Walks-fragment_header,
}
use evtx.Binxml.Deserializer.{
  as_token, unimplemented_here, raw_token_of, read_next_token, visit_token, read_token,
}

module _ ⦃x : Crates⦄ (d : List ℕ) where
  pub Walks-as_token :
      {A : Type 0} (p : ℕ) (f : A → BinXmlDeserializedTokens) (m : Read A)
      → Walks d p 0 m
      → Walks d p 0 (as_token f m)
  unfolding as_token
  Walks-as_token p f m w = Walks-bind d p 0 m _ w λ a. Walks-pure d _ _

  pub Walks-unimplemented_here : (p : ℕ) (name : String) → Walks d p 0 (unimplemented_here name)
  unfolding unimplemented_here
  Walks-unimplemented_here p name =
      Walks-tell_bind d p 0 (λ q. fail (unimplemented_token name q))
        λ q h. Walks-fail d q 0 (unimplemented_token name q)

  pub Walks-raw_token_of : (p token : ℕ) → Walks d p 0 (raw_token_of token)
  unfolding raw_token_of
  Walks-raw_token_of p token = record {
    ends = λ c e b h. ground arith;
    at = λ c a c' e b h. (ground arith, ground arith);
  }

  module _ (p₀ : ℕ) (fragment : Fragment)
      (w : (q : ℕ) (size : Option ℕ) (inside : Bool) → p₀ ≤ q → Walks d q 0 (fragment size inside))
      (codec : x.Codec) where
    pub Walks-visit :
        (p : ℕ) (inside : Bool) (t : BinXmlRawToken)
        → p₀ ≤ p
        → Walks d p 0 (visit_token fragment none codec inside t)
    unfolding visit_token
    Walks-visit p inside BinXmlRawToken.end_of_stream h = Walks-pure d p _
    Walks-visit p inside (BinXmlRawToken.open_start_element b) h =
        Walks-as_token p _ _ (Walks-open_start_element d p b inside)
    Walks-visit p inside BinXmlRawToken.close_start_element h = Walks-pure d p _
    Walks-visit p inside BinXmlRawToken.close_empty_element h = Walks-pure d p _
    Walks-visit p inside BinXmlRawToken.close_element h = Walks-pure d p _
    Walks-visit p inside BinXmlRawToken.value h =
        Walks-as_token p _ _ (Walks-weaken d p _ (Walks-stream d p₀ fragment w codec p none h))
    Walks-visit p inside (BinXmlRawToken.attribute b) h = Walks-as_token p _ _ (Walks-attribute d p)
    Walks-visit p inside BinXmlRawToken.cdata_section h = Walks-unimplemented_here p "CDataSection"
    Walks-visit p inside BinXmlRawToken.char_reference h =
        Walks-unimplemented_here p "CharReference"
    Walks-visit p inside BinXmlRawToken.entity_reference h =
        Walks-as_token p _ _ (Walks-entity_ref d p)
    Walks-visit p inside BinXmlRawToken.processing_instruction_target h =
        Walks-as_token p _ _ (Walks-pi_target d p)
    Walks-visit p inside BinXmlRawToken.processing_instruction_data h =
        Walks-as_token p _ _ (Walks-pi_data d p)
    Walks-visit p inside BinXmlRawToken.template_instance h =
        Walks-as_token p _ _ (Walks-template d p₀ fragment w codec p h)
    Walks-visit p inside BinXmlRawToken.normal_substitution h =
        Walks-as_token p _ _ (Walks-substitution_descriptor d p false)
    Walks-visit p inside BinXmlRawToken.conditional_substitution h =
        Walks-as_token p _ _ (Walks-substitution_descriptor d p true)
    Walks-visit p inside BinXmlRawToken.start_of_stream h =
        Walks-as_token p _ _ (Walks-fragment_header d p)

    pub Walks-token :
        (p : ℕ) (inside : Bool) → p₀ ≤ p + 1 → Walks d p 1 (read_token fragment none codec inside)
    unfolding read_token read_next_token
    Walks-token p inside h =
        Walks-bind d p 1 _ _
          (Walks-bind d p 1 _ _ (Walks-u8 d p "<Unknown>") λ token. Walks-raw_token_of _ token)
          λ t. Walks-bind d _ 0 _ _ (Walks-visit _ inside t h) λ v. Walks-pure d _ (t, v)

  -- At the end of the data there is no token.
  pub no_token :
      (fragment : Fragment) (codec : x.Codec) (inside : Bool) (c : Cursor)
      → c.data_ref ≡ d
      → length d ≤ c.position
      → (e : DeserializationError) × (read_token fragment none codec inside c ≡ err e)
  unfolding read_token read_next_token
  no_token fragment codec inside c e h =
      (failed_to_read_token "u8" "<Unknown>", rw (u8_outside d 0 "<Unknown>" c e h))
