-- ===== src/Binxml/Format/Fragment.antt =====
-- How fragments are written in the format.
use evtx.Base.{
  ℕ, ◌+◌, ◌^◌, ◌≤◌, ◌<◌, ◌≡◌, refl, List, [], ◌∷◌, ◌++◌, Bool, true, false, Option, none, some,
  length, length-append, arith,
}
use evtx.Crates.{Crates}
use evtx.Model.Deserialized.{BinXmlDeserializedTokens}
use evtx.Binxml.Deserializer.{is_end_of_stream}
use evtx.Binxml.Format.Written.{WrittenToken, token_bytes, token_meant, TokenFits}
use evtx.Binxml.Format.Token.{raw_of}

abbrev pub is_end : WrittenToken → Bool
is_end WrittenToken.end_of_stream = true
is_end t = false

-- The tokens, with the end of the stream behind them if the fragment is closed.
abbrev pub fragment_bytes : Bool → Bool → ℕ → List WrittenToken → List ℕ
fragment_bytes false inside p [] = []
fragment_bytes true inside p [] = token_bytes inside p WrittenToken.end_of_stream
fragment_bytes closed inside p (t ∷ ts) =
    token_bytes inside p t ++ fragment_bytes closed inside (p + length (token_bytes inside p t)) ts

module _ ⦃x : Crates⦄ where
  abbrev pub fragment_meant : Bool → Bool → ℕ → List WrittenToken → List BinXmlDeserializedTokens
  fragment_meant false inside p [] = []
  fragment_meant true inside p [] = token_meant inside p WrittenToken.end_of_stream ∷ []
  fragment_meant closed inside p (t ∷ ts) =
      token_meant inside p t ∷ fragment_meant closed inside (p + length (token_bytes inside p t)) ts

-- More is to be read after a number of bytes, and nothing is.
abbrev pub More : Option ℕ → ℕ → Type 0
More none read = read < 2 ^ 32
More (some size) read = (read < size) × (size < 2 ^ 32)

abbrev pub Done : Option ℕ → ℕ → Type 0
Done size read = (size ≡ some read) × (read < 2 ^ 32)

module _ ⦃x : Crates⦄ where
  -- The tokens can be written, none of them ends the stream, and the size of the fragment ends behind them.
  abbrev pub FragmentFits :
      Option (List ℕ) → Bool → Bool → Option ℕ → ℕ → ℕ → List WrittenToken → Type 0
  FragmentFits chunk false inside size read p [] = Done size read
  FragmentFits chunk true inside size read p [] = More size read
  FragmentFits chunk closed inside size read p (t ∷ ts) =
      More size read
      × (is_end t ≡ false)
      × TokenFits chunk inside p t
      × FragmentFits chunk closed inside size (read + length (token_bytes inside p t))
          (p + length (token_bytes inside p t)) ts

pub raw_of-is_end : (t : WrittenToken) → is_end t ≡ false → is_end_of_stream (raw_of t) ≡ false
unfolding is_end_of_stream
raw_of-is_end WrittenToken.end_of_stream h = absurd cc
raw_of-is_end WrittenToken.close_start_element h = refl
raw_of-is_end WrittenToken.close_empty_element h = refl
raw_of-is_end WrittenToken.close_element h = refl
raw_of-is_end (WrittenToken.open_start_element dependency data_size name none) h = refl
raw_of-is_end (WrittenToken.open_start_element dependency data_size name (some n)) h = refl
raw_of-is_end (WrittenToken.value more v) h = refl
raw_of-is_end (WrittenToken.attribute more name) h = refl
raw_of-is_end (WrittenToken.entity_reference more name) h = refl
raw_of-is_end (WrittenToken.pi_target name) h = refl
raw_of-is_end (WrittenToken.pi_data s) h = refl
raw_of-is_end (WrittenToken.normal_substitution index value_type) h = refl
raw_of-is_end (WrittenToken.conditional_substitution index value_type) h = refl
raw_of-is_end (WrittenToken.fragment_header major minor flags) h = refl
raw_of-is_end (WrittenToken.template_instance id offset definition values) h = refl

More-small : (size : Option ℕ) (read : ℕ) → More size read → read < 2 ^ 32
More-small none read h = h
More-small (some size) read h = omega arith

module _ ⦃x : Crates⦄ where
  pub fits_small :
      (chunk : Option (List ℕ)) (closed inside : Bool) (size : Option ℕ) (read p : ℕ)
      (ts : List WrittenToken)
      → FragmentFits chunk closed inside size read p ts
      → read < 2 ^ 32
  fits_small chunk false inside size read p [] h = h.1
  fits_small chunk true inside size read p [] h = More-small size read h
  fits_small chunk closed inside size read p (t ∷ ts) h = More-small size read h.0

-- A token takes a byte at least.
pub bytes_enough :
    (closed inside : Bool) (p : ℕ) (ts : List WrittenToken)
    → length ts ≤ length (fragment_bytes closed inside p ts)
bytes_enough closed inside p [] = omega arith
bytes_enough closed inside p (t ∷ ts) = omega (
  arith,
  length-append (token_bytes inside p t)
      (fragment_bytes closed inside (p + length (token_bytes inside p t)) ts),
  bytes_enough closed inside (p + length (token_bytes inside p t)) ts,
)
