-- ===== src/Utils/Strings.antt =====
-- src/utils/binxml_utils.rs
pub mod RoundTrip
use evtx.Base.{
  ℕ, zero, suc, ◌+◌, ◌-◌, ◌*◌, ◌/◌, ◌%◌, ◌^◌, List, [], ◌∷◌, ◌++◌, Bool, true, false, ◌&&◌, Option,
  none, some, Str, String, length, ltb, leb, ◌==◌, if◌then◌else◌,
}
use mathlib.Core.Option
use evtx.Base.Result.{ok, err, stuck}
use evtx.Crates.{Crates}
use evtx.Cursor.{
  Reader, IoError, invalid_data, ◌>>=◌, ◌>>◌, continue, pure, with_context, read_exact,
}
use evtx.Error.{failed_to_read_token, remove_me}
use evtx.Macros.{Read, read_uint}

abbrev pub is_high_surrogate : ℕ → Bool
is_high_surrogate u = leb 0xD800 u && ltb u 0xDC00

abbrev pub is_low_surrogate : ℕ → Bool
is_low_surrogate u = leb 0xDC00 u && ltb u 0xE000

-- `std::char::decode_utf16`, collected; the first argument is a high surrogate that waits for
-- its low one. `none` is an unpaired surrogate.
unfoldable pub decode_units : Option ℕ → List ℕ → Option Str
decode_units none [] = some []
decode_units (some hi) [] = none
decode_units none (u ∷ us) =
    let pair = decode_units (some u) us in
    let rest = decode_units none us in
    if is_high_surrogate u
    then pair
    else if is_low_surrogate u
    then none
    else Option.map (λ s. u ∷ s) rest
decode_units (some hi) (u ∷ us) =
    let rest = decode_units none us in
    if is_low_surrogate u
    then Option.map (λ s. (0x10000 + (hi - 0xD800) * 0x400 + (u - 0xDC00)) ∷ s) rest
    else none

-- `take_while(|&byte| byte != 0x00)`
unfoldable pub take_until_nul : List ℕ → List ℕ
take_until_nul [] = []
take_until_nul (u ∷ us) = if u == 0 then [] else u ∷ take_until_nul us

-- `if let Some('\0') = s.chars().last() { s.pop(); }`
unfoldable pub strip_nul : Str → Str
strip_nul [] = []
strip_nul (c ∷ []) = if c == 0 then [] else c ∷ []
strip_nul (c ∷ e ∷ s) = c ∷ strip_nul (e ∷ s)

module _ ⦃x : Crates⦄ where
  -- `for _ in 0..len`
  unfoldable pub read_chars : ℕ → List ℕ → Reader IoError (List ℕ)
  read_chars zero buffer = pure buffer
  read_chars (suc n) buffer = do next_char ← read_uint 2; read_chars n (buffer ++ (next_char ∷ []))

  -- The `loop` that a zero ends.
  unfoldable pub read_chars_until_nul : ℕ → List ℕ → Reader IoError (List ℕ)
  read_chars_until_nul zero buffer c = stuck
  read_chars_until_nul (suc fuel) buffer c = continue (read_uint 2 c) λ next_char.
      let more : Reader IoError (List ℕ) = read_chars_until_nul fuel (buffer ++ (next_char ∷ [])) in
      if next_char == 0 then pure buffer else more

  -- The characters of the string; each takes two bytes, so the bytes that are left bound the rounds.
  unfoldable pub read_utf16_buffer : Option ℕ → Reader IoError (List ℕ)
  unfolding read_chars read_chars_until_nul
  read_utf16_buffer none c = read_chars_until_nul (suc (length c.data_ref - c.position)) [] c
  read_utf16_buffer (some len) c = read_chars len [] c

  abbrev pub decoded : Option Str → Reader IoError Str
  decoded none c = err invalid_data
  decoded (some s) c = ok (s, c)

  unfoldable pub decode_buffer : List ℕ → Reader IoError Str
  decode_buffer buffer = decoded (decode_units none (take_until_nul buffer))

  unfoldable pub read_utf16_string : Option ℕ → Reader IoError Str
  unfolding read_utf16_buffer decode_buffer
  read_utf16_string len = do buffer ← read_utf16_buffer len; decode_buffer buffer

  unfoldable pub read_utf16_by_size : ℕ → Reader IoError (Option Str)
  unfolding read_utf16_string strip_nul
  read_utf16_by_size zero = pure none
  read_utf16_by_size (suc n) = do
    s ← read_utf16_string (some (suc n / 2))
    pure (some (strip_nul s))

  -- The product is taken over `u16`.
  unfoldable pub read_len_prefixed_utf16_string : Bool → Reader IoError (Option Str)
  unfolding read_utf16_by_size
  read_len_prefixed_utf16_string is_null_terminated = do
    expected_number_of_characters ← read_uint 2
    s ← read_utf16_by_size (expected_number_of_characters * 2 % 2 ^ 16)
    if is_null_terminated then (do read_uint 2; pure s) else pure s

  unfoldable pub read_null_terminated_utf16_string : Reader IoError Str
  unfolding read_utf16_string
  read_null_terminated_utf16_string = read_utf16_string none

  -- `bytes.retain(|&b| b != 0)`
  unfoldable pub retain_not_nul : List ℕ → List ℕ
  retain_not_nul [] = []
  retain_not_nul (b ∷ bs) = let rest = retain_not_nul bs in if b == 0 then rest else b ∷ rest

  unfoldable pub decode_ansi : x.Codec → List ℕ → Read (Option Str)
  unfolding retain_not_nul
  decode_ansi ansi_codec bytes c = elim (x.decode ansi_codec (retain_not_nul bytes)) [
    | none ↦ err (failed_to_read_token "ansi_string" "")
    | some s ↦ ok (some s, c)
  ]

  unfoldable pub read_ansi_encoded_string : ℕ → x.Codec → Read (Option Str)
  unfolding decode_ansi
  read_ansi_encoded_string zero ansi_codec = pure none
  read_ansi_encoded_string (suc n) ansi_codec = do
    bytes ← with_context remove_me (read_exact (suc n))
    decode_ansi ansi_codec bytes

  -- The arms of `try_read!` for strings.
  unfoldable pub try_read_len_prefixed : String → Read (Option Str)
  unfolding read_len_prefixed_utf16_string
  try_read_len_prefixed name =
      with_context (λ e. failed_to_read_token "len_prefixed_utf_16_str" name)
        (read_len_prefixed_utf16_string false)

  unfoldable pub try_read_len_prefixed_nul : String → Read (Option Str)
  unfolding read_len_prefixed_utf16_string
  try_read_len_prefixed_nul name =
      with_context (λ e. failed_to_read_token "len_prefixed_utf_16_str_nul_terminated" name)
        (read_len_prefixed_utf16_string true)

  unfoldable pub try_read_null_terminated : Read Str
  unfolding read_null_terminated_utf16_string
  try_read_null_terminated =
      with_context (λ e. failed_to_read_token "null_terminated_utf_16_str" "<Unknown>")
        read_null_terminated_utf16_string
