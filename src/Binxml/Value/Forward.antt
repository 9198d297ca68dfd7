-- ===== src/Binxml/Value/Forward.antt =====
-- The readers of values end, and only move forward, where the reader of fragments does.
use evtx.Base.{ℕ, ◌+◌, ◌≤◌, ◌≡◌, List, Bool, true, Option, none, some, String, ◌==◌, arith}
use evtx.Crates.{Crates}
use evtx.Cursor.{read_exact, fail}
use evtx.Cursor.Walks.{
  Walks, Walks-weaken, Walks-pure, Walks-fail, Walks-bind, Walks-context, Walks-if, Walks-tell_bind,
  Walks-read_exact,
}
use evtx.Error.{unexpected_io_error, unimplemented_value_variant}
use evtx.Macros.{Read, try_read_sized_array}
use evtx.Macros.Forward.{
  Walks-u8, Walks-u16, Walks-u32, Walks-u64, Walks-i8, Walks-i16, Walks-i32, Walks-i64, Walks-f32,
  Walks-f64, Walks-bool, Walks-hex32, Walks-hex64, Walks-guid, Walks-sid, Walks-filetime,
  Walks-sized_array,
}
use evtx.Model.ValueType.{BinXmlValueType, debug_name}
use evtx.Model.Deserialized.{BinXmlValue}
use evtx.Binxml.Value.{
  Fragment, read_slice, as_value, unimplemented_value, size_t_value, deserialize_value_type,
  value_type_of, from_binxml_stream,
}
use evtx.Utils.Forward.{
  Walks-by_size, Walks-ansi, Walks-try_len_prefixed, Walks-null_terminated, Walks-systime,
}

module _ ⦃x : Crates⦄ (d : List ℕ) where
  Walks-as_value :
      {A : Type 0} (p : ℕ) (f : A → BinXmlValue) (m : Read A)
      → Walks d p 0 m
      → Walks d p 0 (as_value f m)
  unfolding as_value
  Walks-as_value p f m w = Walks-bind d p 0 m _ w λ a. Walks-pure d _ _

  -- The same, for a reader that takes a byte at least.
  as_read :
      {A : Type 0} (p : ℕ) (f : A → BinXmlValue) (m : Read A)
      → Walks d p 1 m
      → Walks d p 0 (as_value f m)
  as_read p f m w = Walks-as_value p f m (Walks-weaken d p m w)

  as_array :
      {A : Type 0} (p : ℕ) (f : List A → BinXmlValue) (m : Read A) (sz : ℕ)
      → ((q : ℕ) → Walks d q 1 m)
      → Walks d p 0 (as_value f (try_read_sized_array m sz))
  as_array p f m sz w = Walks-as_value p f _ (Walks-sized_array d p m sz w)

  Walks-unimplemented :
      (p : ℕ) (name : String) (size : Option ℕ) → Walks d p 0 (unimplemented_value name size)
  unfolding unimplemented_value
  Walks-unimplemented p name size =
      Walks-tell_bind d p 0 (λ q. fail (unimplemented_value_variant name size q))
        λ q h. Walks-fail d q 0 (unimplemented_value_variant name size q)

  Walks-slice : (p sz : ℕ) → Walks d p 0 (read_slice sz)
  unfolding read_slice
  Walks-slice p sz = record {
    ends = λ c e b h. ground arith;
    at = λ c a c' e b h. (ground arith, ground arith);
  }

  Walks-exact : (p sz : ℕ) → Walks d p 0 (read_exact sz)
  Walks-exact p sz = record {
    ends = (Walks-read_exact d p sz).ends;
    at = λ c a c' e b h.
        let q : (c'.data_ref ≡ d) × (p + sz ≤ c'.position) =
          (Walks-read_exact d p sz).at c a c' e b h in
        (q.0, omega arith);
  }

  Walks-size_t : (p : ℕ) (size : Option ℕ) → Walks d p 0 (size_t_value size)
  unfolding size_t_value
  Walks-size_t p none = Walks-unimplemented p "SizeT" none
  Walks-size_t p (some sz) =
      Walks-if d p 0 (sz == 4) _ _ (as_read p BinXmlValue.hex_int32_type _ (Walks-hex32 d p)) (
        Walks-if d p 0 (sz == 8) _ _ (as_read p BinXmlValue.hex_int64_type _ (Walks-hex64 d p))
          (Walks-unimplemented p "SizeT" (some sz)))

  pub Walks-value_type_of : (p token : ℕ) → Walks d p 0 (value_type_of token)
  unfolding value_type_of
  Walks-value_type_of p token = record {
    ends = λ c e b h. ground arith;
    at = λ c a c' e b h. (ground arith, ground arith);
  }

  module _ (p₀ : ℕ) (fragment : Fragment)
      (w : (q : ℕ) (size : Option ℕ) (inside : Bool) → p₀ ≤ q → Walks d q 0 (fragment size inside))
      (codec : x.Codec) where
    pub Walks-value_type :
        (p : ℕ) (t : BinXmlValueType) (size : Option ℕ)
        → p₀ ≤ p
        → Walks d p 0 (deserialize_value_type fragment codec t size)
    unfolding deserialize_value_type
    Walks-value_type p BinXmlValueType.null_type size h = Walks-pure d p BinXmlValue.null_type
    Walks-value_type p BinXmlValueType.string_type (some sz) h =
        Walks-as_value p _ _
          (Walks-context d p 0 (λ e. unexpected_io_error) _ (Walks-by_size d p sz))
    Walks-value_type p BinXmlValueType.string_type none h =
        as_read p _ _ (Walks-try_len_prefixed d p "<string_value>")
    Walks-value_type p BinXmlValueType.ansi_string_type (some sz) h =
        Walks-as_value p _ _ (Walks-ansi d p sz codec)
    Walks-value_type p BinXmlValueType.ansi_string_type none h =
        Walks-unimplemented p "AnsiString" none
    Walks-value_type p BinXmlValueType.int8_type size h =
        as_read p BinXmlValue.int8_type _ (Walks-i8 d p)
    Walks-value_type p BinXmlValueType.uint8_type size h =
        as_read p BinXmlValue.uint8_type _ (Walks-u8 d p "<Unknown>")
    Walks-value_type p BinXmlValueType.int16_type size h =
        as_read p BinXmlValue.int16_type _ (Walks-i16 d p)
    Walks-value_type p BinXmlValueType.uint16_type size h =
        as_read p BinXmlValue.uint16_type _ (Walks-u16 d p "<Unknown>")
    Walks-value_type p BinXmlValueType.int32_type size h =
        as_read p BinXmlValue.int32_type _ (Walks-i32 d p)
    Walks-value_type p BinXmlValueType.uint32_type size h =
        as_read p BinXmlValue.uint32_type _ (Walks-u32 d p "<Unknown>")
    Walks-value_type p BinXmlValueType.int64_type size h =
        as_read p BinXmlValue.int64_type _ (Walks-i64 d p)
    Walks-value_type p BinXmlValueType.uint64_type size h =
        as_read p BinXmlValue.uint64_type _ (Walks-u64 d p "<Unknown>")
    Walks-value_type p BinXmlValueType.real32_type size h =
        as_read p BinXmlValue.real32_type _ (Walks-f32 d p)
    Walks-value_type p BinXmlValueType.real64_type size h =
        as_read p BinXmlValue.real64_type _ (Walks-f64 d p)
    Walks-value_type p BinXmlValueType.bool_type size h =
        as_read p BinXmlValue.bool_type _ (Walks-bool d p)
    Walks-value_type p BinXmlValueType.guid_type size h =
        as_read p BinXmlValue.guid_type _ (Walks-guid d p "<Unknown>")
    Walks-value_type p BinXmlValueType.size_t_type size h = Walks-size_t p size
    Walks-value_type p BinXmlValueType.file_time_type size h =
        as_read p BinXmlValue.file_time_type _ (Walks-filetime d p)
    Walks-value_type p BinXmlValueType.sys_time_type size h =
        as_read p BinXmlValue.sys_time_type _ (Walks-systime d p)
    Walks-value_type p BinXmlValueType.sid_type size h =
        as_read p BinXmlValue.sid_type _ (Walks-sid d p)
    Walks-value_type p BinXmlValueType.hex_int32_type size h =
        as_read p BinXmlValue.hex_int32_type _ (Walks-hex32 d p)
    Walks-value_type p BinXmlValueType.hex_int64_type size h =
        as_read p BinXmlValue.hex_int64_type _ (Walks-hex64 d p)
    Walks-value_type p BinXmlValueType.bin_xml_type size h =
        Walks-as_value p BinXmlValue.bin_xml_type _ (w p size true h)
    Walks-value_type p BinXmlValueType.binary_type (some sz) h =
        Walks-as_value p BinXmlValue.binary_type _ (Walks-slice p sz)
    Walks-value_type p BinXmlValueType.uint8_array_type (some sz) h =
        Walks-as_value p BinXmlValue.uint8_array_type _
          (Walks-context d p 0 (λ e. unexpected_io_error) _ (Walks-exact p sz))
    Walks-value_type p BinXmlValueType.string_array_type (some sz) h =
        as_array p BinXmlValue.string_array_type _ sz (λ q. Walks-null_terminated d q)
    Walks-value_type p BinXmlValueType.int8_array_type (some sz) h =
        as_array p BinXmlValue.int8_array_type _ sz (λ q. Walks-i8 d q)
    Walks-value_type p BinXmlValueType.int16_array_type (some sz) h =
        as_array p BinXmlValue.int16_array_type _ sz (λ q. Walks-i16 d q)
    Walks-value_type p BinXmlValueType.uint16_array_type (some sz) h =
        as_array p BinXmlValue.uint16_array_type _ sz (λ q. Walks-u16 d q "<Unknown>")
    Walks-value_type p BinXmlValueType.int32_array_type (some sz) h =
        as_array p BinXmlValue.int32_array_type _ sz (λ q. Walks-i32 d q)
    Walks-value_type p BinXmlValueType.uint32_array_type (some sz) h =
        as_array p BinXmlValue.uint32_array_type _ sz (λ q. Walks-u32 d q "<Unknown>")
    Walks-value_type p BinXmlValueType.int64_array_type (some sz) h =
        as_array p BinXmlValue.int64_array_type _ sz (λ q. Walks-i64 d q)
    Walks-value_type p BinXmlValueType.uint64_array_type (some sz) h =
        as_array p BinXmlValue.uint64_array_type _ sz (λ q. Walks-u64 d q "<Unknown>")
    Walks-value_type p BinXmlValueType.real32_array_type (some sz) h =
        as_array p BinXmlValue.real32_array_type _ sz (λ q. Walks-f32 d q)
    Walks-value_type p BinXmlValueType.real64_array_type (some sz) h =
        as_array p BinXmlValue.real64_array_type _ sz (λ q. Walks-f64 d q)
    Walks-value_type p BinXmlValueType.bool_array_type (some sz) h =
        as_array p BinXmlValue.bool_array_type _ sz (λ q. Walks-bool d q)
    Walks-value_type p BinXmlValueType.guid_array_type (some sz) h =
        as_array p BinXmlValue.guid_array_type _ sz (λ q. Walks-guid d q "<Unknown>")
    Walks-value_type p BinXmlValueType.file_time_array_type (some sz) h =
        as_array p BinXmlValue.file_time_array_type _ sz (λ q. Walks-filetime d q)
    Walks-value_type p BinXmlValueType.sys_time_array_type (some sz) h =
        as_array p BinXmlValue.sys_time_array_type _ sz (λ q. Walks-systime d q)
    Walks-value_type p BinXmlValueType.sid_array_type (some sz) h =
        as_array p BinXmlValue.sid_array_type _ sz (λ q. Walks-sid d q)
    Walks-value_type p BinXmlValueType.hex_int32_array_type (some sz) h =
        as_array p BinXmlValue.hex_int32_array_type _ sz (λ q. Walks-hex32 d q)
    Walks-value_type p BinXmlValueType.hex_int64_array_type (some sz) h =
        as_array p BinXmlValue.hex_int64_array_type _ sz (λ q. Walks-hex64 d q)
    Walks-value_type p t size h = Walks-unimplemented p (debug_name t) size

    pub Walks-stream :
        (p : ℕ) (size : Option ℕ) → p₀ ≤ p → Walks d p 1 (from_binxml_stream fragment codec size)
    unfolding from_binxml_stream
    Walks-stream p size h = Walks-bind d p 1 _ _ (Walks-u8 d p "<Unknown>") λ token.
        Walks-bind d _ 0 _ _ (Walks-value_type_of _ token)
          λ t. Walks-value_type _ t size (omega arith)
