-- ===== src/Binxml/Format/Names.antt =====
-- Names, texts and values are read as they are written.
use evtx.Base.{
  ℕ, ◌+◌, ◌*◌, ◌%◌, ◌^◌, ◌<◌, ◌≡◌, ap, subst, List, [], ◌∷◌, ◌++◌, append-nil, true, false, none,
  some, String, length, length-append, ltb, ◌==◌, if◌then◌else◌, arith,
}
use evtx.Base.Result.{ok}
use evtx.Crates.{Crates}
use evtx.Cursor.{◌>>=◌, ◌>>◌, pure, with_context, tell, seek_start}
use evtx.Cursor.Reads.{
  Reads, Reads-pure, Reads-bind, Reads-context, Reads-tell_bind, Reads-uint, le, capacity,
}
use evtx.Macros.{
  Read, read_uint, try_seek, try_read_u8, try_read_u16, try_read_u32, try_read_u64, capture_context,
}
use evtx.Model.Deserialized.{BinXmlNameRef}
use evtx.Error.{remove_me}
use evtx.Binxml.Name.{BinXmlNameLink, read_name_link, skip_string, read_name_ref, link_data_size}
use evtx.Utils.Strings.RoundTrip.{le_bytes}
use evtx.Binxml.Format.{WrittenName, elsewhere, here, name_bytes, name_at, NameFits}

module _ ⦃x : Crates⦄ (p : ℕ) where
  pub Reads-u8 : (name : String) (n : ℕ) → n < capacity 1 → Reads p (try_read_u8 name) (le 1 n) n
  unfolding try_read_u8
  Reads-u8 name n h =
      Reads-context p (capture_context "u8" name) (read_uint 1) (le 1 n) n (Reads-uint p 1 n h)

  pub Reads-u16 : (name : String) (n : ℕ) → n < capacity 2 → Reads p (try_read_u16 name) (le 2 n) n
  unfolding try_read_u16
  Reads-u16 name n h =
      Reads-context p (capture_context "u16" name) (read_uint 2) (le 2 n) n (Reads-uint p 2 n h)

  pub Reads-u32 : (name : String) (n : ℕ) → n < capacity 4 → Reads p (try_read_u32 name) (le 4 n) n
  unfolding try_read_u32
  Reads-u32 name n h =
      Reads-context p (capture_context "u32" name) (read_uint 4) (le 4 n) n (Reads-uint p 4 n h)

  pub Reads-u64 : (name : String) (n : ℕ) → n < capacity 8 → Reads p (try_read_u64 name) (le 8 n) n
  unfolding try_read_u64
  Reads-u64 name n h =
      Reads-context p (capture_context "u64" name) (read_uint 8) (le 8 n) n (Reads-uint p 8 n h)

  -- A seek over bytes.
  pub Reads-seek :
      (target : ℕ) (bs : List ℕ) → target ≡ p + length bs → Reads p (try_seek target) bs tt
  unfolding try_seek seek_start
  Reads-seek target bs h = record {
    at = λ rest c e d. ap (λ n. ok (tt, record c { position = n })) h;
  }

pub length-le_bytes : (units : List ℕ) → length (le_bytes units) ≡ 2 * length units
length-le_bytes [] = omega arith
length-le_bytes (u ∷ units) = omega (arith, length-le_bytes units)

module _ ⦃x : Crates⦄ where
  abbrev link_of : ℕ → ℕ → BinXmlNameLink
  link_of next hash = record { next_string = if ltb 0 next then some next else none; hash = hash }

  Reads-name_link :
      (p next hash : ℕ)
      → next < capacity 4
      → hash < capacity 2
      → Reads p read_name_link (le 4 next ++ (le 2 hash ++ [])) (link_of next hash)
  unfolding read_name_link
  Reads-name_link p next hash h k =
      Reads-bind p (try_read_u32 "<Unknown>")
        (λ n. try_read_u16 "name_hash" >>= λ g. pure (link_of n g)) (le 4 next) (le 2 hash ++ [])
        next (link_of next hash) (Reads-u32 p "<Unknown>" next h)
        (Reads-bind (p + length (le 4 next)) (try_read_u16 "name_hash") (λ g. pure (link_of next g))
          (le 2 hash) [] hash (link_of next hash)
          (Reads-u16 (p + length (le 4 next)) "name_hash" hash k)
          (Reads-pure (p + length (le 4 next) + length (le 2 hash)) (link_of next hash)))

  Reads-skip_string :
      (p next hash : ℕ) (units : List ℕ)
      → next < capacity 4
      → hash < capacity 2
      → length units < 32768
      → Reads p
          (skip_string p)
          ((le 4 next ++ (le 2 hash ++ [])) ++ (le 2 (length units) ++ (le_bytes units ++ le 2 0)))
          tt
  unfolding skip_string
  Reads-skip_string p next hash units h k small =
      let target : ℕ → ℕ = λ len. p + (link_data_size + len * 2 % 2 ^ 16 + 4) in
      let more : Read (Unit {0}) =
        with_context remove_me (read_uint 2) >>= λ len. try_seek (target len) in
      let n : ℕ = length units in
      let q : ℕ = p + 6 in
      let z : target n ≡ q + 2 + length (le_bytes units ++ le 2 0) =
        omega (arith, length-append (le_bytes units) (le 2 0), length-le_bytes units) in
      Reads-bind p read_name_link (λ link. more) (le 4 next ++ (le 2 hash ++ []))
        (le 2 n ++ (le_bytes units ++ le 2 0)) (link_of next hash) tt
        (Reads-name_link p next hash h k)
        (Reads-bind q (with_context remove_me (read_uint 2)) (λ len. try_seek (target len)) (le 2 n)
          (le_bytes units ++ le 2 0) n tt
          (Reads-context q remove_me (read_uint 2) (le 2 n) n (Reads-uint q 2 n (omega arith)))
          (Reads-seek (q + 2) (target n) (le_bytes units ++ le 2 0) z))

  -- What stands behind the offset of a name.
  abbrev after_offset : ℕ → ℕ → Read BinXmlNameRef
  after_offset name_offset position = do
    (if position == name_offset then skip_string position else pure tt)
    pure (record { offset = name_offset })

  Reads-in_place :
      (q : ℕ) (bs : List ℕ)
      → Reads q (skip_string q) bs tt
      → Reads q (after_offset q q) (bs ++ []) (record { offset = q })
  Reads-in_place q bs r =
      let z : (q == q) ≡ true = ground arith in
      rw z (
        Reads-bind q (skip_string q) (λ u. pure (record { offset = q })) bs [] tt
          (record { offset = q }) r (Reads-pure (q + length bs) (record { offset = q })))

  Reads-elsewhere :
      (q offset : ℕ)
      → (q == offset) ≡ false
      → Reads q (after_offset offset q) [] (record { offset = offset })
  Reads-elsewhere q offset h = rw h (Reads-pure q (record { offset = offset }))

  Reads-offset :
      (p offset : ℕ) (bs : List ℕ)
      → offset < capacity 4
      → Reads (p + 4) (after_offset offset (p + 4)) bs (record { offset = offset })
      → Reads p read_name_ref (le 4 offset ++ bs) (record { offset = offset })
  unfolding read_name_ref
  Reads-offset p offset bs h r =
      Reads-bind p (try_read_u32 "name_offset") (λ o. tell >>= after_offset o) (le 4 offset) bs
        offset (record { offset = offset }) (Reads-u32 p "name_offset" offset h)
        (Reads-tell_bind (p + 4) (after_offset offset) bs (record { offset = offset }) r)

  pub Reads-name :
      (p : ℕ) (name : WrittenName)
      → NameFits p name
      → Reads p read_name_ref (name_bytes p name) (name_at p name)
  Reads-name p (elsewhere offset) h =
      Reads-offset p offset [] h.0 (Reads-elsewhere (p + 4) offset h.1)
  Reads-name p (here next hash units) h =
      let bs : List ℕ =
        (le 4 next ++ (le 2 hash ++ [])) ++ (le 2 (length units) ++ (le_bytes units ++ le 2 0)) in
      subst (λ t. Reads p read_name_ref (le 4 (p + 4) ++ t) (record { offset = p + 4 }))
        (append-nil bs)
        (Reads-offset p (p + 4) (bs ++ []) h.0
          (Reads-in_place (p + 4) bs (Reads-skip_string (p + 4) next hash units h.1 h.2 h.3)))
