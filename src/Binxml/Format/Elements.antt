-- ===== src/Binxml/Format/Elements.antt =====
-- The start of an element is read as it is written.
use evtx.Base.{
  ℕ, suc, ◌+◌, ◌<◌, ◌≡◌, refl, subst, List, [], ◌++◌, Bool, true, false, Option, none, some, length,
  if◌then◌else◌, arith,
}
use evtx.Crates.{Crates}
use evtx.Cursor.{◌>>=◌, pure}
use evtx.Cursor.Reads.{Reads, Reads-pure, Reads-bind, le, capacity}
use evtx.Macros.{Read, try_read_u16, try_read_u32}
use evtx.Model.Deserialized.{BinXmlNameRef, BinXmlOpenStartElement, BinXmlDeserializedTokens}
use evtx.Binxml.Name.{read_name_ref}
use evtx.Binxml.Tokens.{
  exceeds_chunk, read_element_name, read_data_size, roll_back, open_start_element_rounds,
  read_open_start_element,
}
use evtx.Binxml.Deserializer.{as_token}
use evtx.Binxml.Format.{WrittenName, name_bytes, name_at, NameFits}
use evtx.Binxml.Format.Written.{
  SizeInChunk, SizeFits, dependency_bytes, name_place, is_some, size_bytes,
}
use evtx.Binxml.Format.Names.{Reads-u16, Reads-u32, Reads-name}

module _ ⦃x : Crates⦄ where
  -- A reader under a function.
  pub Reads-map :
      {A B : Type 0} (p : ℕ) (f : A → B) (m : Read A) (bs : List ℕ) (a : A)
      → Reads p m bs a
      → Reads p (m >>= λ t. pure (f t)) bs (f a)
  Reads-map p f m bs a r = record { at = λ rest c e d. rw (r.at rest c e d) refl }

  pub Reads-as_token :
      {A : Type 0} (p : ℕ) (f : A → BinXmlDeserializedTokens) (m : Read A) (bs : List ℕ) (a : A)
      → Reads p m bs a
      → Reads p (as_token f m) bs (f a)
  unfolding as_token
  Reads-as_token p f m bs a r = Reads-map p f m bs a r

  Reads-data_size :
      (inside : Bool) (p dependency data_size : ℕ)
      → dependency < capacity 2
      → data_size < capacity 4
      → Reads p
          (read_data_size inside)
          (dependency_bytes inside dependency ++ le 4 data_size)
          data_size
  unfolding read_data_size
  Reads-data_size true p dependency data_size h k = record {
    at = (Reads-u32 p "open_start_element_data_size" data_size k).at;
  }
  Reads-data_size false p dependency data_size h k =
      Reads-bind p (try_read_u16 "open_start_element_dependency_identifier" >>= λ d. pure tt)
        (λ u. try_read_u32 "open_start_element_data_size") (le 2 dependency) (le 4 data_size) tt
        data_size
        (Reads-map p (λ d. tt) (try_read_u16 "open_start_element_dependency_identifier")
          (le 2 dependency) dependency
          (Reads-u16 p "open_start_element_dependency_identifier" dependency h))
        (Reads-u32 (p + 2) "open_start_element_data_size" data_size k)

  abbrev element_of : ℕ → BinXmlNameRef → BinXmlOpenStartElement
  element_of data_size name = record { data_size = data_size; name = name }

  Reads-element_name :
      (p data_size : ℕ) (name : WrittenName) (attributes : Option ℕ)
      → NameFits p name
      → SizeFits attributes
      → Reads p
          (read_element_name (is_some attributes) data_size)
          (name_bytes p name ++ size_bytes attributes)
          (element_of data_size (name_at p name))
  unfolding read_element_name
  Reads-element_name p data_size name none h k =
      Reads-bind p read_name_ref (λ n. pure (element_of data_size n)) (name_bytes p name) []
        (name_at p name) (element_of data_size (name_at p name)) (Reads-name p name h)
        (Reads-pure (p + length (name_bytes p name)) (element_of data_size (name_at p name)))
  Reads-element_name p data_size name (some n) h k =
      let q : ℕ = p + length (name_bytes p name) in
      let e : BinXmlOpenStartElement = element_of data_size (name_at p name) in
      let sized : Read (Unit {0}) =
        try_read_u32 "open_start_element_attribute_list_data_size" >>= λ u. pure tt in
      let r : Reads q sized (le 4 n) tt =
        Reads-map q (λ u. tt) (try_read_u32 "open_start_element_attribute_list_data_size") (le 4 n)
          n (Reads-u32 q "open_start_element_attribute_list_data_size" n k) in
      let s : Reads q (sized >>= λ u. pure e) (le 4 n) e =
        Reads-map q (λ u. e) sized (le 4 n) tt r in
      Reads-bind p read_name_ref (λ m. sized >>= λ u. pure (element_of data_size m))
        (name_bytes p name) (le 4 n) (name_at p name) e (Reads-name p name h) s

  in_chunk :
      (chunk : Option (List ℕ)) (data_size : ℕ)
      → SizeInChunk chunk data_size
      → exceeds_chunk chunk data_size ≡ false
  unfolding exceeds_chunk
  in_chunk none data_size h = refl
  in_chunk (some chunk_data) data_size h = ground arith

  -- A data size that the chunk can hold makes the first round the last.
  Reads-round :
      (chunk : Option (List ℕ)) (fuel p data_size : ℕ) (has inside : Bool) (bs bs' : List ℕ)
      (e : BinXmlOpenStartElement)
      → exceeds_chunk chunk data_size ≡ false
      → Reads p (read_data_size inside) bs data_size
      → Reads (p + length bs) (read_element_name has data_size) bs' e
      → Reads p (open_start_element_rounds (suc fuel) chunk has inside) (bs ++ bs') e
  unfolding open_start_element_rounds
  Reads-round chunk fuel p data_size has inside bs bs' e f r s =
      let next : ℕ → Read BinXmlOpenStartElement = λ sz c.
        let again : Read BinXmlOpenStartElement =
          roll_back (open_start_element_rounds fuel chunk has true) in
        (if exceeds_chunk chunk sz then again else read_element_name has sz) c in
      let name : Reads (p + length bs) (next data_size) bs' e = record {
        at = λ rest c z d. rw f (s.at rest c z d);
      } in
      record { at = (Reads-bind p (read_data_size inside) next bs bs' data_size e r name).at }

  Reads-rounds :
      (chunk : Option (List ℕ)) (p : ℕ) (has inside : Bool) (bs : List ℕ)
      (e : BinXmlOpenStartElement)
      → ((fuel : ℕ) → Reads p (open_start_element_rounds (suc fuel) chunk has inside) bs e)
      → Reads p (read_open_start_element chunk has inside) bs e
  unfolding read_open_start_element
  Reads-rounds chunk p has inside bs e r = record {
    at = λ rest c q d.
        let z : c.position + 2 ≡ suc (c.position + 1) = omega arith in
        rw z ((r (c.position + 1)).at rest c q d);
  }

  pub Reads-element :
      (chunk : Option (List ℕ)) (inside : Bool) (p dependency data_size : ℕ) (name : WrittenName)
      (attributes : Option ℕ)
      → dependency < capacity 2
      → data_size < capacity 4
      → SizeInChunk chunk data_size
      → NameFits (name_place inside p) name
      → SizeFits attributes
      → Reads
          (p + 1)
          (read_open_start_element chunk (is_some attributes) inside)
          ((dependency_bytes inside dependency ++ le 4 data_size)
            ++ (name_bytes (name_place inside p) name ++ size_bytes attributes))
          (element_of data_size (name_at (name_place inside p) name))
  Reads-element chunk inside p dependency data_size name attributes h k f n a =
      let has : Bool = is_some attributes in
      let size : List ℕ = dependency_bytes inside dependency ++ le 4 data_size in
      let place : ℕ = name_place inside p in
      let bs : List ℕ = name_bytes place name ++ size_bytes attributes in
      let e : BinXmlOpenStartElement = element_of data_size (name_at place name) in
      let there : Reads (p + 1 + length size) (read_element_name has data_size) bs e =
        subst (λ q. Reads q (read_element_name has data_size) bs e) (place_eq inside)
          (Reads-element_name place data_size name attributes n a) in
      Reads-rounds chunk (p + 1) has inside (size ++ bs) e (λ fuel.
        Reads-round chunk fuel (p + 1) data_size has inside size bs e (in_chunk chunk data_size f)
          (Reads-data_size inside (p + 1) dependency data_size h k) there)
    where
      place_eq :
          (b : Bool)
          → name_place b p ≡ p + 1 + length (dependency_bytes b dependency ++ le 4 data_size)
      place_eq true = omega arith
      place_eq false = omega arith
