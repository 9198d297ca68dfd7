-- ===== src/Macros/Forward.antt =====
-- The reads of src/macros.rs end, and each moves forward by a byte at least.
use evtx.Base.{
  ℕ, zero, suc, ◌+◌, ◌-◌, ◌≤◌, ◌<◌, ◌≡◌, ◌≢◌, List, [], ◌∷◌, ◌++◌, length, leb, arith, false,
  Bool-cases, inl, inr, Option, some, String, leb→le, leb→lt,
}
use evtx.Base.Result.{ok, err, stuck}
use evtx.Crates.{Crates}
use evtx.Cursor.{Cursor, unexpected_eof, read_exact}
use evtx.Cursor.Walks.{
  Walks, walk_rules, Walks-seek_start, Walks-weaken, Walks-pure, Walks-bind, Walks-context,
  Walks-read_exact, continue-ends, >>=-eq-ok,
}
use evtx.Error.{unexpected_io_error, failed_to_read_token}
use evtx.Macros.{
  Read, read_uint, try_read_u8, try_read_u16, try_read_u32, try_read_u64, try_read_signed,
  try_read_i8, try_read_i16, try_read_i32, try_read_i64, try_read_f32, try_read_f64, try_read_bool,
  from_reader, try_read_guid, try_read_sid, try_read_filetime, try_read_hex32, try_read_hex64,
  array_loop, try_read_sized_array, try_seek,
}

module _ ⦃x : Crates⦄ (d : List ℕ) (p : ℕ) where
  Walks-read_uint : (n : ℕ) → Walks d p (suc n) (read_uint (suc n))
  unfolding read_uint
  Walks-read_uint n =
      Walks-bind d p (suc n) (read_exact (suc n)) _ (Walks-read_exact d p (suc n))
        λ bs. Walks-pure d _ _

  read_one : (n : ℕ) → Walks d p 1 (read_uint (suc n))
  read_one n = record {
    ends = (Walks-read_uint n).ends;
    at = λ c a c' e b h.
        let (same, far) = (Walks-read_uint n).at c a c' e b h in (same, omega arith);
  }

  pub Walks-u8 : (name : String) → Walks d p 1 (try_read_u8 name)
  unfolding try_read_u8
  Walks-u8 name = Walks-context d p 1 _ _ (read_one 0)

  pub Walks-u16 : (name : String) → Walks d p 1 (try_read_u16 name)
  unfolding try_read_u16
  Walks-u16 name = Walks-context d p 1 _ _ (read_one 1)

  pub Walks-u32 : (name : String) → Walks d p 1 (try_read_u32 name)
  unfolding try_read_u32
  Walks-u32 name = Walks-context d p 1 _ _ (read_one 3)

  pub Walks-u64 : (name : String) → Walks d p 1 (try_read_u64 name)
  unfolding try_read_u64
  Walks-u64 name = Walks-context d p 1 _ _ (read_one 7)

  Walks-signed : (t : String) (n w : ℕ) → Walks d p 1 (try_read_signed t (suc n) w)
  unfolding try_read_signed
  Walks-signed t n w =
      Walks-bind d p 1 _ _ (Walks-context d p 1 _ _ (read_one n)) λ u. Walks-pure d _ _

  pub Walks-i8 : Walks d p 1 try_read_i8
  unfolding try_read_i8
  Walks-i8 = Walks-signed "i8" 0 8

  pub Walks-i16 : Walks d p 1 try_read_i16
  unfolding try_read_i16
  Walks-i16 = Walks-signed "i16" 1 16

  pub Walks-i32 : Walks d p 1 try_read_i32
  unfolding try_read_i32
  Walks-i32 = Walks-signed "i32" 3 32

  pub Walks-i64 : Walks d p 1 try_read_i64
  unfolding try_read_i64
  Walks-i64 = Walks-signed "i64" 7 64

  pub Walks-f32 : Walks d p 1 try_read_f32
  unfolding try_read_f32
  Walks-f32 = Walks-context d p 1 _ _ (read_one 3)

  pub Walks-f64 : Walks d p 1 try_read_f64
  unfolding try_read_f64
  Walks-f64 = Walks-context d p 1 _ _ (read_one 7)

  pub Walks-bool : Walks d p 1 try_read_bool
  unfolding try_read_bool
  Walks-bool = Walks-bind d p 1 _ _ (Walks-context d p 1 _ _ (read_one 3)) λ u. Walks-pure d _ _

  pub Walks-hex32 : Walks d p 1 try_read_hex32
  unfolding try_read_hex32
  Walks-hex32 = Walks-bind d p 1 _ _ (Walks-context d p 1 _ _ (read_one 3)) λ u. Walks-pure d _ _

  pub Walks-hex64 : Walks d p 1 try_read_hex64
  unfolding try_read_hex64
  Walks-hex64 = Walks-bind d p 1 _ _ (Walks-context d p 1 _ _ (read_one 7)) λ u. Walks-pure d _ _

  Walks-from_reader :
      {A : Type 0} (f : Cursor → Option (A × Cursor)) (t name : String)
      → ((c : Cursor) (a : A) (c' : Cursor)
          → f c ≡ some (a, c')
          → (c'.data_ref ≡ c.data_ref) × (c.position < c'.position))
      → Walks d p 1 (from_reader f t name)
  unfolding from_reader
  Walks-from_reader f t name ahead = record {
    ends = λ c e b h. ground arith;
    at = λ c a c' e b h. ground (arith, ahead c a c');
  }

  pub Walks-guid : (name : String) → Walks d p 1 (try_read_guid name)
  unfolding try_read_guid
  Walks-guid name = Walks-from_reader x.guid_from_reader "guid" name x.guid_ahead

  pub Walks-sid : Walks d p 1 try_read_sid
  unfolding try_read_sid
  Walks-sid = Walks-from_reader x.sid_from_reader "ntsid" "<Unknown>" x.sid_ahead

  pub Walks-filetime : Walks d p 1 try_read_filetime
  unfolding try_read_filetime
  Walks-filetime = Walks-from_reader x.filetime_from_reader "filetime" "<Unknown>" x.filetime_ahead

  module _ {A : Type 0} (unit : Read A) (size s : ℕ) (w : (q : ℕ) → Walks d q 1 unit) where
    record LoopEnds (fuel : ℕ) (array : List A) (c : Cursor) : Type 0 where
      ends : array_loop fuel unit size s array c ≢ stuck
      past :
          (vs : List A) (c' : Cursor)
          → array_loop fuel unit size s array c ≡ ok (vs, c')
          → (c'.data_ref ≡ d) × (c.position ≤ c'.position) × (s + size ≤ c'.position)

    -- With more fuel than there are bytes to read the loop ends, and it ends past them.
    array_loop-LoopEnds :
        (fuel : ℕ) (array : List A) (c : Cursor)
        → c.data_ref ≡ d
        → p ≤ c.position
        → s ≤ c.position
        → 0 < fuel
        → s + size < c.position + fuel
        → LoopEnds fuel array c
    unfolding array_loop
    array_loop-LoopEnds zero array c e b h f far = absurd (omega arith)
    array_loop-LoopEnds (suc fuel) array c e b h f far =
        elim (Bool-cases (leb size (c.position - s))) [
          | inl t ↦ record {
            ends = rw t (λ g. cc);
            past = λ vs c' g.
                let g' : ok (array, c) ≡ ok (vs, c') = rw t at g in
                (ground arith, ground arith, ground (arith, leb→le size (c.position - s) t));
          }
          | inr t ↦
              let rest : (a : A) (c₁ : Cursor)
                  → unit c ≡ ok (a, c₁)
                  → LoopEnds fuel (array ++ (a ∷ [])) c₁ =
                λ a c₁ g.
                  let (e₁, b₁) = (w c.position).at c a c₁ e (omega arith) g in
                  let short : c.position - s < size = leb→lt size (c.position - s) t in
                  array_loop-LoopEnds fuel (array ++ (a ∷ [])) c₁ e₁ (omega arith) (omega arith)
                    (omega arith) (omega arith) in
              record {
                ends = rw t (
                    continue-ends (unit c) _ ((w c.position).ends c e (omega arith))
                      (λ a c₁ g. (rest a c₁ g).ends));
                past = λ vs c' g.
                    let (a, c₁, g₁, g₂) = >>=-eq-ok unit _ vs c c' (rw t at g) in
                    let (e₁, b₁) = (w c.position).at c a c₁ e (omega arith) g₁ in
                    let q : (c'.data_ref ≡ d)
                        × (c₁.position ≤ c'.position)
                        × (s + size ≤ c'.position) =
                      (rest a c₁ g₁).past vs c' g₂ in
                    (q.0, omega arith, q.2);
              }
        ]

  pub Walks-sized_array :
      {A : Type 0} (unit : Read A) (size : ℕ)
      → ((q : ℕ) → Walks d q 1 unit)
      → Walks d p 0 (try_read_sized_array unit size)
  unfolding try_read_sized_array
  Walks-sized_array unit size w = record {
    ends = λ c e b. (loop c e b).ends;
    at = λ c vs c' e b h.
        let q : (c'.data_ref ≡ d) × (c.position ≤ c'.position) × (c.position + size ≤ c'.position) =
          (loop c e b).past vs c' h in
        (q.0, omega arith);
  }
    where
      loop :
          (c : Cursor)
          → c.data_ref ≡ d
          → p ≤ c.position
          → LoopEnds unit size c.position w (suc size) [] c
      loop c e b =
          array_loop-LoopEnds unit size c.position w (suc size) [] c e b (omega arith) (omega arith)
            (omega arith)

pub ruleset read_rules = (
  walk_rules, Walks-bind, Walks-weaken, Walks-u8, Walks-u16, Walks-u32, Walks-u64, Walks-i8,
  Walks-i16, Walks-i32, Walks-i64, Walks-f32, Walks-f64, Walks-bool, Walks-hex32, Walks-hex64,
  Walks-guid, Walks-sid, Walks-filetime, Walks-sized_array,
)

module _ ⦃x : Crates⦄ (d : List ℕ) (p : ℕ) where
  pub Walks-io_uint : (n : ℕ) → Walks d p 1 (read_uint (suc n))
  Walks-io_uint n = read_one d p n

  -- A seek that is known to lie ahead.
  pub Walks-try_seek : (n : ℕ) → p ≤ n → Walks d p 0 (try_seek n)
  unfolding try_seek
  Walks-try_seek n h = Walks-context d p 0 (λ e. unexpected_io_error) _ (Walks-seek_start d p n h)

  -- A read of a byte or more succeeds only inside the data.
  pub read_uint_inside :
      (n : ℕ) (c : Cursor) (r : ℕ × Cursor)
      → c.data_ref ≡ d
      → read_uint (suc n) c ≡ ok r
      → c.position < length d
  unfolding read_uint read_exact
  read_uint_inside n c r e h = elim (Bool-cases (leb (suc n) (length c.data_ref - c.position))) [
    | inl t ↦ rw (← e) (omega (arith, leb→le (suc n) (length c.data_ref - c.position) t))
    | inr t ↦ let h' : err unexpected_eof ≡ ok r = rw t at h in absurd (cc)
  ]

  -- At the end of the data there is no byte.
  pub u8_outside :
      (name : String) (c : Cursor)
      → c.data_ref ≡ d
      → length d ≤ c.position
      → try_read_u8 name c ≡ err (failed_to_read_token "u8" name)
  unfolding try_read_u8 read_uint read_exact
  u8_outside name c e h =
      let none_left : length c.data_ref ≤ c.position = rw e h in
      let t : leb 1 (length c.data_ref - c.position) ≡ false = ground arith in rw t
