-- ===== src/Binxml/Tokens/Rounds.antt =====
-- `read_open_start_element` of src/binxml/tokens.rs with a chunk: its retries go back, and end.
use evtx.Base.{
  ℕ, zero, suc, ◌+◌, ◌-◌, ◌≤◌, ◌<◌, ◌≡◌, ◌≢◌, refl, ap, subst, List, Bool, true, false, Option, ltb,
  ltb→le, Bool-cases, inl, inr, arith, String,
}
use evtx.Base.Result.{ok, stuck}
use evtx.Crates.{Crates}
use evtx.Cursor.{Cursor, ◌>>◌, pure, read_exact, seek_back}
use evtx.Cursor.Walks.{continue-ends, >>=-eq-ok}
use evtx.Macros.{Read, read_uint, try_read_u16, try_read_u32}
use evtx.Model.Deserialized.{BinXmlOpenStartElement}
use evtx.Binxml.Tokens.{
  read_data_size, exceeds_chunk, roll_back, open_start_element_rounds, read_open_start_element,
}
use evtx.Binxml.Tokens.Forward.{Walks-data_size, Walks-element_name}

module _ ⦃x : Crates⦄ where
  -- A read of bytes moves by as many.
  u32_exact :
      (name : String) (c : Cursor) (u : ℕ) (c' : Cursor)
      → try_read_u32 name c ≡ ok (u, c')
      → c'.position ≡ c.position + 4
  unfolding try_read_u32 read_uint read_exact
  u32_exact name c u c' h = ground arith

  u16_exact :
      (name : String) (c : Cursor) (u : ℕ) (c' : Cursor)
      → try_read_u16 name c ≡ ok (u, c')
      → c'.position ≡ c.position + 2
  unfolding try_read_u16 read_uint read_exact
  u16_exact name c u c' h = ground arith

  inside_exact :
      (c : Cursor) (u : ℕ) (c' : Cursor)
      → read_data_size true c ≡ ok (u, c')
      → c'.position ≡ c.position + 4
  unfolding read_data_size
  inside_exact c u c' h = u32_exact "open_start_element_data_size" c u c' h

  abbrev dependency_identifier : Read Unit
  dependency_identifier = do try_read_u16 "open_start_element_dependency_identifier"; pure tt

  outside_exact :
      (c : Cursor) (u : ℕ) (c' : Cursor)
      → read_data_size false c ≡ ok (u, c')
      → c'.position ≡ c.position + 6
  unfolding read_data_size
  outside_exact c u c' h =
      let (v, c₁, g, k) =
        >>=-eq-ok dependency_identifier (λ w. try_read_u32 "open_start_element_data_size") u c c'
          h in
      let (w, c₂, g', k') =
        >>=-eq-ok (try_read_u16 "open_start_element_dependency_identifier") (λ w. pure tt) v c c₁
          g in
      let p₂ : c₂.position ≡ c.position + 2 =
        u16_exact "open_start_element_dependency_identifier" c w c₂ g' in
      let p₁ : c₁ ≡ c₂ = cc in
      let p : c'.position ≡ c₁.position + 4 = u32_exact "open_start_element_data_size" c₁ u c' k in
      omega (arith, ap (λ e. e.position) p₁)

  -- The rounds behind a retry, where those from 6 bytes before end.
  roll_back-ends :
      (again : Read BinXmlOpenStartElement) (c : Cursor)
      → ((c' : Cursor) → c'.position + 6 ≡ c.position → again c' ≢ stuck)
      → roll_back again c ≢ stuck
  unfolding seek_back
  roll_back-ends again c more = elim (Bool-cases (ltb c.position 6)) [
    | inl e ↦ rw e (λ h. absurd cc)
    | inr e ↦
        let l : 6 ≤ c.position = ltb→le c.position 6 e in
        rw e (more (record c { position = c.position - 6 }) (omega arith))
  ]

  round-ends :
      (fuel : ℕ) (chunk : Option (List ℕ)) (has_attributes is_substitution : Bool) (c : Cursor)
      → ((u : ℕ) (c₁ c₂ : Cursor)
          → read_data_size is_substitution c ≡ ok (u, c₁)
          → c₂.position + 6 ≡ c₁.position
          → open_start_element_rounds fuel chunk has_attributes true c₂ ≢ stuck)
      → open_start_element_rounds (suc fuel) chunk has_attributes is_substitution c ≢ stuck
  unfolding open_start_element_rounds
  round-ends fuel chunk has_attributes is_substitution c more =
      continue-ends (read_data_size is_substitution c) _
        ((Walks-data_size c.data_ref c.position is_substitution).ends c refl (omega arith))
        λ u c₁ e. elim (Bool-cases (exceeds_chunk chunk u)) [
          | inl g ↦ rw g (
              roll_back-ends (open_start_element_rounds fuel chunk has_attributes true) c₁
                λ c₂ p. more u c₁ c₂ e p)
          | inr g ↦ rw g (
              (Walks-element_name c₁.data_ref c₁.position has_attributes u).ends c₁ refl
                (omega arith))
        ]

  inside-ends :
      (fuel : ℕ) (chunk : Option (List ℕ)) (has_attributes : Bool) (c : Cursor)
      → c.position < fuel
      → open_start_element_rounds fuel chunk has_attributes true c ≢ stuck
  inside-ends zero chunk has_attributes c l = absurd (omega arith)
  inside-ends (suc fuel) chunk has_attributes c l =
      round-ends fuel chunk has_attributes true c λ u c₁ c₂ e p.
        let z : c₁.position ≡ c.position + 4 = inside_exact c u c₁ e in
        inside-ends fuel chunk has_attributes c₂ (omega arith)

  outside-ends :
      (fuel : ℕ) (chunk : Option (List ℕ)) (has_attributes is_substitution : Bool) (c : Cursor)
      → c.position + 1 < suc fuel
      → open_start_element_rounds (suc fuel) chunk has_attributes is_substitution c ≢ stuck
  outside-ends fuel chunk has_attributes true c l =
      inside-ends (suc fuel) chunk has_attributes c (omega arith)
  outside-ends fuel chunk has_attributes false c l =
      round-ends fuel chunk has_attributes false c λ u c₁ c₂ e p.
        let z : c₁.position ≡ c.position + 6 = outside_exact c u c₁ e in
        inside-ends fuel chunk has_attributes c₂ (omega arith)

-- Whatever the chunk, the flags and the cursor, `read_open_start_element` does not run out of fuel: its retries
-- end.
pub read_open_start_element-ends :
    ⦃x : Crates⦄ (chunk : Option (List ℕ)) (has_attributes is_substitution : Bool) (c : Cursor)
    → read_open_start_element chunk has_attributes is_substitution c ≢ stuck
unfolding read_open_start_element
read_open_start_element-ends chunk has_attributes is_substitution c =
    let e : suc (c.position + 1) ≡ c.position + 2 = omega arith in
    subst (λ n. open_start_element_rounds n chunk has_attributes is_substitution c ≢ stuck) e
      (outside-ends (c.position + 1) chunk has_attributes is_substitution c (omega arith))
