-- ===== src/Binxml/Deserializer/Ends.antt =====
-- Without a chunk the deserializer ends on every input: a token takes a byte at least, so that the
-- fuel of `read_binxml_fragment` is enough, for its loop and for the nesting of values.
use evtx.Base.{
  ℕ, zero, suc, ◌+◌, ◌-◌, ◌≤◌, ◌<◌, ◌≡◌, ◌≢◌, refl, List, [], ◌∷◌, ◌++◌, Bool, true, false, Option,
  none, length, leb, Bool-cases, inl, inr, arith,
}
use native.Mathlib.Decide.{dec_lt}
use evtx.Base.Result.{Result, ok, err, panic, stuck}
use evtx.Crates.{Crates}
use evtx.Cursor.{Cursor, seek_ahead}
use evtx.Cursor.Walks.{Walks}
use evtx.Error.{DeserializationError}
use evtx.Model.Raw.{BinXmlRawToken}
use evtx.Model.Deserialized.{BinXmlDeserializedTokens, Tokens, to_vec}
use evtx.Binxml.Value.{Fragment}
use evtx.Binxml.Deserializer.{
  IterTokens, is_finished, advance_to, read_token, inner_next, read_tokens, iter_tokens, seek_to,
  drained, Drained, fragment_rounds, read_binxml_fragment,
}
use evtx.Binxml.Deserializer.Forward.{Walks-token, no_token}

module _ ⦃x : Crates⦄ (d : List ℕ) where
  -- Enough fuel at a position.
  abbrev Fuelled : ℕ → ℕ → Type 0
  Fuelled fuel p = (0 < fuel) × (length d + 2 ≤ p + fuel)

  record Reads (fuel : ℕ) (codec : x.Codec) : Type 0 where
    walks :
        (q : ℕ) (size : Option ℕ) (inside : Bool)
        → Fuelled fuel q
        → Walks d q 0 (fragment_rounds fuel none codec size inside)

  module _ (depth : ℕ) (codec : x.Codec) (reads : Reads depth codec) where
    abbrev inner : Fragment
    inner = fragment_rounds depth none codec

    -- One token, where the fuel is enough for what is nested in it.
    record TokenEnds (inside : Bool) (c : Cursor) : Type 0 where
      ends : read_token inner none codec inside c ≢ stuck
      at :
          (r : BinXmlRawToken × BinXmlDeserializedTokens) (c' : Cursor)
          → read_token inner none codec inside c ≡ ok (r, c')
          → (c'.data_ref ≡ d) × (c.position < c'.position) × (c.position < length d)

    token-TokenEnds :
        (inside : Bool) (c : Cursor)
        → c.data_ref ≡ d
        → length d + 2 ≤ c.position + suc depth
        → TokenEnds inside c
    token-TokenEnds inside c e h = elim (dec_lt c.position (length d)) [
      | yes l ↦ record {
        ends = (w l).ends c e (omega arith);
        at = λ r c' g.
            let q : (c'.data_ref ≡ d) × (c.position + 1 ≤ c'.position) =
              (w l).at c r c' e (omega arith) g in
            (q.0, omega arith, l);
      }
      | no l ↦
          let (x', g) = no_token d inner codec inside c e (omega arith) in
          record {
            ends = rw g (λ k. cc);
            at = λ r c' k. let k' : err x' ≡ ok (r, c') = rw g at k in absurd (cc);
          }
    ]
      where
        w : c.position < length d → Walks d c.position 1 (read_token inner none codec inside)
        w l =
            Walks-token d (c.position + 1) inner
              (λ q size inside' b. reads.walks q size inside' (omega arith, omega arith)) codec
              c.position inside (omega arith)

    record TokensEnd (fuel : ℕ) (inside : Bool) (ts : List BinXmlDeserializedTokens)
        (iter : IterTokens) : Type 0 where
      ends : read_tokens inner none codec fuel inside ts iter ≢ stuck
      at :
          (vs : List BinXmlDeserializedTokens) (iter' : IterTokens)
          → read_tokens inner none codec fuel inside ts iter ≡ ok (vs, iter')
          → (iter'.cursor.data_ref ≡ d) × (iter.cursor.position ≤ iter'.cursor.position)

    module _ (fuel : ℕ) (inside : Bool) (ts : List BinXmlDeserializedTokens) (iter : IterTokens)
        (here : iter.cursor.data_ref ≡ d) where
      next-finished : is_finished iter ≡ true → TokensEnd (suc fuel) inside ts iter
      unfolding read_tokens inner_next
      next-finished t = record {
        ends = rw (t, inner_next) (λ g. cc);
        at = λ vs iter' g.
            let g' : ok (ts, iter) ≡ ok (vs, iter') = rw (t, inner_next) at g in
            (ground arith, ground arith);
      }

      next-token :
          (r : Result DeserializationError ((BinXmlRawToken × BinXmlDeserializedTokens) × Cursor))
          → is_finished iter ≡ false
          → read_token inner none codec inside iter.cursor ≡ r
          → r ≢ stuck
          → ((t : BinXmlRawToken) (v : BinXmlDeserializedTokens) (c' : Cursor)
              → r ≡ ok ((t, v), c')
              → (iter.cursor.position ≤ c'.position)
                × TokensEnd fuel inside (ts ++ (v ∷ [])) (advance_to iter t c'))
          → TokensEnd (suc fuel) inside ts iter
      unfolding read_tokens inner_next advance_to
      next-token (ok ((t, v), c')) f e n k =
          let q = k t v c' refl in
          record {
            ends = rw (f, e, inner_next) (q.1.ends);
            at = λ vs iter' g.
                let z : (iter'.cursor.data_ref ≡ d) × (c'.position ≤ iter'.cursor.position) =
                  q.1.at vs iter' (rw (f, e, inner_next) at g) in
                (z.0, omega arith);
          }
      next-token (err x') f e n k = record {
        ends = rw (f, e, inner_next) (λ g. cc);
        at = λ vs iter' g.
            let g' : err x' ≡ ok (vs, iter') = rw (f, e, inner_next) at g in absurd (cc);
      }
      next-token panic f e n k = record {
        ends = rw (f, e, inner_next) (λ g. cc);
        at = λ vs iter' g.
            let g' : Result.panic ≡ ok (vs, iter') = rw (f, e, inner_next) at g in absurd (cc);
      }
      next-token stuck f e n k = absurd (n refl)

    -- The loop ends, and does not move back.
    tokens-TokensEnd :
        (fuel : ℕ) (inside : Bool) (ts : List BinXmlDeserializedTokens) (iter : IterTokens)
        → iter.cursor.data_ref ≡ d
        → Fuelled fuel iter.cursor.position
        → length d + 2 ≤ iter.cursor.position + suc depth
        → TokensEnd fuel inside ts iter
    unfolding advance_to
    tokens-TokensEnd zero inside ts iter e f g = absurd (omega arith)
    tokens-TokensEnd (suc fuel) inside ts iter e f g = elim (Bool-cases (is_finished iter)) [
      | inl t ↦ next-finished fuel inside ts iter e t
      | inr t ↦
          let token : TokenEnds inside iter.cursor = token-TokenEnds inside iter.cursor e g in
          next-token fuel inside ts iter e (read_token inner none codec inside iter.cursor) t refl
            token.ends
            λ r v c' h.
              let q : (c'.data_ref ≡ d)
                  × (iter.cursor.position < c'.position)
                  × (iter.cursor.position < length d) =
                token.at (r, v) c' h in
              (
                omega arith,
                tokens-TokensEnd fuel inside (ts ++ (v ∷ [])) (advance_to iter r c') q.0
                    (omega arith, omega arith) (omega arith),
              )
    ]

  seek_to_ahead :
      (n : ℕ) (c : Cursor)
      → c.position ≤ n
      → seek_to n c ≡ ok (tt, record c { position = c.position + (n - c.position) })
  unfolding seek_to seek_ahead
  seek_to_ahead n c h = let t : leb c.position n ≡ true = ground arith in rw t

  drained-Walks :
      (p : ℕ) (c : Cursor) (r : Drained)
      → c.data_ref ≡ d
      → p ≤ c.position
      → r ≢ stuck
      → ((vs : List BinXmlDeserializedTokens) (iter : IterTokens)
          → r ≡ ok (vs, iter)
          → c.position ≤ iter.cursor.position)
      → (drained c r ≢ stuck)
        × ((ts : Tokens) (c' : Cursor)
            → drained c r ≡ ok (ts, c')
            → (c'.data_ref ≡ d) × (p ≤ c'.position))
  drained-Walks p c (ok (vs, iter)) e b n k =
      let h = seek_to_ahead iter.cursor.position c (k vs iter refl) in
      (
        rw h (λ g. cc),
        λ ts c' g.
            let g' : ok (
              to_vec vs,
              record c { position = c.position + (iter.cursor.position - c.position) },
            )
                ≡ ok (ts, c') =
              rw h at g in
            (ground arith, ground arith),
      )
  drained-Walks p c (err x') e b n k = (λ g. cc, λ ts c' g. absurd (cc))
  drained-Walks p c panic e b n k = (λ g. cc, λ ts c' g. absurd (cc))
  drained-Walks p c stuck e b n k = absurd (n refl)

  fragment-Walks : (fuel : ℕ) (codec : x.Codec) → Reads fuel codec
  unfolding fragment_rounds iter_tokens
  fragment-Walks zero codec = record { walks = λ q size inside f. absurd (omega arith) }
  fragment-Walks (suc fuel) codec =
      let inner : Reads fuel codec = fragment-Walks fuel codec in
      record {
        walks = λ q size inside f.
            let loop : (c : Cursor)
                → c.data_ref ≡ d
                → q ≤ c.position
                → TokensEnd fuel codec inner (suc fuel) inside [] (iter_tokens c size) =
              λ c e b.
                tokens-TokensEnd fuel codec inner (suc fuel) inside [] (iter_tokens c size) e
                  (omega arith, omega arith) (omega arith) in
            record {
              ends = λ c e b.
                  (drained-Walks q c _ e b (loop c e b).ends
                    (λ vs iter g. ((loop c e b).at vs iter g).1)).0;
              at = λ c ts c' e b h.
                  let z : (c'.data_ref ≡ d) × (q ≤ c'.position) =
                    (drained-Walks q c _ e b (loop c e b).ends
                        (λ vs iter g. ((loop c e b).at vs iter g).1)).1
                      ts c' h in
                  (z.0, omega arith);
            };
      }

-- Whatever the bytes, the size and the nesting, `read_binxml_fragment` without a chunk does not
-- run out of fuel: at every cursor it returns tokens, an error or a panic, and where it returns
-- tokens the cursor has not moved back and the data is what it was.
pub fragment_ends :
    ⦃x : Crates⦄ (codec : x.Codec) (size : Option ℕ) (inside : Bool) (c : Cursor)
    → (read_binxml_fragment none codec size inside c ≢ stuck)
      × ((ts : Tokens) (c' : Cursor)
          → read_binxml_fragment none codec size inside c ≡ ok (ts, c')
          → (c'.data_ref ≡ c.data_ref) × (c.position ≤ c'.position))
unfolding read_binxml_fragment
fragment_ends codec size inside c =
    let w : Walks c.data_ref c.position 0
        (fragment_rounds (length c.data_ref + 2) none codec size inside) =
      (fragment-Walks c.data_ref (length c.data_ref + 2) codec).walks c.position size inside
        (omega arith, omega arith) in
    (
      w.ends c refl (omega arith),
      λ ts c' h.
          let z : (c'.data_ref ≡ c.data_ref) × (c.position + 0 ≤ c'.position) =
            w.at c ts c' refl (omega arith) h in
          (z.0, omega arith),
    )
