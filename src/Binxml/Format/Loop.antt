-- ===== src/Binxml/Format/Loop.antt =====
-- The loop over the tokens of a fragment reads them as they are written.
use evtx.Base.{
  ℕ, zero, suc, ◌+◌, ◌-◌, ◌%◌, ◌^◌, ◌≤◌, ◌<◌, ◌≡◌, refl, sym, subst, ◌∙◌, List, [], ◌∷◌, ◌++◌,
  append_assoc, append-nil, Bool, true, false, Option, none, some, length, length-append, arith,
  drop,
}
use evtx.Base.Result.{ok}
use evtx.Crates.{Crates}
use evtx.Cursor.{Cursor}
use evtx.Cursor.Reads.{drop-append}
use evtx.Model.Raw.{BinXmlRawToken}
use evtx.Model.Deserialized.{BinXmlDeserializedTokens}
use evtx.Binxml.Value.{Fragment}
use evtx.Binxml.Deserializer.{
  IterTokens, is_finished, is_end_of_stream, advance_to, read_token, inner_next, read_tokens,
}
use evtx.Binxml.Format.Written.{WrittenToken, token_bytes, token_meant, TokenFits}
use evtx.Binxml.Format.Token.{raw_of, Reads-token}
use evtx.Binxml.Format.Fragment.{
  fragment_bytes, fragment_meant, More, FragmentFits, raw_of-is_end, fits_small,
}

-- The iterator that has not met the end.
abbrev pub state : Cursor → Option ℕ → ℕ → IterTokens
state c size read = record { cursor = c; data_size = size; data_read_so_far = read; eof = false }

abbrev pub moved : Cursor → ℕ → Cursor
moved c n = record c { position = n }

state-advance :
    (c : Cursor) (size : Option ℕ) (read n : ℕ) (raw : BinXmlRawToken)
    → is_end_of_stream raw ≡ false
    → read + n < 2 ^ 32
    → advance_to (state c size read) raw (moved c (c.position + n))
      ≡ state (moved c (c.position + n)) size (read + n)
unfolding advance_to
state-advance c size read n raw h k =
    let z : (read + (c.position + n + 2 ^ 64 - c.position) % 2 ^ 64 % 2 ^ 32) % 2 ^ 32 ≡ read + n =
      omega arith in
    rw (h, z) refl

unfinished :
    (c : Cursor) (size : Option ℕ) (read : ℕ)
    → More size read
    → is_finished (state c size read) ≡ false
unfolding is_finished
unfinished c none read h = refl
unfinished c (some size) read h = ground arith

finished :
    (c : Cursor) (size : Option ℕ) (read : ℕ)
    → size ≡ some read
    → is_finished (state c size read) ≡ true
unfolding is_finished
finished c size read h = rw h (ground arith)

stopped :
    (c : Cursor) (size : Option ℕ) (read n : ℕ)
    → is_finished (advance_to (state c size read) BinXmlRawToken.end_of_stream (moved c n)) ≡ true
unfolding is_finished advance_to is_end_of_stream
stopped c size read n = refl

stopped_at :
    (c : Cursor) (size : Option ℕ) (read n : ℕ)
    → (advance_to (state c size read) BinXmlRawToken.end_of_stream (moved c n)).cursor.position ≡ n
unfolding advance_to
stopped_at c size read n = refl

module _ ⦃x : Crates⦄ (fragment : Fragment) (chunk : Option (List ℕ)) (codec : x.Codec)
    (inside : Bool) where
  pub record Gives (fuel : ℕ) (before after : List BinXmlDeserializedTokens) (iter : IterTokens)
      (q : ℕ) : Type 0 where
    pub iter' : IterTokens
    pub run : read_tokens fragment chunk codec fuel inside before iter ≡ ok (after, iter')
    pub at : iter'.cursor.position ≡ q

  Gives-finished :
      (fuel : ℕ) (ts : List BinXmlDeserializedTokens) (iter : IterTokens) (q : ℕ)
      → is_finished iter ≡ true
      → iter.cursor.position ≡ q
      → Gives (suc fuel) ts ts iter q
  unfolding read_tokens inner_next
  Gives-finished fuel ts iter q h e = record { iter' = iter; run = rw h refl; at = e }

  -- One token, and then the rest.
  Gives-token :
      (fuel : ℕ) (before after : List BinXmlDeserializedTokens) (c : Cursor) (size : Option ℕ)
      (read q : ℕ) (t : WrittenToken) (rest : List ℕ)
      → More size read
      → TokenFits chunk inside c.position t
      → drop c.position c.data_ref ≡ token_bytes inside c.position t ++ rest
      → Gives fuel
          (before ++ (token_meant inside c.position t ∷ []))
          after
          (advance_to
            (state c size read)
            (raw_of t)
            (moved c (c.position + length (token_bytes inside c.position t))))
          q
      → Gives (suc fuel) before after (state c size read) q
  unfolding read_tokens inner_next
  Gives-token fuel before after c size read q t rest m h d g =
      let e : is_finished (state c size read) ≡ false = unfinished c size read m in
      let r : read_token fragment chunk codec inside c
          ≡ ok (
            (raw_of t, token_meant inside c.position t),
            moved c (c.position + length (token_bytes inside c.position t)),
          ) =
        (Reads-token fragment chunk codec inside c.position t h).at rest c refl d in
      record { iter' = g.iter'; run = rw (e, r) g.run; at = g.at }

  pub Gives-fragment :
      (fuel : ℕ) (closed : Bool) (before : List BinXmlDeserializedTokens) (c : Cursor)
      (size : Option ℕ) (read : ℕ) (ts : List WrittenToken) (rest : List ℕ)
      → length ts + 2 ≤ fuel
      → FragmentFits chunk closed inside size read c.position ts
      → drop c.position c.data_ref ≡ fragment_bytes closed inside c.position ts ++ rest
      → Gives fuel before
          (before ++ fragment_meant closed inside c.position ts)
          (state c size read)
          (c.position + length (fragment_bytes closed inside c.position ts))
  Gives-fragment zero closed before c size read ts rest f h d = absurd (omega arith)
  Gives-fragment (suc fuel) false before c size read [] rest f h d =
      let q : c.position ≡ c.position + 0 = omega arith in
      let stop : is_finished (state c size read) ≡ true = finished c size read h.0 in
      subst (λ l. Gives (suc fuel) before l (state c size read) (c.position + 0))
        (sym (append-nil before))
        (Gives-finished fuel before (state c size read) (c.position + 0) stop q)
  Gives-fragment (suc zero) true before c size read [] rest f h d = absurd (omega arith)
  Gives-fragment (suc (suc fuel)) true before c size read [] rest f h d =
      let after : List BinXmlDeserializedTokens =
        before ++ (token_meant inside c.position WrittenToken.end_of_stream ∷ []) in
      let iter : IterTokens =
        advance_to (state c size read) BinXmlRawToken.end_of_stream (moved c (c.position + 1)) in
      Gives-token (suc fuel) before after c size read (c.position + 1) WrittenToken.end_of_stream
        rest h tt d
        (Gives-finished fuel after iter (c.position + 1) (stopped c size read (c.position + 1))
          (stopped_at c size read (c.position + 1)))
  Gives-fragment (suc fuel) closed before c size read (t ∷ ts) rest f h d =
      let p : ℕ = c.position in
      let bs : List ℕ = token_bytes inside p t in
      let n : ℕ = length bs in
      let bs' : List ℕ = fragment_bytes closed inside (p + n) ts in
      let m : List BinXmlDeserializedTokens = token_meant inside p t ∷ [] in
      let later : List BinXmlDeserializedTokens = fragment_meant closed inside (p + n) ts in
      let whole : drop p c.data_ref ≡ bs ++ (bs' ++ rest) = d ∙ append_assoc bs bs' rest in
      let g : Gives fuel (before ++ m) ((before ++ m) ++ later)
          (state (moved c (p + n)) size (read + n)) (p + n + length bs') =
        Gives-fragment fuel closed (before ++ m) (moved c (p + n)) size (read + n) ts rest
          (omega arith) h.3 (drop-append p c.data_ref bs (bs' ++ rest) whole) in
      let e : advance_to (state c size read) (raw_of t) (moved c (p + n))
          ≡ state (moved c (p + n)) size (read + n) =
        state-advance c size read n (raw_of t) (raw_of-is_end t h.1)
          (fits_small chunk closed inside size (read + n) (p + n) ts h.3) in
      let g' : Gives fuel (before ++ m) ((before ++ m) ++ later)
          (advance_to (state c size read) (raw_of t) (moved c (p + n))) (p + n + length bs') =
        subst (λ i. Gives fuel (before ++ m) ((before ++ m) ++ later) i (p + n + length bs'))
          (sym e) g in
      let whole_gives : Gives (suc fuel) before ((before ++ m) ++ later) (state c size read)
          (p + n + length bs') =
        Gives-token fuel before ((before ++ m) ++ later) c size read (p + n + length bs') t
          (bs' ++ rest) h.0 h.2 whole g' in
      let z : p + n + length bs' ≡ p + length (bs ++ bs') = omega (arith, length-append bs bs') in
      subst (λ q. Gives (suc fuel) before (before ++ (m ++ later)) (state c size read) q) z
        (subst (λ l. Gives (suc fuel) before l (state c size read) (p + n + length bs'))
          (append_assoc before m later) whole_gives)
