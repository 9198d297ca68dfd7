-- ===== src/Cursor/Reads.antt =====
-- A reader against the bytes that it reads: what it gives where they stand at the cursor, whatever follows.
use evtx.Base.{
  ℕ, zero, suc, ◌+◌, ◌-◌, ◌*◌, ◌/◌, ◌%◌, ◌<◌, ◌≡◌, refl, sym, ap, subst, ◌∙◌, List, [], ◌∷◌, ◌++◌,
  append_assoc, length, length-append, take, drop, leb, arith, true,
}
use evtx.Base.Result.{ok}
use evtx.Crates.{Crates}
use evtx.Cursor.{Cursor, Reader, ◌>>=◌, pure, with_context, tell, read_exact}
use evtx.Macros.{read_uint}

pub record Reads {E A : Type 0} (p : ℕ) (m : Reader E A) (bs : List ℕ) (a : A) : Type 0 where
  pub at :
      (rest : List ℕ) (c : Cursor)
      → c.position ≡ p
      → drop p c.data_ref ≡ bs ++ rest
      → m c ≡ ok (a, record c { position = p + length bs })

drop_past : (bs rest : List ℕ) → drop (length bs) (bs ++ rest) ≡ rest
drop_past [] rest = refl
drop_past (b ∷ bs) rest = drop_past bs rest

pub drop-append :
    (p : ℕ) (d bs rest : List ℕ) → drop p d ≡ bs ++ rest → drop (p + length bs) d ≡ rest
drop-append p d [] rest h = subst (λ n. drop n d ≡ rest) (omega arith) h
drop-append zero d (b ∷ bs) rest h =
    let z : 0 + suc (length bs) ≡ suc (length bs) = omega arith in rw (z, h) (drop_past bs rest)
drop-append (suc p) [] (b ∷ bs) rest h = absurd cc
drop-append (suc p) (e ∷ d) (b ∷ bs) rest h =
    let z : suc p + suc (length bs) ≡ suc (p + suc (length bs)) = omega arith in
    rw z (drop-append p d (b ∷ bs) rest h)

pub length-drop : (p : ℕ) (d : List ℕ) → length (drop p d) ≡ length d - p
length-drop zero d = omega arith
length-drop (suc p) [] = omega arith
length-drop (suc p) (e ∷ d) = omega (arith, length-drop p d)

pub take-append : (bs rest : List ℕ) → take (length bs) (bs ++ rest) ≡ bs
take-append [] rest = refl
take-append (b ∷ bs) rest = ap (λ t. b ∷ t) (take-append bs rest)

module _ {E A : Type 0} where
  pub Reads-pure : (p : ℕ) (a : A) → Reads {E = E} p (pure a) [] a
  Reads-pure p a = record {
    at = λ rest c e d.
        let z : c.position ≡ p + 0 = omega arith in ap (λ n. ok (a, record c { position = n })) z;
  }

  pub Reads-tell_bind :
      (p : ℕ) (f : ℕ → Reader E A) (bs : List ℕ) (a : A)
      → Reads p (f p) bs a
      → Reads p (tell >>= f) bs a
  Reads-tell_bind p f bs a r = record {
    at = λ rest c e d.
        subst (λ n. f n c ≡ ok (a, record c { position = p + length bs })) (sym e)
          (r.at rest c e d);
  }

  pub Reads-context :
      {F : Type 0} (p : ℕ) (g : E → F) (m : Reader E A) (bs : List ℕ) (a : A)
      → Reads p m bs a
      → Reads p (with_context g m) bs a
  Reads-context p g m bs a r = record { at = λ rest c e d. rw (r.at rest c e d) refl }

pub Reads-bind :
    {E A B : Type 0} (p : ℕ) (m : Reader E A) (f : A → Reader E B) (bs bs' : List ℕ) (a : A) (b : B)
    → Reads p m bs a
    → Reads (p + length bs) (f a) bs' b
    → Reads p (m >>= f) (bs ++ bs') b
Reads-bind p m f bs bs' a b r s = record {
  at = λ rest c e d.
      let first : m c ≡ ok (a, record c { position = p + length bs }) =
        r.at (bs' ++ rest) c e (d ∙ append_assoc bs bs' rest) in
      let z : p + length bs + length bs' ≡ p + length (bs ++ bs') =
        omega (arith, length-append bs bs') in
      rw first (
        s.at rest (record c { position = p + length bs }) refl
          (drop-append p c.data_ref bs (bs' ++ rest) (d ∙ append_assoc bs bs' rest))
        ∙ ap (λ n. ok (b, record c { position = n })) z);
}

pub Reads-exact : (p : ℕ) (bs : List ℕ) → Reads p (read_exact (length bs)) bs bs
unfolding read_exact
Reads-exact p bs = record {
  at = λ rest c e d.
      let l : length (drop p c.data_ref) ≡ length (bs ++ rest) = ap length d in
      let g : leb (length bs) (length c.data_ref - p) ≡ true =
        ground (arith, length-drop p c.data_ref, length-append bs rest) in
      rw (e, g, d, take-append bs rest) refl;
}

-- Bytes of a number, the low one first.
abbrev pub le : ℕ → ℕ → List ℕ
le zero v = []
le (suc n) v = v % 256 ∷ le n (v / 256)

-- How many numbers bytes can hold.
abbrev pub capacity : ℕ → ℕ
capacity zero = 1
capacity (suc n) = 256 * capacity n

pub length-le : (n v : ℕ) → length (le n v) ≡ n
length-le zero v = refl
length-le (suc n) v = ap (λ k. suc k) (length-le n (v / 256))

module _ ⦃x : Crates⦄ where
  from_le-le : (n v : ℕ) → v < capacity n → x.from_le (le n v) ≡ v
  from_le-le zero v h = omega (arith, x.from_le-nil)
  from_le-le (suc n) v h =
      omega (arith, x.from_le-cons (v % 256) (le n (v / 256)), from_le-le n (v / 256) (omega arith))

  pub Reads-uint : (p n v : ℕ) → v < capacity n → Reads p (read_uint n) (le n v) v
  unfolding read_uint
  Reads-uint p n v h =
      let first : Reads p (read_exact n) (le n v) (le n v) =
        subst (λ k. Reads p (read_exact k) (le n v) (le n v)) (length-le n v)
          (Reads-exact p (le n v)) in
      record { at = λ rest c e d. rw (first.at rest c e d, from_le-le n v h) refl }
