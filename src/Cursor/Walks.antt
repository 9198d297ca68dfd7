-- ===== src/Cursor/Walks.antt =====
-- Readers that end, keep the data, and only move forward: one rule for each way to build a reader.
use evtx.Base.{ℕ, ◌+◌, ◌≤◌, ◌≡◌, ◌≢◌, refl, List, if◌then◌else◌, arith, Bool, true, false}
use evtx.Base.Result.{Result, ok, err, panic, stuck, map_err}
use evtx.Cursor.{
  Cursor, Reader, ◌>>=◌, continue, pure, fail, with_context, tell, read_exact, seek_ahead,
  seek_start,
}

-- Over the data `d`, from any position that is `p` or more, the reader `m` does not run out of
-- fuel, and where it succeeds it leaves the data as it was and stands at `p + k` or more.
pub record Walks {E A : Type 0} (d : List ℕ) (p k : ℕ) (m : Reader E A) : Type 0 where
  pub ends : (c : Cursor) → c.data_ref ≡ d → p ≤ c.position → m c ≢ stuck
  pub at :
      (c : Cursor) (a : A) (c' : Cursor)
      → c.data_ref ≡ d
      → p ≤ c.position
      → m c ≡ ok (a, c')
      → (c'.data_ref ≡ d) × (p + k ≤ c'.position)

module _ {E A B : Type 0} where
  continue_inv :
      (r : Result E (A × Cursor)) (f : A → Reader E B) (b : B) (c' : Cursor)
      → continue r f ≡ ok (b, c')
      → (a : A) × (d : Cursor) × (r ≡ ok (a, d)) × (f a d ≡ ok (b, c'))
  continue_inv (ok (a, d)) f b c' h = (a, d, refl, h)
  continue_inv (err x) f b c' h = cc
  continue_inv panic f b c' h = cc
  continue_inv stuck f b c' h = cc

  -- Inversion of a successful bind.
  pub >>=-eq-ok :
      (m : Reader E A) (f : A → Reader E B) (b : B) (c c' : Cursor)
      → (m >>= f) c ≡ ok (b, c')
      → (a : A) × (d : Cursor) × (m c ≡ ok (a, d)) × (f a d ≡ ok (b, c'))
  >>=-eq-ok m f b c c' h = continue_inv (m c) f b c' h

  pub continue-ends :
      (r : Result E (A × Cursor)) (f : A → Reader E B)
      → r ≢ stuck
      → ((a : A) (d : Cursor) → r ≡ ok (a, d) → f a d ≢ stuck)
      → continue r f ≢ stuck
  continue-ends (ok (a, d)) f h k = k a d refl
  continue-ends (err x) f h k = λ e. cc
  continue-ends panic f h k = λ e. cc
  continue-ends stuck f h k = absurd (h refl)

module _ {E F A : Type 0} where
  map_err-ok :
      (r : Result E (A × Cursor)) (f : E → F) (p : A × Cursor) → map_err f r ≡ ok p → r ≡ ok p
  map_err-ok (ok x) f p h = cc
  map_err-ok (err x) f p h = cc
  map_err-ok panic f p h = cc
  map_err-ok stuck f p h = cc

  pub map_err-ends : (r : Result E (A × Cursor)) (f : E → F) → r ≢ stuck → map_err f r ≢ stuck
  map_err-ends (ok x) f h = λ e. cc
  map_err-ends (err x) f h = λ e. cc
  map_err-ends panic f h = λ e. cc
  map_err-ends stuck f h = absurd (h refl)

module _ (d : List ℕ) (p : ℕ) where
  pub Walks-weaken : {E A : Type 0} (m : Reader E A) → Walks d p 1 m → Walks d p 0 m
  Walks-weaken m w = record {
    ends = w.ends;
    at = λ c a c' e b h. let (same, far) = w.at c a c' e b h in (same, omega arith);
  }

  pub Walks-pure : {E A : Type 0} (a : A) → Walks {E = E} d p 0 (pure a)
  Walks-pure a = record { ends = λ c e b h. cc; at = λ c a c' e b h. (ground arith, ground arith) }

  pub Walks-fail : {E A : Type 0} (k : ℕ) (e : E) → Walks {A = A} d p k (fail e)
  Walks-fail k e = record { ends = λ c e b h. cc; at = λ c a c' e b h. cc }

  pub Walks-tell : {E : Type 0} → Walks {E = E} d p 0 tell
  Walks-tell = record { ends = λ c e b h. cc; at = λ c a c' e b h. (ground arith, ground arith) }

  pub Walks-if :
      {E A : Type 0} (k : ℕ) (t : Bool) (m n : Reader E A)
      → Walks d p k m
      → Walks d p k n
      → Walks d p k (if t then m else n)
  Walks-if k true m n hm hn = hm
  Walks-if k false m n hm hn = hn

  pub Walks-context :
      {E F A : Type 0} (k : ℕ) (f : E → F) (m : Reader E A)
      → Walks d p k m
      → Walks d p k (with_context f m)
  Walks-context k f m w = record {
    ends = λ c e b. map_err-ends (m c) f (w.ends c e b);
    at = λ c a c' e b h. w.at c a c' e b (map_err-ok (m c) f (a, c') h);
  }

  pub Walks-read_exact : (n : ℕ) → Walks d p n (read_exact n)
  unfolding read_exact
  Walks-read_exact n = record {
    ends = λ c e b h. ground arith;
    at = λ c a c' e b h. (ground arith, ground arith);
  }

  pub Walks-seek_ahead : (n : ℕ) → Walks d p 0 (seek_ahead n)
  unfolding seek_ahead
  Walks-seek_ahead n = record {
    ends = λ c e b h. cc;
    at = λ c a c' e b h. (ground arith, ground arith);
  }

-- What follows a read begins where the read has come to.
pub Walks-bind :
    {E A B : Type 0} (d : List ℕ) (p k : ℕ) (m : Reader E A) (f : A → Reader E B)
    → Walks d p k m
    → ((a : A) → Walks d (p + k) 0 (f a))
    → Walks d p k (m >>= f)
Walks-bind d p k m f hm hf = record {
  ends = λ c e b.
      continue-ends (m c) f (hm.ends c e b)
        λ a c₁ g. let (e₁, b₁) = hm.at c a c₁ e b g in (hf a).ends c₁ e₁ b₁;
  at = λ c a c' e b h.
      let (a₁, c₁, g₁, g₂) = >>=-eq-ok m f a c c' h in
      let (e₁, b₁) = hm.at c a₁ c₁ e b g₁ in
      let (e₂, b₂) = (hf a₁).at c₁ a c' e₁ b₁ g₂ in (e₂, omega arith);
}

-- What follows `tell` begins at the position that it gives.
pub Walks-tell_bind :
    {E B : Type 0} (d : List ℕ) (p k : ℕ) (f : ℕ → Reader E B)
    → ((q : ℕ) → p ≤ q → Walks d q k (f q))
    → Walks d p k (tell >>= f)
Walks-tell_bind d p k f hf = record {
  ends = λ c e b. (hf c.position b).ends c e (omega arith);
  at = λ c a c' e b h.
      let (e₂, b₂) = (hf c.position b).at c a c' e (omega arith) h in (e₂, omega arith);
}

-- A seek to a position that is known to lie ahead.
pub Walks-seek_start : (d : List ℕ) (p n : ℕ) → p ≤ n → Walks d p 0 (seek_start n)
unfolding seek_start
Walks-seek_start d p n h = record {
  ends = λ c e b g. cc;
  at = λ c a c' e b g. (ground arith, ground arith);
}

pub ruleset walk_rules =
    (Walks-pure, Walks-fail, Walks-tell, Walks-if, Walks-bind, Walks-context, Walks-seek_ahead)
