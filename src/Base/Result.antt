-- ===== src/Base/Result.antt =====
-- Fallible Rust code. `panic` is a Rust panic (an index out of range, `expect`, `unimplemented!`);
-- `stuck` is no outcome of the program: a loop of the model ran out of its fuel.
use mathlib.Core.Option.{Option, none, some}
use mathlib.Core.Path.{◌≡◌, refl, subst}
use mathlib.Core.Logic.{◌≢◌}

pub data Result {ℓ κ} (E : Type ℓ) (A : Type κ) : Type (ℓ ⊔ κ) where
  ok : A → Result E A
  err : E → Result E A
  panic : Result E A
  stuck : Result E A

infixl 5 ◌>>=◌ ◌>>◌
abbrev pub ◌>>=◌ {ℓ κ μ} :
    {E : Type ℓ} {A : Type κ} {B : Type μ} → Result E A → (A → Result E B) → Result E B
ok a >>= f = f a
err e >>= f = err e
panic >>= f = panic
stuck >>= f = stuck

abbrev pub ◌>>◌ {ℓ μ} : {E : Type ℓ} {B : Type μ} → Result E (Unit {0}) → Result E B → Result E B
m >> k = m >>= λ _. k

-- Result::map_err
abbrev pub map_err {ℓ κ μ} :
    {E : Type ℓ} {F : Type κ} {A : Type μ} → (E → F) → Result E A → Result F A
map_err f (ok a) = ok a
map_err f (err e) = err (f e)
map_err f panic = panic
map_err f stuck = stuck

-- Option::ok_or
abbrev pub ok_or {ℓ κ} : {E : Type ℓ} {A : Type κ} → Option A → E → Result E A
ok_or none e = err e
ok_or (some a) e = ok a

-- The value, where there is one, has the property.
abbrev pub Ensures {ℓ κ μ} : {E : Type ℓ} {A : Type κ} → (A → Type μ) → Result E A → Type μ
Ensures P (ok a) = P a
Ensures P (err e) = Unit
Ensures P panic = Unit
Ensures P stuck = Unit

module _ {ℓ κ μ} {E : Type ℓ} {A : Type κ} (P : A → Type μ) where
  pub Ensures-bind {ν ρ} :
      {B : Type ν} (Q : B → Type ρ) (r : Result E A) (f : A → Result E B)
      → Ensures P r
      → ((a : A) → P a → Ensures Q (f a))
      → Ensures Q (r >>= f)
  Ensures-bind Q (ok a) f p q = q a p
  Ensures-bind Q (err e) f p q = tt
  Ensures-bind Q panic f p q = tt
  Ensures-bind Q stuck f p q = tt

  pub Ensures-weaken {ρ} :
      (Q : A → Type ρ) (r : Result E A) → Ensures P r → ((a : A) → P a → Q a) → Ensures Q r
  Ensures-weaken Q (ok a) p q = q a p
  Ensures-weaken Q (err e) p q = tt
  Ensures-weaken Q panic p q = tt
  Ensures-weaken Q stuck p q = tt

  pub Ensures-map_err {ν} :
      {F : Type ν} (g : E → F) (r : Result E A) → Ensures P r → Ensures P (map_err g r)
  Ensures-map_err g (ok a) p = p
  Ensures-map_err g (err e) p = tt
  Ensures-map_err g panic p = tt
  Ensures-map_err g stuck p = tt

  pub Ensures-ok : (r : Result E A) (a : A) → Ensures P r → r ≡ ok a → P a
  Ensures-ok r a p e = subst (Ensures P) e p

  pub Ensures-all : (r : Result E A) → ((a : A) → P a) → Ensures P r
  Ensures-all (ok a) p = p a
  Ensures-all (err e) p = tt
  Ensures-all panic p = tt
  Ensures-all stuck p = tt

-- The result is one of the program.
abbrev pub Ends {ℓ κ} : {E : Type ℓ} {A : Type κ} → Result E A → Type 0
Ends stuck = ⊥
Ends r = Unit

module _ {ℓ κ} {E : Type ℓ} {A : Type κ} where
  pub Ends-bind {μ} :
      {B : Type μ} (r : Result E A) (f : A → Result E B)
      → Ends r
      → ((a : A) → Ends (f a))
      → Ends (r >>= f)
  Ends-bind (ok a) f h k = k a
  Ends-bind (err e) f h k = tt
  Ends-bind panic f h k = tt
  Ends-bind stuck f h k = h

  pub Ends-map_err {μ} : {F : Type μ} (g : E → F) (r : Result E A) → Ends r → Ends (map_err g r)
  Ends-map_err g (ok a) h = tt
  Ends-map_err g (err e) h = tt
  Ends-map_err g panic h = tt
  Ends-map_err g stuck h = h

  pub ≢stuck→Ends : (r : Result E A) → r ≢ stuck → Ends r
  ≢stuck→Ends (ok a) h = tt
  ≢stuck→Ends (err e) h = tt
  ≢stuck→Ends panic h = tt
  ≢stuck→Ends stuck h = h refl

  pub Ends→≢stuck : (r : Result E A) → Ends r → r ≢ stuck
  Ends→≢stuck r h e = subst Ends e h

-- Inversion of a success.
module _ {ℓ κ μ} {E : Type ℓ} {A : Type κ} {B : Type μ} where
  pub >>=-ok :
      (r : Result E A) (f : A → Result E B) (b : B)
      → (r >>= f) ≡ ok b
      → (a : A) × (r ≡ ok a) × (f a ≡ ok b)
  >>=-ok (ok a) f b h = (a, refl, h)
  >>=-ok (err e) f b h = absurd cc
  >>=-ok panic f b h = absurd cc
  >>=-ok stuck f b h = absurd cc

pub map_err-ok {ℓ κ μ} :
    {E : Type ℓ} {F : Type κ} {A : Type μ} (g : E → F) (r : Result E A) (a : A)
    → map_err g r ≡ ok a
    → r ≡ ok a
map_err-ok g (ok b) a h = cc
map_err-ok g (err e) a h = absurd cc
map_err-ok g panic a h = absurd cc
map_err-ok g stuck a h = absurd cc
