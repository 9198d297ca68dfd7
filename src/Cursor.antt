-- ===== src/Cursor.antt =====
-- `std::io::Cursor<&[u8]>` and the readers over it: a reader takes the cursor and gives its result
-- with the cursor moved. After an error the cursor is not modelled, since no code reads it again.
pub mod Walks
pub mod Reads
use evtx.Base.{
  ℕ, zero, suc, ◌+◌, ◌-◌, List, [], ◌∷◌, leb, if◌then◌else◌, length, take, drop, ◌^◌, ltb,
}
use evtx.Base.Result.{Result, ok, err, panic, stuck, map_err}

-- `std::io::ErrorKind`, the kinds that the readers give.
pub data IoError : Type 0 where
  unexpected_eof invalid_data invalid_input : IoError

pub record Cursor : Type 0 where
  pub data_ref : List ℕ
  pub position : ℕ

abbrev pub Reader : Type 0 → Type 0 → Type 0
Reader E A = Cursor → Result E (A × Cursor)

abbrev pub continue :
    {E A B : Type 0} → Result E (A × Cursor) → (A → Reader E B) → Result E (B × Cursor)
continue (ok (a, c)) f = f a c
continue (err e) f = err e
continue panic f = panic
continue stuck f = stuck

infixl 5 ◌>>=◌ ◌>>◌
abbrev pub ◌>>=◌ : {E A B : Type 0} → Reader E A → (A → Reader E B) → Reader E B
◌>>=◌ m f c = continue (m c) f

abbrev pub ◌>>◌ : {E A B : Type 0} → Reader E A → Reader E B → Reader E B
m >> k = m >>= λ _. k

abbrev pub pure : {E A : Type 0} → A → Reader E A
pure a c = ok (a, c)

abbrev pub fail : {E A : Type 0} → E → Reader E A
fail e c = err e

-- The `map_err` of a read.
abbrev pub with_context : {E F A : Type 0} → (E → F) → Reader E A → Reader F A
with_context f m c = map_err f (m c)

abbrev pub tell : {E : Type 0} → Reader E ℕ
tell c = ok (c.position, c)

-- `Read::read_exact` into a buffer of `n` bytes.
unfoldable pub read_exact : ℕ → Reader IoError (List ℕ)
read_exact n c =
    if leb n (length c.data_ref - c.position)
    then ok (take n (drop c.position c.data_ref), record c { position = c.position + n })
    else err unexpected_eof

-- `Seek::seek` with `SeekFrom::Start`: a position past the end is allowed.
unfoldable pub seek_start : ℕ → Reader IoError (Unit {0})
seek_start n c = ok (tt, record c { position = n })

-- `SeekFrom::Current` of a number that is not negative, and of a negative one.
unfoldable pub seek_ahead : ℕ → Reader IoError (Unit {0})
seek_ahead n c = ok (tt, record c { position = c.position + n })

unfoldable pub seek_back : ℕ → Reader IoError (Unit {0})
seek_back n c =
    if ltb c.position n then err invalid_input else ok (tt, record c { position = c.position - n })
