-- ===== src/Binxml/Name/Forward.antt =====
-- The readers of names end, and only move forward: also the skip over a string in the stream.
use evtx.Base.{ℕ, ◌+◌, ◌*◌, ◌%◌, ◌^◌, List, ◌==◌, if◌then◌else◌, arith}
use evtx.Crates.{Crates}
use evtx.Cursor.{◌>>◌, pure}
use evtx.Cursor.Walks.{
  Walks, Walks-weaken, Walks-pure, Walks-bind, Walks-context, Walks-if, Walks-tell_bind,
}
use evtx.Error.{remove_me}
use evtx.Macros.Forward.{Walks-u16, Walks-u32, Walks-io_uint, Walks-try_seek}
use evtx.Binxml.Name.{link_data_size, read_name_link, skip_string, read_name_ref, read_name}
use evtx.Utils.Forward.{Walks-try_len_prefixed_nul}

module _ ⦃x : Crates⦄ (d : List ℕ) where
  pub Walks-name_link : (p : ℕ) → Walks d p 1 read_name_link
  unfolding read_name_link
  Walks-name_link p = Walks-bind d p 1 _ _ (Walks-u32 d p "<Unknown>") λ n.
      Walks-bind d _ 0 _ _ (Walks-weaken d _ _ (Walks-u16 d _ "name_hash")) λ h. Walks-pure d _ _

  Walks-skip_string : (p : ℕ) → Walks d p 0 (skip_string p)
  unfolding skip_string
  Walks-skip_string p = Walks-bind d p 0 _ _ (Walks-weaken d p _ (Walks-name_link p)) λ l.
      Walks-bind d _ 0 _ _
        (Walks-context d _ 0 remove_me _ (Walks-weaken d _ _ (Walks-io_uint d _ 1)))
        λ n. Walks-try_seek d _ (p + (link_data_size + n * 2 % 2 ^ 16 + 4)) (omega arith)

  pub Walks-name_ref : (p : ℕ) → Walks d p 1 read_name_ref
  unfolding read_name_ref
  Walks-name_ref p = Walks-bind d p 1 _ _ (Walks-u32 d p "name_offset") λ n.
      Walks-tell_bind d _ 0
        (λ q. do (if q == n then skip_string q else pure tt); pure (record { offset = n }))
        λ q h.
          Walks-bind d q 0 _ _
            (Walks-if d q 0 (q == n) _ _ (Walks-skip_string q) (Walks-pure d q tt))
            λ u. Walks-pure d _ (record { offset = n })

  pub Walks-name : (p : ℕ) → Walks d p 1 read_name
  unfolding read_name
  Walks-name p = Walks-bind d p 1 _ _ (Walks-try_len_prefixed_nul d p "name") λ n. Walks-pure d _ _
