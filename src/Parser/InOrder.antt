-- ===== src/Parser/InOrder.antt =====
-- `serialized_records` of src/evtx_parser.rs against the chunks of the file in their order, one by one.
use evtx.Base.{
  ℕ, zero, suc, ◌<◌, ◌≡◌, refl, sym, ap, subst, ◌∙◌, List, [], ◌∷◌, ◌++◌, append_assoc, map, Option,
  none, some, ltb, if◌then◌else◌, arith,
}
use mathlib.Core.List.{map-append}
use evtx.Base.Result.{Result, ok, err, panic, stuck, ◌>>=◌, >>=-ok}
use evtx.Crates.{Crates}
use evtx.Error.{EvtxError, ChunkError, failed_to_parse_chunk}
use evtx.Chunk.Data.{EvtxChunk, EvtxChunkData, new_chunk}
use evtx.Chunk.Records.{EvtxRecord}
use evtx.Parser.Chunks.{EvtxParser, Found, end, found, find_next_chunk, after_find, next_chunk}
use evtx.Parser.Serialized.{
  Item, Items, and_then, parsed, chunk_items, batch_items, push_some, take_chunks, after_batch,
  serialized_records,
}

module _ ⦃x : Crates⦄ where
  -- The calls of the iterator from one chunk number to another, with the chunks that they give.
  pub data Yields (parser : EvtxParser)
      : ℕ → List (Result EvtxError EvtxChunkData) → ℕ → Type 0 where
    none_yet : (current : ℕ) → Yields parser current [] current
    one_more :
        {current next last : ℕ} {chunk : Result EvtxError EvtxChunkData}
        {chunks : List (Result EvtxError EvtxChunkData)}
        → next_chunk parser current ≡ (next, some chunk)
        → Yields parser next chunks last
        → Yields parser current (chunk ∷ chunks) last

  Yields-append :
      {parser : EvtxParser} {current between last : ℕ}
      {xs ys : List (Result EvtxError EvtxChunkData)}
      → Yields parser current xs between
      → Yields parser between ys last
      → Yields parser current (xs ++ ys) last
  Yields-append (none_yet current) h = h
  Yields-append (one_more e k) h = one_more e (Yields-append k h)

  -- At the end the number stays.
  after_find-none :
      (current : ℕ) (o : Found)
      → (after_find current o).1 ≡ none
      → (after_find current o).0 ≡ current
  after_find-none current end h = refl
  after_find-none current (found chunk chunk_number) h = ground arith

  next_chunk-none :
      (parser : EvtxParser) (current : ℕ)
      → (next_chunk parser current).1 ≡ none
      → (next_chunk parser current).0 ≡ current
  unfolding next_chunk
  next_chunk-none parser current h = after_find-none current (find_next_chunk parser current) h

  abbrev Taken : EvtxParser → ℕ → ℕ × List (Result EvtxError EvtxChunkData) → Type 0
  Taken parser current taken = Yields parser current taken.1 taken.0

  push_some-Yields :
      (parser : EvtxParser) (current : ℕ) (item : ℕ × Option (Result EvtxError EvtxChunkData))
      (rest : ℕ × List (Result EvtxError EvtxChunkData))
      → next_chunk parser current ≡ item
      → (item.1 ≡ none → item.0 ≡ current)
      → Taken parser item.0 rest
      → Taken parser current (push_some item.1 rest)
  push_some-Yields parser current (next, none) rest e stays h =
      subst (λ n. Yields parser n rest.1 rest.0) (stays refl) h
  push_some-Yields parser current (next, some chunk) (last, chunks) e stays h = one_more e h

  take_chunks-Yields :
      (n : ℕ) (parser : EvtxParser) (current : ℕ)
      → Taken parser current (take_chunks n parser current)
  unfolding take_chunks
  take_chunks-Yields zero parser current = none_yet current
  take_chunks-Yields (suc n) parser current =
      push_some-Yields parser current (next_chunk parser current)
        (take_chunks n parser (next_chunk parser current).0) refl (next_chunk-none parser current)
        (take_chunks-Yields n parser (next_chunk parser current).0)

  -- A batch is empty only at the end.
  push_some-empty :
      (item : Option (Result EvtxError EvtxChunkData))
      (rest : ℕ × List (Result EvtxError EvtxChunkData))
      → (push_some item rest).1 ≡ []
      → item ≡ none
  push_some-empty none rest h = refl
  push_some-empty (some chunk) (last, chunks) h = absurd cc

  take_chunks-empty :
      (n : ℕ) (parser : EvtxParser) (current : ℕ)
      → (take_chunks (suc n) parser current).1 ≡ []
      → (next_chunk parser current).1 ≡ none
  unfolding take_chunks
  take_chunks-empty n parser current h =
      push_some-empty (next_chunk parser current).1
        (take_chunks n parser (next_chunk parser current).0) h

module _ ⦃x : Crates⦄ {U : Type 0} where
  -- An error without the number that a chunk has in its batch.
  abbrev pub forget : Item U → Item U
  forget (err (failed_to_parse_chunk i e)) = err (failed_to_parse_chunk 0 e)
  forget item = item

  abbrev pub Same : List (Item U) → List (Item U) → Type 0
  Same xs ys = map forget xs ≡ map forget ys

  Same-append :
      (xs xs' ys ys' : List (Item U)) → Same xs xs' → Same ys ys' → Same (xs ++ ys) (xs' ++ ys')
  Same-append xs xs' ys ys' h k =
      map-append forget xs ys
      ∙ (ap (λ zs. zs ++ map forget ys) h
          ∙ (ap (λ zs. map forget xs' ++ zs) k ∙ sym (map-append forget xs' ys')))

module _ ⦃x : Crates⦄ {U : Type 0} (f : EvtxChunk → Result EvtxError EvtxRecord → Item U) (fuel : ℕ)
    (ansi_codec : x.Codec) where
  -- The items of all chunks, one chunk at a time.
  unfoldable pub in_order : List (Result EvtxError EvtxChunkData) → Items U
  in_order [] = ok []
  in_order (chunk ∷ chunks) =
      chunk_items f fuel ansi_codec 0 chunk >>= λ items. and_then items (in_order chunks)

  -- The same items as those, up to the numbers in a batch.
  abbrev pub Ordered : List (Result EvtxError EvtxChunkData) → List (Item U) → Type 0
  Ordered chunks items =
      (singles : List (Item U)) × (in_order chunks ≡ ok singles) × Same items singles

  parsed-Same :
      (i : ℕ) (r : Result ChunkError EvtxChunk) (items : List (Item U))
      → parsed f fuel ansi_codec i r ≡ ok items
      → (singles : List (Item U)) × (parsed f fuel ansi_codec 0 r ≡ ok singles) × Same items singles
  parsed-Same i (ok chunk) items h = (items, h, refl)
  parsed-Same i (err e) items h =
      let g : err (failed_to_parse_chunk i e) ∷ [] ≡ items = cc in
      (err (failed_to_parse_chunk 0 e) ∷ [], refl, ap (map forget) (sym g))
  parsed-Same i panic items h = absurd cc
  parsed-Same i stuck items h = absurd cc

  chunk_items-Same :
      (i : ℕ) (chunk : Result EvtxError EvtxChunkData) (items : List (Item U))
      → chunk_items f fuel ansi_codec i chunk ≡ ok items
      → (singles : List (Item U)) × (chunk_items f fuel ansi_codec 0 chunk ≡ ok singles)
        × Same items singles
  chunk_items-Same i (ok chunk) items h =
      parsed-Same i (new_chunk chunk.bytes chunk.header ansi_codec) items h
  chunk_items-Same i (err e) items h = (items, h, refl)
  chunk_items-Same i panic items h = absurd cc
  chunk_items-Same i stuck items h = absurd cc

  and_then-ok :
      (items all : List (Item U)) (more : Items U)
      → and_then items more ≡ ok all
      → (rest : List (Item U)) × (more ≡ ok rest) × (items ++ rest ≡ all)
  and_then-ok items all more h =
      let (rest, e, k) = >>=-ok more (λ r. ok (items ++ r)) all h in (rest, e, cc)

  batch_items-Ordered :
      (i : ℕ) (chunks : List (Result EvtxError EvtxChunkData)) (items : List (Item U))
      → batch_items f fuel ansi_codec i chunks ≡ ok items
      → Ordered chunks items
  unfolding batch_items in_order
  batch_items-Ordered i [] items h = let g : [] ≡ items = cc in ([], refl, ap (map forget) (sym g))
  batch_items-Ordered i (chunk ∷ chunks) items h =
      let (one, e, k) =
        >>=-ok (chunk_items f fuel ansi_codec i chunk)
          (λ z. and_then z (batch_items f fuel ansi_codec (suc i) chunks)) items h in
      let (rest, l, joined) =
        and_then-ok one items (batch_items f fuel ansi_codec (suc i) chunks) k in
      let (single, e', same) = chunk_items-Same i chunk one e in
      let (singles, l', sames) = batch_items-Ordered (suc i) chunks rest l in
      (
        single ++ singles,
        rw (e', l') refl,
        rw (← joined) (Same-append one single rest singles same sames),
      )

  in_order-append :
      (xs ys : List (Result EvtxError EvtxChunkData)) (items items' : List (Item U))
      → in_order xs ≡ ok items
      → in_order ys ≡ ok items'
      → in_order (xs ++ ys) ≡ ok (items ++ items')
  unfolding in_order
  in_order-append [] ys items items' h k =
      let g : [] ≡ items = cc in k ∙ ap (λ zs. ok (zs ++ items')) g
  in_order-append (chunk ∷ xs) ys items items' h k =
      let (one, e, l) =
        >>=-ok (chunk_items f fuel ansi_codec 0 chunk) (λ z. and_then z (in_order xs)) items h in
      let (rest, g, joined) = and_then-ok one items (in_order xs) l in
      rw (e, in_order-append xs ys rest items' g k)
        (ap ok (sym (append_assoc one rest items')) ∙ ap (λ zs. ok (zs ++ items')) joined)

  Ordered-append :
      (xs ys : List (Result EvtxError EvtxChunkData)) (items items' : List (Item U))
      → Ordered xs items
      → Ordered ys items'
      → Ordered (xs ++ ys) (items ++ items')
  Ordered-append xs ys items items' (singles, e, same) (singles', e', same') = (
    singles ++ singles',
    in_order-append xs ys singles singles' e e',
    Same-append items singles items' singles' same same',
  )

  -- All chunks from a number on, to the end.
  abbrev pub AllOrdered : EvtxParser → ℕ → List (Item U) → Type 0
  AllOrdered parser current items =
      (chunks : List (Result EvtxError EvtxChunkData)) × (last : ℕ) × Yields parser current chunks
        last
      × ((next_chunk parser last).1 ≡ none)
      × Ordered chunks items

  after_batch-AllOrdered :
      (parser : EvtxParser) (current : ℕ) (more : ℕ → Items U)
      (taken : ℕ × List (Result EvtxError EvtxChunkData)) (items : List (Item U))
      → Taken parser current taken
      → (taken.1 ≡ [] → (next_chunk parser current).1 ≡ none)
      → ((next : ℕ) (rest : List (Item U)) → more next ≡ ok rest → AllOrdered parser next rest)
      → after_batch (batch_items f fuel ansi_codec 0) more taken ≡ ok items
      → AllOrdered parser current items
  unfolding in_order
  after_batch-AllOrdered parser current more (next, []) items t ends ih h =
      let g : [] ≡ items = cc in
      ([], current, none_yet current, ends refl, ([], refl, ap (map forget) (sym g)))
  after_batch-AllOrdered parser current more (next, chunk ∷ chunks) items t ends ih h =
      let (batch, e, k) =
        >>=-ok (batch_items f fuel ansi_codec 0 (chunk ∷ chunks)) (λ b. and_then b (more next))
          items h in
      let (rest, l, joined) = and_then-ok batch items (more next) k in
      let (others, last, yields, ended, ordered) = ih next rest l in
      (
        chunk ∷ (chunks ++ others),
        last,
        Yields-append t yields,
        ended,
        subst (Ordered (chunk ∷ (chunks ++ others))) joined (
            Ordered-append (chunk ∷ chunks) others batch rest
              (batch_items-Ordered 0 (chunk ∷ chunks) batch e) ordered),
      )

  take_batch-empty :
      (n : ℕ) (parser : EvtxParser) (current : ℕ)
      → 0 < n
      → (take_chunks n parser current).1 ≡ []
      → (next_chunk parser current).1 ≡ none
  take_batch-empty zero parser current h e = absurd (omega arith)
  take_batch-empty (suc n) parser current h e = take_chunks-empty n parser current e

-- Whatever the number of threads, where the records of a file are serialized from a chunk number on, the
-- items are those of all the chunks that the iterator gives from there to its end, each chunk once and in
-- order, as if the chunks were taken one by one; only the number that an error of a chunk carries, its
-- place in a batch, depends on the number of threads.
pub serialized_records-in_order :
    ⦃x : Crates⦄ {U : Type 0} (f : EvtxChunk → Result EvtxError EvtxRecord → Item U)
    (records_fuel : ℕ) (ansi_codec : x.Codec) (num_threads fuel : ℕ) (parser : EvtxParser)
    (current : ℕ) (items : List (Item U))
    → serialized_records f records_fuel ansi_codec num_threads fuel parser current ≡ ok items
    → AllOrdered f records_fuel ansi_codec parser current items
unfolding serialized_records
serialized_records-in_order f records_fuel ansi_codec num_threads zero parser current items h =
    absurd cc
serialized_records-in_order f records_fuel ansi_codec num_threads (suc fuel) parser current items
      h =
    let n : ℕ = if ltb num_threads 1 then 1 else num_threads in
    after_batch-AllOrdered f records_fuel ansi_codec parser current
      (serialized_records f records_fuel ansi_codec num_threads fuel parser)
      (take_chunks n parser current) items (take_chunks-Yields n parser current)
      (take_batch-empty f records_fuel ansi_codec n parser current (ground arith))
      (λ next rest k.
        serialized_records-in_order f records_fuel ansi_codec num_threads fuel parser next rest k)
      h
