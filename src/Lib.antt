-- ===== src/Lib.antt =====
-- A model of the evtx parser: the library that reads Windows event logs (`.evtx`) and gives their
-- records as JSON or XML, and its program evtx_dump.
--
-- A file is a header of 4096 bytes and chunks of 65536. A chunk has its own header, caches of names and of
-- templates, and records; a record is binary XML, a stream of tokens in which templates are filled
-- with values. `Parser` finds the chunks, `Chunk` reads one and iterates over its records, `Binxml`
-- turns the bytes of a record into tokens, `Assemble` expands the templates, makes a flat record model
-- and walks it with an output: `Json` and `XmlOutput` are such outputs. `Dump` is the program: it reads its
-- options, and prints the records that the parser gives.
--
-- Files, and the code that each is about:
--   Base, and below it       lists over native numbers, results, maps, decimals
--   Cursor, and below it     std::io::Cursor with its errors as values; readers that end and go forward
--                              (Walks), and readers against the bytes that they read (Reads)
--   Crates, Formats, Serde,  the third-party crates, as parameters with the laws of their documentation
--     QuickXml
--   Error, Error/Wrapped     src/err.rs: the enums, and the hexdump that an I/O error captures
--   Macros, Macros/Forward   src/macros.rs
--   Model/Raw, ValueType,    src/model/*.rs and the enums of src/binxml/value_variant.rs
--     Deserialized, Xml
--   Utils/Strings, Time,     src/utils/binxml_utils.rs, src/utils/time.rs, src/utils/hexdump.rs
--     Hexdump
--   Binxml/Name, Value,      src/binxml/name.rs, value_variant.rs, tokens.rs, deserializer.rs; the files
--     Tokens, Deserializer     Forward and Ends below them hold what is proved of their readers
--   Binxml/Format            the format that the readers of src/binxml read, described by how it is written
--   StringCache, TemplateCache  src/string_cache.rs, src/template_cache.rs
--   Chunk/Header, Data, RecordHeader, Records   src/evtx_chunk.rs, src/evtx_record.rs
--   FileHeader               src/evtx_file_header.rs
--   Output                   the trait BinXmlOutput of src/xml_output.rs
--   Assemble/Expand, RecordModel, Parse         src/binxml/assemble.rs
--   Convert/Text, ToJson     `as_cow_str` and `From<BinXmlValue> for serde_json::Value`
--   Json/Path, Insert, Visit src/json_output.rs
--   XmlOutput                src/xml_output.rs
--   Record                   into_output, into_json_value, into_json and into_xml of src/evtx_record.rs
--   Parser/Settings, Chunks, Serialized, Records  src/evtx_parser.rs
--   Dump/Ranges, Target, Print, Options         src/bin/evtx_dump.rs
--   Tests                    small stand-ins for the crates, and the theorems at concrete inputs
--
-- What is proved stands in files of its own, named for what they prove: Binxml/Deserializer/Forward and Ends,
-- Binxml/Tokens/Rounds, Binxml/Format/Loop and RoundTrip, Buckets (what both caches keep), StringCache/Entries and
-- Cycle, TemplateCache/Entries, Chunk/Ends and Checksums, Assemble/Flat, Filled, Fuel, Steps, Nesting, Forest, Counts
-- and Names, Json/Keys, Reach, Reach/Writes, Reach/Attributes and Slots, XmlOutput/Events and
-- Nested, Record/Balanced and Written, Parser/Search, Count, InOrder and Endless, Dump/Selected, Ranges/Accepted,
-- Ranges/RoundTrip, Options/Validated and Options/JsonLines, Utils/Hexdump/Columns and Total,
-- Error/Wrapped/Ahead, Model/Codes, Utils/Strings/RoundTrip. `Assemble/Nesting.Tracks` is the interface by which
-- an output shows that its state follows the open elements; Json/Keys fills it for the JSON output.
-- `Cursor/Reads.Reads` is the one by which a reader shows what it makes of the bytes at its place; the files below
-- Binxml/Format fill it, from numbers up to fragments.
--
-- Conventions. A fallible function gives a `Result`: `ok`, `err`, `panic` for a Rust panic (a slice out of
-- range, `expect`, an index that is missing) and `stuck` where the fuel of the model ran out. The
-- arithmetic is that of a release build: it wraps, and the wrap is written out (`% 2 ^ w`). A reader is a
-- function of a cursor; after an error no cursor is given. A `f32` or `f64` is its bit pattern. A `Cow`,
-- a clone and a reference are the value. A `&mut` into the JSON document is an update at its path.
--
-- Fuel. `read_binxml_fragment` has as much as the data has bytes, and two more, for its loop and for the
-- nesting of values: each token takes a byte. `find_next_chunk` has the chunks that fit the file, and
-- two more, which is enough for a file whose length fits a `u64`. The probe for a free key has the number of keys and one more. The walk over a bucket of
-- a cache has the bytes and one more; a bucket with a cycle runs out of it, where the source loops for ever.
-- A hexdump has a round for each 16 bytes, and two more. `expand_templates` and the record iterator take
-- theirs as an argument.
--
-- Not modelled: the tables by which clap parses the command line, the logger and log messages, the wording of
-- errors and the context that they capture (Error/Wrapped makes it, the errors of the model do not carry it),
-- opening files, and the threads of rayon (the batches of chunks are kept in order). The format of Binxml/Format
-- leaves out arrays, binary values, identifiers, times, SIDs and nested binary XML, which the readers model.
pub mod Base
pub mod Cursor
pub mod Crates
pub mod Error
pub mod Macros
pub mod Model
pub mod Utils
pub mod Binxml
pub mod Buckets
pub mod StringCache
pub mod TemplateCache
pub mod Chunk
pub mod FileHeader
pub mod Output
pub mod Assemble
pub mod Formats
pub mod Serde
pub mod Convert
pub mod Json
pub mod QuickXml
pub mod XmlOutput
pub mod Record
pub mod Parser
pub mod Dump
pub mod Tests
