-- ===== src/Lib.antt =====
-- net-wire-rs parses and builds network packets and keeps the small protocol states that go with
-- them, in storage that the caller owns. This library models its integer codecs, its header
-- compression tables, its frames and its stream states.
--
-- Parts and files:
--   Common.antt, Common/ - lists, tests and bits over the native numbers, Rust's Result and the
--     checked operations of u64 and usize; `|` and `&` of the code as arithmetic.
--   Quic/Varint.antt - src/quic/varint.rs: QuicVarInt::parse, QuicVarIntBuilder::build.
--     Varint/Bytes, Build, Parse and RoundTrip hold the proofs.
--   Hpack/Integer.antt - src/http2/hpack/integer.rs: HpackInteger::parse and
--     HpackIntegerBuilder::build. Integer/Written, Parsed, RoundTrip and Bounds hold the proofs.
--   Packed.antt - the stores that both dynamic tables use: bytes packed newest first and slots
--     that locate them, as src/http2/hpack/table.rs and src/qpack/table/dynamic.rs write the
--     same lines. Packed/Evict, Layout, Fields, Insert, Store and Push hold the proofs, and the
--     two tables use these.
--   Hpack/Table.antt - src/http2/hpack/table.rs: HpackDynamicTable. Table/Sound and Lookup have
--     the theorems of each operation, Table/Spec the abstract list of fields that the table
--     refines.
--   Qpack/Table.antt - src/qpack/table/dynamic.rs: QpackDynamicTable. Table/Sound and Insertion
--     have the theorems of each operation, Table/Index those of the indexes, Table/Evicting what
--     an insertion means for the indexes.
--   Qpack/Blocked.antt - src/qpack/state/blocked.rs: QpackBlockedStreams. Blocked/Scan has the
--     loops over the records, Blocked/Sound, Removal and Query the theorems.
--   Http3/Frame.antt - src/http3/frame/envelope.rs: Http3Frame::parse and
--     Http3FrameBuilder::build, over the integers of Quic/Varint.antt. Frame/RoundTrip holds the
--     proofs.
--   Http3/Payload.antt - the from_frame of the typed frames in src/http3/frame, which the two
--     stream states call, and the frame types of src/http3/codepoints.rs.
--   Http3/Message.antt - src/http3/stream/message.rs: Http3MessageStreamState. Message/Grammar
--     and Complete compare whole streams with the grammar of messages.
--   Http3/Control.antt - src/http3/stream/control.rs: Http3ControlStreamState, over a record of
--     the operations it takes from src/http3/settings.rs. Control/Order, Accepted and Started
--     have the theorems on histories.
--   Qpack/Integer.antt - src/qpack/integer.rs: QpackInteger::parse, QpackIntegerBuilder::build.
--     Integer/Same compares the parser with the HPACK one, Integer/RoundTrip is on parser and
--     builder.
--   Qpack/Instruction.antt - src/qpack/stream/decoder.rs and decoder/builder.rs: the
--     instructions that a decoder sends. Instruction/Sequence, RoundTrip and Written hold the
--     proofs.
--   Qpack/Encoder.antt - src/qpack/state/encoder.rs: QpackEncoderState. Encoder/Spec is its
--     specification on a list of outstanding sections, Encoder/Represents says how the packed
--     stores hold that list, Encoder/Removal, Refines, Blocking, Registration and Sequence
--     compare each operation with the specification, Encoder/Limit and History are on histories
--     of calls, Encoder/Protection on the table that asks the state before it evicts.
--   Qpack/Decoder.antt - src/qpack/state/decoder.rs: QpackDecoderState. Decoder/Agreement joins
--     it with the encoder's state through the bytes of the instructions.
--   Http3/Settings.antt - src/http3/settings.rs: Http3Settings::from_frame, settings and
--     validate_semantics. Settings/Layout and Validation hold the proofs, Settings/Stream gives
--     them to the control stream. Settings/Builder is the Http3SettingsBuilder, with
--     Builder/Written, Received, RoundTrip and Outcome on what it writes and refuses.
--   Http3/Payload/Builder.antt - the builders of src/http3/frame/goaway.rs, push.rs, headers.rs
--     and data.rs but that of PUSH_PROMISE. Builder/RoundTrip joins the first three with their
--     readers.
--   Tests.antt, Tests/ - runs on small inputs.
--
-- How code becomes definitions: a byte slice is a list of numbers, and a view that borrows bytes
-- carries the list of them. A call that changes an object returns the new object beside its
-- result. Rust's Result is Common.Result.Result. In the tables and their stores `none` is a panic:
-- an index or a range out of bounds, or a subtraction below 0. u64 and usize have 64 bits, and the
-- checked operations are written out with 2 ^ 64. Slot offsets are sums that stay below the store's
-- length, so the plain additions on them are not reduced. The closure `evictable` of the QPACK table
-- is a function from indexes to answers, since it is asked at most once for an index in a call.
--
-- Loops are structural recursion on the list or the count that they run down; the writing loops of
-- the integers recur on the accessibility of `<`. Three loops take fuel, and none stands for its end
-- too: the validation of a sequence of instructions and the loop that applies it take one round more
-- than the input has bytes, since every instruction takes a byte, and a Stream Cancellation takes as
-- many rounds as there are sections. The theorems on these calls show that the fuel suffices.
--
-- Not modelled: text output (Display), the static tables, Huffman coding, and the packet formats
-- and protocol layers that no file above names.
pub mod Common
pub mod Hpack
pub mod Http3
pub mod Packed
pub mod Qpack
pub mod Quic
pub mod Tests
