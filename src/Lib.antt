-- ===== src/Lib.antt =====
-- A model of the messages that tilbo's daemon, its command line and its browser exchange, as the
-- JavaScript of this repository implements them: internal/ipc/gen/ipc_generated.js, made from
-- proto/tilbo/ipc/v1/ipc.proto, and its bundle internal/quickshell/services/qml_ipc.mjs, which holds
-- the same functions behind a copy of protobuf.js.
--
-- The program. Every exchange is an Envelope with an id and a payload: a Request with one of 40
-- kinds, a Response with one of 40, or an Event with one of four; each kind is a message of its own.
-- A message class has `encode`, which walks the properties that are set and calls a Writer, and
-- `decode`, a loop over the fields of a buffer with a switch on the field's number, which calls a
-- Reader and, for a nested message, the `decode` of its class. It also has `verify`, which tests the
-- properties of any value by name and type and counts the members of a oneof, and `toObject`, which
-- copies a message to a plain object.
--
-- The files.
-- Prelude: the shared names, Boolean tests, lists measured by native numbers, signed integers.
-- Runtime: the boundary with protobuf.js. `Runtime` has the calls that the generated code makes
--   (`Writer.create`, `uint32`, `string`, `fork`, `ldelim`, `finish`, `Reader.create`, `reader.pos`,
--   `reader.string()`, `skipType` and so on) with no body; Runtime.Laws states their documented
--   behaviour as hypotheses, `Laws` for what is written and read back and `Progress` for reads that
--   move forward or throw; Runtime.Sample has a runtime that meets both.
-- Codec: the shapes that every `encode` and `decode` is made of, each a function that the messages
--   use: `own` and `each` for the guarded writes, `write_entry` and `read_entry` for map fields,
--   `put_key` for `object[key] = value`, `read_fields` and `decode_with` for the loop of `decode`,
--   `sub_message` for `T.decode(reader, reader.uint32())`. Codec.Fields, Codec.Carries, Codec.Parts,
--   Codec.Scalars and Codec.Messages have the lemmas on which round trips rest, Codec.Ends those on
--   termination and Codec.Returns those on what a returned message looks like.
-- Ipc: a module for each message class, with the class's name. In it the record is the message: a
--   singular property is an Option (an own property that is not null, or none), a repeated field is
--   a list, and a map field is the list of its entries. `encode` is the class's `encode`,
--   `decode_field` the switch of its `decode`, `decode` the whole of it, and `encode_delimited` and
--   `decode_delimited` are the length-delimited forms, modelled for Envelope, Request and Response.
--   Request and Response have child modules for the message, `encode` and `decode`. Names are those
--   of the source in snake case, as `fts_query` for `ftsQuery`. Ipc.Bare stands for
--   the classes that have no field.
-- Wire: the theorems about encoded messages, and in Wire.Examples runs of them.
-- Values: JavaScript values and what every `verify` is made of: `own_value` for `message.f != null &&
--   message.hasOwnProperty("f")`, `expects_string` and its like for the tests of a property,
--   `verify_oneof` for the members of a oneof with the flag `properties.kind`. `Util` has the tests
--   that protobuf.js makes, with no body, and `Documented` what is assumed of them. Values.Slots has
--   what `toObject` is made of; the other modules have the lemmas on when a test accepts a value.
-- Verify: a module for each message class with its `verify`, which takes any value, and its
--   `toObject` without options, `to_object`. `IsRegular` has conditions on a message. Request.Kinds and
--   Response.Kinds list the kinds and their classes once more, by themselves. In Verify.Oneofs are the
--   theorems and in Verify.Examples runs of them.
--
-- How the model reads the source. A call that mutates the writer or the reader returns the writer or
-- the reader after it. An exception is `throws` with its message. The loop of `decode` has fuel, one
-- more than the number of bytes before its end; each round reads a tag of at least one byte, so the
-- fuel is enough. `tag >>> 3` is `tag / 8` and `tag & 7` is `tag % 8`. An integer property is the
-- integer that it denotes, also where the runtime hands over a Long; a property of type float or
-- double is the bit pattern of its number. A text is a sequence of Unicode scalar values, so lone
-- surrogates are left out. An error that `verify` returns is the text, and null is none.
--
-- What is not modelled: protobuf.js itself; `create`, `fromObject`, `toJSON` and `getTypeUrl` of the
-- classes, the options of `toObject`, and the virtual getters and setters of the oneofs; functions,
-- symbols and bigints among the values, objects with a property called `hasOwnProperty`, and objects
-- without a prototype, on which `verify` throws; the order in which an engine lists keys that look like array indices; the QML of the browser; the
-- daemon, which is written in Go.
pub mod Prelude
pub mod Runtime
pub mod Codec
pub mod Ipc
pub mod Values
pub mod Verify
pub mod Wire
