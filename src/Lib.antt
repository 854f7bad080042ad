-- ===== src/Lib.antt =====
-- A verification library for the app FirebaseLogin, an iOS program that logs a user in with
-- Facebook and Firebase and saves the user's clients in Firebase's database, and for two parts in C
-- that are compiled into it: nanopb, the Protocol Buffers runtime, and the base64 of the database's
-- web socket.
--
-- The parts, their files here and the code:
--
-- - App (FirebaseLogin/FirebaseLogin, Swift). App/Client is Model/UserModel.swift and
--   Resourses/Constants.swift: the record of a client, its dictionary and its decoder. App/Form is
--   View/Main: MainViewControllerViewModel.swift has the checks (`is_valid_data` and what it
--   calls), and App/Form/Page is MainViewController.swift, from the tap on the save button
--   (`save_button_tapped`) on. App/Login is View/Login with Service/ServiceLoginManager.swift: one
--   function for each callback, and App/Login/Reach has the steps that a run can take. App/Store is
--   Service/ServiceDataManager.swift over an interface for Firebase's database. The page keeps the
--   calls of `saveClient` in a list; their write is App/Store's `save_client`.
-- - Nanopb (FirebaseLogin/Pods/nanopb, C), as it is compiled there: PB_ENABLE_MALLOC,
--   PB_FIELD_32BIT, 64-bit numbers, error messages kept. Istream and Ostream are the streams of
--   pb_decode.c and pb_encode.c; Varint, Wire and Scalar the decoders and encoders that are built
--   on them, Blob the encoders of strings and byte arrays with the test of an allocation's size,
--   under the source's names; Field is pb_common.c and the descriptors of pb.h. Messages are read
--   from and written to Memory, bytes at addresses. Encode has tags, submessages, the table of
--   encoders and arrays, Presence the test of proto3 for default values, and Message the loop of
--   `pb_encode` with callbacks and extensions. Action has the table of decoders, which write to the
--   memory, those of strings and byte arrays in full, Defaults and Release the two passes over a
--   message's fields, and Decode the rest of pb_decode.c: Static, Pointer and Fields decode one
--   field, Message has the loop of `pb_decode_noinit` and Nested ties it to the submessages.
-- - Base64 (C) is fbase64.c of the folder SocketRocket, in
--   FirebaseLogin/Pods/FirebaseDatabase/FirebaseDatabase/Sources/third_party: `f_b64_ntop` and
--   `f_b64_pton` with a target, whose bytes they change and whose size their loops test.
-- - Base: numbers, lists, texts and tests that the others share.
--
-- How the code is modelled. A function that changes an object takes it and returns it. A call on an
-- input stream ends in `done` (true), `fail` (false), `fault` (a read outside of the buffer) or
-- `stuck` (the model's loop has no rounds left); one on an output stream in `done`, `fail` or
-- `overrun` (a write past a local array). Machine integers keep their wrap-around, `% 2 ^ w`. A
-- loop's rounds are eleven for `pb_decode_varint`, whose own test ends it there, the bytes that are
-- left for the loops that only the stream bounds, and the number of the fields for the iterator.
-- Functions that nest take the depth of the messages, and lists of extensions have `links` entries
-- at most; without rounds or depth a call ends in `stuck`. The loops of a message's decoding have
-- one round more than there are bytes, since each of their rounds takes a byte: a tag, an entry or,
-- by what is asked of the application's callbacks, what a callback reads. The modules named Ends
-- and Eats follow the decoder's parts with that argument, and those named Within, with
-- Decode/Layout for where the fields of a struct lie, follow them with what is written. The code of
-- a message's encoder is a record Code and that of its decoder a record Host: the tables of fields
-- by their addresses, the callbacks, the allocator, and where the local variable `fixed_count_size`
-- lies. A pointer has 64 bits, numbers lie in memory with their lowest byte first, and the structs
-- of callbacks and extensions have their members at the offsets of the platform's ABI. The system's
-- blocks and the SDKs' callbacks are lists of what is still to run.
--
-- Parameters: `realloc` and `free`, the callbacks and the handlers of extensions, the decoder of a
-- delimited message in `delimited`, the calendar's difference in years, the date formatter,
-- `capitalized`, the database, and what the SDKs answer.
--
-- Not modelled: `f_b64_pton` without a target; tables that a generator wrote; the SDKs and the
-- other libraries under Pods, which are other projects' copies; UIKit's glue, the animations, the
-- pictures, the text fields' filter and the log-out dialog.
pub mod Base
pub mod Nanopb
pub mod Base64
pub mod App
