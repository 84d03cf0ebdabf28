-- ===== src/Lib.antt =====
-- A model of the crate bambu, a client for 3D printers, and proofs about it. The crate has three
-- parts that share nothing but TLS set-up, and a server among its examples. The camera's stream
-- (src/camera.rs) is a TLS connection read and written through a codec. The file client
-- (src/file.rs) lists a directory over FTPS: a conversation of requests and replies, with a codec
-- for its lines and a parser for the lines of a listing. The message channel (src/mqtt.rs)
-- publishes commands over MQTT and matches the messages that come back to the calls that await
-- them.
--
-- Files:
--   Tls models the two certificate verifiers, src/tls.rs and RumqttcNoVerifier of src/mqtt.rs.
--   Framed is what tokio's `Framed` does with a decoder on a stream that comes in pieces:
--     `Receives` reads piece by piece, `Drains` has all bytes in one buffer.
--   Camera/Client models src/camera.rs.
--   Camera/Codec models src/camera/codec.rs. A decoder over `&mut BytesMut` is a function from the
--     bytes in the buffer to an outcome and the bytes left; `decode_jpeg_packet`,
--     `decode_auth_packet`, `decode` and `encode` keep their names.
--   Ftp/Request, Ftp/Response and Ftp/Codec model src/file/ftp/codec.rs, with the variants of the
--     two enums as constructors, `to_command_string`, `from_response_string` (its arm for 227 is
--     `parse_passive`), `encode` and `decode`.
--   Ftp/Metadata models src/file/ftp/metadata.rs, and Ftp/Client src/file/ftp.rs and src/file.rs.
--     The state of the client has the replies that are still to come and the requests that were
--     sent; `pwd` and `quit` of the source are `print_directory` and `close`, and `get_files` is
--     `connect` followed by `session`. Ftp/Connect has `connect_insecure`, and makes of it the
--     network that Ftp/Client is given.
--   Mqtt/Command and Mqtt/Message model src/mqtt/command.rs, src/mqtt/message.rs and the files
--     below them. Mqtt/Client (with Mqtt/Client/State) models the client and the task of
--     src/mqtt.rs as one state: the map of inflight commands, the oneshot channels, the caller,
--     the task, and what was published and answered; a task that ran when `start` was called again
--     is one of the older tasks. An action is a call, a poll of the event loop, or the caller's
--     own poll, and an interleaving is a list of actions. Mqtt/Methods has the public methods that
--     send a command: what they begin with, up to the wait (`ask`, `call`), and what they make of the
--     answer (`finish`). Mqtt/Service is the client as its caller sees it, with a step for each action.
--   Serde is what the crates serde and serde_json are to the code: trees of JSON, the shape that the
--     attributes of a type give to its values, and the writer that `derive(Serialize)` makes, as a
--     parameter with its documentation as hypotheses; Serde/Reference is a concrete writer that
--     meets them. Mqtt/Attributes has the attributes of the types of src/mqtt/command.rs,
--     src/mqtt/message.rs and the files below them, a function for each type. Mqtt/Printer is an
--     independent description, in the other direction: how a printer reads a command. Mqtt/Reading
--     has what `derive(Deserialize)` reads, as a hypothesis on a parameter.
--   Examples models examples/mjpeg_stream.rs: Config has `Config::from_env`, and Mjpeg the body of
--     a response (`mjpeg_stream`), the task that reads the camera, and a connection, as one state
--     with an action for each step of the task or of the connection that other steps can come
--     between, among them that the client disconnects. One connection is followed; of the others the
--     state has how many hold the lock on the last frame; Watch has `main` of examples/mqtt_client.rs.
--   Prelude, Outcome, Exec and Text hold what the parts share: bytes and lists, results with
--     errors and panics, a state monad, and the parts of Rust's standard library that the code
--     uses (slices, UTF-8, decimal numbers, `split`, `splitn`, `split_whitespace`,
--     `trim_end_matches`).
--   Crates has the calls of the crates memchr and bytes as a record, and their documented
--     behaviour as hypotheses; Crates/Reference is a concrete instance that meets them.
--   Camera/UnitTests, Ftp/UnitTests, Mqtt/CommandTests and Mqtt/MessageTests are the unit tests of
--     the crate, each as a definition under its own name, of what the test asserts for given crates.
--   The other files hold the proofs, each named for what it is about; the modules whose names end in
--     Tests or Runs hold runs on concrete inputs.
--
-- Numbers and text: bytes and integers are natural numbers. The 16-bit arithmetic of a port and
-- the 64-bit counter of the sequence ids have their bound and their wrap-around written out, with
-- a flag for builds that check for overflow. Text is its UTF-8 bytes. All recursion is structural,
-- or by fuel: as many rounds as a text has bytes where a character is taken off its front, which
-- is enough because every character has at least one byte, and as many rounds as the number where
-- its decimal digits are printed, which is enough because a tenth of it is smaller.
--
-- Not modelled: sockets, rustls and the set-up of its configuration other than the verifier, the
-- routes and the page of examples/mjpeg_stream.rs, what is printed, the code that serde derives, and
-- dates (the crate chrono). The network, the handshake, the check of an image's header, the JSON
-- coding and the calendar are parameters. The broadcast channel of examples/mjpeg_stream.rs is the
-- list of what was sent to it, of which a connection receives what was sent since it subscribed, and
-- then an error, if it falls behind.
pub mod Prelude
pub mod Outcome
pub mod Exec
pub mod Crates
pub mod Text
pub mod Tls
pub mod Framed
pub mod Camera
pub mod Ftp
pub mod Mqtt
pub mod Examples
pub mod Serde
