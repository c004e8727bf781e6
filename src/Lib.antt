-- ===== src/Lib.antt =====
-- A model of the sample gRPC service: a Go server with a Greeter and an AuthService, and a React
-- site that calls it through an HTTP/JSON proxy. The site signs in with a Google ID token, gets a
-- session JWT, keeps it in localStorage and sends it as a bearer token; the server checks it in an
-- interceptor in front of the handlers, which work on a table of users.
--
-- The parts, their files here and the code:
--   Wire, Js, Partial: what all codecs of web/src/generated share. `decode_with` is the loop of a
--     `decode`, `on_case` a case of its switch, `write_string` and its kin a field of an `encode`,
--     `string_field`, `set_string` and their kin a property in `fromJSON` and `toJSON`. Wire/Codec
--     and Js/Codec are the interfaces through which a message uses the codecs of those in it;
--     Wire/Runs and Wire/Cases build them, a field at a time.
--   Proto: what the messages of web/src/generated/google/protobuf/descriptor.ts need besides: fields
--     that may be missing, integers, doubles, bytes, packed lists, values under either of two keys.
--   Auth, Greeter, GoogleApi: web/src/generated/auth.ts, greeter.ts and google/api/http.ts, a
--     module for each message with `create_base`, `encode`, `field` (the switch of `decode`),
--     `decode`, `from_json`, `to_json`, `from_partial` and `create`; under it RoundTrip and Json.
--     An HttpRule holds a list of itself, so it is a data type in a mutual block, of its plain
--     fields (HttpRule/Fields) and its bindings. Messages has the constants that implement
--     `MessageFns` as one family, by the type of their messages; HttpRule stands by itself.
--   Descriptor: the enums and the messages of web/src/generated/google/protobuf/descriptor.ts, a
--     module for each, with the operations named as above. Descriptor/Messages has the constants that
--     implement `MessageFns`, in the same way.
--   Frontend/Api: web/src/api/auth.ts. `build_request` is the first half of `request`, `receive`
--     the second.
--   Frontend/Session: web/src/auth/AuthContext.tsx and AuthBar.tsx. `Provider` is the state of
--     AuthProvider with the stored token and the calls in flight, `Step` an event of a page, `view`
--     what AuthBar renders. Frontend/Session/Refinement has the abstract session.
--   Frontend/Echo: web/src/App.tsx, in the same way; Frontend/Echo/Screen is what it renders.
--   Backend/Tokens, Backend/Jwk, Backend/Interceptor, Backend/Usernames,
--     Backend/Service: internal/auth.
--   Backend/Users: internal/db/db.go.
--   Backend/Greeter: main.go.
--   Tests: concrete instances of the parameters, with proofs of their laws, and the theorems at
--     concrete inputs.
--
-- What is not under the repository is a parameter with laws that state its documented behaviour:
--   `Wire` and `WireLaws`: BinaryWriter and BinaryReader of @bufbuild/protobuf. A writer is the
--     bytes since the last `fork` and those under each open fork; a read takes what was written.
--   `Runtime` and `RuntimeLaws`: a `Wire` with the methods for integers, doubles and bytes, and
--     `Number`, `Math.round`, `<`, `Buffer`, `atob` and `btoa` of the platform. A number is the text
--     that `String` gives for it; `is_int32` and its kin are the numbers that a method is meant for.
--   `Library` and `LibraryLaws`: golang-jwt. A token is parsed at a time, with a key for each kind
--     of signing method. The fetch of a key set is an argument.
--   `Orm` and `OrmLaws`: GORM over Postgres, one request at a time. A failed statement changes
--     nothing, and a found or created row is the stored one.
--   `fetch`, `res.json()` and the random numbers of the usernames are arguments.
--
-- Bounds and fuel: numbers are naturals; tags and lengths on the wire are below 2^32, which the
-- round trips ask of the whole encoding. A decode loop has as much fuel as bytes are left and
-- one: each round reads a tag, which takes a byte, so the fuel never ends (Wire/Loop); so does
-- the loop of a packed field, whose reads take a byte each. The ten attempts at a username are
-- those of the source.
--
-- JSON: a value is what JSON.parse makes, with a number as the text that String gives for it. The
-- fields of a JavaScript object are its own properties. A TypeError carries the text of V8, less the
-- name of the property.
--
-- Not modelled: the message DescriptorProto of descriptor.ts, which holds a list of itself, and
-- FileDescriptorProto and FileDescriptorSet, which hold it; generated Go code, the load test, the
-- logger, the opening of the database, the start of the server, markup and deployment.
pub mod Prelude
pub mod Wire
pub mod Js
pub mod Partial
pub mod Proto
pub mod Decimal
pub mod Auth
pub mod Greeter
pub mod GoogleApi
pub mod Messages
pub mod Descriptor
pub mod Frontend
pub mod Backend
pub mod Tests
