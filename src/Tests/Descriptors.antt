-- ===== src/Tests/Descriptors.antt =====
-- The messages of web/src/generated/google/protobuf/descriptor.ts at concrete values.
use sample_grpc_service.Prelude.{◌≡◌, refl, false, some, none, [], ◌∷◌, arith, length}
use sample_grpc_service.Prelude.Outcome.{ok}
use sample_grpc_service.Wire.{new_reader, new_writer}
use sample_grpc_service.Wire.Carries.{at}
use sample_grpc_service.Wire.Loop.{Ends}
use sample_grpc_service.Wire.Writes.{field_messages, field_message}
use sample_grpc_service.Proto.{In}
use sample_grpc_service.Proto.Packed.{bytes_packed}
use sample_grpc_service.Proto.Runs.{bytes_or, bytes_each}
use sample_grpc_service.Tests.SampleWire.{num, chr, sample_wire}
use sample_grpc_service.Tests.SampleRuntime.{sample_runtime, sample_runtime_laws}
use sample_grpc_service.Descriptor.SourceCodeInfo
use sample_grpc_service.Descriptor.SourceCodeInfo.{SourceCodeInfo}
use sample_grpc_service.Descriptor.SourceCodeInfoLocation
use sample_grpc_service.Descriptor.SourceCodeInfoLocation.{SourceCodeInfoLocation}
use sample_grpc_service.Descriptor.UninterpretedOption.{UninterpretedOption}
use sample_grpc_service.Descriptor.MethodDescriptorProto.{MethodDescriptorProto}
use sample_grpc_service.Descriptor.ServiceDescriptorProto.{ServiceDescriptorProto}
use sample_grpc_service.Descriptor.Messages.{
  message_fns, fill, source_code_info, uninterpreted_option, service_descriptor_proto,
}
use sample_grpc_service.Descriptor.Messages.RoundTrip.{
  bytes, descriptor_decode-encode, descriptor_decode-Ends,
}
use sample_grpc_service.Descriptor.Messages.Json.{
  whole, descriptor_from_json-to_json, descriptor_from_partial-whole,
}

abbrev comment : SourceCodeInfoLocation
comment = record {
  path = "4" ∷ "0" ∷ [];
  span = "7" ∷ "0" ∷ "12" ∷ [];
  leading_comments = some "a user";
  trailing_comments = none;
  leading_detached_comments = "first" ∷ "second" ∷ [];
}

abbrev comments : SourceCodeInfo
comments = record { location = comment ∷ [] }

descriptor_decode-encode_example :
    (message_fns sample_runtime source_code_info).decode
      (new_reader (
        sample_runtime.wire.finish
          ((message_fns sample_runtime source_code_info).encode comments new_writer)))
      none
    ≡ ok (
      fill source_code_info comments,
      at (length (bytes sample_runtime source_code_info comments)) [],
    )
unfolding sample_wire sample_runtime SourceCodeInfo.bytes SourceCodeInfoLocation.bytes
    field_messages field_message bytes_packed bytes_or bytes_each
descriptor_decode-encode_example =
    descriptor_decode-encode sample_runtime sample_runtime_laws source_code_info comments
      (((refl, (refl, tt)), (refl, (refl, (refl, tt)))), tt) (omega arith)

abbrev garbage : In sample_runtime
unfolding sample_wire sample_runtime
garbage = new_reader (num 18 ∷ num 3 ∷ chr "a" ∷ num 200 ∷ [])

descriptor_decode-Ends_example :
    Ends
      (length garbage.rest)
      ((message_fns sample_runtime uninterpreted_option).decode garbage none)
descriptor_decode-Ends_example =
    descriptor_decode-Ends sample_runtime sample_runtime_laws uninterpreted_option garbage none

abbrev option_left : UninterpretedOption
option_left = record {
  name = record { name_part = "java_package"; is_extension = false } ∷ [];
  identifier_value = none;
  positive_int_value = some "12";
  negative_int_value = some "-3";
  double_value = some "0.5";
  string_value = some (104 ∷ 105 ∷ []);
  aggregate_value = some "";
}

descriptor_from_json-to_json_example :
    (message_fns sample_runtime uninterpreted_option).from_json
      ((message_fns sample_runtime uninterpreted_option).to_json option_left)
    ≡ ok (fill uninterpreted_option option_left)
unfolding sample_runtime
descriptor_from_json-to_json_example =
    descriptor_from_json-to_json sample_runtime sample_runtime_laws uninterpreted_option option_left
      ((tt, tt), refl, refl, refl, refl)

abbrev echo_method : MethodDescriptorProto
echo_method = record {
  name = some "Echo";
  input_type = some ".greeter.EchoRequest";
  output_type = some ".greeter.EchoReply";
  options = none;
  client_streaming = none;
  server_streaming = some false;
}

abbrev greeter_service : ServiceDescriptorProto
greeter_service = record { name = some "Greeter"; method = echo_method ∷ []; options = none }

descriptor_from_partial-whole_example :
    (message_fns sample_runtime service_descriptor_proto).from_partial
      (whole service_descriptor_proto greeter_service)
    ≡ fill service_descriptor_proto greeter_service
descriptor_from_partial-whole_example =
    descriptor_from_partial-whole sample_runtime service_descriptor_proto greeter_service
