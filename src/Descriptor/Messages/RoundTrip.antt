-- ===== src/Descriptor/Messages/RoundTrip.antt =====
-- The bytes of the messages of web/src/generated/google/protobuf/descriptor.ts.
use sample_grpc_service.Prelude.{ℕ, ◌^◌, ◌<◌, ◌≡◌, Option, none, [], length}
use sample_grpc_service.Prelude.Outcome.{ok}
use sample_grpc_service.Wire.{new_reader, new_writer}
use sample_grpc_service.Wire.Carries.{at}
use sample_grpc_service.Wire.Loop.{Ends}
use sample_grpc_service.Wire.Codec.{decode_encoded}
use sample_grpc_service.Proto.{Runtime, Bytes, In}
use sample_grpc_service.Proto.Laws.{RuntimeLaws}
use sample_grpc_service.Proto.Kept.{numbered}
use sample_grpc_service.Descriptor.Messages.{
  MessageType, Message, message_fns, fill, uninterpreted_option_name_part, uninterpreted_option,
  extension_range_options_declaration, feature_set, extension_range_options,
  descriptor_proto_extension_range, descriptor_proto_reserved_range, field_options_edition_default,
  field_options_feature_support, field_options, field_descriptor_proto, oneof_options,
  oneof_descriptor_proto, enum_value_options, enum_value_descriptor_proto, enum_options,
  enum_descriptor_proto_enum_reserved_range, enum_descriptor_proto, method_options,
  method_descriptor_proto, service_options, service_descriptor_proto, file_options, message_options,
  feature_set_defaults_feature_set_edition_default, feature_set_defaults, source_code_info_location,
  source_code_info, generated_code_info_annotation, generated_code_info,
}
use sample_grpc_service.Descriptor.UninterpretedOptionNamePart
use sample_grpc_service.Descriptor.UninterpretedOption.RoundTrip as UninterpretedOptionRoundTrip
use sample_grpc_service.Descriptor.ExtensionRangeOptionsDeclaration
use sample_grpc_service.Descriptor.FeatureSet
use sample_grpc_service.Descriptor.ExtensionRangeOptions
use sample_grpc_service.Descriptor.DescriptorProtoExtensionRange
use sample_grpc_service.Descriptor.DescriptorProtoReservedRange
use sample_grpc_service.Descriptor.FieldOptionsEditionDefault
use sample_grpc_service.Descriptor.FieldOptionsFeatureSupport
use sample_grpc_service.Descriptor.FieldOptions.RoundTrip as FieldOptionsRoundTrip
use sample_grpc_service.Descriptor.FieldDescriptorProto.RoundTrip as FieldDescriptorProtoRoundTrip
use sample_grpc_service.Descriptor.OneofOptions
use sample_grpc_service.Descriptor.OneofDescriptorProto
use sample_grpc_service.Descriptor.EnumValueOptions
use sample_grpc_service.Descriptor.EnumValueDescriptorProto
use sample_grpc_service.Descriptor.EnumOptions
use sample_grpc_service.Descriptor.EnumDescriptorProtoEnumReservedRange
use sample_grpc_service.Descriptor.EnumDescriptorProto
use sample_grpc_service.Descriptor.MethodOptions
use sample_grpc_service.Descriptor.MethodDescriptorProto
use sample_grpc_service.Descriptor.ServiceOptions
use sample_grpc_service.Descriptor.ServiceDescriptorProto
use sample_grpc_service.Descriptor.FileOptions.RoundTrip as FileOptionsRoundTrip
use sample_grpc_service.Descriptor.MessageOptions.RoundTrip as MessageOptionsRoundTrip
use sample_grpc_service.Descriptor.FeatureSetDefaultsFeatureSetEditionDefault
use sample_grpc_service.Descriptor.FeatureSetDefaults
use sample_grpc_service.Descriptor.SourceCodeInfoLocation
use sample_grpc_service.Descriptor.SourceCodeInfo
use sample_grpc_service.Descriptor.GeneratedCodeInfoAnnotation
use sample_grpc_service.Descriptor.GeneratedCodeInfo

module _ (e : Runtime) where
  -- The wire format of a message.
  abbrev pub bytes : (t : MessageType) → Message t → Bytes e
  bytes uninterpreted_option_name_part = UninterpretedOptionNamePart.bytes e
  bytes uninterpreted_option = UninterpretedOptionRoundTrip.bytes e
  bytes extension_range_options_declaration = ExtensionRangeOptionsDeclaration.bytes e
  bytes feature_set = FeatureSet.bytes e
  bytes extension_range_options = ExtensionRangeOptions.bytes e
  bytes descriptor_proto_extension_range = DescriptorProtoExtensionRange.bytes e
  bytes descriptor_proto_reserved_range = DescriptorProtoReservedRange.bytes e
  bytes field_options_edition_default = FieldOptionsEditionDefault.bytes e
  bytes field_options_feature_support = FieldOptionsFeatureSupport.bytes e
  bytes field_options = FieldOptionsRoundTrip.bytes e
  bytes field_descriptor_proto = FieldDescriptorProtoRoundTrip.bytes e
  bytes oneof_options = OneofOptions.bytes e
  bytes oneof_descriptor_proto = OneofDescriptorProto.bytes e
  bytes enum_value_options = EnumValueOptions.bytes e
  bytes enum_value_descriptor_proto = EnumValueDescriptorProto.bytes e
  bytes enum_options = EnumOptions.bytes e
  bytes enum_descriptor_proto_enum_reserved_range = EnumDescriptorProtoEnumReservedRange.bytes e
  bytes enum_descriptor_proto = EnumDescriptorProto.bytes e
  bytes method_options = MethodOptions.bytes e
  bytes method_descriptor_proto = MethodDescriptorProto.bytes e
  bytes service_options = ServiceOptions.bytes e
  bytes service_descriptor_proto = ServiceDescriptorProto.bytes e
  bytes file_options = FileOptionsRoundTrip.bytes e
  bytes message_options = MessageOptionsRoundTrip.bytes e
  bytes feature_set_defaults_feature_set_edition_default =
      FeatureSetDefaultsFeatureSetEditionDefault.bytes e
  bytes feature_set_defaults = FeatureSetDefaults.bytes e
  bytes source_code_info_location = SourceCodeInfoLocation.bytes e
  bytes source_code_info = SourceCodeInfo.bytes e
  bytes generated_code_info_annotation = GeneratedCodeInfoAnnotation.bytes e
  bytes generated_code_info = GeneratedCodeInfo.bytes e

  -- Its numbers fit their fields, those of enums with or without a name.
  abbrev pub Fits : (t : MessageType) → Message t → Type 0
  Fits uninterpreted_option_name_part = UninterpretedOptionNamePart.Fits e numbered
  Fits uninterpreted_option = UninterpretedOptionRoundTrip.Fits e numbered
  Fits extension_range_options_declaration = ExtensionRangeOptionsDeclaration.Fits e numbered
  Fits feature_set = FeatureSet.Fits e numbered
  Fits extension_range_options = ExtensionRangeOptions.Fits e numbered
  Fits descriptor_proto_extension_range = DescriptorProtoExtensionRange.Fits e numbered
  Fits descriptor_proto_reserved_range = DescriptorProtoReservedRange.Fits e numbered
  Fits field_options_edition_default = FieldOptionsEditionDefault.Fits e numbered
  Fits field_options_feature_support = FieldOptionsFeatureSupport.Fits e numbered
  Fits field_options = FieldOptionsRoundTrip.Fits e numbered
  Fits field_descriptor_proto = FieldDescriptorProtoRoundTrip.Fits e numbered
  Fits oneof_options = OneofOptions.Fits e numbered
  Fits oneof_descriptor_proto = OneofDescriptorProto.Fits e numbered
  Fits enum_value_options = EnumValueOptions.Fits e numbered
  Fits enum_value_descriptor_proto = EnumValueDescriptorProto.Fits e numbered
  Fits enum_options = EnumOptions.Fits e numbered
  Fits enum_descriptor_proto_enum_reserved_range =
      EnumDescriptorProtoEnumReservedRange.Fits e numbered
  Fits enum_descriptor_proto = EnumDescriptorProto.Fits e numbered
  Fits method_options = MethodOptions.Fits e numbered
  Fits method_descriptor_proto = MethodDescriptorProto.Fits e numbered
  Fits service_options = ServiceOptions.Fits e numbered
  Fits service_descriptor_proto = ServiceDescriptorProto.Fits e numbered
  Fits file_options = FileOptionsRoundTrip.Fits e numbered
  Fits message_options = MessageOptionsRoundTrip.Fits e numbered
  Fits feature_set_defaults_feature_set_edition_default =
      FeatureSetDefaultsFeatureSetEditionDefault.Fits e numbered
  Fits feature_set_defaults = FeatureSetDefaults.Fits e numbered
  Fits source_code_info_location = SourceCodeInfoLocation.Fits e numbered
  Fits source_code_info = SourceCodeInfo.Fits e numbered
  Fits generated_code_info_annotation = GeneratedCodeInfoAnnotation.Fits e numbered
  Fits generated_code_info = GeneratedCodeInfo.Fits e numbered

  module _ (laws : RuntimeLaws e) where
    -- For each of the 30 message types of descriptor.ts that do not hold a DescriptorProto, and
    -- each of its messages whose numbers fit their fields: decoding the whole of the bytes that
    -- `encode` writes on a new writer gives the message, with the default in the place of a value
    -- that is missing, and leaves the reader at the end, on any platform with the documented laws,
    -- as long as the encoding is shorter than 2^32 bytes. The numbers of enums need no name.
    pub descriptor_decode-encode :
        (t : MessageType) (m : Message t)
        → Fits t m
        → length (bytes t m) < 2 ^ 32
        → (message_fns e t).decode
            (new_reader (e.wire.finish ((message_fns e t).encode m new_writer)))
            none
          ≡ ok (fill t m, at (length (bytes t m)) [])
    unfolding message_fns
    descriptor_decode-encode uninterpreted_option_name_part m =
        decode_encoded e.wire laws.wire (UninterpretedOptionNamePart.codec e laws) m
    descriptor_decode-encode uninterpreted_option m =
        decode_encoded e.wire laws.wire (UninterpretedOptionRoundTrip.codec e laws) m
    descriptor_decode-encode extension_range_options_declaration m =
        decode_encoded e.wire laws.wire (ExtensionRangeOptionsDeclaration.codec e laws) m
    descriptor_decode-encode feature_set m =
        decode_encoded e.wire laws.wire (FeatureSet.codec e laws) m
    descriptor_decode-encode extension_range_options m =
        decode_encoded e.wire laws.wire (ExtensionRangeOptions.codec e laws) m
    descriptor_decode-encode descriptor_proto_extension_range m =
        decode_encoded e.wire laws.wire (DescriptorProtoExtensionRange.codec e laws) m
    descriptor_decode-encode descriptor_proto_reserved_range m =
        decode_encoded e.wire laws.wire (DescriptorProtoReservedRange.codec e laws) m
    descriptor_decode-encode field_options_edition_default m =
        decode_encoded e.wire laws.wire (FieldOptionsEditionDefault.codec e laws) m
    descriptor_decode-encode field_options_feature_support m =
        decode_encoded e.wire laws.wire (FieldOptionsFeatureSupport.codec e laws) m
    descriptor_decode-encode field_options m =
        decode_encoded e.wire laws.wire (FieldOptionsRoundTrip.codec e laws) m
    descriptor_decode-encode field_descriptor_proto m =
        decode_encoded e.wire laws.wire (FieldDescriptorProtoRoundTrip.codec e laws) m
    descriptor_decode-encode oneof_options m =
        decode_encoded e.wire laws.wire (OneofOptions.codec e laws) m
    descriptor_decode-encode oneof_descriptor_proto m =
        decode_encoded e.wire laws.wire (OneofDescriptorProto.codec e laws) m
    descriptor_decode-encode enum_value_options m =
        decode_encoded e.wire laws.wire (EnumValueOptions.codec e laws) m
    descriptor_decode-encode enum_value_descriptor_proto m =
        decode_encoded e.wire laws.wire (EnumValueDescriptorProto.codec e laws) m
    descriptor_decode-encode enum_options m =
        decode_encoded e.wire laws.wire (EnumOptions.codec e laws) m
    descriptor_decode-encode enum_descriptor_proto_enum_reserved_range m =
        decode_encoded e.wire laws.wire (EnumDescriptorProtoEnumReservedRange.codec e laws) m
    descriptor_decode-encode enum_descriptor_proto m =
        decode_encoded e.wire laws.wire (EnumDescriptorProto.codec e laws) m
    descriptor_decode-encode method_options m =
        decode_encoded e.wire laws.wire (MethodOptions.codec e laws) m
    descriptor_decode-encode method_descriptor_proto m =
        decode_encoded e.wire laws.wire (MethodDescriptorProto.codec e laws) m
    descriptor_decode-encode service_options m =
        decode_encoded e.wire laws.wire (ServiceOptions.codec e laws) m
    descriptor_decode-encode service_descriptor_proto m =
        decode_encoded e.wire laws.wire (ServiceDescriptorProto.codec e laws) m
    descriptor_decode-encode file_options m =
        decode_encoded e.wire laws.wire (FileOptionsRoundTrip.codec e laws) m
    descriptor_decode-encode message_options m =
        decode_encoded e.wire laws.wire (MessageOptionsRoundTrip.codec e laws) m
    descriptor_decode-encode feature_set_defaults_feature_set_edition_default m =
        decode_encoded e.wire laws.wire (FeatureSetDefaultsFeatureSetEditionDefault.codec e laws) m
    descriptor_decode-encode feature_set_defaults m =
        decode_encoded e.wire laws.wire (FeatureSetDefaults.codec e laws) m
    descriptor_decode-encode source_code_info_location m =
        decode_encoded e.wire laws.wire (SourceCodeInfoLocation.codec e laws) m
    descriptor_decode-encode source_code_info m =
        decode_encoded e.wire laws.wire (SourceCodeInfo.codec e laws) m
    descriptor_decode-encode generated_code_info_annotation m =
        decode_encoded e.wire laws.wire (GeneratedCodeInfoAnnotation.codec e laws) m
    descriptor_decode-encode generated_code_info m =
        decode_encoded e.wire laws.wire (GeneratedCodeInfo.codec e laws) m

    -- For each of those 30 types, `decode` ends on every input: on any platform with the
    -- documented laws, for each reader and each length or none, it returns or throws, neither its
    -- loop nor one of a packed field runs out of fuel, and the reader that it leaves has no more
    -- bytes than the one it got.
    pub descriptor_decode-Ends :
        (t : MessageType) (r : In e) (len : Option ℕ)
        → Ends (length r.rest) ((message_fns e t).decode r len)
    unfolding message_fns
    descriptor_decode-Ends uninterpreted_option_name_part =
        (UninterpretedOptionNamePart.codec e laws).decode_ends
    descriptor_decode-Ends uninterpreted_option =
        (UninterpretedOptionRoundTrip.codec e laws).decode_ends
    descriptor_decode-Ends extension_range_options_declaration =
        (ExtensionRangeOptionsDeclaration.codec e laws).decode_ends
    descriptor_decode-Ends feature_set = (FeatureSet.codec e laws).decode_ends
    descriptor_decode-Ends extension_range_options =
        (ExtensionRangeOptions.codec e laws).decode_ends
    descriptor_decode-Ends descriptor_proto_extension_range =
        (DescriptorProtoExtensionRange.codec e laws).decode_ends
    descriptor_decode-Ends descriptor_proto_reserved_range =
        (DescriptorProtoReservedRange.codec e laws).decode_ends
    descriptor_decode-Ends field_options_edition_default =
        (FieldOptionsEditionDefault.codec e laws).decode_ends
    descriptor_decode-Ends field_options_feature_support =
        (FieldOptionsFeatureSupport.codec e laws).decode_ends
    descriptor_decode-Ends field_options = (FieldOptionsRoundTrip.codec e laws).decode_ends
    descriptor_decode-Ends field_descriptor_proto =
        (FieldDescriptorProtoRoundTrip.codec e laws).decode_ends
    descriptor_decode-Ends oneof_options = (OneofOptions.codec e laws).decode_ends
    descriptor_decode-Ends oneof_descriptor_proto = (OneofDescriptorProto.codec e laws).decode_ends
    descriptor_decode-Ends enum_value_options = (EnumValueOptions.codec e laws).decode_ends
    descriptor_decode-Ends enum_value_descriptor_proto =
        (EnumValueDescriptorProto.codec e laws).decode_ends
    descriptor_decode-Ends enum_options = (EnumOptions.codec e laws).decode_ends
    descriptor_decode-Ends enum_descriptor_proto_enum_reserved_range =
        (EnumDescriptorProtoEnumReservedRange.codec e laws).decode_ends
    descriptor_decode-Ends enum_descriptor_proto = (EnumDescriptorProto.codec e laws).decode_ends
    descriptor_decode-Ends method_options = (MethodOptions.codec e laws).decode_ends
    descriptor_decode-Ends method_descriptor_proto =
        (MethodDescriptorProto.codec e laws).decode_ends
    descriptor_decode-Ends service_options = (ServiceOptions.codec e laws).decode_ends
    descriptor_decode-Ends service_descriptor_proto =
        (ServiceDescriptorProto.codec e laws).decode_ends
    descriptor_decode-Ends file_options = (FileOptionsRoundTrip.codec e laws).decode_ends
    descriptor_decode-Ends message_options = (MessageOptionsRoundTrip.codec e laws).decode_ends
    descriptor_decode-Ends feature_set_defaults_feature_set_edition_default =
        (FeatureSetDefaultsFeatureSetEditionDefault.codec e laws).decode_ends
    descriptor_decode-Ends feature_set_defaults = (FeatureSetDefaults.codec e laws).decode_ends
    descriptor_decode-Ends source_code_info_location =
        (SourceCodeInfoLocation.codec e laws).decode_ends
    descriptor_decode-Ends source_code_info = (SourceCodeInfo.codec e laws).decode_ends
    descriptor_decode-Ends generated_code_info_annotation =
        (GeneratedCodeInfoAnnotation.codec e laws).decode_ends
    descriptor_decode-Ends generated_code_info = (GeneratedCodeInfo.codec e laws).decode_ends
