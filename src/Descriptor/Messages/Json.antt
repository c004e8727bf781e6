-- ===== src/Descriptor/Messages/Json.antt =====
-- The messages of web/src/generated/google/protobuf/descriptor.ts in JSON and as partials.
use sample_grpc_service.Prelude.{◌≡◌}
use sample_grpc_service.Prelude.Outcome.{ok}
use sample_grpc_service.Proto.{Runtime}
use sample_grpc_service.Proto.Laws.{RuntimeLaws}
use sample_grpc_service.Proto.Kept.{named}
use sample_grpc_service.Descriptor.Messages.{
  MessageType, Message, Partial, message_fns, fill, uninterpreted_option_name_part,
  uninterpreted_option, extension_range_options_declaration, feature_set, extension_range_options,
  descriptor_proto_extension_range, descriptor_proto_reserved_range, field_options_edition_default,
  field_options_feature_support, field_options, field_descriptor_proto, oneof_options,
  oneof_descriptor_proto, enum_value_options, enum_value_descriptor_proto, enum_options,
  enum_descriptor_proto_enum_reserved_range, enum_descriptor_proto, method_options,
  method_descriptor_proto, service_options, service_descriptor_proto, file_options, message_options,
  feature_set_defaults_feature_set_edition_default, feature_set_defaults, source_code_info_location,
  source_code_info, generated_code_info_annotation, generated_code_info,
}
use sample_grpc_service.Descriptor.UninterpretedOptionNamePart
use sample_grpc_service.Descriptor.UninterpretedOption.RoundTrip as UninterpretedOptionRoundTrip
use sample_grpc_service.Descriptor.UninterpretedOption.Json as UninterpretedOptionJson
use sample_grpc_service.Descriptor.ExtensionRangeOptionsDeclaration
use sample_grpc_service.Descriptor.FeatureSet
use sample_grpc_service.Descriptor.ExtensionRangeOptions
use sample_grpc_service.Descriptor.DescriptorProtoExtensionRange
use sample_grpc_service.Descriptor.DescriptorProtoReservedRange
use sample_grpc_service.Descriptor.FieldOptionsEditionDefault
use sample_grpc_service.Descriptor.FieldOptionsFeatureSupport
use sample_grpc_service.Descriptor.FieldOptions.RoundTrip as FieldOptionsRoundTrip
use sample_grpc_service.Descriptor.FieldOptions.Json as FieldOptionsJson
use sample_grpc_service.Descriptor.FieldDescriptorProto.RoundTrip as FieldDescriptorProtoRoundTrip
use sample_grpc_service.Descriptor.FieldDescriptorProto.Json as FieldDescriptorProtoJson
use sample_grpc_service.Descriptor.OneofOptions
use sample_grpc_service.Descriptor.OneofDescriptorProto
use sample_grpc_service.Descriptor.EnumValueOptions
use sample_grpc_service.Descriptor.EnumValueDescriptorProto
use sample_grpc_service.Descriptor.EnumOptions
use sample_grpc_service.Descriptor.EnumDescriptorProtoEnumReservedRange
use sample_grpc_service.Descriptor.EnumDescriptorProto
use sample_grpc_service.Descriptor.MethodOptions
use sample_grpc_service.Descriptor.MethodDescriptorProto
use sample_grpc_service.Descriptor.ServiceOptions
use sample_grpc_service.Descriptor.ServiceDescriptorProto
use sample_grpc_service.Descriptor.FileOptions.RoundTrip as FileOptionsRoundTrip
use sample_grpc_service.Descriptor.FileOptions.Json as FileOptionsJson
use sample_grpc_service.Descriptor.MessageOptions.RoundTrip as MessageOptionsRoundTrip
use sample_grpc_service.Descriptor.MessageOptions.Json as MessageOptionsJson
use sample_grpc_service.Descriptor.FeatureSetDefaultsFeatureSetEditionDefault
use sample_grpc_service.Descriptor.FeatureSetDefaults
use sample_grpc_service.Descriptor.SourceCodeInfoLocation
use sample_grpc_service.Descriptor.SourceCodeInfo
use sample_grpc_service.Descriptor.GeneratedCodeInfoAnnotation
use sample_grpc_service.Descriptor.GeneratedCodeInfo

-- The numbers of a message fit their fields, and those of enums have names.
abbrev pub IsNamed : Runtime → (t : MessageType) → Message t → Type 0
IsNamed e uninterpreted_option_name_part = UninterpretedOptionNamePart.Fits e named
IsNamed e uninterpreted_option = UninterpretedOptionRoundTrip.Fits e named
IsNamed e extension_range_options_declaration = ExtensionRangeOptionsDeclaration.Fits e named
IsNamed e feature_set = FeatureSet.Fits e named
IsNamed e extension_range_options = ExtensionRangeOptions.Fits e named
IsNamed e descriptor_proto_extension_range = DescriptorProtoExtensionRange.Fits e named
IsNamed e descriptor_proto_reserved_range = DescriptorProtoReservedRange.Fits e named
IsNamed e field_options_edition_default = FieldOptionsEditionDefault.Fits e named
IsNamed e field_options_feature_support = FieldOptionsFeatureSupport.Fits e named
IsNamed e field_options = FieldOptionsRoundTrip.Fits e named
IsNamed e field_descriptor_proto = FieldDescriptorProtoRoundTrip.Fits e named
IsNamed e oneof_options = OneofOptions.Fits e named
IsNamed e oneof_descriptor_proto = OneofDescriptorProto.Fits e named
IsNamed e enum_value_options = EnumValueOptions.Fits e named
IsNamed e enum_value_descriptor_proto = EnumValueDescriptorProto.Fits e named
IsNamed e enum_options = EnumOptions.Fits e named
IsNamed e enum_descriptor_proto_enum_reserved_range =
    EnumDescriptorProtoEnumReservedRange.Fits e named
IsNamed e enum_descriptor_proto = EnumDescriptorProto.Fits e named
IsNamed e method_options = MethodOptions.Fits e named
IsNamed e method_descriptor_proto = MethodDescriptorProto.Fits e named
IsNamed e service_options = ServiceOptions.Fits e named
IsNamed e service_descriptor_proto = ServiceDescriptorProto.Fits e named
IsNamed e file_options = FileOptionsRoundTrip.Fits e named
IsNamed e message_options = MessageOptionsRoundTrip.Fits e named
IsNamed e feature_set_defaults_feature_set_edition_default =
    FeatureSetDefaultsFeatureSetEditionDefault.Fits e named
IsNamed e feature_set_defaults = FeatureSetDefaults.Fits e named
IsNamed e source_code_info_location = SourceCodeInfoLocation.Fits e named
IsNamed e source_code_info = SourceCodeInfo.Fits e named
IsNamed e generated_code_info_annotation = GeneratedCodeInfoAnnotation.Fits e named
IsNamed e generated_code_info = GeneratedCodeInfo.Fits e named

-- For each of those 30 types, `fromJSON` of what `toJSON` gives for a message succeeds with the
-- message, with the default in the place of a value that is missing, if the numbers of the message
-- fit their fields and those of its enums have names.
pub descriptor_from_json-to_json :
    (e : Runtime) (laws : RuntimeLaws e) (t : MessageType) (m : Message t)
    → IsNamed e t m
    → (message_fns e t).from_json ((message_fns e t).to_json m) ≡ ok (fill t m)
unfolding message_fns
descriptor_from_json-to_json e laws uninterpreted_option_name_part =
    (UninterpretedOptionNamePart.json_codec e laws).from-to
descriptor_from_json-to_json e laws uninterpreted_option =
    (UninterpretedOptionJson.json_codec e laws).from-to
descriptor_from_json-to_json e laws extension_range_options_declaration =
    (ExtensionRangeOptionsDeclaration.json_codec e laws).from-to
descriptor_from_json-to_json e laws feature_set = (FeatureSet.json_codec e laws).from-to
descriptor_from_json-to_json e laws extension_range_options =
    (ExtensionRangeOptions.json_codec e laws).from-to
descriptor_from_json-to_json e laws descriptor_proto_extension_range =
    (DescriptorProtoExtensionRange.json_codec e laws).from-to
descriptor_from_json-to_json e laws descriptor_proto_reserved_range =
    (DescriptorProtoReservedRange.json_codec e laws).from-to
descriptor_from_json-to_json e laws field_options_edition_default =
    (FieldOptionsEditionDefault.json_codec e laws).from-to
descriptor_from_json-to_json e laws field_options_feature_support =
    (FieldOptionsFeatureSupport.json_codec e laws).from-to
descriptor_from_json-to_json e laws field_options = (FieldOptionsJson.json_codec e laws).from-to
descriptor_from_json-to_json e laws field_descriptor_proto =
    (FieldDescriptorProtoJson.json_codec e laws).from-to
descriptor_from_json-to_json e laws oneof_options = (OneofOptions.json_codec e laws).from-to
descriptor_from_json-to_json e laws oneof_descriptor_proto =
    (OneofDescriptorProto.json_codec e laws).from-to
descriptor_from_json-to_json e laws enum_value_options =
    (EnumValueOptions.json_codec e laws).from-to
descriptor_from_json-to_json e laws enum_value_descriptor_proto =
    (EnumValueDescriptorProto.json_codec e laws).from-to
descriptor_from_json-to_json e laws enum_options = (EnumOptions.json_codec e laws).from-to
descriptor_from_json-to_json e laws enum_descriptor_proto_enum_reserved_range =
    (EnumDescriptorProtoEnumReservedRange.json_codec e laws).from-to
descriptor_from_json-to_json e laws enum_descriptor_proto =
    (EnumDescriptorProto.json_codec e laws).from-to
descriptor_from_json-to_json e laws method_options = (MethodOptions.json_codec e laws).from-to
descriptor_from_json-to_json e laws method_descriptor_proto =
    (MethodDescriptorProto.json_codec e laws).from-to
descriptor_from_json-to_json e laws service_options = (ServiceOptions.json_codec e laws).from-to
descriptor_from_json-to_json e laws service_descriptor_proto =
    (ServiceDescriptorProto.json_codec e laws).from-to
descriptor_from_json-to_json e laws file_options = (FileOptionsJson.json_codec e laws).from-to
descriptor_from_json-to_json e laws message_options = (MessageOptionsJson.json_codec e laws).from-to
descriptor_from_json-to_json e laws feature_set_defaults_feature_set_edition_default =
    (FeatureSetDefaultsFeatureSetEditionDefault.json_codec e laws).from-to
descriptor_from_json-to_json e laws feature_set_defaults =
    (FeatureSetDefaults.json_codec e laws).from-to
descriptor_from_json-to_json e laws source_code_info_location =
    (SourceCodeInfoLocation.json_codec e laws).from-to
descriptor_from_json-to_json e laws source_code_info = (SourceCodeInfo.json_codec e laws).from-to
descriptor_from_json-to_json e laws generated_code_info_annotation =
    (GeneratedCodeInfoAnnotation.json_codec e laws).from-to
descriptor_from_json-to_json e laws generated_code_info =
    (GeneratedCodeInfo.json_codec e laws).from-to

-- All the properties of a message.
abbrev pub whole : (t : MessageType) → Message t → Partial t
whole uninterpreted_option_name_part = UninterpretedOptionNamePart.whole
whole uninterpreted_option = UninterpretedOptionJson.whole
whole extension_range_options_declaration = ExtensionRangeOptionsDeclaration.whole
whole feature_set = FeatureSet.whole
whole extension_range_options = ExtensionRangeOptions.whole
whole descriptor_proto_extension_range = DescriptorProtoExtensionRange.whole
whole descriptor_proto_reserved_range = DescriptorProtoReservedRange.whole
whole field_options_edition_default = FieldOptionsEditionDefault.whole
whole field_options_feature_support = FieldOptionsFeatureSupport.whole
whole field_options = FieldOptionsJson.whole
whole field_descriptor_proto = FieldDescriptorProtoJson.whole
whole oneof_options = OneofOptions.whole
whole oneof_descriptor_proto = OneofDescriptorProto.whole
whole enum_value_options = EnumValueOptions.whole
whole enum_value_descriptor_proto = EnumValueDescriptorProto.whole
whole enum_options = EnumOptions.whole
whole enum_descriptor_proto_enum_reserved_range = EnumDescriptorProtoEnumReservedRange.whole
whole enum_descriptor_proto = EnumDescriptorProto.whole
whole method_options = MethodOptions.whole
whole method_descriptor_proto = MethodDescriptorProto.whole
whole service_options = ServiceOptions.whole
whole service_descriptor_proto = ServiceDescriptorProto.whole
whole file_options = FileOptionsJson.whole
whole message_options = MessageOptionsJson.whole
whole feature_set_defaults_feature_set_edition_default =
    FeatureSetDefaultsFeatureSetEditionDefault.whole
whole feature_set_defaults = FeatureSetDefaults.whole
whole source_code_info_location = SourceCodeInfoLocation.whole
whole source_code_info = SourceCodeInfo.whole
whole generated_code_info_annotation = GeneratedCodeInfoAnnotation.whole
whole generated_code_info = GeneratedCodeInfo.whole

-- For each of those 30 types, `fromPartial` of all the properties of a message gives the message,
-- with the default in the place of a value that is missing.
pub descriptor_from_partial-whole :
    (e : Runtime) (t : MessageType) (m : Message t)
    → (message_fns e t).from_partial (whole t m) ≡ fill t m
unfolding message_fns
descriptor_from_partial-whole e uninterpreted_option_name_part =
    UninterpretedOptionNamePart.fills.fills
descriptor_from_partial-whole e uninterpreted_option = UninterpretedOptionJson.fills.fills
descriptor_from_partial-whole e extension_range_options_declaration =
    ExtensionRangeOptionsDeclaration.fills.fills
descriptor_from_partial-whole e feature_set = FeatureSet.fills.fills
descriptor_from_partial-whole e extension_range_options = ExtensionRangeOptions.fills.fills
descriptor_from_partial-whole e descriptor_proto_extension_range =
    DescriptorProtoExtensionRange.fills.fills
descriptor_from_partial-whole e descriptor_proto_reserved_range =
    DescriptorProtoReservedRange.fills.fills
descriptor_from_partial-whole e field_options_edition_default =
    FieldOptionsEditionDefault.fills.fills
descriptor_from_partial-whole e field_options_feature_support =
    FieldOptionsFeatureSupport.fills.fills
descriptor_from_partial-whole e field_options = FieldOptionsJson.fills.fills
descriptor_from_partial-whole e field_descriptor_proto = FieldDescriptorProtoJson.fills.fills
descriptor_from_partial-whole e oneof_options = OneofOptions.fills.fills
descriptor_from_partial-whole e oneof_descriptor_proto = OneofDescriptorProto.fills.fills
descriptor_from_partial-whole e enum_value_options = EnumValueOptions.fills.fills
descriptor_from_partial-whole e enum_value_descriptor_proto = EnumValueDescriptorProto.fills.fills
descriptor_from_partial-whole e enum_options = EnumOptions.fills.fills
descriptor_from_partial-whole e enum_descriptor_proto_enum_reserved_range =
    EnumDescriptorProtoEnumReservedRange.fills.fills
descriptor_from_partial-whole e enum_descriptor_proto = EnumDescriptorProto.fills.fills
descriptor_from_partial-whole e method_options = MethodOptions.fills.fills
descriptor_from_partial-whole e method_descriptor_proto = MethodDescriptorProto.fills.fills
descriptor_from_partial-whole e service_options = ServiceOptions.fills.fills
descriptor_from_partial-whole e service_descriptor_proto = ServiceDescriptorProto.fills.fills
descriptor_from_partial-whole e file_options = FileOptionsJson.fills.fills
descriptor_from_partial-whole e message_options = MessageOptionsJson.fills.fills
descriptor_from_partial-whole e feature_set_defaults_feature_set_edition_default =
    FeatureSetDefaultsFeatureSetEditionDefault.fills.fills
descriptor_from_partial-whole e feature_set_defaults = FeatureSetDefaults.fills.fills
descriptor_from_partial-whole e source_code_info_location = SourceCodeInfoLocation.fills.fills
descriptor_from_partial-whole e source_code_info = SourceCodeInfo.fills.fills
descriptor_from_partial-whole e generated_code_info_annotation =
    GeneratedCodeInfoAnnotation.fills.fills
descriptor_from_partial-whole e generated_code_info = GeneratedCodeInfo.fills.fills
