-- ===== src/Descriptor/Messages.antt =====
-- The messages of web/src/generated/google/protobuf/descriptor.ts as one family: the constants that
-- implement its interface `MessageFns`, by the type of their messages.
pub mod RoundTrip
pub mod Json
use sample_grpc_service.Proto.{Runtime}
use sample_grpc_service.Messages.{MessageFns, fns_of}
use sample_grpc_service.Descriptor.UninterpretedOptionNamePart
use sample_grpc_service.Descriptor.UninterpretedOption
use sample_grpc_service.Descriptor.ExtensionRangeOptionsDeclaration
use sample_grpc_service.Descriptor.FeatureSet
use sample_grpc_service.Descriptor.ExtensionRangeOptions
use sample_grpc_service.Descriptor.DescriptorProtoExtensionRange
use sample_grpc_service.Descriptor.DescriptorProtoReservedRange
use sample_grpc_service.Descriptor.FieldOptionsEditionDefault
use sample_grpc_service.Descriptor.FieldOptionsFeatureSupport
use sample_grpc_service.Descriptor.FieldOptions
use sample_grpc_service.Descriptor.FieldDescriptorProto
use sample_grpc_service.Descriptor.OneofOptions
use sample_grpc_service.Descriptor.OneofDescriptorProto
use sample_grpc_service.Descriptor.EnumValueOptions
use sample_grpc_service.Descriptor.EnumValueDescriptorProto
use sample_grpc_service.Descriptor.EnumOptions
use sample_grpc_service.Descriptor.EnumDescriptorProtoEnumReservedRange
use sample_grpc_service.Descriptor.EnumDescriptorProto
use sample_grpc_service.Descriptor.MethodOptions
use sample_grpc_service.Descriptor.MethodDescriptorProto
use sample_grpc_service.Descriptor.ServiceOptions
use sample_grpc_service.Descriptor.ServiceDescriptorProto
use sample_grpc_service.Descriptor.FileOptions
use sample_grpc_service.Descriptor.MessageOptions
use sample_grpc_service.Descriptor.FeatureSetDefaultsFeatureSetEditionDefault
use sample_grpc_service.Descriptor.FeatureSetDefaults
use sample_grpc_service.Descriptor.SourceCodeInfoLocation
use sample_grpc_service.Descriptor.SourceCodeInfo
use sample_grpc_service.Descriptor.GeneratedCodeInfoAnnotation
use sample_grpc_service.Descriptor.GeneratedCodeInfo

pub data MessageType : Type 0 where
  uninterpreted_option_name_part uninterpreted_option extension_range_options_declaration
        feature_set extension_range_options descriptor_proto_extension_range
        descriptor_proto_reserved_range field_options_edition_default field_options_feature_support
        field_options field_descriptor_proto oneof_options oneof_descriptor_proto enum_value_options
        enum_value_descriptor_proto enum_options enum_descriptor_proto_enum_reserved_range
        enum_descriptor_proto method_options method_descriptor_proto service_options
        service_descriptor_proto file_options message_options
        feature_set_defaults_feature_set_edition_default feature_set_defaults
        source_code_info_location source_code_info generated_code_info_annotation
        generated_code_info :
      MessageType

abbrev pub Message : MessageType → Type 0
Message uninterpreted_option_name_part = UninterpretedOptionNamePart.UninterpretedOptionNamePart
Message uninterpreted_option = UninterpretedOption.UninterpretedOption
Message extension_range_options_declaration =
    ExtensionRangeOptionsDeclaration.ExtensionRangeOptionsDeclaration
Message feature_set = FeatureSet.FeatureSet
Message extension_range_options = ExtensionRangeOptions.ExtensionRangeOptions
Message descriptor_proto_extension_range =
    DescriptorProtoExtensionRange.DescriptorProtoExtensionRange
Message descriptor_proto_reserved_range = DescriptorProtoReservedRange.DescriptorProtoReservedRange
Message field_options_edition_default = FieldOptionsEditionDefault.FieldOptionsEditionDefault
Message field_options_feature_support = FieldOptionsFeatureSupport.FieldOptionsFeatureSupport
Message field_options = FieldOptions.FieldOptions
Message field_descriptor_proto = FieldDescriptorProto.FieldDescriptorProto
Message oneof_options = OneofOptions.OneofOptions
Message oneof_descriptor_proto = OneofDescriptorProto.OneofDescriptorProto
Message enum_value_options = EnumValueOptions.EnumValueOptions
Message enum_value_descriptor_proto = EnumValueDescriptorProto.EnumValueDescriptorProto
Message enum_options = EnumOptions.EnumOptions
Message enum_descriptor_proto_enum_reserved_range =
    EnumDescriptorProtoEnumReservedRange.EnumDescriptorProtoEnumReservedRange
Message enum_descriptor_proto = EnumDescriptorProto.EnumDescriptorProto
Message method_options = MethodOptions.MethodOptions
Message method_descriptor_proto = MethodDescriptorProto.MethodDescriptorProto
Message service_options = ServiceOptions.ServiceOptions
Message service_descriptor_proto = ServiceDescriptorProto.ServiceDescriptorProto
Message file_options = FileOptions.FileOptions
Message message_options = MessageOptions.MessageOptions
Message feature_set_defaults_feature_set_edition_default =
    FeatureSetDefaultsFeatureSetEditionDefault.FeatureSetDefaultsFeatureSetEditionDefault
Message feature_set_defaults = FeatureSetDefaults.FeatureSetDefaults
Message source_code_info_location = SourceCodeInfoLocation.SourceCodeInfoLocation
Message source_code_info = SourceCodeInfo.SourceCodeInfo
Message generated_code_info_annotation = GeneratedCodeInfoAnnotation.GeneratedCodeInfoAnnotation
Message generated_code_info = GeneratedCodeInfo.GeneratedCodeInfo

abbrev pub Partial : MessageType → Type 0
Partial uninterpreted_option_name_part =
    UninterpretedOptionNamePart.UninterpretedOptionNamePartPartial
Partial uninterpreted_option = UninterpretedOption.UninterpretedOptionPartial
Partial extension_range_options_declaration =
    ExtensionRangeOptionsDeclaration.ExtensionRangeOptionsDeclarationPartial
Partial feature_set = FeatureSet.FeatureSetPartial
Partial extension_range_options = ExtensionRangeOptions.ExtensionRangeOptionsPartial
Partial descriptor_proto_extension_range =
    DescriptorProtoExtensionRange.DescriptorProtoExtensionRangePartial
Partial descriptor_proto_reserved_range =
    DescriptorProtoReservedRange.DescriptorProtoReservedRangePartial
Partial field_options_edition_default = FieldOptionsEditionDefault.FieldOptionsEditionDefaultPartial
Partial field_options_feature_support = FieldOptionsFeatureSupport.FieldOptionsFeatureSupportPartial
Partial field_options = FieldOptions.FieldOptionsPartial
Partial field_descriptor_proto = FieldDescriptorProto.FieldDescriptorProtoPartial
Partial oneof_options = OneofOptions.OneofOptionsPartial
Partial oneof_descriptor_proto = OneofDescriptorProto.OneofDescriptorProtoPartial
Partial enum_value_options = EnumValueOptions.EnumValueOptionsPartial
Partial enum_value_descriptor_proto = EnumValueDescriptorProto.EnumValueDescriptorProtoPartial
Partial enum_options = EnumOptions.EnumOptionsPartial
Partial enum_descriptor_proto_enum_reserved_range =
    EnumDescriptorProtoEnumReservedRange.EnumDescriptorProtoEnumReservedRangePartial
Partial enum_descriptor_proto = EnumDescriptorProto.EnumDescriptorProtoPartial
Partial method_options = MethodOptions.MethodOptionsPartial
Partial method_descriptor_proto = MethodDescriptorProto.MethodDescriptorProtoPartial
Partial service_options = ServiceOptions.ServiceOptionsPartial
Partial service_descriptor_proto = ServiceDescriptorProto.ServiceDescriptorProtoPartial
Partial file_options = FileOptions.FileOptionsPartial
Partial message_options = MessageOptions.MessageOptionsPartial
Partial feature_set_defaults_feature_set_edition_default =
    FeatureSetDefaultsFeatureSetEditionDefault.FeatureSetDefaultsFeatureSetEditionDefaultPartial
Partial feature_set_defaults = FeatureSetDefaults.FeatureSetDefaultsPartial
Partial source_code_info_location = SourceCodeInfoLocation.SourceCodeInfoLocationPartial
Partial source_code_info = SourceCodeInfo.SourceCodeInfoPartial
Partial generated_code_info_annotation =
    GeneratedCodeInfoAnnotation.GeneratedCodeInfoAnnotationPartial
Partial generated_code_info = GeneratedCodeInfo.GeneratedCodeInfoPartial

unfoldable pub message_fns :
    (e : Runtime) (t : MessageType) → MessageFns e.wire.Byte (Message t) (Partial t)
message_fns e uninterpreted_option_name_part =
    fns_of (UninterpretedOptionNamePart.encode e) (UninterpretedOptionNamePart.decode e)
      (UninterpretedOptionNamePart.from_json e) (UninterpretedOptionNamePart.to_json e)
      UninterpretedOptionNamePart.create UninterpretedOptionNamePart.from_partial
message_fns e uninterpreted_option =
    fns_of (UninterpretedOption.encode e) (UninterpretedOption.decode e)
      (UninterpretedOption.from_json e) (UninterpretedOption.to_json e) UninterpretedOption.create
      UninterpretedOption.from_partial
message_fns e extension_range_options_declaration =
    fns_of (ExtensionRangeOptionsDeclaration.encode e) (ExtensionRangeOptionsDeclaration.decode e)
      (ExtensionRangeOptionsDeclaration.from_json e) (ExtensionRangeOptionsDeclaration.to_json e)
      ExtensionRangeOptionsDeclaration.create ExtensionRangeOptionsDeclaration.from_partial
message_fns e feature_set =
    fns_of (FeatureSet.encode e) (FeatureSet.decode e) (FeatureSet.from_json e)
      (FeatureSet.to_json e) FeatureSet.create FeatureSet.from_partial
message_fns e extension_range_options =
    fns_of (ExtensionRangeOptions.encode e) (ExtensionRangeOptions.decode e)
      (ExtensionRangeOptions.from_json e) (ExtensionRangeOptions.to_json e)
      ExtensionRangeOptions.create ExtensionRangeOptions.from_partial
message_fns e descriptor_proto_extension_range =
    fns_of (DescriptorProtoExtensionRange.encode e) (DescriptorProtoExtensionRange.decode e)
      (DescriptorProtoExtensionRange.from_json e) (DescriptorProtoExtensionRange.to_json e)
      DescriptorProtoExtensionRange.create DescriptorProtoExtensionRange.from_partial
message_fns e descriptor_proto_reserved_range =
    fns_of (DescriptorProtoReservedRange.encode e) (DescriptorProtoReservedRange.decode e)
      (DescriptorProtoReservedRange.from_json e) (DescriptorProtoReservedRange.to_json e)
      DescriptorProtoReservedRange.create DescriptorProtoReservedRange.from_partial
message_fns e field_options_edition_default =
    fns_of (FieldOptionsEditionDefault.encode e) (FieldOptionsEditionDefault.decode e)
      (FieldOptionsEditionDefault.from_json e) (FieldOptionsEditionDefault.to_json e)
      FieldOptionsEditionDefault.create FieldOptionsEditionDefault.from_partial
message_fns e field_options_feature_support =
    fns_of (FieldOptionsFeatureSupport.encode e) (FieldOptionsFeatureSupport.decode e)
      (FieldOptionsFeatureSupport.from_json e) (FieldOptionsFeatureSupport.to_json e)
      FieldOptionsFeatureSupport.create FieldOptionsFeatureSupport.from_partial
message_fns e field_options =
    fns_of (FieldOptions.encode e) (FieldOptions.decode e) (FieldOptions.from_json e)
      (FieldOptions.to_json e) FieldOptions.create FieldOptions.from_partial
message_fns e field_descriptor_proto =
    fns_of (FieldDescriptorProto.encode e) (FieldDescriptorProto.decode e)
      (FieldDescriptorProto.from_json e) (FieldDescriptorProto.to_json e)
      FieldDescriptorProto.create FieldDescriptorProto.from_partial
message_fns e oneof_options =
    fns_of (OneofOptions.encode e) (OneofOptions.decode e) (OneofOptions.from_json e)
      (OneofOptions.to_json e) OneofOptions.create OneofOptions.from_partial
message_fns e oneof_descriptor_proto =
    fns_of (OneofDescriptorProto.encode e) (OneofDescriptorProto.decode e)
      (OneofDescriptorProto.from_json e) (OneofDescriptorProto.to_json e)
      OneofDescriptorProto.create OneofDescriptorProto.from_partial
message_fns e enum_value_options =
    fns_of (EnumValueOptions.encode e) (EnumValueOptions.decode e) (EnumValueOptions.from_json e)
      (EnumValueOptions.to_json e) EnumValueOptions.create EnumValueOptions.from_partial
message_fns e enum_value_descriptor_proto =
    fns_of (EnumValueDescriptorProto.encode e) (EnumValueDescriptorProto.decode e)
      (EnumValueDescriptorProto.from_json e) (EnumValueDescriptorProto.to_json e)
      EnumValueDescriptorProto.create EnumValueDescriptorProto.from_partial
message_fns e enum_options =
    fns_of (EnumOptions.encode e) (EnumOptions.decode e) (EnumOptions.from_json e)
      (EnumOptions.to_json e) EnumOptions.create EnumOptions.from_partial
message_fns e enum_descriptor_proto_enum_reserved_range =
    fns_of (EnumDescriptorProtoEnumReservedRange.encode e)
      (EnumDescriptorProtoEnumReservedRange.decode e)
      (EnumDescriptorProtoEnumReservedRange.from_json e)
      (EnumDescriptorProtoEnumReservedRange.to_json e) EnumDescriptorProtoEnumReservedRange.create
      EnumDescriptorProtoEnumReservedRange.from_partial
message_fns e enum_descriptor_proto =
    fns_of (EnumDescriptorProto.encode e) (EnumDescriptorProto.decode e)
      (EnumDescriptorProto.from_json e) (EnumDescriptorProto.to_json e) EnumDescriptorProto.create
      EnumDescriptorProto.from_partial
message_fns e method_options =
    fns_of (MethodOptions.encode e) (MethodOptions.decode e) (MethodOptions.from_json e)
      (MethodOptions.to_json e) MethodOptions.create MethodOptions.from_partial
message_fns e method_descriptor_proto =
    fns_of (MethodDescriptorProto.encode e) (MethodDescriptorProto.decode e)
      (MethodDescriptorProto.from_json e) (MethodDescriptorProto.to_json e)
      MethodDescriptorProto.create MethodDescriptorProto.from_partial
message_fns e service_options =
    fns_of (ServiceOptions.encode e) (ServiceOptions.decode e) (ServiceOptions.from_json e)
      (ServiceOptions.to_json e) ServiceOptions.create ServiceOptions.from_partial
message_fns e service_descriptor_proto =
    fns_of (ServiceDescriptorProto.encode e) (ServiceDescriptorProto.decode e)
      (ServiceDescriptorProto.from_json e) (ServiceDescriptorProto.to_json e)
      ServiceDescriptorProto.create ServiceDescriptorProto.from_partial
message_fns e file_options =
    fns_of (FileOptions.encode e) (FileOptions.decode e) (FileOptions.from_json e)
      (FileOptions.to_json e) FileOptions.create FileOptions.from_partial
message_fns e message_options =
    fns_of (MessageOptions.encode e) (MessageOptions.decode e) (MessageOptions.from_json e)
      (MessageOptions.to_json e) MessageOptions.create MessageOptions.from_partial
message_fns e feature_set_defaults_feature_set_edition_default =
    fns_of (FeatureSetDefaultsFeatureSetEditionDefault.encode e)
      (FeatureSetDefaultsFeatureSetEditionDefault.decode e)
      (FeatureSetDefaultsFeatureSetEditionDefault.from_json e)
      (FeatureSetDefaultsFeatureSetEditionDefault.to_json e)
      FeatureSetDefaultsFeatureSetEditionDefault.create
      FeatureSetDefaultsFeatureSetEditionDefault.from_partial
message_fns e feature_set_defaults =
    fns_of (FeatureSetDefaults.encode e) (FeatureSetDefaults.decode e)
      (FeatureSetDefaults.from_json e) (FeatureSetDefaults.to_json e) FeatureSetDefaults.create
      FeatureSetDefaults.from_partial
message_fns e source_code_info_location =
    fns_of (SourceCodeInfoLocation.encode e) (SourceCodeInfoLocation.decode e)
      (SourceCodeInfoLocation.from_json e) (SourceCodeInfoLocation.to_json e)
      SourceCodeInfoLocation.create SourceCodeInfoLocation.from_partial
message_fns e source_code_info =
    fns_of (SourceCodeInfo.encode e) (SourceCodeInfo.decode e) (SourceCodeInfo.from_json e)
      (SourceCodeInfo.to_json e) SourceCodeInfo.create SourceCodeInfo.from_partial
message_fns e generated_code_info_annotation =
    fns_of (GeneratedCodeInfoAnnotation.encode e) (GeneratedCodeInfoAnnotation.decode e)
      (GeneratedCodeInfoAnnotation.from_json e) (GeneratedCodeInfoAnnotation.to_json e)
      GeneratedCodeInfoAnnotation.create GeneratedCodeInfoAnnotation.from_partial
message_fns e generated_code_info =
    fns_of (GeneratedCodeInfo.encode e) (GeneratedCodeInfo.decode e) (GeneratedCodeInfo.from_json e)
      (GeneratedCodeInfo.to_json e) GeneratedCodeInfo.create GeneratedCodeInfo.from_partial

-- A message with its missing values at their defaults.
abbrev pub fill : (t : MessageType) → Message t → Message t
fill uninterpreted_option_name_part = UninterpretedOptionNamePart.fill
fill uninterpreted_option = UninterpretedOption.fill
fill extension_range_options_declaration = ExtensionRangeOptionsDeclaration.fill
fill feature_set = FeatureSet.fill
fill extension_range_options = ExtensionRangeOptions.fill
fill descriptor_proto_extension_range = DescriptorProtoExtensionRange.fill
fill descriptor_proto_reserved_range = DescriptorProtoReservedRange.fill
fill field_options_edition_default = FieldOptionsEditionDefault.fill
fill field_options_feature_support = FieldOptionsFeatureSupport.fill
fill field_options = FieldOptions.fill
fill field_descriptor_proto = FieldDescriptorProto.fill
fill oneof_options = OneofOptions.fill
fill oneof_descriptor_proto = OneofDescriptorProto.fill
fill enum_value_options = EnumValueOptions.fill
fill enum_value_descriptor_proto = EnumValueDescriptorProto.fill
fill enum_options = EnumOptions.fill
fill enum_descriptor_proto_enum_reserved_range = EnumDescriptorProtoEnumReservedRange.fill
fill enum_descriptor_proto = EnumDescriptorProto.fill
fill method_options = MethodOptions.fill
fill method_descriptor_proto = MethodDescriptorProto.fill
fill service_options = ServiceOptions.fill
fill service_descriptor_proto = ServiceDescriptorProto.fill
fill file_options = FileOptions.fill
fill message_options = MessageOptions.fill
fill feature_set_defaults_feature_set_edition_default =
    FeatureSetDefaultsFeatureSetEditionDefault.fill
fill feature_set_defaults = FeatureSetDefaults.fill
fill source_code_info_location = SourceCodeInfoLocation.fill
fill source_code_info = SourceCodeInfo.fill
fill generated_code_info_annotation = GeneratedCodeInfoAnnotation.fill
fill generated_code_info = GeneratedCodeInfo.fill
