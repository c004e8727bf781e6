-- ===== src/Descriptor.antt =====
-- The enums and the messages of web/src/generated/google/protobuf/descriptor.ts.
pub mod Edition
pub mod ExtensionRangeOptionsVerificationState
pub mod FieldDescriptorProtoType
pub mod FieldDescriptorProtoLabel
pub mod FileOptionsOptimizeMode
pub mod FieldOptionsCType
pub mod FieldOptionsJsType
pub mod FieldOptionsOptionRetention
pub mod FieldOptionsOptionTargetType
pub mod MethodOptionsIdempotencyLevel
pub mod FeatureSetFieldPresence
pub mod FeatureSetEnumType
pub mod FeatureSetRepeatedFieldEncoding
pub mod FeatureSetUtf8Validation
pub mod FeatureSetMessageEncoding
pub mod FeatureSetJsonFormat
pub mod FeatureSetEnforceNamingStyle
pub mod GeneratedCodeInfoAnnotationSemantic
pub mod FeatureSet
pub mod UninterpretedOptionNamePart
pub mod UninterpretedOption
pub mod ExtensionRangeOptionsDeclaration
pub mod ExtensionRangeOptions
pub mod DescriptorProtoExtensionRange
pub mod DescriptorProtoReservedRange
pub mod FieldOptionsEditionDefault
pub mod FieldOptionsFeatureSupport
pub mod FieldOptions
pub mod FieldDescriptorProto
pub mod OneofOptions
pub mod OneofDescriptorProto
pub mod EnumValueOptions
pub mod EnumValueDescriptorProto
pub mod EnumOptions
pub mod EnumDescriptorProtoEnumReservedRange
pub mod EnumDescriptorProto
pub mod MethodOptions
pub mod MethodDescriptorProto
pub mod ServiceOptions
pub mod ServiceDescriptorProto
pub mod FileOptions
pub mod MessageOptions
pub mod FeatureSetDefaultsFeatureSetEditionDefault
pub mod FeatureSetDefaults
pub mod SourceCodeInfoLocation
pub mod SourceCodeInfo
pub mod GeneratedCodeInfoAnnotation
pub mod GeneratedCodeInfo
pub mod Messages
