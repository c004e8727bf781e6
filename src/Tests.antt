-- ===== src/Tests.antt =====
-- Concrete instances of the parameters, and the theorems at concrete inputs.
pub mod SampleWire
pub mod SampleRuntime
pub mod SampleOrm
pub mod SampleLibrary
pub mod Codecs
pub mod Descriptors
pub mod Browser
pub mod Server
pub mod SampleValues
pub mod Handlers
