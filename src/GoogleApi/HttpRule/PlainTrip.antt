-- ===== src/GoogleApi/HttpRule/PlainTrip.antt =====
-- The fields of HttpRule other than its list of rules: what is written for them, and how it is read.
use sample_grpc_service.Prelude.{refl, List, ◌++◌}
use sample_grpc_service.Wire.{Wire, WireLaws}
use sample_grpc_service.Wire.Writes.{field_string, field_string?, field_message?}
use sample_grpc_service.Wire.Runs.{Runs, Runs-string, Runs-string?, Any-option, ◌⨾◌}
use sample_grpc_service.Wire.Codec.{Runs-same?}
use sample_grpc_service.GoogleApi.HttpRule.Fields.{Plain, plain_base}
use sample_grpc_service.GoogleApi.HttpRule.{rule, none_left, plain, with_plain, encode_plain, field}
use sample_grpc_service.GoogleApi.CustomHttpPattern.RoundTrip as PatternRoundTrip

module _ (w : Wire) where
  unfoldable pub plain_bytes : Plain → List w.Byte
  plain_bytes p =
      field_string w 10 p.selector
      ++ field_string? w 18 p.get
      ++ field_string? w 26 p.put
      ++ field_string? w 34 p.post
      ++ field_string? w 42 p.delete
      ++ field_string? w 50 p.patch
      ++ field_message? w (PatternRoundTrip.bytes w) 66 p.custom
      ++ field_string w 58 p.body
      ++ field_string w 98 p.response_body

  pub Runs-plain :
      (laws : WireLaws w) (p : Plain)
      → Runs w laws
          (field w)
          (encode_plain w p)
          (plain_bytes p)
          (rule plain_base none_left)
          (rule p none_left)
  unfolding encode_plain plain_bytes field plain_base
  Runs-plain laws p =
      Runs-string w laws 10 p.selector (λ v k. with_plain k (record (plain k) { selector = v }))
        refl (λ self k r. refl) refl
      ⨾ Runs-string? w laws 18 p.get (λ v k. with_plain k (record (plain k) { get = v })) refl
          (λ self k r. refl) refl
      ⨾ Runs-string? w laws 26 p.put (λ v k. with_plain k (record (plain k) { put = v })) refl
          (λ self k r. refl) refl
      ⨾ Runs-string? w laws 34 p.post (λ v k. with_plain k (record (plain k) { post = v })) refl
          (λ self k r. refl) refl
      ⨾ Runs-string? w laws 42 p.delete (λ v k. with_plain k (record (plain k) { delete = v })) refl
          (λ self k r. refl) refl
      ⨾ Runs-string? w laws 50 p.patch (λ v k. with_plain k (record (plain k) { patch = v })) refl
          (λ self k r. refl) refl
      ⨾ Runs-same? w laws (PatternRoundTrip.codec w laws) (λ v. refl) 66 p.custom
          (λ v k. with_plain k (record (plain k) { custom = v })) refl (Any-option p.custom)
          (λ self k r. refl) refl
      ⨾ Runs-string w laws 58 p.body (λ v k. with_plain k (record (plain k) { body = v })) refl
          (λ self k r. refl) refl
      ⨾ Runs-string w laws 98 p.response_body
          (λ v k. with_plain k (record (plain k) { response_body = v })) refl (λ self k r. refl)
          refl
