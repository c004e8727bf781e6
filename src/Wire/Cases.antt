-- ===== src/Wire/Cases.antt =====
-- The cases of the `switch` of a generated `decode` of web/src/generated, on any bytes.
use sample_grpc_service.Prelude.{ℕ, String, Bool, Option, none, length}
use sample_grpc_service.Prelude.Outcome.{Outcome}
use sample_grpc_service.Wire.{Wire, WireLaws, Reader, on_case, read_string, read_bool}
use sample_grpc_service.Wire.Loop.{EndsField, on_case-Ends, read_string-Ends, read_bool-Ends}

-- The cases of a switch that end.
pub record Total {B M : Type 0} (n : ℕ) (cases : Option (Outcome (M × Reader B))) : Type 0 where
  pub ends : EndsField n cases

pub no_case : {B M : Type 0} {n : ℕ} → Total {B = B} {M = M} n none
no_case = record { ends = tt }

module _ {B M : Type 0} (r : Reader B) (n t tag : ℕ) where
  pub some_case :
      (one : Option (Outcome (M × Reader B))) {others : Option (Outcome (M × Reader B))}
      → EndsField (length r.rest) one
      → Total (length r.rest) others
      → Total (length r.rest) (on_case n t tag one others)
  some_case one {others} ends h = record {
    ends = on_case-Ends (length r.rest) n t tag one others ends h.ends;
  }

-- A case that reads a text or a flag, before others.
module _ (w : Wire) (laws : WireLaws w) {M : Type 0} (r : Reader w.Byte) (n t tag : ℕ) where
  pub string_case :
      (set : String → M) {others : Option (Outcome (M × Reader w.Byte))}
      → Total (length r.rest) others
      → Total (length r.rest) (on_case n t tag (read_string w r set) others)
  string_case set h = some_case r n t tag _ (read_string-Ends w laws r set) h

  pub bool_case :
      (set : Bool → M) {others : Option (Outcome (M × Reader w.Byte))}
      → Total (length r.rest) others
      → Total (length r.rest) (on_case n t tag (read_bool w r set) others)
  bool_case set h = some_case r n t tag _ (read_bool-Ends w laws r set) h
