-- ===== src/Examples/Matrix.antt =====
-- The theorems about the table of endpoints at a small OpenAPI file.
use mathlib.Core.List.{[], ◌∷◌}
use sonicwall_sdk.Prelude.{◌≡◌, refl, inr, arith}
use sonicwall_sdk.Prelude.Text.{begins_with, rstrip}
use sonicwall_sdk.Prelude.Text.Lines.{unlines}
use sonicwall_sdk.EndpointMatrix.{parse_spec_endpoints, token_of}
use sonicwall_sdk.EndpointMatrix.Kinds.{AreEndpoints, parse-AreEndpoints}
use sonicwall_sdk.EndpointMatrix.Document.{Document, document_lines, get, post, delete}
use sonicwall_sdk.EndpointMatrix.Printed.{parse-document}

parse-AreEndpoints_example :
    AreEndpoints (parse_spec_endpoints "paths:\n  /auth:\n    post:\n      summary: x\nend:")
parse-AreEndpoints_example =
    parse-AreEndpoints "paths:\n  /auth:\n    post:\n      summary: x\nend:"

-- Two paths, one with two operations.
abbrev small : Document
small = record {
  preamble = "openapi: 3.0.3" ∷ "info:" ∷ [];
  items =
      record {
        rest = "auth";
        details = [];
        operations =
            record { method = post; details = "      summary: Authenticate" ∷ [] }
            ∷ record { method = delete; details = [] }
            ∷ [];
      }
      ∷ record {
        rest = "version";
        details = "    description: The firmware" ∷ [];
        operations = record { method = get; details = [] } ∷ [];
      }
      ∷ [];
  sections = "components:" ∷ [];
}

parse-document_example :
    parse_spec_endpoints (unlines (document_lines small))
    ≡ ("POST", "/auth") ∷ ("DELETE", "/auth") ∷ ("GET", "/version") ∷ []
unfolding begins_with rstrip token_of document_lines
parse-document_example =
    parse-document small
      (record {
        before = (refl, (refl, tt));
        items = (tt, ((inr (refl, refl), tt), (tt, tt)), ((inr (refl, refl), tt), (tt, tt), tt));
        after = (refl, refl, refl);
      })
      (ground arith)
