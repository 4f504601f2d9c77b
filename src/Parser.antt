-- ===== src/Parser.antt =====
-- data/json_parser.h, document_parser.cc and query_request_parser.cc: the parsers of requests.
-- Each parser has its own file, since the program has the code twice.
pub mod Query
pub mod Document
pub mod Vectors
pub mod Outcome
pub mod Reads
use red_giant.Prelude.{ℕ, Option, none, some}
use red_giant.Feature.Spaces.{Status}

-- `JsonParser::parse`: `parse_document` is `rapidjson::Document::Parse`, which gives no value where
-- it has a parse error, and `parse_json` the virtual method.
unfoldable pub parse {ℓ} :
    {T : Type ℓ} {J : Type ℓ} {Output : Type ℓ}
    → (T → Option J)
    → (J → Output → Status × Output)
    → T
    → Output
    → Status × Output
parse parse_document parse_json str output = elim (parse_document str) [
  | none ↦ (Status.failure, output)
  | some root ↦ parse_json root output
]

-- `JsonParser::parse_file`: `open_file` is `fopen`, and gives what the stream will read.
unfoldable pub parse_file {ℓ} :
    {F : Type ℓ} {T : Type ℓ} {J : Type ℓ} {Output : Type ℓ}
    → (F → Option T)
    → (T → Option J)
    → (J → Output → Status × Output)
    → F
    → Output
    → Status × Output
parse_file open_file parse_document parse_json file_name output = elim (open_file file_name) [
  | none ↦ (Status.failure, output)
  | some stream ↦ elim (parse_document stream) [
    | none ↦ (Status.failure, output)
    | some root ↦ parse_json root output
  ]
]
