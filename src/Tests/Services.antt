-- ===== src/Tests/Services.antt =====
-- The theorems on the document index and on the answers to requests at concrete inputs.
use Prim.Native.String.{String}
use red_giant.Prelude.{
  ℕ, ◌+◌, ◌^◌, ◌≡◌, ◌≢◌, ◌↔◌, ◌⊎◌, refl, true, false, Option, none, some, List, [], ◌∷◌, arith,
  length, if◌then◌else◌, ◌==◌,
}
use red_giant.Key.{nat_key}
use red_giant.Key.Assoc.{lookup}
use red_giant.Weight.{nat_weight}
use red_giant.ExpireTable
use red_giant.ExpireTable.Pairs.{pair_key}
use red_giant.PostingList.{BTreePostingListReader}
use red_giant.BaseIndex.Posting.{visible}
use red_giant.RowIndex.Docterm.{last_weight}
use red_giant.RowIndex.Rows.{Represents, set_row}
use red_giant.RowIndex.Expiry.{drop_rows}
use red_giant.DocumentId.{DocumentId}
use red_giant.Feature.Spaces.{Status}
use red_giant.Parser.Query.{QueryRequest}
use red_giant.Parser.Document.{Document}
use red_giant.Ranking.{IntermQuery, direct_process}
use red_giant.DocumentIndex
use red_giant.DocumentIndex.{do_maintain}
use red_giant.DocumentIndex.Laws.{update-do_maintain}
use red_giant.Service.{RequestContext, Response, Method, query_request_of}
use red_giant.Service.Answers.{answer, answer-status, IsWellFormed, exceeds, status_of, results_of}
use red_giant.Tests.Lists.{map}
use red_giant.Tests.Indexes.{set, two_documents, two_rows, two-Represents}
use red_giant.Tests.Parsers.{empty_request, read_vectors}

abbrev five : Document ℕ
five = record { id = record { low = 5; high = 0 }; id_str = "5"; feature_vectors = read_vectors }

abbrev asking : QueryRequest ℕ
asking = record empty_request { feature_vectors = read_vectors }

update-do_maintain_example :
    let (ret, index1) = DocumentIndex.update map set five 20 two_documents in
    let (count, index2) = do_maintain map set 8 index1 in
    let expired =
      (ExpireTable.expire_with_limit set (8 + 2 ^ 31) index1.max_size index1.expire).0 in
    let row = (direct_process asking).features in
    let rows2 = drop_rows expired (set_row 5 row two_rows) in
    (ret ≡ (if 5 == 0 then 0 else length row))
    × (lookup 5 index1.expire.expire_map ≡ some (20 + 2 ^ 31))
    × Represents map set index2 rows2
    × (visible map index2.base 11 4 ≡ last_weight 11 (rows2 4))
    × (index2.base.changed_index ≡ [])
update-do_maintain_example =
    update-do_maintain map set five asking 20 8 two_documents two_rows 11 4 two-Represents refl
      (omega arith) (omega arith) (omega arith)

abbrev one_query : List (ℕ × (BTreePostingListReader ℕ → ℕ × List ℕ))
one_query = (10, λ r. (3, [])) ∷ []

no_params : String → String
no_params s = ""

abbrev request : RequestContext
request = record {
  method = Method.post;
  content_length = 2;
  content = "{}";
  query_param = no_params;
}

model : QueryRequest ℕ → Option (IntermQuery ℕ)
model r = some (record { features = (9, 1) ∷ [] })

found : List (ℕ × ℕ) → Option ℕ
found q = some 7

top : ℕ → ℕ → List (ℕ × ℕ)
top r n = (3, 10) ∷ []

name_of : ℕ → String
name_of d = "3"

number_of : String → ℕ
number_of s = 0

read_query : String → QueryRequest ℕ → Status × QueryRequest ℕ
read_query s r = (Status.success, r)

-- The answer with room for 1000 results.
abbrev answered : Option (Response ℕ)
answered = answer model found top 1000 name_of number_of read_query request

answer-status_example :
    let query_request = (read_query "{}" (query_request_of number_of request)).1 in
    let processed = model query_request in
    let IsFormed = IsWellFormed model found top 1000 name_of number_of read_query request in
    let over = exceeds model found top 1000 name_of number_of read_query query_request in
    ((status_of answered ≡ 0) ↔ (IsFormed × (over ≡ true)))
    × ((status_of answered ≡ 200) ↔ (IsFormed × (processed ≢ none) × (over ≡ false)))
    × ((status_of answered ≡ 500) ↔ (IsFormed × (processed ≡ none)))
    × ((status_of answered ≡ 0)
        ⊎ (status_of answered ≡ 200)
        ⊎ (status_of answered ≡ 500)
        ⊎ (status_of answered ≡ 400))
    × (status_of answered ≢ 200 → results_of answered ≡ [])
answer-status_example = answer-status model found top 1000 name_of number_of read_query request

abbrev put_request : RequestContext
put_request = record request { method = Method.put }

abbrev no_uuid : String → Option DocumentId
no_uuid s = none

abbrev no_number : String → Option ℕ
no_number s = none

abbrev read_document : String → Document ℕ → Status × Document ℕ
read_document s d = (Status.success, five)
