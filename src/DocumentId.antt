-- ===== src/DocumentId.antt =====
-- data/document_id.h: 128-bit document ids, and the number that such an id stands for. The core
-- templates are modelled over those numbers; 0 is `DocumentId()`.
pub mod Value
use red_giant.Prelude.{
  ℕ, ◌+◌, ◌-◌, ◌*◌, ◌%◌, ◌^◌, ◌<◌, Bool, true, false, ◌&&◌, ◌||◌, not, ltb, leb, ◌==◌,
  if◌then◌else◌,
}

-- 2 ^ 64, the range of a `uint64_t`.
abbrev pub word : ℕ
word = 18446744073709551616

pub record DocumentId : Type 0 where
  pub low : ℕ
  pub high : ℕ

-- `DocumentId()`
abbrev pub invalid_id : DocumentId
invalid_id = record { low = 0; high = 0 }

unfoldable pub eq : DocumentId → DocumentId → Bool
eq lhs rhs = (lhs.low == rhs.low) && (lhs.high == rhs.high)

unfoldable pub ne : DocumentId → DocumentId → Bool
ne lhs rhs = not (lhs.low == rhs.low) || not (lhs.high == rhs.high)

unfoldable pub lt : DocumentId → DocumentId → Bool
lt lhs rhs = ltb lhs.high rhs.high || ((lhs.high == rhs.high) && ltb lhs.low rhs.low)

unfoldable pub le : DocumentId → DocumentId → Bool
le lhs rhs = ltb lhs.high rhs.high || ((lhs.high == rhs.high) && leb lhs.low rhs.low)

unfoldable pub gt : DocumentId → DocumentId → Bool
gt lhs rhs = ltb rhs.high lhs.high || ((lhs.high == rhs.high) && ltb rhs.low lhs.low)

unfoldable pub ge : DocumentId → DocumentId → Bool
ge lhs rhs = ltb rhs.high lhs.high || ((lhs.high == rhs.high) && leb rhs.low lhs.low)

-- `operator bool`
unfoldable pub is_valid : DocumentId → Bool
is_valid id = not (id.low == 0) || not (id.high == 0)

-- `++` and `--` on a `uint64_t`.
abbrev pub inc_word : ℕ → ℕ
inc_word x = (x + 1) % word

abbrev pub dec_word : ℕ → ℕ
dec_word x = (x + word - 1) % word

-- `operator++`
unfoldable pub inc : DocumentId → DocumentId
inc id =
    let low = inc_word id.low in
    if low == 0
    then record { low = low; high = inc_word id.high }
    else record { low = low; high = id.high }

-- `operator--`
unfoldable pub dec : DocumentId → DocumentId
dec id =
    if id.low == 0
    then record { low = dec_word id.low; high = dec_word id.high }
    else record { low = dec_word id.low; high = id.high }
