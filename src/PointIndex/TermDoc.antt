-- ===== src/PointIndex/TermDoc.antt =====
-- `PointIndexImpl::TermDocIdPair`, the key of its expire table. Its `operator==` compares the
-- documents by `<`; no container calls it, and the equality here is the one that `operator<`
-- induces.
use red_giant.Prelude.{ℕ, ◌≡◌, ◌↔◌, Bool, true, false, ◌&&◌, ◌||◌, arith, ltb, ◌==◌}
use red_giant.Key.{Key}

pub record TermDocIdPair : Type 0 where
  pub term_id : ℕ
  pub doc_id : ℕ

-- `operator<`
unfoldable pub term_doc_less : TermDocIdPair → TermDocIdPair → Bool
term_doc_less lhs rhs =
    ltb lhs.term_id rhs.term_id || ((lhs.term_id == rhs.term_id) && ltb lhs.doc_id rhs.doc_id)

abbrev pub same_term_doc : TermDocIdPair → TermDocIdPair → Bool
same_term_doc lhs rhs = (lhs.term_id == rhs.term_id) && (lhs.doc_id == rhs.doc_id)

pub same_term_doc_iff : (a b : TermDocIdPair) → (same_term_doc a b ≡ true) ↔ (a ≡ b)
same_term_doc_iff a b = ground arith

pub term_doc_irrefl : (a : TermDocIdPair) → term_doc_less a a ≡ false
unfolding term_doc_less
term_doc_irrefl a = ground arith

pub term_doc_trans :
    (a b c : TermDocIdPair)
    → term_doc_less a b ≡ true
    → term_doc_less b c ≡ true
    → term_doc_less a c ≡ true
unfolding term_doc_less
term_doc_trans a b c = ground arith

pub term_doc_connex :
    (a b : TermDocIdPair) → term_doc_less a b ≡ false → term_doc_less b a ≡ false → a ≡ b
unfolding term_doc_less
term_doc_connex a b = ground arith

instance abbrev pub term_doc_key : Key TermDocIdPair
term_doc_key = record {
  default_key = record { term_id = 0; doc_id = 0 };
  beq = same_term_doc;
  lt = term_doc_less;
  beq_iff = same_term_doc_iff;
  lt_irrefl = term_doc_irrefl;
  lt_trans = term_doc_trans;
  lt_connex = term_doc_connex;
}
