-- ===== src/Store/Read/Pages.antt =====
-- store/sqlite.py: the pages that the two reads return.
use comply_roll.Common.{
  ℕ, zero, suc, ◌+◌, ◌≤◌, ◌≡◌, refl, sym, subst, Bool, true, false, ◌&&◌, not, String, List, [],
  ◌∷◌, All, arith, ltb, leb, nat_eqb, Bool-cases, inl, inr,
}
use comply_roll.Common.Order.{nat_order}
use comply_roll.Common.Sort.{sorted, insert_by}
use comply_roll.Errors.{ok, event_integrity, refuse_if, >>=-eq-ok}
use comply_roll.Store.Rows.{StoredEvent, rows_where, limited, in_stream, stream_rows}
use comply_roll.Store.Numbered.{IsNumbered}
use comply_roll.Store.Read.{require_contiguous}

-- What is left after so many rows.
abbrev pub dropped {ℓ} : {A : Type ℓ} → ℕ → List A → List A
dropped zero rs = rs
dropped (suc n) [] = []
dropped (suc n) (r ∷ rs) = dropped n rs

module _ {A : Type 0} (column : A → ℕ) where
  rows_where-past :
      (start after : ℕ) (rs : List A)
      → IsNumbered column start rs
      → after ≤ start
      → rows_where (λ r. ltb after (column r)) rs ≡ rs
  unfolding rows_where
  rows_where-past start after [] h past = refl
  rows_where-past start after (r ∷ rs) h past =
      let kept : ltb after (column r) ≡ true = ground (arith, h.0, past) in
      rw (kept, rows_where-past (suc start) after rs h.1 (omega (arith, past)))

  -- In numbered rows, the rows past a number are those after that many.
  rows_where-dropped :
      (start n : ℕ) (rs : List A)
      → IsNumbered column start rs
      → rows_where (λ r. ltb (start + n) (column r)) rs ≡ dropped n rs
  unfolding rows_where
  rows_where-dropped start zero rs h = rows_where-past start (start + 0) rs h (omega arith)
  rows_where-dropped start (suc n) [] h = refl
  rows_where-dropped start (suc n) (r ∷ rs) h =
      let passed : ltb (start + suc n) (column r) ≡ false = ground (arith, h.0) in
      let same : start + suc n ≡ suc start + n = omega arith in
      rw passed (
        subst (λ m. rows_where (λ r. ltb m (column r)) rs ≡ dropped n rs) (sym same)
          (rows_where-dropped (suc start) n rs h.1))

  IsNumbered-dropped :
      (start n : ℕ) (rs : List A)
      → IsNumbered column start rs
      → IsNumbered column (start + n) (dropped n rs)
  IsNumbered-dropped start zero rs h = subst (λ m. IsNumbered column m rs) (omega arith) h
  IsNumbered-dropped start (suc n) [] h = tt
  IsNumbered-dropped start (suc n) (r ∷ rs) h =
      subst (λ m. IsNumbered column m (dropped n rs)) (omega arith)
        (IsNumbered-dropped (suc start) n rs h.1)

  -- The two from the first row.
  pub rows_where-after :
      (n : ℕ) (rs : List A)
      → IsNumbered column 0 rs
      → rows_where (λ r. ltb n (column r)) rs ≡ dropped n rs
  rows_where-after n rs h =
      let none : 0 + n ≡ n = omega arith in
      subst (λ m. rows_where (λ r. ltb m (column r)) rs ≡ dropped n rs) none
        (rows_where-dropped 0 n rs h)

  pub IsNumbered-after :
      (n : ℕ) (rs : List A) → IsNumbered column 0 rs → IsNumbered column n (dropped n rs)
  IsNumbered-after n rs h =
      let none : 0 + n ≡ n = omega arith in
      subst (λ m. IsNumbered column m (dropped n rs)) none (IsNumbered-dropped 0 n rs h)

  pub IsNumbered-limited :
      (start n : ℕ) (rs : List A)
      → IsNumbered column start rs
      → IsNumbered column start (limited n rs)
  unfolding limited
  IsNumbered-limited start zero rs h = tt
  IsNumbered-limited start (suc n) [] h = tt
  IsNumbered-limited start (suc n) (r ∷ rs) h = (h.0, IsNumbered-limited (suc start) n rs h.1)

  -- Numbered rows are sorted already.
  pub sorted-numbered :
      (start : ℕ) (rs : List A) → IsNumbered column start rs → sorted column rs ≡ rs
  unfolding sorted insert_by
  sorted-numbered start [] h = refl
  sorted-numbered start (r ∷ []) h = refl
  sorted-numbered start (r ∷ s ∷ rs) h =
      let first : leb (column r) (column s) ≡ true = ground (arith, h.0, h.1.0) in
      rw (sorted-numbered (suc start) (s ∷ rs) h.1, insert_by, first)

pub require_contiguous-numbered :
    (column : StoredEvent → ℕ) (missing : String) (records : List StoredEvent) (after : ℕ)
    → IsNumbered column after records
    → require_contiguous column missing records (suc after) ≡ ok tt
unfolding require_contiguous
require_contiguous-numbered column missing [] after h = refl
require_contiguous-numbered column missing (r ∷ records) after h =
    let same : nat_eqb (column r) (suc after) ≡ true = ground (arith, h.0) in
    rw (same, require_contiguous-numbered column missing records (suc after) h.1)

pub require_contiguous-eq-ok :
    (column : StoredEvent → ℕ) (missing : String) (records : List StoredEvent) (after : ℕ)
    {u : Unit {0}}
    → require_contiguous column missing records (suc after) ≡ ok u
    → IsNumbered column after records
unfolding require_contiguous
require_contiguous-eq-ok column missing [] after h = tt
require_contiguous-eq-ok column missing (r ∷ records) after h =
    let (u, same, rest) =
      >>=-eq-ok (refuse_if (not (nat_eqb (column r) (suc after))) (event_integrity missing)) _ h in
    (ground (arith, same), require_contiguous-eq-ok column missing records (suc after) rest)

pub All-limited :
    (P : StoredEvent → Type 0) (n : ℕ) (rs : List StoredEvent) → All P rs → All P (limited n rs)
unfolding limited
All-limited P zero rs h = tt
All-limited P (suc n) [] h = tt
All-limited P (suc n) (r ∷ rs) h = (h.0, All-limited P n rs h.1)

pub All-dropped :
    (P : StoredEvent → Type 0) (n : ℕ) (rs : List StoredEvent) → All P rs → All P (dropped n rs)
All-dropped P zero rs h = h
All-dropped P (suc n) [] h = tt
All-dropped P (suc n) (r ∷ rs) h = All-dropped P n rs h.1

pub All-stream_rows :
    (P : StoredEvent → Type 0) (stream_id : String) (rs : List StoredEvent)
    → All P rs
    → All P (stream_rows stream_id rs)
unfolding stream_rows rows_where
All-stream_rows P stream_id [] h = tt
All-stream_rows P stream_id (r ∷ rs) h = elim (Bool-cases (in_stream stream_id r)) [
  | inl e ↦ rw e (h.0, All-stream_rows P stream_id rs h.1)
  | inr e ↦ rw e (All-stream_rows P stream_id rs h.1)
]

-- The two conditions of `read_stream` one after the other.
pub stream_rows-where :
    (stream_id : String) (test : StoredEvent → Bool) (rs : List StoredEvent)
    → rows_where (λ (r : StoredEvent). in_stream stream_id r && test r) rs
      ≡ rows_where test (stream_rows stream_id rs)
unfolding stream_rows rows_where
stream_rows-where stream_id test [] = refl
stream_rows-where stream_id test (r ∷ rs) = elim (Bool-cases (in_stream stream_id r)) [
  | inl e ↦ elim (Bool-cases (test r)) [
    | inl f ↦ rw (e, f, rows_where, stream_rows-where stream_id test rs)
    | inr f ↦ rw (e, f, rows_where, stream_rows-where stream_id test rs)
  ]
  | inr e ↦ rw (e, stream_rows-where stream_id test rs)
]
