-- ===== src/Store/Verify/Walked.antt =====
-- store/sqlite.py: the logs in which the walk of `verify_history` finds no fault.
use comply_roll.Common.{
  ℕ, suc, ◌≡◌, ◌↔◌, refl, ap, sym, subst, ◌∙◌, true, false, not, String, List, [], ◌∷◌, All, arith,
  nat_eqb, ltb, Bool-cases, inl, inr, eq_iff, eq_refl,
}
use comply_roll.Errors.{Result}
use comply_roll.Store.Rows.{StoredEvent, Database, rows_where, stream_rows, in_stream}
use comply_roll.Store.Json.{Json}
use comply_roll.Store.Numbered.{IsNumbered}
use comply_roll.Store.Intact.{sequence_of, version_of}
use comply_roll.Store.Verify.Sound.{
  append-eq-nil, fault_if-eq-nil, column_faults-version, IsClean, IsClean-faults,
}
use comply_roll.Store.Verify.{fault_if, column_faults, payload_faults, version_in, walk_faults}

-- The streams go on from the versions that the walk has seen.
abbrev GoOn : List (String × ℕ) → List StoredEvent → Type 0
GoOn versions rows =
    (stream_id : String)
    → IsNumbered version_of (version_in stream_id versions) (stream_rows stream_id rows)

GoOn-one :
    (row : StoredEvent) (versions : List (String × ℕ)) (rows : List StoredEvent)
    → row.stream_version ≡ suc (version_in row.stream_id versions)
    → GoOn ((row.stream_id, row.stream_version) ∷ versions) rows
    → GoOn versions (row ∷ rows)
unfolding stream_rows rows_where
GoOn-one row versions rows next rest stream_id =
    let after = rest stream_id in
    elim (Bool-cases (in_stream stream_id row)) [
      | inl e ↦
          let same : row.stream_id ≡ stream_id = (eq_iff row.stream_id stream_id).0 e in
          let here : row.stream_version ≡ suc (version_in stream_id versions) =
            next ∙ ap (λ s. suc (version_in s versions)) same in
          rw e (
            here,
            subst (λ n. IsNumbered version_of n (stream_rows stream_id rows)) here (rw e at after),
          )
      | inr e ↦ rw e (rw e at after)
    ]

GoOn-rest :
    (row : StoredEvent) (versions : List (String × ℕ)) (rows : List StoredEvent)
    → GoOn versions (row ∷ rows)
    → (row.stream_version ≡ suc (version_in row.stream_id versions))
      × GoOn ((row.stream_id, row.stream_version) ∷ versions) rows
unfolding stream_rows rows_where
GoOn-rest row versions rows go =
    let own = go row.stream_id in
    let next : row.stream_version ≡ suc (version_in row.stream_id versions) =
      (rw (eq_refl row.stream_id) at own).0 in
    (
      next,
      λ stream_id.
          let here = go stream_id in
          elim (Bool-cases (in_stream stream_id row)) [
            | inl e ↦
                let same : row.stream_id ≡ stream_id = (eq_iff row.stream_id stream_id).0 e in
                let seen : suc (version_in stream_id versions) ≡ row.stream_version =
                  sym (next ∙ ap (λ s. suc (version_in s versions)) same) in
                rw e (
                  subst (λ n. IsNumbered version_of n (stream_rows stream_id rows)) seen
                    (rw e at here).1)
            | inr e ↦ rw e (rw e at here)
          ],
    )

equal_of : (a b : ℕ) → a ≡ b → nat_eqb a b ≡ true
equal_of a b h = ground arith

equal_from : (a b : ℕ) → not (nat_eqb a b) ≡ false → a ≡ b
equal_from a b h = ground arith

positive_of : (a b : ℕ) → a ≡ suc b → ltb a 1 ≡ false
positive_of a b h = ground arith

module _ (sha256_hex : String → String) (loads : String → Result Json) where
  walk_finds :
      (start : ℕ) (versions : List (String × ℕ)) (rows : List StoredEvent)
      → walk_faults sha256_hex loads (suc start) versions rows ≡ []
      → IsNumbered sequence_of start rows × GoOn versions rows × All (IsClean sha256_hex loads) rows
  unfolding walk_faults stream_rows rows_where
  walk_finds start versions [] h = (tt, (λ stream_id. tt), tt)
  walk_finds start versions (row ∷ rows) h =
      let (columns, h1) = (append-eq-nil (column_faults row) _).0 h in
      let (payloads, h2) = (append-eq-nil (payload_faults sha256_hex loads row) _).0 h1 in
      elim (Bool-cases (ltb row.sequence 1)) [
        | inl e ↦ let h3 = rw e at h2 in cc
        | inr e ↦
            let h3 = rw e at h2 in
            let (sequence, h4) =
              (append-eq-nil (fault_if (not (nat_eqb row.sequence (suc start))) _ _) _).0 h3 in
            let numbered : row.sequence ≡ suc start =
              equal_from row.sequence (suc start)
                ((fault_if-eq-nil (not (nat_eqb row.sequence (suc start))) _ _).0 sequence) in
            let h5 = rw (column_faults-version row columns) at h4 in
            let (version, h6) =
              (append-eq-nil
                  (fault_if
                    (not (nat_eqb row.stream_version (suc (version_in row.stream_id versions)))) _
                    _)
                  _).0
                h5 in
            let next : row.stream_version ≡ suc (version_in row.stream_id versions) =
              equal_from row.stream_version (suc (version_in row.stream_id versions)) (
                (fault_if-eq-nil
                    (not (nat_eqb row.stream_version (suc (version_in row.stream_id versions)))) _
                    _).0
                  version) in
            let (sequences, go, clean) =
              walk_finds row.sequence ((row.stream_id, row.stream_version) ∷ versions) rows h6 in
            (
              (numbered, subst (λ n. IsNumbered sequence_of n rows) numbered sequences),
              GoOn-one row versions rows next go,
              ((IsClean-faults sha256_hex loads row).1 (columns, payloads), clean),
            )
      ]

  walk_passes :
      (start : ℕ) (versions : List (String × ℕ)) (rows : List StoredEvent)
      → IsNumbered sequence_of start rows
      → GoOn versions rows
      → All (IsClean sha256_hex loads) rows
      → walk_faults sha256_hex loads (suc start) versions rows ≡ []
  unfolding walk_faults
  walk_passes start versions [] numbered go clean = refl
  walk_passes start versions (row ∷ rows) numbered go clean =
      let (next, rest) = GoOn-rest row versions rows go in
      let (columns, payloads) = (IsClean-faults sha256_hex loads row).0 clean.0 in
      let positive : ltb row.sequence 1 ≡ false = positive_of row.sequence start numbered.0 in
      let expected : nat_eqb row.sequence (suc start) ≡ true =
        equal_of row.sequence (suc start) numbered.0 in
      let version : nat_eqb row.stream_version (suc (version_in row.stream_id versions)) ≡ true =
        equal_of row.stream_version (suc (version_in row.stream_id versions)) next in
      rw (
        columns,
        payloads,
        positive,
        expected,
        column_faults-version row columns,
        version,
        walk_passes row.sequence ((row.stream_id, row.stream_version) ∷ versions) rows
            (subst (λ n. IsNumbered sequence_of n rows) (sym numbered.0) numbered.1) rest clean.1,
      )

  -- The walk of `verify_history` finds no fault exactly in a log whose sequences run from 1
  -- without a gap, whose streams each hold the versions from 1 without a gap and in that order,
  -- and whose rows are sound: each name fits the pattern of names and its length, the versions are
  -- positive, the digest is that of the payload, and the payload and the metadata are the canonical
  -- writing of the objects that they decode to.
  pub walk_faults-eq-nil :
      (db : Database)
      → (walk_faults sha256_hex loads 1 [] db.events ≡ []) ↔ (
          IsNumbered sequence_of 0 db.events
          × ((stream_id : String) → IsNumbered version_of 0 (stream_rows stream_id db.events))
          × All (IsClean sha256_hex loads) db.events)
  walk_faults-eq-nil db = (
    λ h. walk_finds 0 [] db.events h,
    λ h. let (numbered, go, clean) = h in walk_passes 0 [] db.events numbered go clean,
  )
