-- ===== src/Store/Projection/Checkpoints.antt =====
-- store/sqlite.py: the table of checkpoints after a checkpoint is put into it or deleted.
use comply_roll.Common.{
  ◌≤◌, ◌≡◌, refl, ap, sym, subst, ◌∙◌, Bool, false, not, ◌==◌, String, List, [], ◌∷◌, length, All,
  arith, Bool-cases, inl, inr, none, some, if◌then◌else◌, eq_iff, eq_refl,
}
use comply_roll.Store.Rows.{Checkpoint, Database, rows_where}
use comply_roll.Store.Intact.{IsIntact}
use comply_roll.Store.Projection.{
  or_start, checkpoint_row, current_projection_sequence, upsert_checkpoint,
}

-- The rows of one projection after the upsert of a row.
checkpoint_row-upsert :
    (name : String) (row : Checkpoint) (rows : List Checkpoint)
    → checkpoint_row name (upsert_checkpoint row rows)
      ≡ (if row.projection_name == name then some row else checkpoint_row name rows)
unfolding checkpoint_row upsert_checkpoint
checkpoint_row-upsert name row [] = refl
checkpoint_row-upsert name row (c ∷ rows) =
    elim (Bool-cases (c.projection_name == row.projection_name)) [
      | inl e ↦
          let same : c.projection_name ≡ row.projection_name =
            (eq_iff c.projection_name row.projection_name).0 e in
          rw e (elim (Bool-cases (row.projection_name == name)) [
            | inl f ↦ rw (f, checkpoint_row)
            | inr f ↦ rw (f, checkpoint_row, same, f)
          ])
      | inr e ↦ elim (Bool-cases (c.projection_name == name)) [
        | inl f ↦ elim (Bool-cases (row.projection_name == name)) [
          | inl g ↦
              let first = (eq_iff c.projection_name name).0 f in
              let second = (eq_iff row.projection_name name).0 g in
              let both = (eq_iff c.projection_name row.projection_name).1 (first ∙ sym second) in cc
          | inr g ↦ rw (e, checkpoint_row, f, g)
        ]
        | inr f ↦ rw (e, checkpoint_row, f) (checkpoint_row-upsert name row rows)
      ]
    ]

checkpoint_row-without :
    (name other : String) (rows : List Checkpoint)
    → checkpoint_row name (rows_where (λ (c : Checkpoint). not (c.projection_name == other)) rows)
      ≡ (if other == name then none else checkpoint_row name rows)
unfolding checkpoint_row rows_where
checkpoint_row-without name other [] = ground arith
checkpoint_row-without name other (c ∷ rows) =
    let rest = checkpoint_row-without name other rows in
    elim (Bool-cases (c.projection_name == other)) [
      | inl e ↦
          let same : c.projection_name ≡ other = (eq_iff c.projection_name other).0 e in
          rw e
            (rest ∙ (elim (Bool-cases (other == name)) [ inl f ↦ rw f | inr f ↦ rw (f, same, f) ]))
      | inr e ↦ elim (Bool-cases (c.projection_name == name)) [
        | inl f ↦ elim (Bool-cases (other == name)) [
          | inl g ↦
              let first = (eq_iff c.projection_name name).0 f in
              let second = (eq_iff other name).0 g in
              let both = (eq_iff c.projection_name other).1 (first ∙ sym second) in cc
          | inr g ↦ rw (e, checkpoint_row, f, g)
        ]
        | inr f ↦ rw (e, checkpoint_row, f) rest
      ]
    ]

pub All-upsert :
    (P : Checkpoint → Type 0) (row : Checkpoint) (rows : List Checkpoint)
    → P row
    → All P rows
    → All P (upsert_checkpoint row rows)
unfolding upsert_checkpoint
All-upsert P row [] h k = (h, tt)
All-upsert P row (c ∷ rows) h k = elim (Bool-cases (c.projection_name == row.projection_name)) [
  | inl e ↦ rw e (h, k.1)
  | inr e ↦ rw e (k.0, All-upsert P row rows h k.1)
]

pub All-rows_where :
    (P : Checkpoint → Type 0) (test : Checkpoint → Bool) (rows : List Checkpoint)
    → All P rows
    → All P (rows_where test rows)
unfolding rows_where
All-rows_where P test [] h = tt
All-rows_where P test (c ∷ rows) h = elim (Bool-cases (test c)) [
  | inl e ↦ rw e (h.0, All-rows_where P test rows h.1)
  | inr e ↦ rw e (All-rows_where P test rows h.1)
]

-- The database with other checkpoints, none of them ahead of the log.
pub with_checkpoints-IsIntact :
    (rows : List Checkpoint) (db : Database)
    → IsIntact db
    → All (λ (c : Checkpoint). c.last_sequence ≤ length db.events) rows
    → IsIntact (record db { checkpoints = rows })
with_checkpoints-IsIntact rows db intact behind = record {
  sequences = intact.sequences;
  versions = intact.versions;
  identifiers = intact.identifiers;
  one_counter = intact.one_counter;
  counter = intact.counter;
  marked = intact.marked;
  supported = intact.supported;
  records = intact.records;
  recorded = intact.recorded;
  checkpoints = behind;
}

-- The checkpoint of every projection but one.
abbrev pub AgreeApart : String → Database → Database → Type 0
AgreeApart name before after =
    (other : String)
    → (name == other) ≡ false
    → current_projection_sequence other after ≡ current_projection_sequence other before

pub current-upsert :
    (name : String) (row : Checkpoint) (db : Database)
    → row.projection_name ≡ name
    → (current_projection_sequence name
          (record db { checkpoints = upsert_checkpoint row db.checkpoints })
        ≡ row.last_sequence)
      × AgreeApart name db (record db { checkpoints = upsert_checkpoint row db.checkpoints })
unfolding current_projection_sequence
current-upsert name row db named = (
  ap or_start (checkpoint_row-upsert name row db.checkpoints)
      ∙ rw ((eq_iff row.projection_name name).1 named),
  λ other apart.
      let differs : (row.projection_name == other) ≡ false =
        subst (λ n. (n == other) ≡ false) (sym named) apart in
      ap or_start (checkpoint_row-upsert other row db.checkpoints) ∙ rw differs,
)

pub current-without :
    (name : String) (db : Database)
    → (current_projection_sequence name (record db {
      checkpoints = rows_where (λ (c : Checkpoint). not (c.projection_name == name)) db.checkpoints;
    })
        ≡ 0)
      × AgreeApart name db (record db {
        checkpoints =
            rows_where (λ (c : Checkpoint). not (c.projection_name == name)) db.checkpoints;
      })
unfolding current_projection_sequence
current-without name db = (
  ap or_start (checkpoint_row-without name name db.checkpoints) ∙ rw (eq_refl name),
  λ other apart. ap or_start (checkpoint_row-without other name db.checkpoints) ∙ rw apart,
)
