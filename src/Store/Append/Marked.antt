-- ===== src/Store/Append/Marked.antt =====
-- store/sqlite.py: what `_mark_schema` leaves of an intact database.
use comply_roll.Common.{
  ℕ, zero, suc, ◌+◌, ◌-◌, ◌≤◌, ◌≡◌, refl, ap, sym, subst, ◌∙◌, false, List, [], ◌∷◌, ◌++◌, length,
  length-append, arith, leb, ltb, any, Bool-cases, inl, inr,
}
use comply_roll.Errors.{ok}
use comply_roll.Instant.{Datetime, to_utc}
use comply_roll.Store.Rows.{Migration, Database}
use comply_roll.Store.Arguments.{supported_schema_version}
use comply_roll.Store.Session.{and_then_check-eq-ok}
use comply_roll.Store.Append.{
  mark_schema, migrations_from, require_own_schema, require_no_record_ahead,
}
use comply_roll.Store.Numbered.{IsNumbered, IsNumbered-append}
use comply_roll.Store.Intact.{IsIntact}

migrations_from-numbered :
    (count version at : ℕ)
    → IsNumbered (λ (m : Migration). m.version) version (migrations_from count (suc version) at)
unfolding migrations_from
migrations_from-numbered zero version at = tt
migrations_from-numbered (suc count) version at =
    (refl, migrations_from-numbered count (suc version) at)

length-migrations_from : (count version at : ℕ) → length (migrations_from count version at) ≡ count
unfolding migrations_from
length-migrations_from zero version at = refl
length-migrations_from (suc count) version at =
    ap suc (length-migrations_from count (suc version) at)

abbrev marked_at : ℕ → ℕ → Database → Database
marked_at applied_at required db = record db {
  migrations =
      db.migrations
      ++ migrations_from (required - db.user_version) (suc db.user_version) applied_at;
  user_version = required;
}

marked_at-IsIntact :
    (applied_at required : ℕ) (db : Database)
    → IsIntact db
    → required ≤ supported_schema_version
    → leb required db.user_version ≡ false
    → IsIntact (marked_at applied_at required db)
marked_at-IsIntact applied_at required db intact few below = record {
  sequences = intact.sequences;
  versions = intact.versions;
  identifiers = intact.identifiers;
  one_counter = intact.one_counter;
  counter = intact.counter;
  marked = intact.marked;
  supported = (ground (arith, below, intact.supported.0), few);
  records =
      IsNumbered-append _ 0 db.migrations
        (migrations_from (required - db.user_version) (suc db.user_version) applied_at)
        intact.records
        (subst
          (λ n.
            IsNumbered (λ (m : Migration). m.version) n
              (migrations_from (required - db.user_version) (suc db.user_version) applied_at))
          (sym intact.recorded ∙ omega arith)
          (migrations_from-numbered (required - db.user_version) db.user_version applied_at));
  recorded =
      length-append db.migrations
        (migrations_from (required - db.user_version) (suc db.user_version) applied_at)
      ∙ ground (
        arith,
        below,
        intact.recorded,
        length-migrations_from (required - db.user_version) (suc db.user_version) applied_at,
      );
  checkpoints = intact.checkpoints;
}

pub mark_schema-eq-ok :
    (clock : Datetime) (required : ℕ) (db : Database) {u : Unit {0}} {after : Database}
    → IsIntact db
    → required ≤ supported_schema_version
    → mark_schema clock required db ≡ (ok u, after)
    → IsIntact after × (after.events ≡ db.events) × (after.checkpoints ≡ db.checkpoints)
unfolding mark_schema
mark_schema-eq-ok clock required db {u} {after} intact few returns =
    let (u1, own, h1) = and_then_check-eq-ok (require_own_schema db) db _ returns in
    elim (Bool-cases (leb required db.user_version)) [
      | inl e ↦
          let h2 = rw e at h1 in
          let same : after ≡ db = cc in
          (
            subst IsIntact (sym same) intact,
            ap (λ (d : Database). d.events) same,
            ap (λ (d : Database). d.checkpoints) same,
          )
      | inr e ↦
          let h2 = rw e at h1 in
          let (u2, none_ahead, h3) = and_then_check-eq-ok (require_no_record_ahead db) db _ h2 in
          let (applied_at, read, h4) = and_then_check-eq-ok (to_utc clock) db _ h3 in
          let same : after ≡ marked_at applied_at required db = cc in
          (
            subst IsIntact (sym same) (marked_at-IsIntact applied_at required db intact few e),
            ap (λ (d : Database). d.events) same,
            ap (λ (d : Database). d.checkpoints) same,
          )
    ]

numbered_below :
    (start top : ℕ) (ms : List Migration)
    → IsNumbered (λ (m : Migration). m.version) start ms
    → start + length ms ≤ top
    → any (λ (m : Migration). ltb top m.version) ms ≡ false
numbered_below start top [] h few = refl
numbered_below start top (m ∷ ms) h few =
    ground (arith, h.0, numbered_below (suc start) top ms h.1 (omega (arith, few)))

own_schema : (db : Database) → IsIntact db → require_own_schema db ≡ ok tt
unfolding require_own_schema
own_schema db intact = ground (arith, intact.supported.0, intact.supported.1, intact.marked)

none_ahead : (db : Database) → IsIntact db → require_no_record_ahead db ≡ ok tt
unfolding require_no_record_ahead
none_ahead db intact =
    rw (
      numbered_below 0 db.user_version db.migrations intact.records
        (omega (arith, intact.recorded)))

-- An intact database is marked whenever the clock can be read.
pub mark_schema-succeeds :
    (clock : Datetime) (required : ℕ) (db : Database) {applied_at : ℕ}
    → IsIntact db
    → to_utc clock ≡ ok applied_at
    → (after : Database) × (mark_schema clock required db ≡ (ok tt, after))
unfolding mark_schema
mark_schema-succeeds clock required db {applied_at} intact read =
    elim (Bool-cases (leb required db.user_version)) [
      | inl e ↦ (db, rw (own_schema db intact, e))
      | inr e ↦ (
        marked_at applied_at required db,
        rw (own_schema db intact, e, none_ahead db intact, read),
      )
    ]
