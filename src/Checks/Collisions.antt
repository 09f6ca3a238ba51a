-- ===== src/Checks/Collisions.antt =====
-- reports/checks.py: `tracking_id_collisions`. `object` stands for the identity that `is` tests.
use comply_roll.Common.{
  ℕ, ◌≡◌, ◌↔◌, refl, true, String, Option, none, some, List, [], ◌∷◌, ◌++◌, ◌==◌, nat_eqb,
  if◌then◌else◌, All, All-imp, arith, eq_iff, eq_refl, Option-cases, Bool-cases, inl, inr, is_none,
  sym, ◌∙◌, ap,
}

-- `TrackingIdClaim`
pub record TrackingIdClaim : Type 0 where
  pub object : ℕ
  pub tracking_id : String
  pub original_tracking_id : String
  pub evaluation_location : String

-- `claimed.get(tracking_id)`
unfoldable pub holder : String → List TrackingIdClaim → Option TrackingIdClaim
holder tracking_id [] = none
holder tracking_id (c ∷ rest) =
    if c.tracking_id == tracking_id then some c else holder tracking_id rest

abbrev pub Collision : Type 0
Collision = TrackingIdClaim × TrackingIdClaim

-- `if previous is not claim: collisions.append((previous, claim))`
unfoldable noted : Option TrackingIdClaim → TrackingIdClaim → List Collision → List Collision
noted none claim rest = rest
noted (some previous) claim rest =
    if nat_eqb previous.object claim.object then rest else (previous, claim) ∷ rest

-- `claimed.setdefault(claim.tracking_id, claim)`
unfoldable claim_under :
    Option TrackingIdClaim → TrackingIdClaim → List TrackingIdClaim → List TrackingIdClaim
claim_under none claim claimed = claimed ++ claim ∷ []
claim_under (some _) claim claimed = claimed

-- The loop of `tracking_id_collisions`.
unfoldable pub collisions_from : List TrackingIdClaim → List TrackingIdClaim → List Collision
unfolding noted claim_under
collisions_from [] claimed = []
collisions_from (claim ∷ rest) claimed =
    let previous = holder claim.tracking_id claimed in
    noted previous claim (collisions_from rest (claim_under previous claim claimed))

-- `tracking_id_collisions`
unfoldable pub tracking_id_collisions : List TrackingIdClaim → List Collision
tracking_id_collisions claims = collisions_from claims []

-- Two claims on one tracking id are one object.
abbrev pub Agree : TrackingIdClaim → TrackingIdClaim → Type 0
Agree c d = c.tracking_id ≡ d.tracking_id → c.object ≡ d.object

abbrev pub Apart : List TrackingIdClaim → Type 0
Apart [] = Unit
Apart (c ∷ rest) = All (Agree c) rest × Apart rest

holder-append :
    (id : String) (claimed : List TrackingIdClaim) (c : TrackingIdClaim)
    → holder id (claimed ++ c ∷ []) ≡ (
        if is_none (holder id claimed)
        then (if c.tracking_id == id then some c else none)
        else holder id claimed)
unfolding holder
holder-append id [] c = refl
holder-append id (d ∷ claimed) c = ground (arith, holder-append id claimed c)

holder-tracking_id :
    (id : String) (claimed : List TrackingIdClaim) (q : TrackingIdClaim)
    → holder id claimed ≡ some q
    → q.tracking_id ≡ id
unfolding holder
holder-tracking_id id [] q h = cc
holder-tracking_id id (c ∷ claimed) q h = elim (Bool-cases (c.tracking_id == id)) [
  | inl e ↦
      let found : some c ≡ some q = rw e at h in
      let is_q : c ≡ q = cc in
      ap (λ (c : TrackingIdClaim). c.tracking_id) (sym is_q) ∙ (eq_iff c.tracking_id id).0 e
  | inr e ↦ holder-tracking_id id claimed q (rw e at h)
]

nat_eqb_refl : (n : ℕ) → nat_eqb n n ≡ true
nat_eqb_refl n = ground arith

noted-none :
    (q d : TrackingIdClaim) (rest : List Collision)
    → noted (some q) d rest ≡ []
    → (q.object ≡ d.object) × (rest ≡ [])
unfolding noted
noted-none q d rest h = (ground arith, ground arith)

kept_apart :
    (rest claimed : List TrackingIdClaim) (p : TrackingIdClaim)
    → holder p.tracking_id claimed ≡ some p
    → collisions_from rest claimed ≡ []
    → All (Agree p) rest
unfolding collisions_from noted claim_under
kept_apart [] claimed p h k = tt
kept_apart (d ∷ rest) claimed p h k = elim (Option-cases (holder d.tracking_id claimed)) [
  | inl e ↦ (
    (λ same. let bad : none ≡ some p = sym e ∙ ap (λ id. holder id claimed) (sym same) ∙ h in cc),
    kept_apart rest (claimed ++ d ∷ []) p (holder-append p.tracking_id claimed d ∙ rw h)
        (rw e at k),
  )
  | inr (q, e) ↦
      let (one, none_left) = noted-none q d (collisions_from rest claimed) (rw e at k) in
      (
        (λ same.
            let found : some q ≡ some p = sym e ∙ ap (λ id. holder id claimed) (sym same) ∙ h in
            let is_p : q ≡ p = cc in ap (λ (c : TrackingIdClaim). c.object) (sym is_p) ∙ one),
        kept_apart rest claimed p h none_left,
      )
]

all-Apart :
    (claims claimed : List TrackingIdClaim) → collisions_from claims claimed ≡ [] → Apart claims
unfolding collisions_from noted claim_under
all-Apart [] claimed k = tt
all-Apart (d ∷ rest) claimed k = elim (Option-cases (holder d.tracking_id claimed)) [
  | inl e ↦ (
    kept_apart rest (claimed ++ d ∷ []) d
        (holder-append d.tracking_id claimed d ∙ rw (e, eq_refl d.tracking_id)) (rw e at k),
    all-Apart rest (claimed ++ d ∷ []) (rw e at k),
  )
  | inr (q, e) ↦
      let (one, none_left) = noted-none q d (collisions_from rest claimed) (rw e at k) in
      let named = holder-tracking_id d.tracking_id claimed q e in
      (
        All-imp rest (λ x agree same. sym one ∙ agree (named ∙ same))
            (kept_apart rest claimed q (ap (λ id. holder id claimed) named ∙ e) none_left),
        all-Apart rest claimed none_left,
      )
]

-- A claim is one object with the earlier claim on its id, if there is one.
abbrev Fits : List TrackingIdClaim → TrackingIdClaim → Type 0
Fits claimed d = (q : TrackingIdClaim) → holder d.tracking_id claimed ≡ some q → q.object ≡ d.object

Fits-append :
    (claimed : List TrackingIdClaim) (c d : TrackingIdClaim)
    → Agree c d
    → Fits claimed d
    → Fits (claimed ++ c ∷ []) d
Fits-append claimed c d agree fits q e = elim (Option-cases (holder d.tracking_id claimed)) [
  | inl f ↦ elim (Bool-cases (c.tracking_id == d.tracking_id)) [
    | inl g ↦
        let found : some c ≡ some q = rw (holder-append d.tracking_id claimed c, f, g) at e in
        let is_q : c ≡ q = cc in
        ap (λ (c : TrackingIdClaim). c.object) (sym is_q)
        ∙ agree ((eq_iff c.tracking_id d.tracking_id).0 g)
    | inr g ↦
        let found : none ≡ some q = rw (holder-append d.tracking_id claimed c, f, g) at e in cc
  ]
  | inr (p, f) ↦ fits q (f ∙ rw (holder-append d.tracking_id claimed c, f) at e)
]

none-Apart :
    (claims claimed : List TrackingIdClaim)
    → Apart claims
    → All (Fits claimed) claims
    → collisions_from claims claimed ≡ []
unfolding collisions_from noted claim_under
none-Apart [] claimed a f = refl
none-Apart (d ∷ rest) claimed a f = elim (Option-cases (holder d.tracking_id claimed)) [
  | inl e ↦ rw e (none-Apart rest (claimed ++ d ∷ []) a.1 (fit rest a.0 f.1))
  | inr (q, e) ↦ rw (e, f.0 q e, nat_eqb_refl d.object) (none-Apart rest claimed a.1 f.1)
]
  where
    fit :
        (l : List TrackingIdClaim)
        → All (Agree d) l
        → All (Fits claimed) l
        → All (Fits (claimed ++ d ∷ [])) l
    fit [] g h = tt
    fit (x ∷ l) g h = (Fits-append claimed d x g.0 h.0, fit l g.1 h.1)

unclaimed : (l : List TrackingIdClaim) → All (Fits []) l
unfolding holder
unclaimed [] = tt
unclaimed (x ∷ l) = ((λ q e. cc), unclaimed l)

-- No collision is reported exactly if no two claims hold one tracking id but as one object.
pub tracking_id_collisions_lem :
    (claims : List TrackingIdClaim) → (tracking_id_collisions claims ≡ []) ↔ Apart claims
unfolding tracking_id_collisions
tracking_id_collisions_lem claims =
    (all-Apart claims [], λ a. none-Apart claims [] a (unclaimed claims))
