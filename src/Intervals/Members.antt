-- ===== src/Intervals/Members.antt =====
-- Which intervals a list holds, through sorting and the removal of the empty ones.
use learn_go.Prelude.{◌<◌, ◌≡◌, ◌⊎◌, List, [], ◌∷◌, Ordering, arith, inl, inr, Bool-cases}
use learn_go.Intervals.{Interval, is_empty, non_empty, put_before, sort_func}
use Prim.Native.Nat.Ordering.{lt, eq, gt}

abbrev pub In : Interval → List Interval → Type 0
In iv [] = ⊥
In iv (x ∷ s) = (iv ≡ x) ⊎ In iv s

abbrev pub AllIn : List Interval → List Interval → Type 0
AllIn [] s = Unit
AllIn (iv ∷ chosen) s = In iv s × AllIn chosen s

pub In-put_before :
    (by : Interval → Interval → Ordering) (t iv : Interval) (s : List Interval)
    → ((In t (iv ∷ s) → In t (put_before by iv s)) × (In t (put_before by iv s) → In t (iv ∷ s)))
In-put_before by t iv [] = (λ h. h, λ h. h)
In-put_before by t iv (x ∷ s) = split (by iv x) (In-put_before by t iv s)
  where
    split :
        (side : Ordering)
        → ((In t (iv ∷ s) → In t (put_before by iv s))
            × (In t (put_before by iv s) → In t (iv ∷ s)))
        → (let out : List Interval = elim side [ gt ↦ x ∷ put_before by iv s | _ ↦ iv ∷ x ∷ s ] in
            ((In t (iv ∷ x ∷ s) → In t out) × (In t out → In t (iv ∷ x ∷ s))))
    split lt r = (λ h. h, λ h. h)
    split eq r = (λ h. h, λ h. h)
    split gt (there, back) = (
      λ h. elim h [
        | inl own ↦ inr (there (inl own))
        | inr rest ↦ elim rest [ inl first ↦ inl first | inr later ↦ inr (there (inr later)) ]
      ],
      λ h. elim h [
        | inl first ↦ inr (inl first)
        | inr rest ↦ elim (back rest) [ inl own ↦ inl own | inr later ↦ inr (inr later) ]
      ],
    )

pub In-sort_func :
    (by : Interval → Interval → Ordering) (t : Interval) (s : List Interval)
    → In t s
    → In t (sort_func by s)
In-sort_func by t [] h = h
In-sort_func by t (x ∷ s) h =
    (In-put_before by t x (sort_func by s)).0
      (elim h [ inl own ↦ inl own | inr later ↦ inr (In-sort_func by t s later) ])

pub held_given :
    (by : Interval → Interval → Ordering) (t : Interval) (s : List Interval)
    → In t (sort_func by s)
    → In t s
held_given by t [] h = h
held_given by t (x ∷ s) h = elim ((In-put_before by t x (sort_func by s)).1 h) [
  | inl own ↦ inl own
  | inr later ↦ inr (held_given by t s later)
]

pub In-non_empty :
    (t : Interval) (s : List Interval) → t.start < t.end → In t s → In t (non_empty s)
In-non_empty t [] k h = h
In-non_empty t (x ∷ s) k h = elim (Bool-cases (is_empty x)) [
  | inl empty ↦ elim h [
    | inl own ↦ absurd (let full = rw own at k in ground arith)
    | inr later ↦ rw empty (In-non_empty t s k later)
  ]
  | inr full ↦ elim h [
    | inl own ↦ rw full (inl own)
    | inr later ↦ rw full (inr (In-non_empty t s k later))
  ]
]

pub held_also : (t : Interval) (s : List Interval) → In t (non_empty s) → In t s
held_also t [] h = h
held_also t (x ∷ s) h = elim (Bool-cases (is_empty x)) [
  | inl empty ↦ inr (held_also t s (rw empty at h))
  | inr full ↦ elim (rw full at h) [ inl own ↦ inl own | inr later ↦ inr (held_also t s later) ]
]
