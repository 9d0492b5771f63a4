-- ===== src/Timeouts/Check.antt =====
-- src/iso15118/d20/timeout.cpp: which timeouts a check reports, and starting and stopping one.
use libiso.Prelude.{
  ℕ, ◌+◌, ◌*◌, ◌≤◌, ◌≡◌, ◌⊎◌, ◌↔◌, refl, Bool, true, false, not, ◌&&◌, ◌||◌, Option, none, some,
  Bool-cases, List, [], ◌∷◌, ◌==◌, arith, leb, inl, inr,
}
use libiso.Timeouts.{
  TimePoint, TimeoutType, Timeouts, slot, is_reached, active_timeouts, types_of, check,
  start_timeout, stop_timeout, reset_timeout, add_slot, timeout_index, some_if_any,
}
use libiso.Timeouts.Map.{
  lists, reports, same_point, Rises, is_new, add_slot-Rises, lists-add_slot, is_new-add_slot,
  reports-some_if_any,
}

-- The first slot in the array's order with a given point stands for it: a later one is left out.
abbrev pub shadowed : Timeouts → TimeoutType → Bool
shadowed t TimeoutType.sequence = false
shadowed t TimeoutType.performance = same_point t.performance t.sequence
shadowed t TimeoutType.ongoing =
    same_point t.ongoing t.performance || same_point t.ongoing t.sequence
shadowed t TimeoutType.contactor =
    same_point t.contactor t.ongoing
    || same_point t.contactor t.performance
    || same_point t.contactor t.sequence

some_if_any_cases :
    (ts : List TimeoutType)
    → (some_if_any ts ≡ none) ⊎ ((type : TimeoutType) × (reports (some_if_any ts) type ≡ true))
some_if_any_cases [] = inl refl
some_if_any_cases (t ∷ ts) = inr (t, ground arith)

module _ (now : TimePoint) (t : Timeouts) where
  abbrev m1 : List (TimePoint × TimeoutType)
  m1 = add_slot now t.sequence TimeoutType.sequence []

  abbrev m2 : List (TimePoint × TimeoutType)
  m2 = add_slot now t.performance TimeoutType.performance m1

  abbrev m3 : List (TimePoint × TimeoutType)
  m3 = add_slot now t.ongoing TimeoutType.ongoing m2

  m1-Rises : Rises 0 m1
  m1-Rises = add_slot-Rises now t.sequence TimeoutType.sequence [] tt

  m2-Rises : Rises 0 m2
  m2-Rises = add_slot-Rises now t.performance TimeoutType.performance m1 m1-Rises

  m3-Rises : Rises 0 m3
  m3-Rises = add_slot-Rises now t.ongoing TimeoutType.ongoing m2 m2-Rises

  lists-active :
      (type : TimeoutType)
      → lists (types_of (active_timeouts now t)) type ≡ (
          is_new now t.contactor m3 && timeout_index TimeoutType.contactor == timeout_index type
          || (is_new now t.ongoing m2 && timeout_index TimeoutType.ongoing == timeout_index type
              || (is_new now t.performance m1
                    && timeout_index TimeoutType.performance == timeout_index type
                  || (is_new now t.sequence []
                        && timeout_index TimeoutType.sequence == timeout_index type
                      || false))))
  unfolding active_timeouts types_of
  lists-active type = simp (
    lists-add_slot now t.contactor TimeoutType.contactor m3 type m3-Rises,
    lists-add_slot now t.ongoing TimeoutType.ongoing m2 type m2-Rises,
    lists-add_slot now t.performance TimeoutType.performance m1 type m1-Rises,
    lists-add_slot now t.sequence TimeoutType.sequence [] type tt,
  )

  -- A check reports a timeout exactly if its point is reached and no earlier slot of the array has
  -- the same point.
  pub check_exact :
      (type : TimeoutType)
      → reports (check now t) type ≡ (is_reached now (slot t type) && not (shadowed t type))
  unfolding check
  check_exact TimeoutType.sequence = ground (
    arith,
    reports-some_if_any (types_of (active_timeouts now t)) TimeoutType.sequence,
    lists-active TimeoutType.sequence,
  )
  check_exact type = ground (
    arith,
    reports-some_if_any (types_of (active_timeouts now t)) type,
    lists-active type,
    is_new-add_slot now t.contactor t.ongoing TimeoutType.ongoing m2,
    is_new-add_slot now t.contactor t.performance TimeoutType.performance m1,
    is_new-add_slot now t.contactor t.sequence TimeoutType.sequence [],
    is_new-add_slot now t.ongoing t.performance TimeoutType.performance m1,
    is_new-add_slot now t.ongoing t.sequence TimeoutType.sequence [],
    is_new-add_slot now t.performance t.sequence TimeoutType.sequence [],
  )

  check_cases : (check now t ≡ none) ⊎ ((type : TimeoutType) × (reports (check now t) type ≡ true))
  unfolding check
  check_cases = some_if_any_cases (types_of (active_timeouts now t))

  reports_of_reached :
      check now t ≡ none → (type : TimeoutType) → is_reached now (slot t type) ≡ false
  reports_of_reached e TimeoutType.sequence = ground (arith, check_exact TimeoutType.sequence)
  reports_of_reached e type = ground (
    arith,
    check_exact TimeoutType.sequence,
    check_exact TimeoutType.performance,
    check_exact TimeoutType.ongoing,
    check_exact type,
  )

  -- A check has no value exactly if no timeout is reached.
  pub check_none :
      (check now t ≡ none) ↔ ((type : TimeoutType) → is_reached now (slot t type) ≡ false)
  check_none = (
    reports_of_reached,
    λ waiting. elim check_cases [
      | inl e ↦ e
      | inr (type, listed) ↦ ground (arith, check_exact type, waiting type)
    ],
  )

same_point_sound : (o : Option ℕ) (p : ℕ) → same_point o (some p) ≡ true → o ≡ some p
same_point_sound none p h = ground arith
same_point_sound (some q) p h = ground arith

same_point_complete : (o : Option ℕ) (p : ℕ) → o ≡ some p → same_point o (some p) ≡ true
same_point_complete o p h = ground arith

-- Of the timeouts with one point that is reached, a check reports the first in the order of the
-- slots and no other: the map of reached timeouts keeps one entry for each point.
pub check_drops :
    (now : TimePoint) (t : Timeouts) (p : TimePoint) (type : TimeoutType)
    → slot t type ≡ some p
    → p ≤ now
    → (first : TimeoutType) × (slot t first ≡ some p)
      × ((other : TimeoutType)
          → slot t other ≡ some p
          → (timeout_index first ≤ timeout_index other)
            × (reports (check now t) other ≡ (timeout_index other == timeout_index first)))
check_drops now t p type e h = elim (Bool-cases (same_point t.sequence (some p))) [
  | inl a ↦ (
    TimeoutType.sequence,
    same_point_sound t.sequence p a,
    λ other k. ground (arith, check_exact now t other),
  )
  | inr a ↦ elim (Bool-cases (same_point t.performance (some p))) [
    | inl b ↦ (
      TimeoutType.performance,
      same_point_sound t.performance p b,
      λ other k. ground (arith, check_exact now t other),
    )
    | inr b ↦ elim (Bool-cases (same_point t.ongoing (some p))) [
      | inl c ↦ (
        TimeoutType.ongoing,
        same_point_sound t.ongoing p c,
        λ other k. ground (arith, check_exact now t other),
      )
      | inr c ↦ (
        TimeoutType.contactor,
        ground (arith, same_point_complete _ p e),
        λ other k. ground (arith, check_exact now t other),
      )
    ]
  ]
]

-- A timeout that is started where none runs is reported from its point on and not before, and the
-- slots of the other types are as they were; starting it once more changes nothing.
pub start_timeout_lem :
    (started later : TimePoint) (type other : TimeoutType) (ms : ℕ) (t : Timeouts)
    → slot t type ≡ none
    → let u = start_timeout started type ms t in
      (is_reached later (slot u type) ≡ leb (started + ms * 1000000) later)
      × ((timeout_index other ≡ timeout_index type) ⊎ (slot u other ≡ slot t other))
      × (start_timeout later type ms u ≡ u)
unfolding start_timeout
start_timeout_lem started later TimeoutType.sequence other ms t e = ground arith
start_timeout_lem started later type other ms t e = ground arith

-- A timeout that is stopped or reset is not reported until it is started again, and the other
-- slots are as they were.
pub stop_timeout_lem :
    (now : TimePoint) (type other : TimeoutType) (t : Timeouts)
    → (reports (check now (stop_timeout type t)) type ≡ false)
      × (reset_timeout type t ≡ stop_timeout type t)
      × ((timeout_index other ≡ timeout_index type)
          ⊎ (slot (stop_timeout type t) other ≡ slot t other))
unfolding stop_timeout reset_timeout
stop_timeout_lem now TimeoutType.sequence other t =
    ground (arith, check_exact now (stop_timeout TimeoutType.sequence t) TimeoutType.sequence)
stop_timeout_lem now type other t = ground (arith, check_exact now (stop_timeout type t) type)
