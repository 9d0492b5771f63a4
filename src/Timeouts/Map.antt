-- ===== src/Timeouts/Map.antt =====
-- The sorted map that `Timeouts::check` of src/iso15118/d20/timeout.cpp builds.
use libiso.Prelude.{
  ℕ, ◌+◌, ◌<◌, ◌≤◌, ◌≡◌, refl, Bool, false, not, ◌&&◌, ◌||◌, Option, none, some, List, [], ◌∷◌,
  arith, ◌==◌, leb, ltb, if◌then◌else◌, Bool-cases, ltb→lt, inl, inr,
}
use libiso.Timeouts.{
  some_if_any, TimePoint, TimeoutType, timeout_index, is_reached, insert_point, add_slot, types_of,
}

-- Whether a type is among those that a check reports.
abbrev pub lists : List TimeoutType → TimeoutType → Bool
lists [] type = false
lists (t ∷ ts) type = timeout_index t == timeout_index type || lists ts type

abbrev pub reports : Option (List TimeoutType) → TimeoutType → Bool
reports none type = false
reports (some ts) type = lists ts type

-- The keys and the values of the map that a check builds.
abbrev pub has_point : List (TimePoint × TimeoutType) → TimePoint → Bool
has_point [] p = false
has_point ((q, _) ∷ m) p = p == q || has_point m p

-- The keys rise.
abbrev pub Rises : ℕ → List (TimePoint × TimeoutType) → Type 0
Rises n [] = Unit {0}
Rises n ((p, _) ∷ m) = (n ≤ p) × Rises (p + 1) m

pub reports-some_if_any :
    (ts : List TimeoutType) (type : TimeoutType) → reports (some_if_any ts) type ≡ lists ts type
reports-some_if_any [] type = refl
reports-some_if_any (t ∷ ts) type = refl

has_point_below :
    (p q : ℕ) (m : List (TimePoint × TimeoutType)) → Rises q m → p < q → has_point m p ≡ false
has_point_below p q [] r h = refl
has_point_below p q ((k, u) ∷ m) r h = ground (arith, has_point_below p (k + 1) m r.1 (omega arith))

lists-insert_point :
    (p : TimePoint) (type : TimeoutType) (m : List (TimePoint × TimeoutType)) (n : ℕ)
    (other : TimeoutType)
    → Rises n m
    → lists (types_of (insert_point p type m)) other ≡ (
        if has_point m p
        then lists (types_of m) other
        else (timeout_index type == timeout_index other || lists (types_of m) other))
unfolding insert_point types_of
lists-insert_point p type [] n other r = refl
lists-insert_point p type ((q, u) ∷ m) n other r = elim (Bool-cases (ltb p q)) [
  | inl before ↦
      rw before (ground (arith, has_point_below p (q + 1) m r.1 (omega (arith, ltb→lt p q before))))
  | inr after ↦ elim (Bool-cases (p == q)) [
    | inl same ↦ rw (after, same) (ground arith)
    | inr other_key ↦
        rw (after, other_key) (ground (arith, lists-insert_point p type m (q + 1) other r.1))
  ]
]

Rises-mono : (j k : ℕ) (m : List (TimePoint × TimeoutType)) → j ≤ k → Rises k m → Rises j m
Rises-mono j k [] h r = tt
Rises-mono j k ((p, u) ∷ m) h r = (omega arith, r.1)

insert_point-Rises :
    (p : TimePoint) (type : TimeoutType) (m : List (TimePoint × TimeoutType)) (n : ℕ)
    → n ≤ p
    → Rises n m
    → Rises n (insert_point p type m)
unfolding insert_point
insert_point-Rises p type [] n h r = (h, tt)
insert_point-Rises p type ((q, u) ∷ m) n h r = elim (Bool-cases (ltb p q)) [
  | inl before ↦ rw before (h, (omega (arith, ltb→lt p q before), r.1))
  | inr after ↦ elim (Bool-cases (p == q)) [
    | inl same ↦ rw (after, same) r
    | inr other_key ↦
        rw (after, other_key) (r.0, insert_point-Rises p type m (q + 1) (ground arith) r.1)
  ]
]

-- Two slots with one point.
abbrev pub same_point : Option TimePoint → Option TimePoint → Bool
same_point (some p) (some q) = p == q
same_point (some p) none = false
same_point none q = false

abbrev pub is_new : TimePoint → Option TimePoint → List (TimePoint × TimeoutType) → Bool
is_new now none m = false
is_new now (some p) m = leb p now && not (has_point m p)

pub add_slot-Rises :
    (now : TimePoint) (o : Option TimePoint) (type : TimeoutType)
    (m : List (TimePoint × TimeoutType))
    → Rises 0 m
    → Rises 0 (add_slot now o type m)
unfolding add_slot
add_slot-Rises now none type m r = r
add_slot-Rises now (some p) type m r = elim (Bool-cases (leb p now)) [
  | inl reached ↦ rw reached (insert_point-Rises p type m 0 (omega arith) r)
  | inr waiting ↦ rw waiting r
]

pub lists-add_slot :
    (now : TimePoint) (o : Option TimePoint) (type : TimeoutType)
    (m : List (TimePoint × TimeoutType)) (other : TimeoutType)
    → Rises 0 m
    → lists (types_of (add_slot now o type m)) other
      ≡ (is_new now o m && timeout_index type == timeout_index other || lists (types_of m) other)
unfolding add_slot
lists-add_slot now none type m other r = refl
lists-add_slot now (some p) type m other r = elim (Bool-cases (leb p now)) [
  | inl reached ↦ rw reached (ground (arith, lists-insert_point p type m 0 other r))
  | inr waiting ↦ rw waiting refl
]

has_point-insert_point :
    (p x : TimePoint) (type : TimeoutType) (m : List (TimePoint × TimeoutType))
    → has_point (insert_point p type m) x ≡ (x == p || has_point m x)
unfolding insert_point
has_point-insert_point p x type [] = refl
has_point-insert_point p x type ((q, u) ∷ m) = elim (Bool-cases (ltb p q)) [
  | inl before ↦ rw before refl
  | inr after ↦ elim (Bool-cases (p == q)) [
    | inl same ↦ rw (after, same) (ground arith)
    | inr other_key ↦ rw (after, other_key) (ground (arith, has_point-insert_point p x type m))
  ]
]

pub has_point-add_slot :
    (now : TimePoint) (o : Option TimePoint) (x : TimePoint) (type : TimeoutType)
    (m : List (TimePoint × TimeoutType))
    → has_point (add_slot now o type m) x
      ≡ (is_reached now o && same_point (some x) o || has_point m x)
unfolding add_slot
has_point-add_slot now none x type m = refl
has_point-add_slot now (some p) x type m = elim (Bool-cases (leb p now)) [
  | inl reached ↦ rw reached (has_point-insert_point p x type m)
  | inr waiting ↦ rw waiting refl
]

-- A point is still new after a round exactly if it was new before and is not the round's point.
pub is_new-add_slot :
    (now : TimePoint) (o o' : Option TimePoint) (type : TimeoutType)
    (m : List (TimePoint × TimeoutType))
    → is_new now o (add_slot now o' type m) ≡ (is_new now o m && not (same_point o o'))
is_new-add_slot now none o' type m = refl
is_new-add_slot now (some p) none type m = ground (arith, has_point-add_slot now none p type m)
is_new-add_slot now (some p) (some q) type m =
    ground (arith, has_point-add_slot now (some q) p type m)
