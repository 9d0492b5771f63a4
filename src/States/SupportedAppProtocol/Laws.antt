-- ===== src/States/SupportedAppProtocol/Laws.antt =====
-- src/iso15118/d20/state/supported_app_protocol.cpp: the map of priorities and the protocol that is
-- negotiated.
use libiso.Prelude.{
  ℕ, ◌≤◌, ◌≡◌, refl, sym, subst, some-injective, ap, ◌∙◌, true, false, Option, none, some, List, [],
  ◌∷◌, arith, leb, if◌then◌else◌, Bool-cases, Option-cases, inl, inr, ◌⊎◌,
}
use Prim.Native.String.{String}
use mathlib.Core.List.{Memᴰ}
use mathlib.Core.List.Memᴰ
use libiso.Message.{SupportedAppProtocol, SupportedAppProtocolRequest, NegotiationCode}
use libiso.States.SupportedAppProtocol.{is_supported, assign, collect, answer, handle_request}

-- The protocol that wins over another one that stands before it.
abbrev better : SupportedAppProtocol → Option SupportedAppProtocol → SupportedAppProtocol
better p none = p
better p (some q) = if leb p.priority q.priority then p else q

-- The supported protocol of the least priority, the last of those that share it.
unfoldable best :
    Option String
    → List SupportedAppProtocol
    → Option SupportedAppProtocol
    → Option SupportedAppProtocol
best custom [] acc = acc
best custom (p ∷ ps) acc =
    best custom ps (if is_supported custom p then some (better p acc) else acc)

abbrev first : List (ℕ × ℕ) → Option (ℕ × ℕ)
first [] = none
first (x ∷ _) = some x

abbrev entry : Option SupportedAppProtocol → Option (ℕ × ℕ)
entry none = none
entry (some p) = some (p.priority, p.schema_id)

first-assign :
    (p : SupportedAppProtocol) (m : List (ℕ × ℕ)) (acc : Option SupportedAppProtocol)
    → first m ≡ entry acc
    → first (assign p.priority p.schema_id m) ≡ entry (some (better p acc))
unfolding assign
first-assign p [] none e = refl
first-assign p [] (some q) e = ground arith
first-assign p ((j, w) ∷ m) none e = ground arith
first-assign p ((j, w) ∷ m) (some q) e = ground arith

first-collect :
    (custom : Option String) (ps : List SupportedAppProtocol) (m : List (ℕ × ℕ))
    (acc : Option SupportedAppProtocol)
    → first m ≡ entry acc
    → first (collect custom ps m) ≡ entry (best custom ps acc)
unfolding collect best
first-collect custom [] m acc e = e
first-collect custom (p ∷ ps) m acc e = elim (Bool-cases (is_supported custom p)) [
  | inl b ↦ rw b (
      first-collect custom ps (assign p.priority p.schema_id m) (some (better p acc))
        (first-assign p m acc e))
  | inr b ↦ rw b (first-collect custom ps m acc e)
]

-- What makes a protocol the winner among those seen: it is supported, and none that is supported
-- comes before it.
abbrev pub IsLeast : Option String → List SupportedAppProtocol → SupportedAppProtocol → Type 0
IsLeast custom ps p =
    Memᴰ p ps
    × (is_supported custom p ≡ true)
    × ((q : SupportedAppProtocol)
        → Memᴰ q ps
        → is_supported custom q ≡ true
        → p.priority ≤ q.priority)

abbrev pub NoneSupported : Option String → List SupportedAppProtocol → Type 0
NoneSupported custom ps = (q : SupportedAppProtocol) → Memᴰ q ps → is_supported custom q ≡ false

better_cases :
    (p : SupportedAppProtocol) (acc : Option SupportedAppProtocol)
    → (better p acc ≡ p) ⊎ (acc ≡ some (better p acc))
better_cases p none = inl refl
better_cases p (some q) = ground arith

better_first :
    (p : SupportedAppProtocol) (acc : Option SupportedAppProtocol)
    → (better p acc).priority ≤ p.priority
better_first p none = ground arith
better_first p (some q) = ground arith

better_rest :
    (p : SupportedAppProtocol) (acc : Option SupportedAppProtocol) (q : SupportedAppProtocol)
    → acc ≡ some q
    → (better p acc).priority ≤ q.priority
better_rest p none q e = ground arith
better_rest p (some r) q e = ground arith

-- What the running minimum has found after the protocols `ps`.
record IsBest (custom : Option String) (ps : List SupportedAppProtocol)
    (acc : Option SupportedAppProtocol) (p : SupportedAppProtocol) : Type 0 where
  found : (Memᴰ p ps × (is_supported custom p ≡ true)) ⊎ (acc ≡ some p)
  least :
      (q : SupportedAppProtocol)
      → Memᴰ q ps
      → is_supported custom q ≡ true
      → p.priority ≤ q.priority
  before : (q : SupportedAppProtocol) → acc ≡ some q → p.priority ≤ q.priority

best-some :
    (custom : Option String) (ps : List SupportedAppProtocol) (acc : Option SupportedAppProtocol)
    (p : SupportedAppProtocol)
    → best custom ps acc ≡ some p
    → IsBest custom ps acc p
unfolding best
best-some custom [] acc p e = record {
  found = inr e;
  least = λ q m s. elim (Memᴰ.not-nil m) [ ];
  before = λ q h. ground arith;
}
best-some custom (r ∷ ps) acc p e = elim (Bool-cases (is_supported custom r)) [
  | inl b ↦
      let h = best-some custom ps (some (better r acc)) p (rw b at e) in
      record {
        found = elim h.found [
          | inl (m, s) ↦ inl (Memᴰ.tail m, s)
          | inr won ↦ elim (better_cases r acc) [
            | inl new ↦
                let same : p ≡ r = sym (some-injective won) ∙ new in
                inl (Memᴰ.head same, subst (λ t. is_supported custom t ≡ true) (sym same) b)
            | inr old ↦ inr (old ∙ won)
          ]
        ];
        least = λ q m s. elim (Memᴰ.cases_cons m) [
          | inl same ↦ omega (
            arith,
            h.before (better r acc) refl,
            better_first r acc,
            ap (λ (t : SupportedAppProtocol). t.priority) same,
          )
          | inr later ↦ h.least q later s
        ];
        before = λ q g. omega (arith, h.before (better r acc) refl, better_rest r acc q g);
      }
  | inr b ↦
      let h = best-some custom ps acc p (rw b at e) in
      record {
        found = elim h.found [ inl (m, s) ↦ inl (Memᴰ.tail m, s) | inr won ↦ inr won ];
        least = λ q m s. elim (Memᴰ.cases_cons m) [
          | inl same ↦
              let s' : is_supported custom r ≡ true =
                subst (λ t. is_supported custom t ≡ true) same s in
              ground arith
          | inr later ↦ h.least q later s
        ];
        before = h.before;
      }
]

best_none :
    (custom : Option String) (ps : List SupportedAppProtocol) (acc : Option SupportedAppProtocol)
    → best custom ps acc ≡ none
    → (acc ≡ none) × NoneSupported custom ps
unfolding best
best_none custom [] acc e = (e, λ q m. elim (Memᴰ.not-nil m) [ ])
best_none custom (r ∷ ps) acc e = elim (Bool-cases (is_supported custom r)) [
  | inl b ↦
      let (some_none, _) = best_none custom ps (some (better r acc)) (rw b at e) in ground arith
  | inr b ↦
      let (empty, rest) = best_none custom ps acc (rw b at e) in
      (
        empty,
        λ q m. elim (Memᴰ.cases_cons m) [
          | inl same ↦ subst (λ t. is_supported custom t ≡ false) (sym same) b
          | inr later ↦ rest q later
        ],
      )
]

abbrev answer_first : Option (ℕ × ℕ) → NegotiationCode × Option ℕ
answer_first none = (NegotiationCode.failed_no_negotiation, none)
answer_first (some (_, schema_id)) = (NegotiationCode.ok_successful_negotiation, some schema_id)

answer_lem :
    (m : List (ℕ × ℕ)) → ((answer m).response_code, (answer m).schema_id) ≡ answer_first (first m)
answer_lem [] = refl
answer_lem (x ∷ m) = refl

handle_request-best :
    (req : SupportedAppProtocolRequest) (custom : Option String)
    → let r = handle_request req custom in
      (r.response_code, r.schema_id) ≡ answer_first (entry (best custom req.app_protocol none))
unfolding handle_request
handle_request-best req custom =
    answer_lem (collect custom req.app_protocol [])
    ∙ ap answer_first (first-collect custom req.app_protocol [] none refl)

-- The negotiation either succeeds with the schema id of a supported protocol of the EV, before which
-- no supported one comes in priority, or it fails without a schema id, and none of the EV's protocols
-- is supported.
pub handle_request-IsLeast :
    (req : SupportedAppProtocolRequest) (custom : Option String)
    → let r = handle_request req custom in
      ((p : SupportedAppProtocol) × (r.response_code ≡ NegotiationCode.ok_successful_negotiation)
        × (r.schema_id ≡ some p.schema_id)
        × IsLeast custom req.app_protocol p)
      ⊎ ((r.response_code ≡ NegotiationCode.failed_no_negotiation)
          × (r.schema_id ≡ none)
          × NoneSupported custom req.app_protocol)
handle_request-IsLeast req custom =
    let e = handle_request-best req custom in
    elim (Option-cases (best custom req.app_protocol none)) [
      | inl none_found ↦
          let e1 = e ∙ ap (λ o. answer_first (entry o)) none_found in
          inr (
            ap (λ (t : NegotiationCode × Option ℕ). t.0) e1,
            ap (λ (t : NegotiationCode × Option ℕ). t.1) e1,
            (best_none custom req.app_protocol none none_found).1,
          )
      | inr (p, won) ↦
          let e1 = e ∙ ap (λ o. answer_first (entry o)) won in
          let h = best-some custom req.app_protocol none p won in
          elim h.found [
            | inl (m, s) ↦ inl (
              p,
              ap (λ (t : NegotiationCode × Option ℕ). t.0) e1,
              ap (λ (t : NegotiationCode × Option ℕ). t.1) e1,
              (m, s, h.least),
            )
            | inr impossible ↦ ground arith
          ]
    ]
