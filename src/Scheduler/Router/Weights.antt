-- ===== src/Scheduler/Router/Weights.antt =====
-- A valid routing configuration splits the traffic as its weights say
-- (internal/scheduler/router.go, `weightedSelect` and `ValidateRoutingConfig`).
use function.Prelude.{
  ℕ, zero, suc, ◌+◌, ◌≤◌, ◌<◌, ◌≡◌, ◌≢◌, refl, sym, ap, ◌∙◌, ◌↔◌, ◌⊎◌, inl, inr, Bool, true, false,
  Option, none, some, List, [], ◌∷◌, arith, ltb, if◌then◌else◌, Bool-cases,
}
use mathlib.Core.Path.{subst}
use function.Prelude.Int.{ℤ, pos, negsuc, pos_part, neg_part, ◌+ℤ◌, eqb_ℤ, +ℤ_parts, eq_of_parts}
use function.Scheduler.Router.{
  VersionWeight, invalid_weights, select_from, weighted_select, check_from, validate_routing_config,
  or_first, handler_accepts,
}

-- How many of the draws `from`, `from + 1`, … pass the test.
unfoldable pub count_range : (ℕ → Bool) → ℕ → ℕ → ℕ
count_range p from zero = 0
count_range p from (suc n) =
    if p from then suc (count_range p (from + 1) n) else count_range p (from + 1) n

-- The weight that a configuration gives to a version.
unfoldable pub weight_of : ℤ → List VersionWeight → ℕ
weight_of v [] = 0
weight_of v (w ∷ ws) =
    if eqb_ℤ w.version v then pos_part w.weight + weight_of v ws else weight_of v ws

abbrev pub total_weight : List VersionWeight → ℕ
total_weight [] = 0
total_weight (w ∷ ws) = pos_part w.weight + total_weight ws

abbrev pub InRange : List VersionWeight → Type 0
InRange [] = Unit
InRange (w ∷ ws) =
    (neg_part w.weight ≡ 0) × (pos_part w.weight ≤ 100) × (0 < pos_part w.version) × InRange ws

-- What `ValidateRoutingConfig` asks for.
abbrev pub IsRouting : List VersionWeight → Type 0
IsRouting ws = (ws ≢ []) × InRange ws × (total_weight ws ≡ 100)

count_range-add :
    (p : ℕ → Bool) (from m n total mid : ℕ)
    → total ≡ m + n
    → mid ≡ from + m
    → count_range p from total ≡ count_range p from m + count_range p mid n
unfolding count_range
count_range-add p from zero n total mid e f =
    let e' : total ≡ n = omega arith in
    let f' : mid ≡ from = omega arith in rw (e', f') (omega arith)
count_range-add p from (suc m) n total mid e f =
    let e' : total ≡ suc (m + n) = omega arith in
    rw e' (ground (arith, count_range-add p (from + 1) m n (m + n) mid refl (omega arith)))

count_range-cong :
    (p q : ℕ → Bool) (from n : ℕ)
    → ((k : ℕ) → from ≤ k → k < from + n → p k ≡ q k)
    → count_range p from n ≡ count_range q from n
unfolding count_range
count_range-cong p q from zero h = refl
count_range-cong p q from (suc n) h = ground (
  arith,
  h from (omega arith) (omega arith),
  count_range-cong p q (from + 1) n (λ k x y. h k (omega arith) (omega arith)),
)

count_range-all :
    (p : ℕ → Bool) (b : Bool) (from n : ℕ)
    → ((k : ℕ) → from ≤ k → k < from + n → p k ≡ b)
    → count_range p from n ≡ (if b then n else 0)
unfolding count_range
count_range-all p b from zero h = ground arith
count_range-all p b from (suc n) h = ground (
  arith,
  h from (omega arith) (omega arith),
  count_range-all p b (from + 1) n (λ k x y. h k (omega arith) (omega arith)),
)

abbrev is_version : ℤ → Option ℤ → Bool
is_version v none = false
is_version v (some x) = eqb_ℤ x v

pos-add : (c : ℕ) (x : ℤ) → neg_part x ≡ 0 → pos c +ℤ x ≡ pos (c + pos_part x)
pos-add c x h = eq_of_parts _ _ (omega (arith, +ℤ_parts (pos c) x))

select_from_here :
    (r c : ℕ) (w : VersionWeight) (ws : List VersionWeight)
    → neg_part w.weight ≡ 0
    → r < c + pos_part w.weight
    → select_from r (pos c) (w ∷ ws) ≡ some w.version
unfolding select_from
select_from_here r c w ws n lt = rw (pos-add c w.weight n) (ground arith)

select_from_later :
    (r c : ℕ) (w : VersionWeight) (ws : List VersionWeight)
    → neg_part w.weight ≡ 0
    → c + pos_part w.weight ≤ r
    → select_from r (pos c) (w ∷ ws) ≡ select_from r (pos (c + pos_part w.weight)) ws
unfolding select_from
select_from_later r c w ws n le = rw (pos-add c w.weight n) (ground arith)

select_from_total :
    (r c : ℕ) (ws : List VersionWeight)
    → InRange ws
    → c ≤ r
    → r < c + total_weight ws
    → select_from r (pos c) ws ≢ none
select_from_total r c [] h le lt e = omega arith
select_from_total r c (w ∷ ws) h le lt e = elim (Bool-cases (ltb r (c + pos_part w.weight))) [
  | inl here ↦ cc (select_from_here r c w ws h.0 (ground arith))
  | inr later ↦
      select_from_total r (c + pos_part w.weight) ws h.3 (ground arith) (ground arith)
        (sym (select_from_later r c w ws h.0 (ground arith)) ∙ e)
]

select_from-count :
    (v : ℤ) (c : ℕ) (ws : List VersionWeight)
    → InRange ws
    → count_range (λ r. is_version v (select_from r (pos c) ws)) c (total_weight ws)
      ≡ weight_of v ws
unfolding weight_of
select_from-count v c [] h = unfold count_range in refl
select_from-count v c (w ∷ ws) h =
    let a : ℕ = pos_part w.weight in
    let f : ℕ → Bool = λ r. is_version v (select_from r (pos c) (w ∷ ws)) in
    let split = count_range-add f c a (total_weight ws) (a + total_weight ws) (c + a) refl refl in
    let first =
      count_range-all f (eqb_ℤ w.version v) c a
        (λ k x y. ap (is_version v) (select_from_here k c w ws h.0 y)) in
    let second =
      count_range-cong f (λ r. is_version v (select_from r (pos (c + a)) ws)) (c + a)
        (total_weight ws) (λ k x y. ap (is_version v) (select_from_later k c w ws h.0 x)) in
    ground (arith, split, first, second, select_from-count v (c + a) ws h.3)

pick_first : (v : ℤ) (o : Option ℤ) (d : ℤ) → o ≢ none → eqb_ℤ (or_first o d) v ≡ is_version v o
pick_first v none d h = absurd (h refl)
pick_first v (some x) d h = refl

-- Of the hundred draws of `rng.Intn(100)`, a valid configuration sends to each version as many as
-- its weight says, summed over its entries.
pub weighted_select-share :
    (ws : List VersionWeight) (v : ℤ)
    → IsRouting ws
    → count_range (λ r. eqb_ℤ (weighted_select r ws) v) 0 100 ≡ weight_of v ws
unfolding weighted_select
weighted_select-share [] v h = absurd (h.0 refl)
weighted_select-share (w ∷ []) v h =
    count_range-all (λ r. eqb_ℤ w.version v) (eqb_ℤ w.version v) 0 100 (λ k x y. refl)
    ∙ unfold weight_of in ground (arith, h.2)
weighted_select-share (w ∷ u ∷ ws) v h =
    count_range-cong (λ r. eqb_ℤ (weighted_select r (w ∷ u ∷ ws)) v)
      (λ r. is_version v (select_from r (pos 0) (w ∷ u ∷ ws))) 0 100
      (λ k x y.
        pick_first v (select_from k (pos 0) (w ∷ u ∷ ws)) w.version
          (select_from_total k 0 (w ∷ u ∷ ws) h.1 (omega arith) (omega (arith, h.2))))
    ∙ subst
        (λ n.
          count_range (λ r. is_version v (select_from r (pos 0) (w ∷ u ∷ ws))) 0 n
          ≡ weight_of v (w ∷ u ∷ ws))
        h.2 (select_from-count v 0 (w ∷ u ∷ ws) h.1)

sign : (x : ℤ) → (neg_part x ≡ 0) ⊎ (pos_part x ≡ 0)
sign (pos n) = inl refl
sign (negsuc n) = inr refl

check_from_iff :
    (c : ℕ) (ws : List VersionWeight)
    → (check_from (pos c) ws ≡ none) ↔ (InRange ws × (c + total_weight ws ≡ 100))
unfolding check_from
check_from_iff c [] = ground arith
check_from_iff c (w ∷ ws) = (
  (λ e. ground (
    arith,
    sign w.weight,
    sign w.version,
    pos-add c w.weight,
    (check_from_iff (c + pos_part w.weight) ws).0,
  )),
  (λ h. ground (
    arith,
    sign w.weight,
    sign w.version,
    pos-add c w.weight,
    (check_from_iff (c + pos_part w.weight) ws).1,
  )),
)

-- `ValidateRoutingConfig` accepts exactly the configurations that are not empty, have weights from
-- 0 to 100 and positive versions, and sum to 100.
pub validate_routing_config_iff :
    (ws : List VersionWeight) → (validate_routing_config ws ≡ none) ↔ IsRouting ws
unfolding validate_routing_config
validate_routing_config_iff [] = ((λ e. cc), (λ h. absurd (h.0 refl)))
validate_routing_config_iff (w ∷ ws) = (
  (λ e. let h = (check_from_iff 0 (w ∷ ws)).0 e in ((λ f. cc), h.0, omega (arith, h.1))),
  (λ h. (check_from_iff 0 (w ∷ ws)).1 (h.1, omega (arith, h.2))),
)

-- Weights -(m + 1) and m + 101, which sum to 100.
abbrev pub below_zero : ℕ → ℤ → ℤ → List VersionWeight
below_zero m v u =
    record { version = v; weight = negsuc m } ∷ record { version = u; weight = pos (m + 101) } ∷ []

-- The alias handlers only test the sum of the weights: they accept a negative weight that
-- `ValidateRoutingConfig` refuses.
pub handler_accepts_negative :
    (m : ℕ) (v u : ℤ)
    → let ws = below_zero m v u in
      (handler_accepts ws ≡ true) × (validate_routing_config ws ≡ some invalid_weights)
unfolding handler_accepts validate_routing_config ◌+ℤ◌
handler_accepts_negative m v u = (ground arith, ground arith)
