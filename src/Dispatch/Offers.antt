-- ===== src/Dispatch/Offers.antt =====
-- matchCourier: which of the three offers is taken.
use hotdrop_orchestration.Base.{
  ℕ, zero, suc, ◌+◌, ◌≤◌, ◌<◌, ◌≡◌, refl, subst, String, Option, none, some, leb, Bool-cases, inl,
  inr, arith,
}
use hotdrop_orchestration.Dispatch.Service.{match_from, match_courier}

-- Every one of the offers from `a` to before `b` draws less than the decline rate.
abbrev pub AllDeclined : ℕ → (ℕ → ℕ) → ℕ → ℕ → Type 0
AllDeclined rate draw a b = (n : ℕ) → a ≤ n → n < b → draw n < rate

-- What a match says of the draws: no courier where each offer is declined, else the courier of the
-- first offer that is not.
abbrev pub IsFirstTaken : ℕ → (ℕ → ℕ) → (ℕ → String) → ℕ → ℕ → Option String → Type 0
IsFirstTaken rate draw courier a b none = AllDeclined rate draw a b
IsFirstTaken rate draw courier a b (some c) =
    (n : ℕ) × (a ≤ n) × (n < b) × (rate ≤ draw n) × AllDeclined rate draw a n × (c ≡ courier n)

later : (a n : ℕ) → n ≤ a → a ≤ n → a ≡ n
later a n h g = omega arith

declined_more :
    (rate : ℕ) (draw : ℕ → ℕ) (a b : ℕ)
    → draw a < rate
    → AllDeclined rate draw (suc a) b
    → AllDeclined rate draw a b
declined_more rate draw a b d h n le lt = elim (Bool-cases (leb n a)) [
  | inl at ↦ subst (λ j. draw j < rate) (later a n (ground arith) le) d
  | inr after ↦ h n (ground arith) lt
]

later_taken :
    (rate : ℕ) (draw : ℕ → ℕ) (courier : ℕ → String) (a b : ℕ) (o : Option String)
    → draw a < rate
    → IsFirstTaken rate draw courier (suc a) b o
    → IsFirstTaken rate draw courier a b o
later_taken rate draw courier a b none d h = declined_more rate draw a b d h
later_taken rate draw courier a b (some c) d h =
    (h.0, omega (arith, h.1), h.2, h.3, declined_more rate draw a h.0 d h.4, h.5)

match_from-IsFirstTaken :
    (rate : ℕ) (draw : ℕ → ℕ) (courier : ℕ → String) (left offer end : ℕ)
    → end ≡ left + offer
    → IsFirstTaken rate draw courier offer end (match_from rate draw courier left offer)
unfolding match_from
match_from-IsFirstTaken rate draw courier zero offer end e = λ n le lt. absurd (omega arith)
match_from-IsFirstTaken rate draw courier (suc left) offer end e =
    elim (Bool-cases (leb rate (draw offer))) [
      | inl takes ↦
          rw takes
            (offer, omega arith, omega arith, ground arith, (λ n le lt. absurd (omega arith)), refl)
      | inr declines ↦ rw declines (
          later_taken rate draw courier offer end _ (ground arith)
            (match_from-IsFirstTaken rate draw courier left (suc offer) end (omega arith)))
    ]

-- matchCourier makes three offers: it finds no courier exactly when each of the three draws less than
-- the decline rate, and else the courier of the first offer that draws at least the rate.
pub match_courier-IsFirstTaken :
    (decline_rate : ℕ) (draw : ℕ → ℕ) (courier : ℕ → String)
    → IsFirstTaken decline_rate draw courier 0 3 (match_courier decline_rate draw courier)
unfolding match_courier
match_courier-IsFirstTaken rate draw courier = match_from-IsFirstTaken rate draw courier 3 0 3 refl
