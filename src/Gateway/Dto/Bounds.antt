-- ===== src/Gateway/Dto/Bounds.antt =====
-- What a body that passes the validation is known to hold.
use Prim.Native.String.{String, len}
use hotdrop_orchestration.Base.{
  Key, ℕ, suc, ◌≤◌, ◌≡◌, refl, ap, subst, Bool, true, false, ◌&&◌, Option, none, some, List, [],
  ◌∷◌, length, All, if◌then◌else◌, arith,
}
use mathlib.Core.Option.{some-injective}
use hotdrop_orchestration.Gateway.Dto.{PlaceOrderLineDto, PlaceOrderDto, CreateRatingDto}
use hotdrop_orchestration.Gateway.Dto.Validation.{
  Json, Number, Items, ClassValidator, Validates, both, then_read, text_in, int_from, int_in,
  length_of, whitelisted, property, validate_line, validate_each, validate_lines,
  validate_place_order, validate_rating,
}

-- A text within bounds.
abbrev pub IsWithin : ℕ → ℕ → String → Type 0
IsWithin lo hi t = (lo ≤ len t) × (len t ≤ hi)

-- What holds of the parts of a value that was read holds of the value.
both_holds :
    {A B C : Type 0} (P : C → Type 0) (f : A → B → C) (oa : Option A) (ob : Option B) (c : C)
    → ((a : A) (b : B) → oa ≡ some a → ob ≡ some b → P (f a b))
    → both f oa ob ≡ some c
    → P c
both_holds P f none ob c h e = cc
both_holds P f (some a) none c h e = cc
both_holds P f (some a) (some b) c h e = subst P (some-injective (f a b) c e) (h a b refl refl)

read_holds :
    {A B : Type 0} (P : B → Type 0) (o : Option A) (f : A → Option B) (b : B)
    → ((a : A) → f a ≡ some b → P b)
    → then_read o f ≡ some b
    → P b
read_holds P none f b h e = cc
read_holds P (some a) f b h e = h a e

-- What is read under a condition was read.
if_some :
    {A : Type 0} (t : Bool) (o : Option A) (a : A)
    → (if t then o else none) ≡ some a
    → (t ≡ true) × (o ≡ some a)
if_some true o a e = (refl, e)
if_some false o a e = cc

module _ (rules : ClassValidator) (law : Validates rules) where
  text_in_bounds :
      (lo hi : ℕ) (v : Json) (t : String) → text_in rules lo hi v ≡ some t → IsWithin lo hi t
  unfolding text_in
  text_in_bounds lo hi (Json.string u) t e =
      ground (arith, law.is_string_lem (Json.string u), law.has_length_lem lo hi (Json.string u))
  text_in_bounds lo hi v t e = ground arith

  int_from_bound : (lo : ℕ) (v : Json) (n : ℕ) → int_from rules lo v ≡ some n → lo ≤ n
  unfolding int_from
  int_from_bound lo (Json.number (Number.natural m)) n e = ground (
    arith,
    law.is_int_lem (Json.number (Number.natural m)),
    law.min_lem lo (Json.number (Number.natural m)) refl,
  )
  int_from_bound lo v n e = ground arith

  int_in_bounds :
      (lo hi : ℕ) (v : Json) (n : ℕ) → int_in rules lo hi v ≡ some n → (lo ≤ n) × (n ≤ hi)
  unfolding int_in
  int_in_bounds lo hi (Json.number (Number.natural m)) n e =
      let v = Json.number (Number.natural m) in
      ground (arith, law.is_int_lem v, law.min_lem lo v refl, law.max_lem hi v refl)
  int_in_bounds lo hi v n e = ground arith

  module _ (key : String → Key) where
    validate_line-qty :
        (v : Json) (l : PlaceOrderLineDto) → validate_line rules key v ≡ some l → 1 ≤ l.qty
    unfolding validate_line
    validate_line-qty (Json.object ms) l e =
        both_holds (λ (x : PlaceOrderLineDto). 1 ≤ x.qty) _ _
          (then_read (property "qty" ms) (int_from rules 1)) l
          (λ a b ea eb.
            read_holds (λ n. 1 ≤ n) (property "qty" ms) (int_from rules 1) b
              (λ v h. int_from_bound 1 v b h) eb)
          (if_some _ _ l e).1
    validate_line-qty v l e = cc

    validate_each-qty :
        (items : Items) (ls : List PlaceOrderLineDto)
        → validate_each rules key items ≡ some ls
        → (length ls ≡ length_of items) × All (λ l. 1 ≤ l.qty) ls
    unfolding validate_each
    validate_each-qty Items.no_items [] e = (refl, tt)
    validate_each-qty Items.no_items (l ∷ ls) e = cc
    validate_each-qty (Items.item v items) ls e =
        both_holds (λ ls. (length ls ≡ suc (length_of items)) × All (λ l. 1 ≤ l.qty) ls) _
          (validate_line rules key v) (validate_each rules key items) ls
          (λ l ls el es.
            let rest = validate_each-qty items ls es in
            (ap suc rest.0, (validate_line-qty v l el, rest.1)))
          e

    validate_lines-bounds :
        (v : Json) (ls : List PlaceOrderLineDto)
        → validate_lines rules key v ≡ some ls
        → (1 ≤ length ls) × All (λ l. 1 ≤ l.qty) ls
    unfolding validate_lines
    validate_lines-bounds (Json.array items) ls e =
        let passed =
          if_some (rules.is_array (Json.array items) && rules.array_min_size 1 (Json.array items))
            (validate_each rules key items) ls e in
        let each = validate_each-qty items ls passed.1 in
        (
          ground (
            arith,
            passed.0,
            each.0,
            law.is_array_lem (Json.array items),
            law.array_min_size_lem 1 (Json.array items),
          ),
          each.1,
        )
    validate_lines-bounds v ls e = ground arith

-- A body that POST /orders accepts has a delivery address of 1 to 200 characters and at least one
-- line, and every line asks for at least one portion.
pub validate_place_order-bounds :
    (rules : ClassValidator)
    → Validates rules
    → (key : String → Key) (body : Json) (dto : PlaceOrderDto)
    → validate_place_order rules key body ≡ some dto
    → IsWithin 1 200 dto.delivery_address × (1 ≤ length dto.lines) × All (λ l. 1 ≤ l.qty) dto.lines
unfolding validate_place_order
validate_place_order-bounds rules law key (Json.object ms) dto e =
    both_holds
      (λ (x : PlaceOrderDto).
        IsWithin 1 200 x.delivery_address × (1 ≤ length x.lines) × All (λ l. 1 ≤ l.qty) x.lines)
      _ (then_read (property "deliveryAddress" ms) (text_in rules 1 200))
      (then_read (property "lines" ms) (validate_lines rules key)) dto
      (λ address lines ea el.
        let counted =
          read_holds (λ ls. (1 ≤ length ls) × All (λ l. 1 ≤ l.qty) ls) (property "lines" ms)
            (validate_lines rules key) lines (λ v h. validate_lines-bounds rules law key v lines h)
            el in
        (
          read_holds (IsWithin 1 200) (property "deliveryAddress" ms) (text_in rules 1 200) address
              (λ v h. text_in_bounds rules law 1 200 v address h) ea,
          counted.0,
          counted.1,
        ))
      (if_some (whitelisted ("deliveryAddress" ∷ "lines" ∷ []) ms) _ dto e).1
validate_place_order-bounds rules law key v dto e = cc

-- A rating that is accepted has a score of 1 to 5.
pub validate_rating-score :
    (rules : ClassValidator)
    → Validates rules
    → (key : String → Key) (body : Json) (dto : CreateRatingDto)
    → validate_rating rules key body ≡ some dto
    → (1 ≤ dto.score) × (dto.score ≤ 5)
unfolding validate_rating
validate_rating-score rules law key (Json.object ms) dto e =
    both_holds {A = Key × ℕ} (λ (x : CreateRatingDto). (1 ≤ x.score) × (x.score ≤ 5)) _ _ _ dto
      (λ head comment eh ec.
        both_holds (λ (h : Key × ℕ). (1 ≤ h.1) × (h.1 ≤ 5)) _ _
          (then_read (property "score" ms) (int_in rules 1 5)) head
          (λ id score ei es.
            read_holds (λ n. (1 ≤ n) × (n ≤ 5)) (property "score" ms) (int_in rules 1 5) score
              (λ v h. int_in_bounds rules law 1 5 v score h) es)
          eh)
      (if_some (whitelisted ("dropId" ∷ "score" ∷ "comment" ∷ []) ms) _ dto e).1
validate_rating-score rules law key v dto e = cc
