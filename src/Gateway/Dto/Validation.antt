-- ===== src/Gateway/Dto/Validation.antt =====
-- The decorators of contract/dto, applied to the parsed body of a request by the ValidationPipe that
-- app.setup.ts configures (whitelist, forbidNonWhitelisted). The validators are class-validator's:
-- parameters, with what its documentation says of them.
use Prim.Native.String.{String, len}
use text.Mathlib.Text.{◌==◌ as ◌==ₜ◌}
use hotdrop_orchestration.Base.{
  Key, ℕ, suc, ◌≡◌, refl, Bool, true, false, ◌&&◌, Option, none, some, List, [], ◌∷◌, leb, is_some,
  first, if◌then◌else◌,
}
use hotdrop_orchestration.Gateway.Dto.{
  PlaceOrderLineDto, PlaceOrderDto, CreateRatingDto, CreateSupportTicketDto,
}

pub data Number : Type 0 where
  natural : ℕ → Number
  negative : ℕ → Number
  fraction : String → Number

-- A parsed body: a member of an object stands once.
mutual
  pub data Json : Type 0 where
    null : Json
    boolean : Bool → Json
    number : Number → Json
    string : String → Json
    array : Items → Json
    object : Members → Json

  pub data Items : Type 0 where
    no_items : Items
    item : Json → Items → Items

  pub data Members : Type 0 where
    no_members : Members
    member : String → Json → Members → Members

-- The validators, as the decorators call them.
pub record ClassValidator : Type 0 where
  pub is_string : Json → Bool
  pub has_length : ℕ → ℕ → Json → Bool
  pub is_int : Json → Bool
  pub min : ℕ → Json → Bool
  pub max : ℕ → Json → Bool
  pub is_array : Json → Bool
  pub array_min_size : ℕ → Json → Bool

abbrev pub string_test : Json → Bool
string_test (Json.string t) = true
string_test _ = false

abbrev pub length_test : ℕ → ℕ → Json → Bool
length_test lo hi (Json.string t) = leb lo (len t) && leb (len t) hi
length_test lo hi _ = false

abbrev pub int_test : Json → Bool
int_test (Json.number (Number.natural n)) = true
int_test (Json.number (Number.negative n)) = true
int_test _ = false

-- The bounds of the decorators are whole numbers, and a fraction is refused by IsInt before; what Min
-- and Max say of one is left open.
abbrev pub min_test : ℕ → Json → Bool
min_test lo (Json.number (Number.natural n)) = leb lo n
min_test lo _ = false

abbrev pub max_test : ℕ → Json → Bool
max_test hi (Json.number (Number.natural n)) = leb n hi
max_test hi (Json.number (Number.negative n)) = true
max_test hi _ = false

abbrev pub array_test : Json → Bool
array_test (Json.array items) = true
array_test _ = false

abbrev pub length_of : Items → ℕ
length_of Items.no_items = 0
length_of (Items.item v items) = suc (length_of items)

abbrev pub size_test : ℕ → Json → Bool
size_test lo (Json.array items) = leb lo (length_of items)
size_test lo _ = false

-- What the documentation of class-validator says.
pub record Validates (rules : ClassValidator) : Type 0 where
  pub is_string_lem : (v : Json) → rules.is_string v ≡ string_test v
  pub has_length_lem : (lo hi : ℕ) (v : Json) → rules.has_length lo hi v ≡ length_test lo hi v
  pub is_int_lem : (v : Json) → rules.is_int v ≡ int_test v
  pub min_lem : (lo : ℕ) (v : Json) → int_test v ≡ true → rules.min lo v ≡ min_test lo v
  pub max_lem : (hi : ℕ) (v : Json) → int_test v ≡ true → rules.max hi v ≡ max_test hi v
  pub is_array_lem : (v : Json) → rules.is_array v ≡ array_test v
  pub array_min_size_lem : (lo : ℕ) (v : Json) → rules.array_min_size lo v ≡ size_test lo v

abbrev pub class_validator : ClassValidator
class_validator = record {
  is_string = string_test;
  has_length = length_test;
  is_int = int_test;
  min = min_test;
  max = max_test;
  is_array = array_test;
  array_min_size = size_test;
}

pub class_validator-Validates : Validates class_validator
class_validator-Validates = record {
  is_string_lem = λ v. refl;
  has_length_lem = λ lo hi v. refl;
  is_int_lem = λ v. refl;
  min_lem = λ lo v h. refl;
  max_lem = λ hi v h. refl;
  is_array_lem = λ v. refl;
  array_min_size_lem = λ lo v. refl;
}

abbrev pub property : String → Members → Option Json
property name Members.no_members = none
property name (Members.member n v rest) = if n ==ₜ name then some v else property name rest

-- forbidNonWhitelisted: a property without a decorator refuses the body.
abbrev pub whitelisted : List String → Members → Bool
whitelisted names Members.no_members = true
whitelisted names (Members.member n v rest) =
    is_some (first (λ x. x ==ₜ n) names) && whitelisted names rest

abbrev pub text_of : Json → Option String
text_of (Json.string t) = some t
text_of _ = none

abbrev pub natural_of : Json → Option ℕ
natural_of (Json.number (Number.natural n)) = some n
natural_of _ = none

abbrev pub items_of : Json → Option Items
items_of (Json.array items) = some items
items_of _ = none

abbrev pub both : {A B C : Type 0} → (A → B → C) → Option A → Option B → Option C
both f none b = none
both f (some a) none = none
both f (some a) (some b) = some (f a b)

abbrev pub then_read : {A B : Type 0} → Option A → (A → Option B) → Option B
then_read none f = none
then_read (some a) f = f a

module _ (rules : ClassValidator) where
  -- @IsString() @Length(lo, hi)
  unfoldable pub text_in : ℕ → ℕ → Json → Option String
  text_in lo hi v = if rules.is_string v && rules.has_length lo hi v then text_of v else none

  -- @IsInt() @Min(lo)
  unfoldable pub int_from : ℕ → Json → Option ℕ
  int_from lo v = if rules.is_int v && rules.min lo v then natural_of v else none

  -- @IsInt() @Min(lo) @Max(hi)
  unfoldable pub int_in : ℕ → ℕ → Json → Option ℕ
  int_in lo hi v =
      if rules.is_int v && (rules.min lo v && rules.max hi v) then natural_of v else none

  -- @IsOptional() @IsString() @Length(lo, hi): undefined and null pass.
  unfoldable pub optional_text : ℕ → ℕ → Option Json → Option (Option String)
  unfolding text_in
  optional_text lo hi none = some none
  optional_text lo hi (some Json.null) = some none
  optional_text lo hi (some v) = then_read (text_in lo hi v) (λ t. some (some t))

  -- An id is a number here: `key` gives the id that a text is.
  module _ (key : String → Key) where
    unfoldable pub validate_line : Json → Option PlaceOrderLineDto
    unfolding text_in int_from
    validate_line (Json.object ms) =
        if whitelisted ("dropId" ∷ "qty" ∷ []) ms
        then both (λ drop_id qty. record { drop_id = key drop_id; qty = qty })
            (then_read (property "dropId" ms) (text_in 1 60))
            (then_read (property "qty" ms) (int_from 1))
        else none
    validate_line _ = none

    -- @ValidateNested({ each: true })
    unfoldable pub validate_each : Items → Option (List PlaceOrderLineDto)
    unfolding validate_line
    validate_each Items.no_items = some []
    validate_each (Items.item v items) =
        both (λ l ls. l ∷ ls) (validate_line v) (validate_each items)

    -- @IsArray() @ArrayMinSize(1)
    unfoldable pub validate_lines : Json → Option (List PlaceOrderLineDto)
    unfolding validate_each
    validate_lines v =
        if rules.is_array v && rules.array_min_size 1 v
        then then_read (items_of v) validate_each
        else none

    unfoldable pub validate_place_order : Json → Option PlaceOrderDto
    unfolding text_in validate_lines
    validate_place_order (Json.object ms) =
        if whitelisted ("deliveryAddress" ∷ "lines" ∷ []) ms
        then both (λ address lines. record { delivery_address = address; lines = lines })
            (then_read (property "deliveryAddress" ms) (text_in 1 200))
            (then_read (property "lines" ms) validate_lines)
        else none
    validate_place_order _ = none

    unfoldable pub validate_rating : Json → Option CreateRatingDto
    unfolding text_in int_in optional_text
    validate_rating (Json.object ms) =
        if whitelisted ("dropId" ∷ "score" ∷ "comment" ∷ []) ms
        then both {A = Key × ℕ}
            (λ head comment. record { drop_id = head.0; score = head.1; comment = comment })
            (both (λ drop_id score. (key drop_id, score))
              (then_read (property "dropId" ms) (text_in 1 60))
              (then_read (property "score" ms) (int_in 1 5)))
            (optional_text 0 500 (property "comment" ms))
        else none
    validate_rating _ = none

  unfoldable pub validate_ticket : Json → Option CreateSupportTicketDto
  unfolding text_in
  validate_ticket (Json.object ms) =
      if whitelisted ("subject" ∷ "body" ∷ []) ms
      then both (λ subject body. record { subject = subject; body = body })
          (then_read (property "subject" ms) (text_in 1 120))
          (then_read (property "body" ms) (text_in 1 2000))
      else none
  validate_ticket _ = none
