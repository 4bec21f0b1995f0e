-- ===== src/Fields/Types.antt =====
-- The enumerations of case fields (prisma/schema.prisma) and the JSON values that configure them.
use hpx_eigen_s1_foundation.Common.{
  ℕ, zero, suc, ◌+◌, ◌-◌, ◌*◌, ◌/◌, ◌%◌, ◌^◌, Bool, not, ◌&&◌, Option, none, some, List, [], ◌∷◌,
  Text, text_eq, ltb, ◌==◌, if◌then◌else◌,
}

pub data FieldType : Type 0 where
  text textarea number decimal currency percentage date datetime time boolean : FieldType
  select multi_select email phone url : FieldType
  user_reference department_reference case_reference document_reference : FieldType

pub data FieldStatus : Type 0 where
  draft active read_only archived : FieldStatus

pub data Operator : Type 0 where
  equals not_equals is_empty is_not_empty greater_than less_than among not_among : Operator

pub data EffectType : Type 0 where
  require_field hide_field set_default : EffectType

-- A JavaScript number, by the 64 bits of its IEEE 754 form.
abbrev pub Number : Type 0
Number = ℕ

unfoldable pub is_nan : Number → Bool
is_nan x = ltb 0x7ff0000000000000 (x % 2 ^ 63)

-- The place of a number in the order, the same for 0 and -0.
unfoldable pub rank : Number → ℕ
rank x = if ltb x (2 ^ 63) then 2 ^ 63 + x else 2 ^ 64 - x

-- `x < y`
unfoldable pub less : Number → Number → Bool
unfolding rank is_nan
less x y = not (is_nan x) && not (is_nan y) && ltb (rank x) (rank y)

-- `x === y`, on numbers
unfoldable pub same_number : Number → Number → Bool
unfolding rank is_nan
same_number x y = not (is_nan x) && not (is_nan y) && rank x == rank y

unfoldable pub log2 : ℕ → ℕ → ℕ
log2 zero n = 0
log2 (suc fuel) n = let rest = log2 fuel (n / 2) in if ltb n 2 then 0 else suc rest

-- A count below 2 ^ 53, as a number.
unfoldable pub number_of : ℕ → Number
unfolding log2
number_of zero = 0
number_of (suc n) =
    let e = log2 53 (suc n) in (1023 + e) * 2 ^ 52 + (suc n * 2 ^ 52 / 2 ^ e - 2 ^ 52)

-- A parsed JSON value. The keys of an object are distinct.
mutual
  pub data Json : Type 0 where
    null : Json
    bool : Bool → Json
    num : Number → Json
    str : Text → Json
    array : Items → Json
    object : Entries → Json

  pub data Items : Type 0 where
    done : Items
    item : Json → Items → Items

  pub data Entries : Type 0 where
    end : Entries
    entry : Text → Json → Entries → Entries

-- `obj[key]`; nothing for `undefined`
unfoldable pub get_entry : Text → Entries → Option Json
get_entry key end = none
get_entry key (entry k v es) = if text_eq k key then some v else get_entry key es

-- `xs.every((x) => typeof x === 'string')`, with the strings
unfoldable pub strings_of : Items → Option (List Text)
strings_of done = some []
strings_of (item (str s) xs) = elim (strings_of xs) [ none ↦ none | some rest ↦ some (s ∷ rest) ]
strings_of (item _ xs) = none
