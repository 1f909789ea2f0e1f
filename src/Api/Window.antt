-- ===== src/Api/Window.antt =====
-- ParseRetentionWindow of api/v1/configstore_types.go. A Duration is an int64 of nanoseconds: here
-- its bit pattern, so that the product wraps as Go's does.
pub mod Exact
use cnpg_i_chronicle.Common.{
  ℕ, zero, suc, ◌+◌, ◌-◌, ◌*◌, ◌%◌, ◌^◌, Bool, ◌||◌, ◌&&◌, not, Option, none, some, List, [], ◌∷◌,
  if◌then◌else◌, ltb, leb, ◌==◌, all, length, Text, is_nil, Result, ok, err,
}
use cnpg_i_chronicle.Store.Layout.{is_digit, number_from}

abbrev pub modulus : ℕ
modulus = 18446744073709551616

abbrev pub int64_bound : ℕ
int64_bound = 9223372036854775808

-- 24 * time.Hour, in nanoseconds
abbrev pub day : ℕ
day = 86400000000000

pub data WindowError : Type 0 where
  not_a_duration unknown_unit : Text → WindowError

-- value[:len(value)-1] and value[len(value)-1]
unfoldable pub split_last : Text → Option (Text × ℕ)
split_last [] = none
split_last (c ∷ s) = elim (split_last s) [ none ↦ some ([], c) | some (t, d) ↦ some (c ∷ t, d) ]

-- What follows an optional plus sign. After a minus sign strconv.Atoi returns no positive number.
abbrev pub after_plus : Text → Text
after_plus [] = []
after_plus (c ∷ s) = if c == b'+' then s else c ∷ s

-- strconv.Atoi and the test that the count is positive: `none` where either refuses.
unfoldable pub positive_count : Text → Option ℕ
positive_count s =
    let digits = after_plus s in
    if is_nil digits || not (all is_digit digits)
    then none
    else if leb int64_bound (number_from 0 digits) || ltb (number_from 0 digits) 1
    then none
    else some (number_from 0 digits)

-- How many days the unit has.
unfoldable pub unit_days : ℕ → Option ℕ
unit_days unit =
    if unit == b'd'
    then some 1
    else if unit == b'w'
    then some 7
    else if unit == b'm'
    then some 30
    else none

-- time.Duration(count) * days * day
unfoldable pub duration_of : ℕ → ℕ → ℕ
duration_of count days = count * days * day % modulus

-- ParseRetentionWindow
unfoldable pub parse_retention_window : Text → Result WindowError ℕ
parse_retention_window value =
    if ltb (length value) 2 then err (not_a_duration value) else elim (split_last value) [
      | none ↦ err (not_a_duration value)
      | some (digits, unit) ↦ elim (positive_count digits) [
        | none ↦ err (not_a_duration value)
        | some count ↦ elim (unit_days unit) [
          | none ↦ err (unknown_unit value)
          | some days ↦ ok (duration_of count days)
        ]
      ]
    ]

-- -d
unfoldable pub negated : ℕ → ℕ
negated d = (modulus - d) % modulus

-- t.Add(d)
unfoldable pub add_duration : ℕ → ℕ → ℕ
add_duration t d = if leb int64_bound d then t - (modulus - d) else t + d
