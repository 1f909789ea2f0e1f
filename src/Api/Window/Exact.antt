-- ===== src/Api/Window/Exact.antt =====
-- The windows of ParseRetentionWindow (api/v1/configstore_types.go) that an int64 of nanoseconds holds.
use cnpg_i_chronicle.Common.{
  ℕ, ◌-◌, ◌*◌, ◌%◌, ◌≤◌, ◌<◌, ◌≡◌, refl, sym, ◌∙◌, ap, subst, inl, inr, true, false, ◌||◌, none,
  some, [], ◌∷◌, ◌++◌, arith, if◌then◌else◌, ltb, leb, ◌==◌, all, length, length-append, is_nil,
  Text, ok, Bool-cases,
}
use cnpg_i_chronicle.Store.Layout.{is_digit, number_from}
use cnpg_i_chronicle.Api.Window.{
  modulus, int64_bound, day, split_last, after_plus, positive_count, unit_days, duration_of,
  parse_retention_window, negated, add_duration,
}

split_last-append : (s : Text) (c : ℕ) → split_last (s ++ (c ∷ [])) ≡ some (s, c)
unfolding split_last
split_last-append [] c = refl
split_last-append (d ∷ s) c = rw (split_last-append s c)

digit_no_plus : (c : ℕ) → is_digit c ≡ true → (c == b'+') ≡ false
digit_no_plus c h = ground arith

after_plus_digits : (s : Text) → all is_digit s ≡ true → after_plus s ≡ s
after_plus_digits [] h = refl
after_plus_digits (c ∷ s) h = rw (digit_no_plus c (ground arith))

positive_count_digits :
    (s : Text)
    → all is_digit s ≡ true
    → 1 ≤ number_from 0 s
    → number_from 0 s < int64_bound
    → positive_count s ≡ some (number_from 0 s)
unfolding positive_count
positive_count_digits [] h low high = absurd (unfold number_from in ground arith)
positive_count_digits (c ∷ s) h low high =
    rw (after_plus_digits (c ∷ s) h, h) (bounded (number_from 0 (c ∷ s)) low high)
  where
    bounded :
        (n : ℕ)
        → 1 ≤ n
        → n < int64_bound
        → (if leb int64_bound n || ltb n 1 then none else some n) ≡ some n
    bounded n low high = ground arith

-- A unit is a day, a week or a month, so that a count is at most its days.
count_le_days : (unit days n : ℕ) → unit_days unit ≡ some days → n ≤ n * days
unfolding unit_days
count_le_days unit days n h = elim (Bool-cases (unit == b'd')) [
  | inl d ↦ one 1 (ground arith) (omega arith)
  | inr a ↦ elim (Bool-cases (unit == b'w')) [
    | inl w ↦ one 7 (ground arith) (omega arith)
    | inr b ↦ elim (Bool-cases (unit == b'm')) [
      | inl m ↦ one 30 (ground arith) (omega arith)
      | inr c ↦ absurd (ground arith)
    ]
  ]
]
  where
    one : (k : ℕ) → days ≡ k → n ≤ n * k → n ≤ n * days
    one k e le = subst (λ x. n ≤ n * x) (sym e) le

duration_of_small : (x : ℕ) → x ≤ 106751 → (x * day % modulus ≡ x * day) × x * day < int64_bound
duration_of_small x h = (omega arith, omega arith)

length_two : (s : Text) (c : ℕ) → is_nil s ≡ false → ltb (length (s ++ (c ∷ []))) 2 ≡ false
length_two [] c h = absurd (ground arith)
length_two (d ∷ s) c h = ground (arith, length-append s (c ∷ []))

nonempty : (s : Text) → 1 ≤ number_from 0 s → is_nil s ≡ false
nonempty [] h = absurd (unfold number_from in omega arith)
nonempty (c ∷ s) h = refl

-- The cutoff of a window that is positive lies the window before the present.
add-negated : (now d : ℕ) → 1 ≤ d → d < int64_bound → add_duration now (negated d) ≡ now - d
unfolding add_duration negated
add-negated now d low high =
    let small : (modulus - d) % modulus ≡ modulus - d = omega arith in rw small (ground arith)

parse_step :
    (s : Text) (unit n days : ℕ)
    → ltb (length (s ++ (unit ∷ []))) 2 ≡ false
    → positive_count s ≡ some n
    → unit_days unit ≡ some days
    → parse_retention_window (s ++ (unit ∷ [])) ≡ ok (duration_of n days)
unfolding parse_retention_window
parse_step s unit n days long count u = rw (long, split_last-append s unit, count, u)

-- A retention of some digits and a unit, whose count is positive and comes to 106751 days at most,
-- parses as exactly that many days, and the cutoff that the controller makes of it is exactly that
-- many days before the present: within that bound nothing wraps around.
pub parse_retention_window-exact :
    (s : Text) (unit days now : ℕ)
    → all is_digit s ≡ true
    → 1 ≤ number_from 0 s
    → unit_days unit ≡ some days
    → number_from 0 s * days ≤ 106751
    → (parse_retention_window (s ++ (unit ∷ [])) ≡ ok (number_from 0 s * days * day))
      × (add_duration now (negated (number_from 0 s * days * day))
          ≡ now - number_from 0 s * days * day)
unfolding duration_of
parse_retention_window-exact s unit days now h low u small =
    let below = count_le_days unit days (number_from 0 s) u in
    let (exact, bounded) = duration_of_small (number_from 0 s * days) small in
    (
      parse_step s unit (number_from 0 s) days (length_two s unit (nonempty s low))
            (positive_count_digits s h low (omega (arith, below, small))) u
          ∙ ap (λ d. ok d) exact,
      add-negated now (number_from 0 s * days * day) (omega (arith, below, low)) bounded,
    )
