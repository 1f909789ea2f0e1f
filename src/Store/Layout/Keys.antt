-- ===== src/Store/Layout/Keys.antt =====
-- The keys of snapshots (SnapshotKey and ParseSnapshotKey of internal/store/layout.go).
use mathlib.Core.List.{reverse, reverse-cons, reverse-append, reverse-reverse}
use cnpg_i_chronicle.Common.{
  ℕ, zero, suc, ◌≤◌, ◌<◌, ◌≡◌, ◌≢◌, refl, sym, ◌∙◌, ap, Bool, true, not, Option, none, some, [],
  ◌∷◌, ◌++◌, arith, ltb, ◌==◌, Text, codes, all, length, cut_at, cut_prefix, append_assoc,
  bind_option, Bool-cases, inl, inr,
}
use cnpg_i_chronicle.Store.Layout.Digits.{
  all-append, number_from-digits, length-digits, digits-is_digit, padded_ten,
}
use cnpg_i_chronicle.Store.Layout.{
  TimeFormat, Layout, trim_left, join_key, root, snapshots_prefix, padded, hash_part, short_hash,
  first_bytes, snapshot_name, snapshot_key, is_digit, is_hex, take_class, match_key, base_name,
  number_from, parse_snapshot_key,
}

take_class-append :
    (p : ℕ → Bool) (n : ℕ) (s t : Text)
    → length s ≡ n
    → all p s ≡ true
    → take_class p n (s ++ t) ≡ some (s, t)
unfolding take_class
take_class-append p zero [] t e h = refl
take_class-append p (suc n) [] t e h = absurd (ground arith)
take_class-append p zero (c ∷ s) t e h = absurd (ground arith)
take_class-append p (suc n) (c ∷ s) t e h =
    ground (arith, take_class-append p n s t (omega (arith, e)) (ground arith))

match_key-parts :
    (day clock generation hash : Text)
    → length day ≡ 8
    → all is_digit day ≡ true
    → length clock ≡ 6
    → all is_digit clock ≡ true
    → length generation ≡ 10
    → all is_digit generation ≡ true
    → length hash ≡ 8
    → all is_hex hash ≡ true
    → match_key (
        day
        ++ (codes "T"
            ++ (clock ++ (codes "Z-g" ++ (generation ++ (codes "-" ++ (hash ++ codes ".json")))))))
      ≡ some (day ++ (codes "T" ++ (clock ++ codes "Z")), generation)
unfolding match_key cut_prefix
match_key-parts day clock generation hash ld d lc c lg g lh h = rw (
  take_class-append is_digit 8 day _ ld d,
  take_class-append is_digit 6 clock _ lc c,
  take_class-append is_digit 10 generation _ lg g,
  take_class-append is_hex 8 hash _ lh h,
)

abbrev no_slash : ℕ → Bool
no_slash c = not (c == b'/')

all_of :
    (p q : ℕ → Bool) (s : Text)
    → ((c : ℕ) → p c ≡ true → q c ≡ true)
    → all p s ≡ true
    → all q s ≡ true
all_of p q [] h k = refl
all_of p q (c ∷ s) h k = ground (arith, h c, all_of p q s h)

digit_no_slash : (c : ℕ) → is_digit c ≡ true → no_slash c ≡ true
digit_no_slash c h = ground arith

hex_no_slash : (c : ℕ) → is_hex c ≡ true → no_slash c ≡ true
hex_no_slash c h = ground arith

all-reverse : (p : ℕ → Bool) (s : Text) → all p s ≡ true → all p (reverse s) ≡ true
all-reverse p [] h = refl
all-reverse p (c ∷ s) h =
    rw (reverse-cons c s)
      (all-append p (reverse s) (c ∷ []) (all-reverse p s (ground arith)) (ground arith))

cut_at-slash : (s t : Text) → all no_slash s ≡ true → cut_at b'/' (s ++ (b'/' ∷ t)) ≡ some (s, t)
unfolding cut_at
cut_at-slash [] t h = refl
cut_at-slash (c ∷ s) t h = ground (arith, cut_at-slash s t (ground arith))

trim_left-keeps : (s t : Text) → all no_slash s ≡ true → s ≢ [] → trim_left (s ++ t) ≡ s ++ t
unfolding trim_left
trim_left-keeps [] t h ne = absurd (ne refl)
trim_left-keeps (c ∷ s) t h ne = ground arith

reversed :
    (prefix name : Text)
    → all no_slash name ≡ true
    → name ≢ []
    → trim_left (reverse ((prefix ++ codes "/") ++ name)) ≡ reverse name ++ (b'/' ∷ reverse prefix)
reversed prefix name h ne =
    ap trim_left (
      reverse-append (prefix ++ codes "/") name
      ∙ ap (λ (r : Text). reverse name ++ r) (reverse-append prefix (codes "/")))
    ∙ trim_left-keeps (reverse name) (b'/' ∷ reverse prefix) (all-reverse no_slash name h)
        (λ e. ne (sym (reverse-reverse name) ∙ ap reverse e))

-- What base_name answers with, from where the last slash stands.
abbrev after_slash : Text → Option (Text × Text) → Text
after_slash r none = reverse r
after_slash r (some (name, _)) = reverse name

-- What follows the last slash of a key is its name, where the name has no slash.
base_name-append :
    (prefix name : Text)
    → all no_slash name ≡ true
    → name ≢ []
    → base_name ((prefix ++ codes "/") ++ name) ≡ name
unfolding base_name
base_name-append prefix name h ne =
    ap (λ (r : Text). after_slash r (cut_at b'/' r)) (reversed prefix name h ne)
    ∙ ap (after_slash (reverse name ++ (b'/' ∷ reverse prefix)))
        (cut_at-slash (reverse name) (reverse prefix) (all-reverse no_slash name h))
    ∙ reverse-reverse name

length-first_bytes : (n : ℕ) (s : Text) → n ≤ length s → length (first_bytes n s) ≡ n
length-first_bytes zero s h = refl
length-first_bytes (suc n) [] h = absurd (ground arith)
length-first_bytes (suc n) (c ∷ s) h = omega (arith, length-first_bytes n s)

all-first_bytes :
    (p : ℕ → Bool) (n : ℕ) (s : Text) → all p s ≡ true → all p (first_bytes n s) ≡ true
all-first_bytes p zero s h = refl
all-first_bytes p (suc n) [] h = refl
all-first_bytes p (suc n) (c ∷ s) h = ground (arith, all-first_bytes p n s)

length-short_hash : (checksum : Text) → length (short_hash checksum) ≡ 8
unfolding short_hash
length-short_hash checksum = elim (Bool-cases (ltb (length (hash_part checksum)) 8)) [
  | inl e ↦ rw e
  | inr e ↦ rw e (length-first_bytes 8 (hash_part checksum) (ground arith))
]

short_hash-is_hex :
    (checksum : Text)
    → all is_hex (hash_part checksum) ≡ true
    → all is_hex (short_hash checksum) ≡ true
unfolding short_hash
short_hash-is_hex checksum h = elim (Bool-cases (ltb (length (hash_part checksum)) 8)) [
  | inl e ↦ rw e
  | inr e ↦ rw e (all-first_bytes is_hex 8 (hash_part checksum) h)
]

-- What Format and Parse do with an instant in whole seconds, at the layout 20060102T150405Z.
pub record Stamped (time : TimeFormat) (moment : ℕ) : Type 0 where
  pub day : Text
  pub clock : Text
  pub formatted : time.format moment ≡ day ++ (codes "T" ++ (clock ++ codes "Z"))
  pub day_width : length day ≡ 8
  pub day_digits : all is_digit day ≡ true
  pub clock_width : length clock ≡ 6
  pub clock_digits : all is_digit clock ≡ true
  pub parsed : time.parse (time.format moment) ≡ some moment

-- The name of an object in the parts that the pattern matches.
name-parts :
    (time : TimeFormat) (moment generation : ℕ) (checksum : Text) (stamped : Stamped time moment)
    → snapshot_name time moment generation checksum
      ≡ stamped.day
        ++ (codes "T"
            ++ (stamped.clock
                ++ (codes "Z-g"
                    ++ (padded generation
                        ++ (codes "-" ++ (short_hash checksum ++ codes ".json"))))))
unfolding snapshot_name
name-parts time moment generation checksum stamped =
    let rest =
      codes "-g" ++ (padded generation ++ (codes "-" ++ (short_hash checksum ++ codes ".json"))) in
    ap (λ t. t ++ rest) stamped.formatted
    ∙ append_assoc stamped.day (codes "T" ++ (stamped.clock ++ codes "Z")) rest
    ∙ ap (λ t. stamped.day ++ (codes "T" ++ t)) (append_assoc stamped.clock (codes "Z") rest)

parts-no_slash :
    (day clock generation hash : Text)
    → all is_digit day ≡ true
    → all is_digit clock ≡ true
    → all is_digit generation ≡ true
    → all is_hex hash ≡ true
    → all no_slash (
        day
        ++ (codes "T"
            ++ (clock ++ (codes "Z-g" ++ (generation ++ (codes "-" ++ (hash ++ codes ".json")))))))
      ≡ true
parts-no_slash day clock generation hash d c g h =
    let ending = hash ++ codes ".json" in
    let numbered = generation ++ (codes "-" ++ ending) in
    let timed = clock ++ (codes "Z-g" ++ numbered) in
    all-append no_slash day (codes "T" ++ timed) (all_of is_digit no_slash day digit_no_slash d) (
      all-append no_slash clock (codes "Z-g" ++ numbered)
        (all_of is_digit no_slash clock digit_no_slash c)
        (all-append no_slash generation (codes "-" ++ ending)
          (all_of is_digit no_slash generation digit_no_slash g)
          (all-append no_slash hash (codes ".json") (all_of is_hex no_slash hash hex_no_slash h)
            refl)))

day-nonempty : (day rest : Text) → length day ≡ 8 → day ++ rest ≡ [] → ⊥
day-nonempty [] rest h e = ground arith
day-nonempty (c ∷ day) rest h e = ground arith

module _ (time : TimeFormat) (moment generation : ℕ) (checksum : Text)
    (stamped : Stamped time moment) (small : generation < 10000000000)
    (hex : all is_hex (hash_part checksum) ≡ true) where
  padded_width : length (padded generation) ≡ 10
  padded_width = ap length (padded_ten generation small) ∙ length-digits 10 generation

  padded_digits : all is_digit (padded generation) ≡ true
  padded_digits = ap (all is_digit) (padded_ten generation small) ∙ digits-is_digit 10 generation

  name-no_slash : all no_slash (snapshot_name time moment generation checksum) ≡ true
  name-no_slash =
      ap (all no_slash) (name-parts time moment generation checksum stamped)
      ∙ parts-no_slash stamped.day stamped.clock (padded generation) (short_hash checksum)
          stamped.day_digits stamped.clock_digits padded_digits (short_hash-is_hex checksum hex)

  name-nonempty : snapshot_name time moment generation checksum ≢ []
  name-nonempty = λ e.
      day-nonempty stamped.day _ stamped.day_width
        (sym (name-parts time moment generation checksum stamped) ∙ e)

  matched :
      match_key (snapshot_name time moment generation checksum)
      ≡ some (stamped.day ++ (codes "T" ++ (stamped.clock ++ codes "Z")), padded generation)
  matched =
      ap match_key (name-parts time moment generation checksum stamped)
      ∙ match_key-parts stamped.day stamped.clock (padded generation) (short_hash checksum)
          stamped.day_width stamped.day_digits stamped.clock_width stamped.clock_digits padded_width
          padded_digits (length-short_hash checksum) (short_hash-is_hex checksum hex)

  -- The key of a snapshot parses back to its instant and its generation: for an instant that
  -- Go's time format prints and parses, a generation of at most ten digits and a checksum in
  -- hexadecimal.
  pub parse_snapshot_key-snapshot_key :
      (layout : Layout)
      → parse_snapshot_key time (snapshot_key time layout moment generation checksum)
        ≡ some (moment, generation)
  unfolding parse_snapshot_key snapshot_key snapshots_prefix
  parse_snapshot_key-snapshot_key layout =
      ap (λ b. bind_option (match_key b) located)
        (base_name-append (join_key (root layout ∷ codes "snapshots" ∷ []))
          (snapshot_name time moment generation checksum) name-no_slash name-nonempty)
      ∙ ap (λ o. bind_option o located) matched
      ∙ ap (λ o. bind_option o (λ at. some (at, number_from 0 (padded generation))))
          (ap time.parse (sym stamped.formatted) ∙ stamped.parsed)
      ∙ ap (λ n. some (moment, n))
          (ap (number_from 0) (padded_ten generation small)
            ∙ number_from-digits 10 generation small)
    where
      located : Text × Text → Option (ℕ × ℕ)
      located m = bind_option (time.parse m.0) λ at. some (at, number_from 0 m.1)
