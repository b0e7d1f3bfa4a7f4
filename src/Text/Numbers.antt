-- ===== src/Text/Numbers.antt =====
-- The digits that `printnum` of lab8/libs/printfmt.c puts and `strtol` of lab8/libs/string.c reads.
use native.Mathlib.Nat.{le-mul_of_pos_right, div-lt_self, mod-eq_of_lt}
use os_experiment.Prelude.{
  ℕ, zero, suc, ◌+◌, ◌-◌, ◌*◌, ◌/◌, ◌%◌, ◌^◌, ◌≡◌, ◌≤◌, ◌<◌, refl, false, ◌==◌, none, some, List,
  [], ◌∷◌, ◌++◌, map, length, replicate, ltb, leb, arith, Bool-cases, inl, inr, ap, ◌∙◌,
}
use os_experiment.Text.{
  Memory, u64, digit_of, digit_char, printnum, skip_blanks, read_digits, read_base, strtol,
}
use os_experiment.Text.Strings.{IsString}

-- What digits are worth, behind those that are worth `val` in front of them.
abbrev pub worth : ℕ → ℕ → List ℕ → ℕ
worth base val [] = val
worth base val (d ∷ ds) = worth base (val * base + d) ds

abbrev pub AllDigits : ℕ → List ℕ → Type 0
AllDigits base [] = Unit
AllDigits base (d ∷ ds) = (d < base) × AllDigits base ds

worth-append :
    (base val d : ℕ) (ds : List ℕ) → worth base val (ds ++ d ∷ []) ≡ worth base val ds * base + d
worth-append base val d [] = refl
worth-append base val d (e ∷ ds) = worth-append base (val * base + e) d ds

AllDigits-append :
    (base d : ℕ) (ds : List ℕ) → AllDigits base ds → d < base → AllDigits base (ds ++ d ∷ [])
AllDigits-append base d [] a h = (h, tt)
AllDigits-append base d (e ∷ ds) (b, a) h = (b, AllDigits-append base d ds a h)

-- More digits are worth no less.
worth-le : (base val : ℕ) (ds : List ℕ) → 0 < base → val ≤ worth base val ds
worth-le base val [] pos = omega arith
worth-le base val (d ∷ ds) pos =
    let one_more = worth-le base (val * base + d) ds pos in
    omega (arith, one_more, le-mul_of_pos_right val pos)

-- What `printnum` puts: blanks, and at least one digit.
pub record IsNumeral (base num padc : ℕ) (l : List ℕ) : Type 0 where
  pub blanks : ℕ
  pub first : ℕ
  pub rest : List ℕ
  pub shape : l ≡ replicate blanks padc ++ map digit_char (first ∷ rest)
  pub digits : AllDigits base (first ∷ rest)
  pub value : worth base 0 (first ∷ rest) ≡ num

numeral_append :
    (padc d blanks : ℕ) (ds : List ℕ)
    → (replicate blanks padc ++ map digit_char ds) ++ digit_char d ∷ []
      ≡ replicate blanks padc ++ map digit_char (ds ++ d ∷ [])
numeral_append padc d zero [] = refl
numeral_append padc d zero (e ∷ ds) = ap (λ l. digit_char e ∷ l) (numeral_append padc d zero ds)
numeral_append padc d (suc n) ds = ap (λ l. padc ∷ l) (numeral_append padc d n ds)

pub printnum-IsNumeral :
    (fuel num base width padc : ℕ)
    → 1 < base
    → num < fuel
    → (l : List ℕ) × (printnum fuel num base width padc ≡ some l) × IsNumeral base num padc l
unfolding printnum
printnum-IsNumeral zero num base width padc big room = absurd (omega arith)
printnum-IsNumeral (suc fuel) num base width padc big room = elim (Bool-cases (leb base num)) [
  | inr e ↦ rw e (
    _,
    refl,
    record {
      blanks = width - 1;
      first = num;
      rest = [];
      shape =
          ap (λ d. replicate (width - 1) padc ++ digit_char d ∷ []) (mod-eq_of_lt (ground arith));
      digits = (ground arith, tt);
      value = omega arith;
    },
  )
  | inl e ↦
      let less : num / base < num = div-lt_self (ground arith) big in
      let (l, did, n) =
        printnum-IsNumeral fuel (num / base) base (width - 1) padc big (omega (arith, less)) in
      rw (e, did)
        (
          _,
          refl,
          record {
            blanks = n.blanks;
            first = n.first;
            rest = n.rest ++ num % base ∷ [];
            shape =
                ap (λ k. k ++ digit_char (num % base) ∷ []) n.shape
                ∙ numeral_append padc (num % base) n.blanks (n.first ∷ n.rest);
            digits =
                (n.digits.0, AllDigits-append base (num % base) n.rest n.digits.1 (omega arith));
            value =
                worth-append base 0 (num % base) (n.first ∷ n.rest)
                ∙ ap (λ v. v * base + num % base) n.value
                ∙ omega arith;
          },
        )
]

-- The characters of digits.
digit_of-digit_char : (d : ℕ) → d < 16 → digit_of (digit_char d) ≡ some d
unfolding digit_of
digit_of-digit_char d h = elim (Bool-cases (ltb d 10)) [
  | inl e ↦ let back : 48 + d - 48 ≡ d = omega arith in ground (arith, ap some back)
  | inr e ↦ let back : 87 + d - 97 + 10 ≡ d = ground arith in ground (arith, ap some back)
]

-- What no digit is: white space, a sign, the x of a prefix, the terminator.
pub digit_char_range : (d : ℕ) → d < 16 → (47 < digit_char d) × (digit_char d < 103)
digit_char_range d h = elim (Bool-cases (ltb d 10)) [ inl e ↦ ground arith | inr e ↦ ground arith ]

digit_of_end : digit_of 0 ≡ none
unfolding digit_of
digit_of_end = refl

-- The loop over the digits ends at the terminator.
read_digits-worth :
    (fuel base val s : ℕ) (m : Memory) (ds : List ℕ)
    → 0 < base
    → base ≤ 16
    → AllDigits base ds
    → IsString m s (map digit_char ds)
    → worth base val ds < 2 ^ 64
    → length ds < fuel
    → read_digits fuel base val s m ≡ some (s + length ds, worth base val ds)
unfolding read_digits
read_digits-worth zero base val s m ds pos top a h small room = absurd (omega arith)
read_digits-worth (suc fuel) base val s m [] pos top a h small room =
    let over : digit_of (m s) ≡ none = ap digit_of h ∙ digit_of_end in
    rw (read_digits, over) (ap (λ x. some (x, val)) (omega arith))
read_digits-worth (suc fuel) base val s m (d ∷ ds) pos top (low, a) (here, nz, h) small room =
    let digit : digit_of (m s) ≡ some d = ap digit_of here ∙ digit_of-digit_char d (omega arith) in
    let fits : u64 (val * base + d) ≡ val * base + d =
      mod-eq_of_lt (omega (arith, worth-le base (val * base + d) ds pos)) in
    let next =
      read_digits-worth fuel base (val * base + d) (s + 1) m ds pos top a h small (omega arith) in
    let in_base : leb base d ≡ false = ground arith in
    rw (read_digits, digit, in_base, fits, next)
      (ap (λ x. some (x, worth base (val * base + d) ds)) (omega arith))

-- White space in front.
skip_blanks-replicate :
    (fuel n s : ℕ) (m : Memory) (d : ℕ) (l : List ℕ)
    → d < 16
    → IsString m s (replicate n 32 ++ digit_char d ∷ l)
    → n < fuel
    → (skip_blanks fuel s m ≡ some (s + n)) × IsString m (s + n) (digit_char d ∷ l)
unfolding skip_blanks
skip_blanks-replicate zero n s m d l low h room = absurd (omega arith)
skip_blanks-replicate (suc fuel) zero s m d l low h room =
    let at : s + 0 ≡ s = omega arith in rw at (ground (arith, digit_char_range d low, h.0), h)
skip_blanks-replicate (suc fuel) (suc n) s m d l low (here, nz, h) room =
    let (did, left) = skip_blanks-replicate fuel n (s + 1) m d l low h (omega arith) in
    let at : s + suc n ≡ s + 1 + n = omega arith in rw at (ground (arith, here, did), left)

-- Behind a digit of a numeral stands no x.
no_prefix :
    (m : Memory) (s base : ℕ) (ds : List ℕ)
    → base ≤ 16
    → AllDigits base ds
    → IsString m s (map digit_char ds)
    → (m s == 120) ≡ false
no_prefix m s base [] top a h = ground arith
no_prefix m s base (d ∷ ds) top (low, a) h = ground (arith, h.0, digit_char_range d (omega arith))

read_base-digits :
    (base s d : ℕ) (m : Memory) (ds : List ℕ)
    → 0 < base
    → base ≤ 16
    → AllDigits base ds
    → IsString m (s + 1) (map digit_char ds)
    → read_base base s m ≡ (base, s)
unfolding read_base
read_base-digits base s d m ds pos top a h =
    let given : (base == 0) ≡ false = ground arith in
    ground (arith, no_prefix m (s + 1) base ds top a h)

-- `strtol` of a numeral behind white space.
pub strtol-worth :
    (fuel n s base first : ℕ) (rest : List ℕ) (m : Memory)
    → 1 < base
    → base ≤ 16
    → AllDigits base (first ∷ rest)
    → worth base 0 (first ∷ rest) < 2 ^ 63
    → IsString m s (replicate n 32 ++ map digit_char (first ∷ rest))
    → n + length (first ∷ rest) < fuel
    → strtol fuel s base m ≡ some (s + n + length (first ∷ rest), worth base 0 (first ∷ rest))
unfolding strtol
strtol-worth fuel n s base first rest m big top a small h room =
    let low : first < 16 = omega (arith, a.0) in
    let (skipped, left) =
      skip_blanks-replicate fuel n s m first (map digit_char rest) low h (omega arith) in
    let range = digit_char_range first low in
    let no_minus : (m (s + n) == 45) ≡ false = ground (arith, left.0) in
    let no_plus : (m (s + n) == 43) ≡ false = ground (arith, left.0) in
    let based = read_base-digits base (s + n) first m rest (omega arith) top a.1 left.2 in
    let read =
      read_digits-worth fuel base 0 (s + n) m (first ∷ rest) (omega arith) top a left (omega arith)
        (omega arith) in
    rw (skipped, no_minus, no_plus, based, read) refl
