-- ===== src/Text/RoundTrip.antt =====
-- `printnum` of lab8/libs/printfmt.c into a buffer, read again by `strtol` of lab8/libs/string.c.
use mathlib.Core.Path.{subst}
use os_experiment.Prelude.{
  ℕ, zero, suc, ◌+◌, ◌-◌, ◌%◌, ◌^◌, ◌≡◌, ◌≢◌, ◌≤◌, ◌<◌, refl, Option, some, List, [], ◌∷◌, ◌++◌,
  map, length, length-append, length-replicate, take, replicate, arith, ap, sym, ◌∙◌,
}
use os_experiment.Text.{Memory, digit_char, printnum, vsnprintf, strtol}
use os_experiment.Text.Strings.{IsString}
use os_experiment.Text.Buffer.{AllNonzero, as_bytes, vsnprintf-IsString}
use os_experiment.Text.Numbers.{
  AllDigits, worth, printnum-IsNumeral, digit_char_range, strtol-worth,
}

take_all : (l : List ℕ) (n : ℕ) → n ≡ length l → take n l ≡ l
take_all [] zero e = refl
take_all [] (suc n) e = absurd (omega arith)
take_all (c ∷ cs) zero e = absurd (omega arith)
take_all (c ∷ cs) (suc n) e = ap (λ l. c ∷ l) (take_all cs n (omega arith))

length-map_chars : (ds : List ℕ) → length (map digit_char ds) ≡ length ds
length-map_chars [] = refl
length-map_chars (d ∷ ds) = ap suc (length-map_chars ds)

digits-AllNonzero :
    (base : ℕ) (ds : List ℕ) → base ≤ 16 → AllDigits base ds → AllNonzero (map digit_char ds)
digits-AllNonzero base [] top a = tt
digits-AllNonzero base (d ∷ ds) top (low, a) =
    (omega (arith, digit_char_range d (omega arith)), digits-AllNonzero base ds top a)

-- Digits and blanks are stored as they are.
digits-as_bytes :
    (base : ℕ) (ds : List ℕ)
    → base ≤ 16
    → AllDigits base ds
    → as_bytes (map digit_char ds) ≡ map digit_char ds
digits-as_bytes base [] top a = refl
digits-as_bytes base (d ∷ ds) top (low, a) =
    let byte : digit_char d % 256 ≡ digit_char d =
      omega (arith, digit_char_range d (omega arith)) in
    rw (byte, digits-as_bytes base ds top a) refl

blanks-as_bytes :
    (n : ℕ) (l : List ℕ) → as_bytes l ≡ l → as_bytes (replicate n 32 ++ l) ≡ replicate n 32 ++ l
blanks-as_bytes zero l h = h
blanks-as_bytes (suc n) l h = ap (λ k. 32 ∷ k) (blanks-as_bytes n l h)

blanks-AllNonzero : (n : ℕ) (l : List ℕ) → AllNonzero l → AllNonzero (replicate n 32 ++ l)
blanks-AllNonzero zero l h = h
blanks-AllNonzero (suc n) l h = (omega arith, blanks-AllNonzero n l h)

-- A number below 2 ^ 63 that `printnum` puts into a buffer in a base from 2 to 16, with blanks in
-- front up to some width, is read back by `strtol` in that base, which reads all of the text. The
-- buffer has room for the text and a terminator, and the fuel of `printnum` exceeds the number.
pub strtol-printnum :
    (fuel base num width str : ℕ) (m : Memory)
    → 1 < base
    → base ≤ 16
    → num < 2 ^ 63
    → num < fuel
    → str ≢ 0
    → (l : List ℕ) × (printnum fuel num base width 32 ≡ some l)
      × (strtol (suc (length l)) str base (vsnprintf str (suc (length l)) l m).1
          ≡ some (str + length l, num))
strtol-printnum fuel base num width str m big top small room nn =
    let (l, did, n) = printnum-IsNumeral fuel num base width 32 big room in
    let ds = n.first ∷ n.rest in
    let nonzero : AllNonzero l =
      subst AllNonzero (sym n.shape)
        (blanks-AllNonzero n.blanks (map digit_char ds) (digits-AllNonzero base ds top n.digits)) in
    let (m', printed, text, others) =
      vsnprintf-IsString str (suc (length l)) l m nn (omega arith) nonzero in
    let whole : IsString m' str (replicate n.blanks 32 ++ map digit_char ds) =
      subst (IsString m' str)
        (ap as_bytes (take_all l (suc (length l) - 1) (omega arith) ∙ n.shape)
          ∙ blanks-as_bytes n.blanks (map digit_char ds) (digits-as_bytes base ds top n.digits))
        text in
    let size : length l ≡ n.blanks + length ds =
      ap length n.shape
      ∙ length-append (replicate n.blanks 32) (map digit_char ds)
      ∙ omega (arith, length-replicate {A = ℕ} n.blanks 32, length-map_chars ds) in
    let back =
      strtol-worth (suc (length l)) n.blanks str base n.first n.rest m' big top n.digits
        (omega (arith, n.value)) whole (omega (arith, size)) in
    let end : str + n.blanks + length ds ≡ str + length l = omega (arith, size) in
    (
      l,
      did,
      ap (λ (x : Option ℕ × Memory). strtol (suc (length l)) str base x.1) printed
          ∙ back
          ∙ ap (λ e. some (e, worth base 0 ds)) end
          ∙ ap (λ v. some (str + length l, v)) n.value,
    )
