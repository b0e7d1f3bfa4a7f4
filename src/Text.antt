-- ===== src/Text.antt =====
-- lab8/libs/string.c on a memory of bytes, and `printnum` of lab8/libs/printfmt.c. A string is the
-- address of its first byte. Addresses do not wrap around, since no object does.
pub mod Move
pub mod Strings
pub mod Buffer
pub mod Numbers
pub mod RoundTrip
use os_experiment.Prelude.{
  ℕ, zero, suc, ◌+◌, ◌-◌, ◌*◌, ◌/◌, ◌%◌, ◌^◌, Bool, true, false, not, ◌&&◌, ◌||◌, Option, none,
  some, List, [], ◌∷◌, ◌++◌, ◌==◌, ltb, leb, if◌then◌else◌, ◌>>=◌, update, u32, replicate,
}

-- A byte at every address; `char` is unsigned on this machine.
abbrev pub Memory : Type 0
Memory = ℕ → ℕ

-- The difference of two bytes as an int, a 32-bit word.
abbrev pub byte_diff : ℕ → ℕ → ℕ
byte_diff a b = u32 (a + 2 ^ 32 - b)

unfoldable pub strlen : ℕ → ℕ → Memory → Option ℕ
strlen zero s m = none
strlen (suc fuel) s m =
    let rest = strlen fuel (s + 1) m >>= λ cnt. some (cnt + 1) in if m s == 0 then some 0 else rest

unfoldable pub strnlen : ℕ → ℕ → Memory → ℕ
strnlen s zero m = 0
strnlen s (suc len) m = let rest = strnlen (s + 1) len m in if m s == 0 then 0 else rest + 1

unfoldable pub strcpy : ℕ → ℕ → ℕ → Memory → Option Memory
strcpy zero dst src m = none
strcpy (suc fuel) dst src m =
    let copied = update m dst (m src) in
    let rest = strcpy fuel (dst + 1) (src + 1) copied in if m src == 0 then some copied else rest

unfoldable pub strncpy : ℕ → ℕ → ℕ → Memory → Memory
strncpy dst src zero m = m
strncpy dst src (suc len) m =
    strncpy (dst + 1) (if m src == 0 then src else src + 1) len (update m dst (m src))

unfoldable pub strcat : ℕ → ℕ → ℕ → Memory → Option Memory
unfolding strlen strcpy
strcat fuel dst src m = strlen fuel dst m >>= λ n. strcpy fuel (dst + n) src m

unfoldable pub strcmp : ℕ → ℕ → ℕ → Memory → Option ℕ
strcmp zero s1 s2 m = none
strcmp (suc fuel) s1 s2 m =
    let rest = strcmp fuel (s1 + 1) (s2 + 1) m in
    if not (m s1 == 0) && m s1 == m s2 then rest else some (byte_diff (m s1) (m s2))

unfoldable pub strncmp : ℕ → ℕ → ℕ → Memory → ℕ
strncmp s1 s2 zero m = 0
strncmp s1 s2 (suc n) m =
    let rest = strncmp (s1 + 1) (s2 + 1) n m in
    if not (m s1 == 0) && m s1 == m s2 then rest else byte_diff (m s1) (m s2)

-- The address of `c`, 0 for NULL.
unfoldable pub strchr : ℕ → ℕ → ℕ → Memory → Option ℕ
strchr zero s c m = none
strchr (suc fuel) s c m =
    let rest = strchr fuel (s + 1) c m in
    if m s == 0 then some 0 else if m s == c then some s else rest

unfoldable pub strfind : ℕ → ℕ → ℕ → Memory → Option ℕ
strfind zero s c m = none
strfind (suc fuel) s c m =
    let rest = strfind fuel (s + 1) c m in if m s == 0 || m s == c then some s else rest

unfoldable pub memset : ℕ → ℕ → ℕ → Memory → Memory
memset s c zero m = m
memset s c (suc n) m = memset (s + 1) c n (update m s c)

-- The loop that copies from the first byte on.
unfoldable pub memcpy : ℕ → ℕ → ℕ → Memory → Memory
memcpy dst src zero m = m
memcpy dst src (suc n) m = memcpy (dst + 1) (src + 1) n (update m dst (m src))

-- The loop that copies from the last byte on.
unfoldable pub copy_down : ℕ → ℕ → ℕ → Memory → Memory
copy_down dst src zero m = m
copy_down dst src (suc n) m = copy_down dst src n (update m (dst + n) (m (src + n)))

unfoldable pub memmove : ℕ → ℕ → ℕ → Memory → Memory
unfolding memcpy copy_down
memmove dst src n m =
    if ltb src dst && ltb dst (src + n) then copy_down dst src n m else memcpy dst src n m

unfoldable pub memcmp : ℕ → ℕ → ℕ → Memory → ℕ
memcmp v1 v2 zero m = 0
memcmp v1 v2 (suc n) m =
    let rest = memcmp (v1 + 1) (v2 + 1) n m in
    if not (m v1 == m v2) then byte_diff (m v1) (m v2) else rest

abbrev pub u64 : ℕ → ℕ
u64 n = n % 2 ^ 64

-- The value of a digit character; `none` for any other.
unfoldable pub digit_of : ℕ → Option ℕ
digit_of c =
    if leb 48 c && leb c 57
    then some (c - 48)
    else if leb 97 c && leb c 122
    then some (c - 97 + 10)
    else if leb 65 c && leb c 90
    then some (c - 65 + 10)
    else none

-- The loops of `strtol`, over white space and over digits; the second result is `val`, as a 64-bit
-- word, with the address behind the digits.
unfoldable pub skip_blanks : ℕ → ℕ → Memory → Option ℕ
skip_blanks zero s m = none
skip_blanks (suc fuel) s m =
    let rest = skip_blanks fuel (s + 1) m in if m s == 32 || m s == 9 then rest else some s

unfoldable pub read_digits : ℕ → ℕ → ℕ → ℕ → Memory → Option (ℕ × ℕ)
unfolding digit_of
read_digits zero base val s m = none
read_digits (suc fuel) base val s m = elim (digit_of (m s)) [
  | none ↦ some (s, val)
  | some dig ↦
      let rest = read_digits fuel base (u64 (val * base + dig)) (s + 1) m in
      if leb base dig then some (s, val) else rest
]

-- The prefix of the base: the base, and where the digits begin.
unfoldable pub read_base : ℕ → ℕ → Memory → ℕ × ℕ
read_base base s m =
    if (base == 0 || base == 16) && m s == 48 && m (s + 1) == 120
    then (16, s + 2)
    else if base == 0 && m s == 48
    then (8, s + 1)
    else if base == 0
    then (10, s)
    else (base, s)

-- `*endptr` and the result, a 64-bit word.
unfoldable pub strtol : ℕ → ℕ → ℕ → Memory → Option (ℕ × ℕ)
unfolding skip_blanks read_digits read_base
strtol fuel s base m = skip_blanks fuel s m >>= λ t.
    let neg = m t == 45 in
    let (b, u) = read_base base (if m t == 43 || neg then t + 1 else t) m in
    read_digits fuel b 0 u m >>= λ (end, val). some (end, if neg then u64 (2 ^ 64 - val) else val)

-- "0123456789abcdef".
abbrev pub digit_char : ℕ → ℕ
digit_char d = if ltb d 10 then 48 + d else 87 + d

-- The characters that `printnum` puts, for a base and a width that is not negative.
unfoldable pub printnum : ℕ → ℕ → ℕ → ℕ → ℕ → Option (List ℕ)
printnum zero num base width padc = none
printnum (suc fuel) num base width padc =
    let before = printnum fuel (num / base) base (width - 1) padc in
    (if leb base num then before else some (replicate (width - 1) padc)) >>= λ l.
    some (l ++ digit_char (num % base) ∷ [])

-- `struct sprintbuf`, with the memory.
pub record SprintBuf : Type 0 where
  pub buf : ℕ
  pub ebuf : ℕ
  pub cnt : ℕ
  pub memory : Memory

-- The character is stored as a `char`, a byte.
unfoldable pub sprintputch : ℕ → SprintBuf → SprintBuf
sprintputch ch b =
    let cnt = u32 (b.cnt + 1) in
    if ltb b.buf b.ebuf
    then record b { cnt = cnt; buf = b.buf + 1; memory = update b.memory b.buf (ch % 256) }
    else record b { cnt = cnt }

-- The calls of `sprintputch` that formatting makes.
unfoldable pub put_all : List ℕ → SprintBuf → SprintBuf
put_all [] b = b
put_all (c ∷ cs) b = put_all cs (sprintputch c b)

-- `vsnprintf` for the characters that the format makes; `none` as the first result is -E_INVAL.
unfoldable pub vsnprintf : ℕ → ℕ → List ℕ → Memory → Option ℕ × Memory
vsnprintf str size l m =
    let ebuf = str + size - 1 in
    let b = put_all l (record { buf = str; ebuf = ebuf; cnt = 0; memory = m }) in
    if str == 0 || ltb ebuf str then (none, m) else (some b.cnt, update b.memory b.buf 0)
