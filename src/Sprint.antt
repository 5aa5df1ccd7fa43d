-- ===== src/Sprint.antt =====
-- kernel/src/generic/sprint.c, and the same in bootloader/src/generic/sprint.c: formatted printing into
-- a buffer. The variadic arguments are a list of words; addresses do not wrap.
pub mod Decimal
pub mod Tests
use operating_system_cortex.Base.{
  ℕ, zero, suc, ◌+◌, ◌-◌, ◌*◌, ◌/◌, ◌%◌, ◌^◌, Bool, true, false, ◌==◌, ltb, leb, ◌&&◌, not,
  if◌then◌else◌, List, [], ◌∷◌, ◌++◌, length, get_or, u8, u16, u32, test_bit, Run, ok, fault, hang,
  bind,
}
use operating_system_cortex.Dlist.{Ptr}
use operating_system_cortex.Bytes.{Bytes, write_byte}

-- The memory, `dest_ptr` and `size`.
pub record Out : Type 0 where
  pub memory : Bytes
  pub dest : Ptr
  pub size : ℕ

unfoldable pub put : (c : ℕ) → Out → Out
put c o = record {
  memory = write_byte o.memory o.dest c;
  dest = o.dest + 1;
  size = u16 (o.size + 1);
}

unfoldable pub put_all : List ℕ → Out → Out
put_all [] o = o
put_all (c ∷ cs) o = put_all cs (put c o)

unfoldable pub power : (base exp : ℕ) → ℕ
power base zero = 1
power base (suc exp) = u32 (power base exp * base)

abbrev pub digit_char : (value : ℕ) → ℕ
digit_char value = 0x30 + value % 10

-- `int_buffer`, the last digit first; the loop runs on fuel.
unfoldable pub int_digits : (fuel value : ℕ) → Run (List ℕ)
int_digits zero value = hang
int_digits (suc fuel) value =
    let rest = int_digits fuel (value / 10) in
    if value / 10 == 0
    then ok (digit_char value ∷ [])
    else bind rest (λ cs. ok (digit_char value ∷ cs))

unfoldable pub reversed : List ℕ → List ℕ → List ℕ
reversed [] acc = acc
reversed (c ∷ cs) acc = reversed cs (c ∷ acc)

-- `int_buffer` has ten places.
unfoldable pub print_uint_to_buffer : (fuel value : ℕ) → Out → Run Out
print_uint_to_buffer fuel value o =
    bind (int_digits fuel value)
      (λ cs. if ltb 10 (length cs) then fault else ok (put_all (reversed cs []) o))

-- `%u`, which falls through to `%d`, and `%d`: the word as a signed number.
unfoldable pub print_int : (fuel value : ℕ) → Out → Run Out
print_int fuel value o =
    if leb (2 ^ 31) value
    then print_uint_to_buffer fuel (2 ^ 32 - value) (put 0x2D o)
    else print_uint_to_buffer fuel value o

unfoldable pub print_binary : (i value : ℕ) → Out → Out
print_binary zero value o = o
print_binary (suc i) value o =
    let o₁ = put (if test_bit value i then 0x31 else 0x30) o in
    print_binary i value (if i % 8 == 0 then put 0x20 o₁ else o₁)

-- `hex_table`
abbrev pub hex_table : List ℕ
hex_table =
    0x30 ∷ 0x31 ∷ 0x32 ∷ 0x33 ∷ 0x34 ∷ 0x35 ∷ 0x36 ∷ 0x37 ∷ 0x38 ∷ 0x39 ∷ 0x41 ∷ 0x42 ∷ 0x43 ∷ 0x44
    ∷ 0x45 ∷ 0x46 ∷ []

unfoldable pub print_hex : (count value : ℕ) → Out → Out
print_hex zero value o = o
print_hex (suc count) value o =
    let byte = u8 (value / 2 ^ (8 * count)) in
    print_hex count value
      (put (get_or hex_table (byte % 16) 0) (put (get_or hex_table (byte / 16) 0) o))

unfoldable pub print_happy : (count : ℕ) → Out → Out
print_happy zero o = o
print_happy (suc count) o = print_happy count (put 0x44 (put 0x3A o))

-- `%s` with a number, which bounds the characters, and without.
unfoldable pub print_chars : (count : ℕ) → (string : Ptr) → Out → Out
print_chars zero string o = o
print_chars (suc count) string o =
    let c = o.memory string in
    let rest = print_chars count (string + 1) (put c o) in if c == 0 then o else rest

unfoldable pub print_string : (fuel : ℕ) → (string : Ptr) → Out → Run Out
print_string zero string o = hang
print_string (suc fuel) string o =
    let c = o.memory string in
    let rest = print_string fuel (string + 1) (put c o) in if c == 0 then ok o else rest

abbrev pub is_digit : (c : ℕ) → Bool
is_digit c = leb 0x30 c && leb c 0x39

-- `opt_fmt_size`
unfoldable pub count_digits : (fuel : ℕ) → Bytes → (p : Ptr) → Run ℕ
count_digits zero m p = hang
count_digits (suc fuel) m p =
    let rest = count_digits fuel m (p + 1) in
    if is_digit (m p) then bind rest (λ n. ok (u8 (n + 1))) else ok 0

-- `opt_fmt`, from its first digit on.
unfoldable pub opt_fmt : (digits : ℕ) → Bytes → (p : Ptr) → (acc : ℕ) → ℕ
opt_fmt zero m p acc = acc
opt_fmt (suc digits) m p acc = opt_fmt digits m (p + 1) (u8 (acc + (m p - 0x30) * power 10 digits))

-- The conversions that take an argument.
unfoldable pub print_argument : (fuel : ℕ) → (letter fmt value : ℕ) → Out → Run Out
print_argument fuel letter fmt value o =
    if letter == 0x73
    then if fmt == 0 then print_string fuel value o else ok (print_chars fmt value o)
    else if letter == 0x63
    then ok (put (u8 value) o)
    else if letter == 0x62
    then ok (print_binary fmt value o)
    else if letter == 0x68
    then ok (print_hex fmt value o)
    else print_int fuel value o

abbrev pub takes_argument : (letter : ℕ) → Bool
takes_argument letter =
    if letter == 0x73
    then true
    else if letter == 0x63
    then true
    else if letter == 0x62
    then true
    else if letter == 0x68
    then true
    else if letter == 0x75
    then true
    else letter == 0x64

unfoldable pub print_conversion :
    (fuel : ℕ) → (letter fmt : ℕ) → (args : List ℕ) → Out → Run (List ℕ × Out)
print_conversion fuel letter fmt args o =
    if takes_argument letter
    then with_argument args
    else ok (args, if letter == 0x65 then print_happy fmt o else o)
  where
    with_argument : List ℕ → Run (List ℕ × Out)
    with_argument [] = fault
    with_argument (value ∷ rest) =
        bind (print_argument fuel letter fmt value o) (λ o'. ok (rest, o'))

-- The loop over the format string, on fuel, which bounds the inner loops too. The character behind
-- a conversion is skipped even if it is the end of the string.
unfoldable pub print_from : (fuel : ℕ) → (src : Ptr) → (args : List ℕ) → Out → Run Out
print_from zero src args o = hang
print_from (suc fuel) src args o =
    if o.memory src == 0
    then ok o
    else if o.memory src == 0x25
    then bind (count_digits (suc fuel) o.memory (src + 1)) (λ n.
      bind
        (print_conversion (suc fuel) (o.memory (src + 1 + n)) (opt_fmt n o.memory (src + 1) 0) args
          o)
        (λ (args', o'). print_from fuel (src + 1 + n + 1) args' o'))
    else print_from fuel (src + 1) args (put (o.memory src) o)

unfoldable pub print_to_buffer_va :
    (fuel : ℕ) → (buffer src : Ptr) → (args : List ℕ) → Bytes → Run (ℕ × Bytes)
print_to_buffer_va fuel buffer src args m =
    bind (print_from fuel src args (record { memory = m; dest = buffer; size = 0 }))
      (λ o. ok (o.size, o.memory))
