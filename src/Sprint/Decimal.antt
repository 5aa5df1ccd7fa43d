-- ===== src/Sprint/Decimal.antt =====
-- The decimal numbers that kernel/src/generic/sprint.c prints, read back from the buffer.
use operating_system_cortex.Base.{
  ℕ, zero, suc, ◌+◌, ◌-◌, ◌*◌, ◌/◌, ◌^◌, ◌<◌, ◌≤◌, ◌≡◌, ◌≢◌, refl, sym, ap, ◌∙◌, ◌==◌, ltb,
  le→ltb_false, ==→eq, ==_false→ne, ==_self, ne→==_false, Bool-cases, inl, inr, if◌then◌else◌, List,
  [], ◌∷◌, ◌++◌, length, length-append, append_assoc, arith, u16, Run, ok, fault, bind,
}
use operating_system_cortex.Dlist.{Ptr}
use operating_system_cortex.Bytes.{Bytes, write_byte}
use operating_system_cortex.Sprint.{
  Out, put, put_all, digit_char, int_digits, reversed, print_uint_to_buffer,
}

-- The number that `n` characters at an address stand for, if they are decimal digits.
abbrev pub number_at : (m : Bytes) → (p : Ptr) → (n acc : ℕ) → ℕ
number_at m p zero acc = acc
number_at m p (suc n) acc = number_at m (p + 1) n (acc * 10 + (m p - 0x30))

-- '0' to '9'
abbrev pub IsDigit : (character : ℕ) → Type 0
IsDigit character = (0x30 ≤ character) × (character ≤ 0x39)

abbrev AllDigits : List ℕ → Type 0
AllDigits [] = Unit {0}
AllDigits (c ∷ cs) = IsDigit c × AllDigits cs

abbrev number_of : List ℕ → (acc : ℕ) → ℕ
number_of [] acc = acc
number_of (c ∷ cs) acc = number_of cs (acc * 10 + (c - 0x30))

-- The same of digits whose last one comes first.
abbrev value_of : List ℕ → ℕ
value_of [] = 0
value_of (c ∷ cs) = value_of cs * 10 + (c - 0x30)

abbrev pub tens : ℕ → ℕ
tens zero = 1
tens (suc n) = tens n * 10

abbrev Digits : (value n : ℕ) → Run (List ℕ) → Type 0
Digits value n r =
    (cs : List ℕ) × (r ≡ ok cs)
    × (value_of cs ≡ value)
    × (1 ≤ length cs)
    × (length cs ≤ n)
    × AllDigits cs

digit_char-IsDigit : (value : ℕ) → IsDigit (digit_char value)
digit_char-IsDigit value = (omega arith, omega arith)

int_digits-Digits :
    (fuel n value : ℕ)
    → suc n ≤ fuel
    → value < tens (suc n)
    → Digits value (suc n) (int_digits fuel value)
unfolding int_digits
int_digits-Digits zero n value h small = absurd (omega arith)
int_digits-Digits (suc fuel) n value h small = elim (Bool-cases (value / 10 == 0)) [
  | inl e ↦ rw e (
    digit_char value ∷ [],
    refl,
    omega (arith, ==→eq (value / 10) 0 e),
    omega arith,
    omega arith,
    (digit_char-IsDigit value, tt),
  )
  | inr e ↦ rw e (
      longer n small (==_false→ne (value / 10) 0 e)
        (λ k p q. int_digits-Digits fuel k (value / 10) p q) h)
]
  where
    more :
        (k : ℕ)
        → Digits (value / 10) (suc k) (int_digits fuel (value / 10))
        → Digits value
            (suc (suc k))
            (bind (int_digits fuel (value / 10)) (λ cs. ok (digit_char value ∷ cs)))
    more k (cs, e, v, low, high, digits) = (
      digit_char value ∷ cs,
      rw e refl,
      omega (arith, v),
      omega arith,
      omega (arith, high),
      (digit_char-IsDigit value, digits),
    )

    longer :
        (n : ℕ)
        → value < tens (suc n)
        → value / 10 ≢ 0
        → ((k : ℕ)
            → suc k ≤ fuel
            → value / 10 < tens (suc k)
            → Digits (value / 10) (suc k) (int_digits fuel (value / 10)))
        → suc n ≤ suc fuel
        → Digits value
            (suc n)
            (bind (int_digits fuel (value / 10)) (λ cs. ok (digit_char value ∷ cs)))
    longer zero small ne rest h = absurd (ne (omega (arith, small)))
    longer (suc k) small ne rest h = more k (rest k (omega (arith, h)) (omega (arith, small)))

put_all_below :
    (cs : List ℕ) (o : Out) (a : Ptr) → a < o.dest → (put_all cs o).memory a ≡ o.memory a
unfolding put_all put write_byte
put_all_below [] o a h = refl
put_all_below (c ∷ cs) o a h =
    put_all_below cs (put c o) a (omega (arith, h))
    ∙ rw (ne→==_false a o.dest (λ e. omega (arith, e, h))) refl

put_dest : (c : ℕ) (o : Out) → o.dest < (put c o).dest
unfolding put
put_dest c o = omega arith

put_memory : (c : ℕ) (o : Out) → (put c o).memory o.dest ≡ c
unfolding put write_byte
put_memory c o = rw (==_self o.dest) refl

put_all-number_at :
    (cs : List ℕ) (o : Out) (acc : ℕ)
    → number_at (put_all cs o).memory o.dest (length cs) acc ≡ number_of cs acc
unfolding put_all put write_byte
put_all-number_at [] o acc = refl
put_all-number_at (c ∷ cs) o acc =
    ap
      (λ x.
        number_at (put_all cs (put c o)).memory (o.dest + 1) (length cs) (acc * 10 + (x - 0x30)))
      first
    ∙ put_all-number_at cs (put c o) (acc * 10 + (c - 0x30))
  where
    first : (put_all cs (put c o)).memory o.dest ≡ c
    first = put_all_below cs (put c o) o.dest (put_dest c o) ∙ put_memory c o

put_all-IsDigit :
    (cs : List ℕ) (o : Out) (i : ℕ) (a : Ptr)
    → AllDigits cs
    → i < length cs
    → a ≡ o.dest + i
    → IsDigit ((put_all cs o).memory a)
unfolding put_all put
put_all-IsDigit [] o i a digits h e = absurd (omega (arith, h))
put_all-IsDigit (c ∷ cs) o zero a (digit, digits) h e =
    let first : a ≡ o.dest = omega (arith, e) in
    rw (first, put_all_below cs (put c o) o.dest (put_dest c o), put_memory c o) digit
put_all-IsDigit (c ∷ cs) o (suc i) a (digit, digits) h e =
    put_all-IsDigit cs (put c o) i a digits (omega (arith, h)) (omega (arith, e))

put_all-dest : (cs : List ℕ) (o : Out) → (put_all cs o).dest ≡ o.dest + length cs
unfolding put_all put
put_all-dest [] o = omega arith
put_all-dest (c ∷ cs) o = omega (arith, put_all-dest cs (put c o))

put_all-size :
    (cs : List ℕ) (o : Out) → o.size < 2 ^ 16 → (put_all cs o).size ≡ u16 (o.size + length cs)
unfolding put_all put
put_all-size [] o h = omega (arith, h)
put_all-size (c ∷ cs) o h = omega (arith, put_all-size cs (put c o) (omega arith))

reversed-append : (cs ds : List ℕ) → reversed cs ds ≡ reversed cs [] ++ ds
unfolding reversed
reversed-append [] ds = refl
reversed-append (c ∷ cs) ds =
    reversed-append cs (c ∷ ds)
    ∙ sym (rw (reversed-append cs (c ∷ [])) (append_assoc (reversed cs []) (c ∷ []) ds))

reversed-AllDigits : (cs ds : List ℕ) → AllDigits cs → AllDigits ds → AllDigits (reversed cs ds)
unfolding reversed
reversed-AllDigits [] ds _ digits = digits
reversed-AllDigits (c ∷ cs) ds (digit, rest) digits =
    reversed-AllDigits cs (c ∷ ds) rest (digit, digits)

number_of-append :
    (xs ys : List ℕ) (acc : ℕ) → number_of (xs ++ ys) acc ≡ number_of ys (number_of xs acc)
number_of-append [] ys acc = refl
number_of-append (x ∷ xs) ys acc = number_of-append xs ys (acc * 10 + (x - 0x30))

number_of-reversed : (cs : List ℕ) → number_of (reversed cs []) 0 ≡ value_of cs
unfolding reversed
number_of-reversed [] = refl
number_of-reversed (c ∷ cs) =
    rw
      (
        reversed-append cs (c ∷ []),
        number_of-append (reversed cs []) (c ∷ []) 0,
        number_of-reversed cs,
      )
      refl

length-reversed : (cs : List ℕ) → length (reversed cs []) ≡ length cs
unfolding reversed
length-reversed [] = refl
length-reversed (c ∷ cs) =
    rw (reversed-append cs (c ∷ []), length-append (reversed cs []) (c ∷ []), length-reversed cs)
      (omega arith)

-- One to ten decimal digits were printed, behind what was there, that stand for the value.
abbrev pub Printed : (value : ℕ) → Out → Run Out → Type 0
Printed value o r =
    (n : ℕ) × (o' : Out) × (r ≡ ok o')
    × (1 ≤ n)
    × (n ≤ 10)
    × ((i : ℕ) → i < n → IsDigit (o'.memory (o.dest + i)))
    × (number_at o'.memory o.dest n 0 ≡ value)
    × (o'.dest ≡ o.dest + n)
    × (o'.size ≡ u16 (o.size + n))
    × ((a : Ptr) → a < o.dest → o'.memory a ≡ o.memory a)

-- Printing any value of 32 bits ends, with ten rounds of the loop at most, does not leave the buffer of
-- ten digits, and the characters are all from '0' to '9' and read as a decimal number are the value.
pub print_uint_to_buffer-Printed :
    (fuel value : ℕ) (o : Out)
    → 10 ≤ fuel
    → value < 2 ^ 32
    → o.size < 2 ^ 16
    → Printed value o (print_uint_to_buffer fuel value o)
unfolding print_uint_to_buffer
print_uint_to_buffer-Printed fuel value o enough small size =
    printed (int_digits-Digits fuel 9 value enough (omega (arith, small)))
  where
    printed :
        Digits value 10 (int_digits fuel value)
        → Printed value o (
            bind
              (int_digits fuel value)
              (λ cs. if ltb 10 (length cs) then fault else ok (put_all (reversed cs []) o)))
    printed (cs, e, v, low, high, digits) =
        rw (e, le→ltb_false 10 (length cs) high)
          (
            length cs,
            put_all (reversed cs []) o,
            refl,
            low,
            high,
            (λ i h.
                put_all-IsDigit (reversed cs []) o i _ (reversed-AllDigits cs [] digits tt)
                  (rw (length-reversed cs) h) refl),
            rw⁻¹ (length-reversed cs)
                (put_all-number_at (reversed cs []) o 0 ∙ number_of-reversed cs ∙ v),
            put_all-dest (reversed cs []) o ∙ ap (λ n. o.dest + n) (length-reversed cs),
            put_all-size (reversed cs []) o size ∙ ap (λ n. u16 (o.size + n)) (length-reversed cs),
            put_all_below (reversed cs []) o,
          )
