-- ===== src/Prelude/Decimal.antt =====
-- Numbers as decimal texts: `Display` and `str::parse` of unsigned integers.
use Prim.Native.Nat.{ℕ, zero, suc, ◌+◌, ◌*◌, ◌-◌, ◌/◌, ◌%◌, ◌<◌, ◌^◌}
use Prim.Native.Char.{Char, code}
use Prim.Native.String.{String, ◌++◌, char_at}
use Prim.Native.String.append
use mathlib.Core.Path.{◌≡◌, refl}
use mathlib.Core.Bool.{Bool, true, false, ◌&&◌}
use mathlib.Core.Option.{Option, none, some}
use native.Mathlib.Omega.{arith}
use honey.Prelude.Tests.{if◌then◌else◌, ltb, Bool-cases, ◌==◌, ltb→lt, lt→ltb, le→leb}
use text.Mathlib.TextLemmas.{append_assoc, append-nil}
use mathlib.Core.Path.{◌∙◌, ap, subst}
use mathlib.Core.Logic.{inl, inr}
use honey.Prelude.Text.{is_ascii_digit, is_empty, chars_all}

abbrev pub digit : ℕ → Char
digit n = char_at "0123456789" n

abbrev pub one : Char → String
one c = String.◌∷◌ c String.[]

-- The digits of a number below 10 to the fuel.
unfoldable pub digits : ℕ → ℕ → String
digits zero n = ""
digits (suc fuel) n =
    let before = digits fuel (n / 10) ++ one (digit (n % 10)) in
    if ltb n 10 then one (digit n) else before

-- `Display` of a u64, which has at most 20 digits.
unfoldable pub decimal : ℕ → String
unfolding digits
decimal n = digits 20 n

unfoldable pub read_digits : ℕ → String → Option ℕ
read_digits acc String.[] = some acc
read_digits acc (String.◌∷◌ c s) =
    let rest = read_digits (acc * 10 + (code c - 48)) s in
    if is_ascii_digit (code c) then rest else none

code-digit : (n : ℕ) → n < 10 → code (digit n) ≡ 48 + n
code-digit zero h = refl
code-digit (suc zero) h = refl
code-digit (suc (suc zero)) h = refl
code-digit (suc (suc (suc zero))) h = refl
code-digit (suc (suc (suc (suc zero)))) h = refl
code-digit (suc (suc (suc (suc (suc zero))))) h = refl
code-digit (suc (suc (suc (suc (suc (suc zero)))))) h = refl
code-digit (suc (suc (suc (suc (suc (suc (suc zero))))))) h = refl
code-digit (suc (suc (suc (suc (suc (suc (suc (suc zero)))))))) h = refl
code-digit (suc (suc (suc (suc (suc (suc (suc (suc (suc zero))))))))) h = refl
code-digit (suc (suc (suc (suc (suc (suc (suc (suc (suc (suc n)))))))))) h = absurd (omega arith)

read-digit :
    (n acc : ℕ) (s : String)
    → n < 10
    → read_digits acc (one (digit n) ++ s) ≡ read_digits (acc * 10 + n) s
unfolding read_digits
read-digit n acc s h =
    let low = le→leb 48 (48 + n) (omega arith) in
    let high = le→leb (48 + n) 57 (omega arith) in
    let value : acc * 10 + (48 + n - 48) ≡ acc * 10 + n = omega arith in
    rw (append.cons (digit n) String.[] s)
      (rw (append.nil s) (rw (code-digit n h) (rw low (rw high (rw value refl)))))

shrink : (n m : ℕ) → n < 10 * m → n / 10 < m
shrink n m h = omega arith

-- A number that the fuel suffices for is read back, whatever follows.
read-digits :
    (fuel n : ℕ) (s : String) → n < 10 ^ fuel → read_digits 0 (digits fuel n ++ s) ≡ read_digits n s
unfolding digits
read-digits zero n s h = let e : n ≡ 0 = omega arith in rw (append.nil s) (rw e refl)
read-digits (suc fuel) n s h = elim (Bool-cases (ltb n 10)) [
  | inl small ↦
      rw small
        (read-digit n 0 s (ltb→lt n 10 small) ∙ ap (λ (v : ℕ). read_digits v s) (omega arith))
  | inr large ↦ rw large (
      rw (append_assoc (digits fuel (n / 10)) (one (digit (n % 10))) s) (
        read-digits fuel (n / 10) (one (digit (n % 10)) ++ s) (shrink n (10 ^ fuel) (omega arith))
        ∙ (read-digit (n % 10) (n / 10) s (omega arith)
            ∙ ap (λ (v : ℕ). read_digits v s) (omega arith))))
]

pub read-decimal :
    (n : ℕ) (s : String) → n < 2 ^ 64 → read_digits 0 (decimal n ++ s) ≡ read_digits n s
unfolding decimal
read-decimal n s h = read-digits 20 n s (omega arith)

-- `str::parse::<u64>` of a text whose sign was taken off.
abbrev pub bounded : Option ℕ → Option ℕ
bounded none = none
bounded (some n) = if ltb n (2 ^ 64) then some n else none

unfoldable pub parse_u64 : String → Option ℕ
parse_u64 String.[] = none
parse_u64 (String.◌∷◌ c s) =
    let signed = if is_empty s then none else bounded (read_digits 0 s) in
    let plain = bounded (read_digits 0 (String.◌∷◌ c s)) in if code c == 43 then signed else plain

chars_all-append :
    (p : ℕ → Bool) (s t : String) → chars_all p (s ++ t) ≡ (chars_all p s && chars_all p t)
unfolding chars_all
chars_all-append p String.[] t = rw (append.nil t) refl
chars_all-append p (String.◌∷◌ c s) t =
    rw (append.cons c s t) (ground (arith, chars_all-append p s t))

is_digit-digit : (n : ℕ) → n < 10 → is_ascii_digit (code (digit n)) ≡ true
is_digit-digit n h =
    let low = le→leb 48 (48 + n) (omega arith) in
    let high = le→leb (48 + n) 57 (omega arith) in rw (code-digit n h) (rw low (rw high refl))

chars_all-one : (n : ℕ) → n < 10 → chars_all is_ascii_digit (one (digit n)) ≡ true
unfolding chars_all
chars_all-one n h = rw (is_digit-digit n h) refl

chars_all-digits : (fuel n : ℕ) → chars_all is_ascii_digit (digits fuel n) ≡ true
unfolding digits
chars_all-digits zero n = unfold chars_all in refl
chars_all-digits (suc fuel) n = elim (Bool-cases (ltb n 10)) [
  | inl small ↦ rw small (chars_all-one n (ltb→lt n 10 small))
  | inr large ↦ rw large (
      chars_all-append is_ascii_digit (digits fuel (n / 10)) (one (digit (n % 10)))
      ∙ (rw (chars_all-digits fuel (n / 10)) (chars_all-one (n % 10) (omega arith))))
]

pub chars_all-decimal : (n : ℕ) → chars_all is_ascii_digit (decimal n) ≡ true
unfolding decimal
chars_all-decimal n = chars_all-digits 20 n

is_empty-append_one : (s : String) (c : Char) → is_empty (s ++ one c) ≡ false
unfolding is_empty
is_empty-append_one String.[] c = rw (append.nil (one c)) refl
is_empty-append_one (String.◌∷◌ d s) c = rw (append.cons d s (one c)) refl

is_empty-digits : (fuel n : ℕ) → is_empty (digits (suc fuel) n) ≡ false
unfolding digits
is_empty-digits fuel n = elim (Bool-cases (ltb n 10)) [
  | inl small ↦ rw small (unfold is_empty in refl)
  | inr large ↦ rw large (is_empty-append_one (digits fuel (n / 10)) (digit (n % 10)))
]

-- A number is read back from its text.
read_back :
    (n : ℕ) (s : String)
    → n < 2 ^ 64
    → is_empty s ≡ false
    → chars_all is_ascii_digit s ≡ true
    → read_digits 0 s ≡ some n
    → parse_u64 s ≡ some n
unfolding parse_u64 chars_all is_empty
read_back n String.[] h e d r = absurd (cc)
read_back n (String.◌∷◌ c s) h e d r =
    let unsigned : (code c == 43) ≡ false = ground (arith, d) in
    rw unsigned (rw r (rw (lt→ltb n (2 ^ 64) h) refl))

read-all : (n : ℕ) → n < 2 ^ 64 → read_digits 0 (decimal n) ≡ some n
unfolding read_digits
read-all n h =
    subst (λ (s : String). read_digits 0 s ≡ some n) (append-nil (decimal n))
      (read-decimal n String.[] h)

pub parse_u64-decimal : (n : ℕ) → n < 2 ^ 64 → parse_u64 (decimal n) ≡ some n
parse_u64-decimal n h =
    read_back n (decimal n) h (unfold decimal in is_empty-digits 19 n) (chars_all-decimal n)
      (read-all n h)
