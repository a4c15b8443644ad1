-- ===== src/Updates/Versions.antt =====
-- The order of versions, as master/src/update.rs compares them, and that of printed versions.
use Prim.Native.Char.{code}
use Prim.Native.String.{String, ◌++◌, char_at}
use Prim.Native.String.append
use honey.Prelude.{
  ℕ, ◌^◌, ◌<◌, Bool, true, false, not, ◌&&◌, ◌||◌, none, [], ◌∷◌, ◌==◌, if◌then◌else◌, unwrap_or,
  ◌≡◌, ◌∙◌, refl, arith,
}
use honey.Prelude.Text.{
  chars_all, trim, trim_start, trim_end, trim_start_matches, split_once, is_empty, is_whitespace,
  is_ascii_digit,
}
use honey.Prelude.Split.{split_on}
use honey.Prelude.Decimal.{decimal, parse_u64, chars_all-decimal, parse_u64-decimal}
use honey.Updates.{Version, parse_raw, parse_version, is_newer_version, is_newer}

-- The comparison is a strict order: no version is newer than itself, and what is newer than a newer
-- version is newer.
is_newer-order :
    (a b c : String)
    → (is_newer a a ≡ false) × ((is_newer a b && is_newer b c && not (is_newer a c)) ≡ false)
unfolding is_newer
is_newer-order a b c = (
  irreflexive (parse_version a),
  transitive (parse_version a) (parse_version b) (parse_version c),
)
  where
    irreflexive : (v : Version) → is_newer_version v v ≡ false
    irreflexive v = ground arith

    transitive :
        (u v w : Version)
        → (is_newer_version u v && is_newer_version v w && not (is_newer_version u w)) ≡ false
    transitive u v w = ground arith

-- `a.b.c`
abbrev pub printed : ℕ → ℕ → ℕ → String
printed a b c = decimal a ++ ("." ++ (decimal b ++ ("." ++ decimal c)))

module _ (p q : ℕ → Bool) (weaker : (k : ℕ) → p k ≡ true → q k ≡ true) where
  chars_all-weaken : (s : String) → chars_all p s ≡ true → chars_all q s ≡ true
  unfolding chars_all
  chars_all-weaken String.[] h = refl
  chars_all-weaken (String.◌∷◌ c s) h = ground (arith, weaker (code c), chars_all-weaken s)

chars_all-append :
    (p : ℕ → Bool) (s t : String) → chars_all p (s ++ t) ≡ (chars_all p s && chars_all p t)
unfolding chars_all
chars_all-append p String.[] t = rw (append.nil t) refl
chars_all-append p (String.◌∷◌ c s) t =
    rw (append.cons c s t) (ground (arith, chars_all-append p s t))

-- Nothing is taken off a text without the characters in question.
abbrev is_solid : ℕ → Bool
is_solid k = not (is_whitespace k)

trim_start-id : (s : String) → chars_all is_solid s ≡ true → trim_start s ≡ s
unfolding trim_start chars_all
trim_start-id String.[] h = refl
trim_start-id (String.◌∷◌ c s) h =
    let e : is_whitespace (code c) ≡ false = first_solid (is_whitespace (code c)) _ h in rw e refl
  where
    first_solid : (b r : Bool) → (not b && r) ≡ true → b ≡ false
    first_solid b r k = ground arith

trim_end-id : (s : String) → chars_all is_solid s ≡ true → trim_end s ≡ s
unfolding trim_end chars_all is_empty
trim_end-id String.[] h = refl
trim_end-id (String.◌∷◌ c s) h =
    let parts = both (is_whitespace (code c)) _ h in
    rw (trim_end-id s parts.1) (rw (parts.0) (no_white (is_empty s)))
  where
    both : (b r : Bool) → (not b && r) ≡ true → (b ≡ false) × (r ≡ true)
    both b r k = ground arith

    no_white : (b : Bool) → (if b && false then String.[] else String.◌∷◌ c s) ≡ String.◌∷◌ c s
    no_white b = ground arith

trim-id : (s : String) → chars_all is_solid s ≡ true → trim s ≡ s
unfolding trim
trim-id s h = rw (trim_end-id s h) (trim_start-id s h)

abbrev is_not : ℕ → ℕ → Bool
is_not d k = not (k == d)

trim_start_matches-id :
    (d : ℕ) (s : String) → chars_all (is_not d) s ≡ true → trim_start_matches d s ≡ s
unfolding trim_start_matches chars_all
trim_start_matches-id d String.[] h = refl
trim_start_matches-id d (String.◌∷◌ c s) h = ground arith

split_once-none : (d : ℕ) (s : String) → chars_all (is_not d) s ≡ true → split_once d s ≡ none
unfolding split_once chars_all
split_once-none d String.[] h = refl
split_once-none d (String.◌∷◌ c s) h = ground (arith, split_once-none d s)

split_on-one : (s : String) → chars_all (is_not 46) s ≡ true → split_on 46 s ≡ s ∷ []
unfolding split_on chars_all
split_on-one String.[] h = refl
split_on-one (String.◌∷◌ c s) h = ground (arith, split_on-one s)

split_on-part :
    (s rest : String)
    → chars_all (is_not 46) s ≡ true
    → split_on 46 (s ++ ("." ++ rest)) ≡ s ∷ split_on 46 rest
unfolding split_on chars_all
split_on-part String.[] rest h =
    rw (append.nil ("." ++ rest))
      (rw (append.cons (char_at "." 0) String.[] rest) (rw (append.nil rest) refl))
split_on-part (String.◌∷◌ c s) rest h =
    rw (append.cons c s ("." ++ rest)) (ground (arith, split_on-part s rest))

abbrev is_version_char : ℕ → Bool
is_version_char k = is_ascii_digit k || (k == 46)

chars_all-dotted :
    (s t : String)
    → chars_all is_ascii_digit s ≡ true
    → chars_all is_version_char t ≡ true
    → chars_all is_version_char (s ++ ("." ++ t)) ≡ true
chars_all-dotted s t h k =
    chars_all-append is_version_char s ("." ++ t)
    ∙ (rw (chars_all-weaken is_ascii_digit is_version_char (λ k e. ground arith) s h)
        (chars_all-append is_version_char "." t ∙ (rw k (unfold chars_all in refl))))

digits_version :
    (s : String) → chars_all is_ascii_digit s ≡ true → chars_all is_version_char s ≡ true
digits_version s h = chars_all-weaken is_ascii_digit is_version_char (λ k e. ground arith) s h

chars_all-printed : (a b c : ℕ) → chars_all is_version_char (printed a b c) ≡ true
chars_all-printed a b c =
    chars_all-dotted (decimal a) (decimal b ++ ("." ++ decimal c)) (chars_all-decimal a) (
      chars_all-dotted (decimal b) (decimal c) (chars_all-decimal b)
        (digits_version (decimal c) (chars_all-decimal c)))

-- A run of digits holds no character that is no digit, and reads as its number.
free_of :
    (q : ℕ → Bool) (n : ℕ)
    → ((k : ℕ) → is_ascii_digit k ≡ true → q k ≡ true)
    → chars_all q (decimal n) ≡ true
free_of q n h = chars_all-weaken is_ascii_digit q h (decimal n) (chars_all-decimal n)

number-decimal : (n : ℕ) → n < 2 ^ 64 → unwrap_or (parse_u64 (trim (decimal n))) 0 ≡ n
number-decimal n h =
    rw (trim-id (decimal n) (free_of is_solid n (λ k e. ground arith)))
      (rw (parse_u64-decimal n h) refl)

split-printed : (a b c : ℕ) → split_on 46 (printed a b c) ≡ decimal a ∷ decimal b ∷ decimal c ∷ []
split-printed a b c =
    split_on-part (decimal a) (decimal b ++ ("." ++ decimal c))
      (free_of (is_not 46) a (λ k e. ground arith))
    ∙ (rw (split_on-part (decimal b) (decimal c) (free_of (is_not 46) b (λ k e. ground arith)))
        (rw (split_on-one (decimal c) (free_of (is_not 46) c (λ k e. ground arith))) refl))

module _ (a b c : ℕ) (fits_a : a < 2 ^ 64) (fits_b : b < 2 ^ 64) (fits_c : c < 2 ^ 64) where
  parse_raw-printed :
      parse_raw (printed a b c) ≡ record { major = a; minor = b; patch = c; pre = false }
  unfolding parse_raw
  parse_raw-printed =
      let allowed = chars_all-printed a b c in
      let plain =
        chars_all-weaken is_version_char (is_not 45) (λ k e. ground arith) (printed a b c)
          allowed in
      rw (split_once-none 45 (printed a b c) plain) (
        rw (split-printed a b c) (
          rw (number-decimal a fits_a)
            (rw (number-decimal b fits_b) (rw (number-decimal c fits_c) refl))))

  -- A version of three numbers of 64 bits is read back from its text.
  pub parse_version-printed :
      parse_version (printed a b c) ≡ record { major = a; minor = b; patch = c; pre = false }
  unfolding parse_version
  parse_version-printed =
      let allowed = chars_all-printed a b c in
      let solid =
        chars_all-weaken is_version_char is_solid (λ k e. ground arith) (printed a b c) allowed in
      let no_v =
        chars_all-weaken is_version_char (is_not 118) (λ k e. ground arith) (printed a b c)
          allowed in
      rw (trim-id (printed a b c) solid)
        (rw (trim_start_matches-id 118 (printed a b c) no_v) parse_raw-printed)
