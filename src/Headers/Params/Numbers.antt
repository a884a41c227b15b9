-- ===== src/Headers/Params/Numbers.antt =====
-- Whole numbers, written in decimals and read again.
use mokei.Common.{
  ℕ, zero, suc, ◌+◌, ◌-◌, ◌*◌, ◌/◌, ◌%◌, ◌<◌, ◌≤◌, ◌≡◌, refl, sym, ap, ◌∙◌, [], ◌∷◌, ◌++◌, Bool,
  true, false, ◌&&◌, if◌then◌else◌, ltb, leb, ◌==◌, append_assoc, append-nil, arith, some, none,
  All,
}
use mokei.Common.Json.{ℤ, pos, negsuc}
use mokei.Headers.Values.{Text}
use mokei.Headers.Params.{
  digits, decimal, read_digits, is_digit_first, read_fraction, with_fraction, read_unsigned,
  read_decimal, is_number, agrees_decimal,
}

read_digit :
    (acc d m : ℕ) (t : Text)
    → d < 10
    → acc * 10 + d ≡ m
    → read_digits acc ((48 + d) ∷ t) ≡ read_digits m t
unfolding read_digits
read_digit acc d m t h e =
    let same : acc * 10 + (48 + d - 48) ≡ m = omega arith in
    let digit : (leb 48 (48 + d) && leb (48 + d) 57) ≡ true = ground arith in
    ap (λ b. if b then read_digits (acc * 10 + (48 + d - 48)) t else (acc, (48 + d) ∷ t)) digit
    ∙ ap (λ a. read_digits a t) same

read_digits-digits :
    (fuel n : ℕ) (t : Text) → n < fuel → read_digits 0 (digits fuel n ++ t) ≡ read_digits n t
unfolding digits
read_digits-digits zero n t h = ground arith
read_digits-digits (suc fuel) n t h =
    go (ltb n 10) refl (λ l. read_digits-digits fuel (n / 10) ((48 + n % 10) ∷ t) l)
  where
    go :
        (b : Bool)
        → ltb n 10 ≡ b
        → (n / 10 < fuel
            → read_digits 0 (digits fuel (n / 10) ++ (48 + n % 10) ∷ t)
              ≡ read_digits (n / 10) ((48 + n % 10) ∷ t))
        → read_digits 0
            ((if b then (48 + n) ∷ [] else digits fuel (n / 10) ++ (48 + n % 10) ∷ []) ++ t)
          ≡ read_digits n t
    go true q ih = read_digit 0 n n t (ground arith) (omega arith)
    go false q ih =
        ap (read_digits 0) (append_assoc (digits fuel (n / 10)) ((48 + n % 10) ∷ []) t)
        ∙ ih (ground arith)
        ∙ read_digit (n / 10) (n % 10) n t (omega arith) (omega arith)

-- The digits of a number: at least one.
digits-head :
    (fuel n : ℕ) → n < fuel → (c : ℕ) × (t : Text) × (digits fuel n ≡ c ∷ t) × (48 ≤ c) × (c ≤ 57)
unfolding digits
digits-head zero n h = ground arith
digits-head (suc fuel) n h = go (ltb n 10) refl (λ l. digits-head fuel (n / 10) l)
  where
    go :
        (b : Bool)
        → ltb n 10 ≡ b
        → (n / 10 < fuel
            → (c : ℕ) × (t : Text) × (digits fuel (n / 10) ≡ c ∷ t) × (48 ≤ c) × (c ≤ 57))
        → (c : ℕ) × (t : Text) × ((if b
              then (48 + n) ∷ []
              else digits fuel (n / 10) ++ (48 + n % 10) ∷ [])
            ≡ c ∷ t)
          × (48 ≤ c)
          × (c ≤ 57)
    go true q ih = (48 + n, [], refl, omega arith, ground arith)
    go false q ih =
        let (c, t, e, l, u) = ih (ground arith) in
        (c, t ++ (48 + n % 10) ∷ [], ap (λ x. x ++ (48 + n % 10) ∷ []) e, l, u)

digits-IsAscii : (fuel n : ℕ) → All (λ c. c < 128) (digits fuel n)
unfolding digits
digits-IsAscii zero n = tt
digits-IsAscii (suc fuel) n = go (ltb n 10) refl (digits-IsAscii fuel (n / 10))
  where
    snoc : (t : Text) (c : ℕ) → All (λ c. c < 128) t → c < 128 → All (λ c. c < 128) (t ++ c ∷ [])
    snoc [] c h k = (k, tt)
    snoc (x ∷ t) c h k = (h.0, snoc t c h.1 k)

    go :
        (b : Bool)
        → ltb n 10 ≡ b
        → All (λ c. c < 128) (digits fuel (n / 10))
        → All
            (λ c. c < 128)
            (if b then (48 + n) ∷ [] else digits fuel (n / 10) ++ (48 + n % 10) ∷ [])
    go true q h = (ground arith, tt)
    go false q h = snoc (digits fuel (n / 10)) (48 + n % 10) h (omega arith)

read_none : (n : ℕ) → read_digits n [] ≡ (n, [])
unfolding read_digits
read_none n = refl

is_digit : (c : ℕ) (t : Text) → 48 ≤ c → c ≤ 57 → is_digit_first (c ∷ t) ≡ true
unfolding is_digit_first
is_digit c t l u = ground arith

unsigned : (c : ℕ) (t : Text) → 48 ≤ c → read_decimal (c ∷ t) ≡ read_unsigned false (c ∷ t)
unfolding read_decimal
unsigned c t l =
    let other : (c == 45) ≡ false = ground arith in
    ap (λ b. if b then read_unsigned true t else read_unsigned false (c ∷ t)) other

read_unsigned-digits :
    (negative : Bool) (fuel n : ℕ)
    → n < fuel
    → read_unsigned negative (digits fuel n)
      ≡ some (record { negative = negative; whole = n; has_zero_fraction = true })
unfolding read_unsigned read_fraction with_fraction
read_unsigned-digits negative fuel n h =
    let (c, t, e, l, u) = digits-head fuel n h in
    let all : read_digits 0 (digits fuel n) ≡ (n, []) =
      ap (read_digits 0) (sym (append-nil (digits fuel n)))
      ∙ read_digits-digits fuel n [] h
      ∙ read_none n in
    let first : is_digit_first (digits fuel n) ≡ true = ap is_digit_first e ∙ is_digit c t l u in
    ap
      (λ b.
        if b
        then with_fraction negative (read_digits 0 (digits fuel n)).0
            (read_fraction (read_digits 0 (digits fuel n)).1)
        else none)
      first
    ∙ ap (λ (r : ℕ × Text). with_fraction negative r.0 (read_fraction r.1)) all

-- The text of a whole number agrees with it.
pub agrees_decimal-decimal :
    (n : ℤ) → agrees_decimal n (decimal n) (read_decimal (decimal n)) ≡ true
unfolding agrees_decimal is_number decimal read_decimal
agrees_decimal-decimal (pos n) =
    let (c, t, e, l, u) = digits-head (suc n) n (omega arith) in
    let positive : read_decimal (digits (suc n) n) ≡ read_unsigned false (digits (suc n) n) =
      ap read_decimal e ∙ unsigned c t l ∙ ap (read_unsigned false) (sym e) in
    ap (agrees_decimal (pos n) (digits (suc n) n))
      (positive ∙ read_unsigned-digits false (suc n) n (omega arith))
    ∙ ground arith
agrees_decimal-decimal (negsuc n) =
    ap (agrees_decimal (negsuc n) (45 ∷ digits (suc (suc n)) (suc n)))
      (read_unsigned-digits true (suc (suc n)) (suc n) (omega arith))
    ∙ ground arith

pub decimal-IsAscii : (n : ℤ) → All (λ c. c < 128) (decimal n)
unfolding decimal
decimal-IsAscii (pos n) = digits-IsAscii (suc n) n
decimal-IsAscii (negsuc n) = (omega arith, digits-IsAscii (suc (suc n)) (suc n))
