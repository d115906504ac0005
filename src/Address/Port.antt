-- ===== src/Address/Port.antt =====
-- The port of include/amqpcpp/address.h: `std::to_string` read back by `atoi`.
use amqp_cpp.Base.{
  ℕ, zero, suc, ◌+◌, ◌-◌, ◌*◌, ◌/◌, ◌%◌, ◌^◌, ◌<◌, ◌≤◌, ◌≡◌, refl, ap, ◌∙◌, true, false, ◌&&◌, ltb,
  leb, ◌==◌, List, [], ◌∷◌, arith, tests, Bool-cases, inl, inr,
}
use amqp_cpp.Base.Int.{pos}
use amqp_cpp.Address.{read_digits, is_space, atoi}
use amqp_cpp.Address.Writing.{digits, to_string}
use amqp_cpp.Address.Search.{Lacks}

abbrev below : ℕ → ℕ
below zero = 1
below (suc k) = 10 * below k

abbrev pub IsDigit : ℕ → Type 0
IsDigit c = (48 ≤ c) × (c ≤ 57)

-- A text that starts with a digit.
abbrev pub StartsWithDigit : List ℕ → Type 0
StartsWithDigit [] = ⊥
StartsWithDigit (c ∷ cs) = IsDigit c

read_digit :
    (n d : ℕ) (cs : List ℕ) → d < 10 → read_digits n ((48 + d) ∷ cs) ≡ read_digits (n * 10 + d) cs
unfolding read_digits
read_digit n d cs h =
    let low : leb 48 (48 + d) ≡ true = ground arith in
    let high : leb (48 + d) 57 ≡ true = ground arith in
    let same : 48 + d - 48 ≡ d = omega arith in simp (low, high, same) refl

tenth_below : (n b : ℕ) → n < 10 * b → n / 10 < b
tenth_below n b h = omega arith

split_ten : (n : ℕ) → n / 10 * 10 + n % 10 ≡ n
split_ten n = omega arith

not_small : (n : ℕ) → ltb n 10 ≡ false → ¬ (n < 10 * 1)
not_small n h = ground arith

read_digits-digits :
    (k n : ℕ) (out : List ℕ)
    → n < below k
    → 0 < k
    → read_digits 0 (digits k n out) ≡ read_digits n out
unfolding digits
read_digits-digits zero n out h p = elim p [ ]
read_digits-digits (suc k) n out h p = elim (Bool-cases (ltb n 10)) [
  | inl small ↦
      let same : 0 * 10 + n ≡ n = omega arith in
      simp small (read_digit 0 n out (omega tests) ∙ ap (λ m. read_digits m out) same)
  | inr large ↦ simp large (more k (read_digits-digits k) h large)
]
  where
    more :
        (k : ℕ)
        → ((m : ℕ) (o : List ℕ)
            → m < below k
            → 0 < k
            → read_digits 0 (digits k m o) ≡ read_digits m o)
        → n < below (suc k)
        → ltb n 10 ≡ false
        → read_digits 0 (digits k (n / 10) ((48 + n % 10) ∷ out)) ≡ read_digits n out
    more zero ih h l = absurd (not_small n l h)
    more (suc k) ih h l =
        ih (n / 10) ((48 + n % 10) ∷ out) (tenth_below n (below (suc k)) h) (omega arith)
        ∙ read_digit (n / 10) (n % 10) out (omega arith)
        ∙ ap (λ m. read_digits m out) (split_ten n)

digits-StartsWithDigit :
    (k n : ℕ) (c : ℕ) (cs : List ℕ) → IsDigit c → StartsWithDigit (digits k n (c ∷ cs))
unfolding digits
digits-StartsWithDigit zero n c cs h = h
digits-StartsWithDigit (suc k) n c cs h = elim (Bool-cases (ltb n 10)) [
  | inl small ↦ simp small (omega tests)
  | inr large ↦ simp large (digits-StartsWithDigit k (n / 10) (48 + n % 10) (c ∷ cs) (omega arith))
]

to_string-StartsWithDigit : (n : ℕ) → StartsWithDigit (to_string n)
unfolding to_string digits
to_string-StartsWithDigit n = elim (Bool-cases (ltb n 10)) [
  | inl small ↦ simp small (omega tests)
  | inr large ↦ simp large (digits-StartsWithDigit 4 (n / 10) (48 + n % 10) [] (omega arith))
]

atoi-digits : (s : List ℕ) → StartsWithDigit s → atoi s ≡ pos (read_digits 0 s)
unfolding atoi is_space
atoi-digits [] h = elim h [ ]
atoi-digits (c ∷ cs) h =
    let space : (c == 32) ≡ false = ground arith in
    let other_space : (leb 9 c && leb c 13) ≡ false = ground arith in
    let minus : (c == 45) ≡ false = ground arith in
    let plus : (c == 43) ≡ false = ground arith in simp (space, other_space, minus, plus) refl

pub atoi-to_string : (n : ℕ) → n < 2 ^ 16 → atoi (to_string n) ≡ pos n
unfolding to_string
atoi-to_string n h =
    atoi-digits (to_string n) (to_string-StartsWithDigit n)
    ∙ ap pos (read_digits-digits 5 n [] (omega arith) (omega arith) ∙ unfold read_digits in refl)

digits-Lacks : (c k n : ℕ) (out : List ℕ) → c < 48 → Lacks c out → Lacks c (digits k n out)
unfolding digits
digits-Lacks c zero n out h l = l
digits-Lacks c (suc k) n out h l = elim (Bool-cases (ltb n 10)) [
  | inl small ↦ simp small (not_byte c n h, l)
  | inr large ↦
      simp large (digits-Lacks c k (n / 10) ((48 + n % 10) ∷ out) h (not_byte c (n % 10) h, l))
]
  where
    not_byte : (c d : ℕ) → c < 48 → ((48 + d) == c) ≡ false
    not_byte c d h = ground arith

pub to_string-Lacks : (c n : ℕ) → c < 48 → Lacks c (to_string n)
unfolding to_string
to_string-Lacks c n h = digits-Lacks c 5 n [] h tt
