-- ===== src/Address/Search.antt =====
-- `memchr` on a text that is put together, in include/amqpcpp/address.h.
use mathlib.Core.Option
use amqp_cpp.Base.{
  ℕ, ◌<◌, ◌≡◌, refl, ap, Bool, true, false, ◌==◌, if◌then◌else◌, List, [], ◌∷◌, ◌++◌, length, All,
  Option, none, some, arith,
}
use amqp_cpp.Address.{memchr}

-- The byte is not in the text.
abbrev pub Lacks : ℕ → List ℕ → Type 0
Lacks c s = All (λ x. (x == c) ≡ false) s

pub memchr-Lacks : (c : ℕ) (s : List ℕ) → Lacks c s → memchr c s ≡ none
unfolding memchr
memchr-Lacks c [] h = refl
memchr-Lacks c (x ∷ xs) h = simp (h.0, memchr-Lacks c xs h.1) refl

same_byte : (c : ℕ) → (c == c) ≡ true
same_byte c = ground arith

pub memchr-append :
    (c : ℕ) (front behind : List ℕ)
    → Lacks c front
    → memchr c (front ++ (c ∷ behind)) ≡ some (front, behind)
unfolding memchr
memchr-append c [] behind h = simp (same_byte c) refl
memchr-append c (x ∷ xs) behind h = simp (h.0, memchr-append c xs behind h.1) refl

-- What is behind the byte is shorter.
pub length-memchr :
    (c : ℕ) (s front behind : List ℕ) → memchr c s ≡ some (front, behind) → length behind < length s
unfolding memchr
length-memchr c [] front behind e = cc
length-memchr c (x ∷ xs) front behind e =
    by_test (x == c) (memchr c xs) (λ f b. length-memchr c xs f b) e
  where
    by_test :
        (t : Bool) (found : Option (List ℕ × List ℕ))
        → ((f b : List ℕ) → found ≡ some (f, b) → length b < length xs)
        → if◌then◌else◌ {A = Option (List ℕ × List ℕ)} t
            (some ([], xs))
            (Option.map (λ parts. (x ∷ parts.0, parts.1)) found)
          ≡ some (front, behind)
        → length behind < length (x ∷ xs)
    by_test true found ih e = let same : xs ≡ behind = cc in omega (arith, ap length same)
    by_test false none ih e = cc
    by_test false (some (f, b)) ih e =
        let same : b ≡ behind = cc in omega (arith, ih f b refl, ap length same)
