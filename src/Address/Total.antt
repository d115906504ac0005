-- ===== src/Address/Total.antt =====
-- The constructor of include/amqpcpp/address.h ends on every text.
use mathlib.Core.Option
use amqp_cpp.Base.{
  ℕ, zero, suc, ◌<◌, ◌≡◌, refl, ap, Bool, ◌||◌, if◌then◌else◌, List, [], ◌∷◌, length, drop, Option,
  none, some, arith, Bool-cases, inl, inr,
}
use amqp_cpp.Login.{Login}
use amqp_cpp.Address.{
  Options, Parsed, constructed, runtime_error, length_error, memchr, assign, follow, options_loop,
  parse_options, parse_place, parse_address, starts_with, amqp, amqps, split_login,
}
use amqp_cpp.Address.Search.{length-memchr}

-- A result, rather than running out.
abbrev pub Ends {ℓ} : {A : Type ℓ} → Option A → Type ℓ
Ends {A = A} o = (a : A) × (o ≡ some a)

follow-Ends :
    (next_round : List ℕ → Options → Option (Parsed Options)) (ampersand : Option (List ℕ × List ℕ))
    (p : Parsed Options)
    → ((parts : List ℕ × List ℕ) (options : Options)
        → ampersand ≡ some parts
        → Ends (next_round parts.1 options))
    → Ends (follow next_round ampersand p)
unfolding follow
follow-Ends next_round none (constructed options) h = (constructed options, refl)
follow-Ends next_round (some parts) (constructed options) h = h parts options refl
follow-Ends next_round ampersand runtime_error h = (runtime_error, refl)
follow-Ends next_round ampersand length_error h = (length_error, refl)

options_loop-Ends :
    (n : ℕ) (s : List ℕ) (options : Options) → length s < n → Ends (options_loop n s options)
unfolding options_loop
options_loop-Ends zero s options h = elim h [ ]
options_loop-Ends (suc n) s options h =
    follow-Ends (options_loop n) (memchr b'&' s) (assign (memchr b'=' s) (memchr b'&' s) options)
      λ parts o e.
        options_loop-Ends n parts.1 o (omega (arith, length-memchr b'&' s parts.0 parts.1 e))

parse_options-Ends : (mark : Option (List ℕ × List ℕ)) → Ends (parse_options mark)
unfolding parse_options
parse_options-Ends none = (constructed [], refl)
parse_options-Ends (some (front, [])) = (constructed [], refl)
parse_options-Ends (some (front, x ∷ xs)) =
    options_loop-Ends (suc (length (x ∷ xs))) (x ∷ xs) [] (omega arith)

map-Ends {ℓ κ} :
    {A : Type ℓ} {B : Type κ} (f : A → B) (o : Option A) → Ends o → Ends (Option.map f o)
map-Ends f o (a, e) = (f a, ap (Option.map f) e)

parse_place-Ends :
    (secure : Bool) (login : Login) (s : List ℕ) (slash : Option (List ℕ × List ℕ))
    → Ends (parse_place secure login s slash)
unfolding parse_place
parse_place-Ends secure login s none = map-Ends _ _ (parse_options-Ends (memchr b'?' s))
parse_place-Ends secure login s (some (front, behind)) =
    map-Ends _ _ (parse_options-Ends (memchr b'?' behind))

-- On every text the loop over the options ends, so that the constructor makes an address or throws.
pub parse_address-Ends : (s : List ℕ) → Ends (parse_address s)
unfolding parse_address
parse_address-Ends s =
    let secure = starts_with amqps s in
    let behind = drop (if secure then 8 else 7) s in
    let (login, place) = split_login behind (memchr b'@' behind) in
    elim (Bool-cases (secure || starts_with amqp s)) [
      | inl scheme ↦ simp scheme (parse_place-Ends secure login place (memchr b'/' place))
      | inr other ↦ simp other (runtime_error, refl)
    ]
