-- ===== src/Address/Query.antt =====
-- The options of include/amqpcpp/address.h: what is written, read back.
use amqp_cpp.Base.{
  ℕ, zero, suc, ◌+◌, ◌-◌, ◌<◌, ◌≡◌, refl, sym, ap, ◌∙◌, true, false, ◌==◌, ltb, List, [], ◌∷◌, ◌++◌,
  length, All, All-append, some, arith, append_assoc, append-nil, length-append, take-length-append,
}
use amqp_cpp.Field.Keys.{str_lt_asymm}
use amqp_cpp.Address.{
  Options, constructed, length_error, memchr, folded, icase_lt, set_option, value_of, assign_value,
  assign, follow, options_loop, parse_options,
}
use amqp_cpp.Address.Writing.{write_options, write_query}
use amqp_cpp.Address.Search.{Lacks, memchr-Lacks, memchr-append}

-- The signs that end a key and a value are not in them.
abbrev pub IsPlain : List ℕ × List ℕ → Type 0
IsPlain o = Lacks b'=' o.0 × Lacks b'&' o.0 × Lacks b'&' o.1

-- In the order of the map, which disregards case.
abbrev pub Precedes : List ℕ × List ℕ → List ℕ × List ℕ → Type 0
Precedes o p = icase_lt o.0 p.0 ≡ true

abbrev pub IsAscending : Options → Type 0
IsAscending [] = Unit {0}
IsAscending (o ∷ os) = All (Precedes o) os × IsAscending os

set_last :
    (key value : List ℕ) (os : Options)
    → All (λ o. icase_lt o.0 key ≡ true) os
    → set_option key value os ≡ os ++ ((key, value) ∷ [])
unfolding set_option
set_last key value [] h = refl
set_last key value (o ∷ os) h =
    let not_before : icase_lt key o.0 ≡ false =
      unfold icase_lt in str_lt_asymm (folded o.0) (folded key) h.0 in
    simp (not_before, h.0) (ap (◌∷◌ o) (set_last key value os h.1))

-- All that were read precede each that is to come.
abbrev AllBefore : Options → Options → Type 0
AllBefore os ps = All (λ p. All (λ o. Precedes o p) os) ps

before_snoc :
    (os : Options) (o : List ℕ × List ℕ) (ps : Options)
    → AllBefore os ps
    → All (Precedes o) ps
    → AllBefore (os ++ (o ∷ [])) ps
before_snoc os o [] h k = tt
before_snoc os o (p ∷ ps) h k =
    (All-append (λ x. Precedes x p) os (o ∷ []) h.0 (k.0, tt), before_snoc os o ps h.1 k.1)

Lacks-pair :
    (c : ℕ) (a b : List ℕ) → Lacks c a → (b'=' == c) ≡ false → Lacks c b → Lacks c (a ++ (b'=' ∷ b))
Lacks-pair c a b h k l = All-append (λ x. (x == c) ≡ false) a (b'=' ∷ b) h (k, l)

-- The value, cut out between the signs.
value_lem :
    (key value more : List ℕ)
    → value_of key (value ++ (b'&' ∷ more)) (some (key ++ (b'=' ∷ value), more)) ≡ some value
unfolding value_of
value_lem key value more =
    let whole = length-append key (b'=' ∷ value) in
    let after : ltb (length (key ++ (b'=' ∷ value))) (length key) ≡ false = ground (arith, whole) in
    let size : length (key ++ (b'=' ∷ value)) - (length key + 1) ≡ length value =
      omega (arith, whole) in
    simp (after, size) (ap some (take-length-append value (b'&' ∷ more)))

-- One round, over an option and what follows its '&'.
round_lem :
    (n : ℕ) (o : List ℕ × List ℕ) (more : List ℕ) (read : Options)
    → IsPlain o
    → options_loop (suc n) (o.0 ++ (b'=' ∷ (o.1 ++ (b'&' ∷ more)))) read
      ≡ options_loop n more (set_option o.0 o.1 read)
unfolding options_loop assign assign_value follow
round_lem n o more read p =
    let pair = o.0 ++ (b'=' ∷ o.1) in
    let text : o.0 ++ (b'=' ∷ (o.1 ++ (b'&' ∷ more))) ≡ pair ++ (b'&' ∷ more) =
      sym (append_assoc o.0 (b'=' ∷ o.1) (b'&' ∷ more)) in
    let ampersand : memchr b'&' (o.0 ++ (b'=' ∷ (o.1 ++ (b'&' ∷ more)))) ≡ some (pair, more) =
      ap (memchr b'&') text ∙ memchr-append b'&' pair more (Lacks-pair b'&' o.0 o.1 p.1 refl p.2) in
    let equals = memchr-append b'=' o.0 (o.1 ++ (b'&' ∷ more)) p.0 in
    simp (ampersand, equals, value_lem o.0 o.1 more) refl

shorter :
    (o : List ℕ × List ℕ) (more : List ℕ) (n : ℕ)
    → length (o.0 ++ (b'=' ∷ (o.1 ++ (b'&' ∷ more)))) < suc n
    → length more < n
shorter o more n h =
    omega
      (arith, length-append o.0 (b'=' ∷ (o.1 ++ (b'&' ∷ more))), length-append o.1 (b'&' ∷ more))

options_loop-write_options :
    (n : ℕ) (o : List ℕ × List ℕ) (os read : Options)
    → length (write_options (o ∷ os)) < n
    → All IsPlain (o ∷ os)
    → IsAscending (o ∷ os)
    → AllBefore read (o ∷ os)
    → options_loop n (write_options (o ∷ os)) read ≡ some (constructed (read ++ (o ∷ os)))
unfolding options_loop write_options assign assign_value follow value_of
options_loop-write_options zero o os read h p s b = elim h [ ]
options_loop-write_options (suc n) o [] read h p s b =
    let no_more =
      memchr-Lacks b'&' (o.0 ++ (b'=' ∷ o.1)) (Lacks-pair b'&' o.0 o.1 p.0.1 refl p.0.2) in
    let equals = memchr-append b'=' o.0 o.1 p.0.0 in
    simp (no_more, equals, set_last o.0 o.1 read b.0) refl
options_loop-write_options (suc n) o (q ∷ os) read h p s b =
    let more = write_options (q ∷ os) in
    let ih =
      options_loop-write_options n q os (read ++ (o ∷ [])) (shorter o more n h) p.1 s.1
        (before_snoc read o (q ∷ os) b.1 s.0) in
    round_lem n o more read p.0
    ∙ ap (options_loop n more) (set_last o.0 o.1 read b.0)
    ∙ ih
    ∙ ap (λ os. some (constructed os)) (append_assoc read (o ∷ []) (q ∷ os))

AllBefore-none : (os : Options) → AllBefore [] os
AllBefore-none [] = tt
AllBefore-none (o ∷ os) = (tt, AllBefore-none os)

-- A written text of options is not empty.
write_options-cons :
    (o : List ℕ × List ℕ) (os : Options)
    → (x : ℕ) × (xs : List ℕ) × (write_options (o ∷ os) ≡ x ∷ xs)
unfolding write_options
write_options-cons ([], v) [] = (_, _, refl)
write_options-cons (k ∷ ks, v) [] = (_, _, refl)
write_options-cons ([], v) (p ∷ os) = (_, _, refl)
write_options-cons (k ∷ ks, v) (p ∷ os) = (_, _, refl)

nonempty_options :
    (front s : List ℕ) (x : ℕ) (xs : List ℕ)
    → s ≡ x ∷ xs
    → parse_options (some (front, s)) ≡ options_loop (suc (length s)) s []
unfolding parse_options
nonempty_options front [] x xs e = cc
nonempty_options front (y ∷ ys) x xs e = refl

-- The place of the question mark, and the options behind it.
pub parse_options-write_query :
    (front : List ℕ) (os : Options)
    → Lacks b'?' front
    → All IsPlain os
    → IsAscending os
    → parse_options (memchr b'?' (front ++ write_query os)) ≡ some (constructed os)
unfolding write_query
parse_options-write_query front [] l p s =
    let none_there = memchr-Lacks b'?' (front ++ []) (rw (append-nil front) l) in
    rw none_there (unfold parse_options in refl)
parse_options-write_query front (o ∷ os) l p s =
    let (x, xs, e) = write_options-cons o os in
    rw (memchr-append b'?' front (write_options (o ∷ os)) l) (
      nonempty_options front (write_options (o ∷ os)) x xs e
      ∙ options_loop-write_options (suc (length (write_options (o ∷ os)))) o os [] (omega arith) p s
          (AllBefore-none (o ∷ os)))

nonempty_behind :
    (front k t : List ℕ)
    → parse_options (some (front, k ++ (b'&' ∷ t)))
      ≡ options_loop (suc (length (k ++ (b'&' ∷ t)))) (k ++ (b'&' ∷ t)) []
unfolding parse_options
nonempty_behind front [] t = refl
nonempty_behind front (x ∷ xs) t = refl

-- Options of which the first has no value and a later one does: the length of that value is counted from
-- an '&' in front of its equals sign.
pub parse_options-valueless :
    (front name key value : List ℕ)
    → Lacks b'?' front
    → Lacks b'=' name
    → Lacks b'&' name
    → Lacks b'=' key
    → parse_options (memchr b'?' (front ++ (b'?' ∷ (name ++ (b'&' ∷ (key ++ (b'=' ∷ value)))))))
      ≡ some length_error
unfolding options_loop assign assign_value follow value_of
parse_options-valueless front name key value f n a k =
    let text = name ++ (b'&' ∷ (key ++ (b'=' ∷ value))) in
    let before = name ++ (b'&' ∷ key) in
    let assoc : text ≡ before ++ (b'=' ∷ value) =
      sym (append_assoc name (b'&' ∷ key) (b'=' ∷ value)) in
    let lacks = All-append (λ x. (x == b'=') ≡ false) name (b'&' ∷ key) n (refl, k) in
    let equals : memchr b'=' text ≡ some (before, value) =
      ap (memchr b'=') assoc ∙ memchr-append b'=' before value lacks in
    let ampersand = memchr-append b'&' name (key ++ (b'=' ∷ value)) a in
    let later : ltb (length name) (length before) ≡ true =
      ground (arith, length-append name (b'&' ∷ key)) in
    rw (memchr-append b'?' front text f)
      (nonempty_behind front name (key ++ (b'=' ∷ value)) ∙ simp (ampersand, equals, later) refl)
