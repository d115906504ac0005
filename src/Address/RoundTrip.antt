-- ===== src/Address/RoundTrip.antt =====
-- An address of include/amqpcpp/address.h, written in both ways and read back.
use amqp_cpp.Base.{
  ℕ, ◌%◌, ◌^◌, ◌<◌, ◌≡◌, ◌≢◌, refl, sym, ap, ap₂, ◌∙◌, Bool, true, false, not, ◌==◌, if◌then◌else◌,
  List, [], ◌∷◌, ◌++◌, All, All-append, Option, none, some, arith, append_assoc, append-nil,
  Bool-cases, inl, inr,
}
use amqp_cpp.Login.{Login, is_given, str_eq, write_login}
use amqp_cpp.Address.{
  Address, Options, Parsed, constructed, memchr, login_at, split_login, parse_vhost, parse_host,
  default_port, build, parse_place, parse_address,
}
use amqp_cpp.Address.Writing.{
  to_string, write_port, write_vhost, write_query, write_options, write_scheme, cast_to_string,
  stream,
}
use amqp_cpp.Address.Search.{Lacks, memchr-Lacks, memchr-append}
use amqp_cpp.Address.Port.{atoi-to_string, to_string-Lacks}
use amqp_cpp.Address.Query.{IsPlain, IsAscending, parse_options-write_query}

-- No part has the sign that ends it, and the port is one.
abbrev pub IsWritable : Address → Type 0
IsWritable a =
    Lacks b'@' a.login.user
    × Lacks b':' a.login.user
    × Lacks b'@' a.login.password
    × Lacks b':' a.hostname
    × Lacks b'/' a.hostname
    × (a.port < 2 ^ 16)
    × Lacks b'?' a.vhost
    × All IsPlain a.options
    × IsAscending a.options

-- The vhost that is left out stands for itself only if no options follow, and an empty one only if some
-- do.
abbrev pub KeepsVhost : List ℕ → Options → Type 0
KeepsVhost vhost [] = vhost ≢ []
KeepsVhost vhost (o ∷ os) = str_eq vhost (b'/' ∷ []) ≡ false

pub split_login_lem :
    (l : Login) (place : List ℕ)
    → Lacks b'@' l.user
    → Lacks b':' l.user
    → Lacks b'@' l.password
    → let behind = l.user ++ (b':' ∷ (l.password ++ (b'@' ∷ place))) in
      split_login behind (memchr b'@' behind) ≡ (l, place)
unfolding split_login login_at
split_login_lem l place u c p =
    let both = l.user ++ (b':' ∷ l.password) in
    let text : l.user ++ (b':' ∷ (l.password ++ (b'@' ∷ place))) ≡ both ++ (b'@' ∷ place) =
      sym (append_assoc l.user (b':' ∷ l.password) (b'@' ∷ place)) in
    let front = All-append (λ x. (x == b'@') ≡ false) l.user (b':' ∷ l.password) u (refl, p) in
    let at = ap (memchr b'@') text ∙ memchr-append b'@' both place front in
    simp (at, memchr-append b':' l.user l.password c) refl

host_lem :
    (default shown port : ℕ) (hostname : List ℕ)
    → Lacks b':' hostname
    → port < 2 ^ 16
    → let front = hostname ++ write_port shown port in
      parse_host default front (memchr b':' front)
      ≡ (hostname, if port == shown then default else port)
unfolding parse_host write_port
host_lem default shown port hostname l h = elim (Bool-cases (port == shown)) [
  | inl same ↦
      let none_there = memchr-Lacks b':' hostname l in
      simp (same, append-nil hostname, none_there) refl
  | inr other ↦
      let word : port % 2 ^ 16 ≡ port = omega arith in
      simp (other, memchr-append b':' hostname (to_string port) l, atoi-to_string port h, word) refl
]

port-Lacks : (shown port : ℕ) → Lacks b'/' (write_port shown port)
unfolding write_port
port-Lacks shown port = elim (Bool-cases (port == shown)) [
  | inl same ↦ simp same tt
  | inr other ↦ simp other (refl, to_string-Lacks b'/' port (omega arith))
]

str_eq_sound : (xs ys : List ℕ) → str_eq xs ys ≡ true → xs ≡ ys
unfolding str_eq
str_eq_sound [] [] h = refl
str_eq_sound [] (y ∷ ys) h = cc
str_eq_sound (x ∷ xs) [] h = cc
str_eq_sound (x ∷ xs) (y ∷ ys) h = elim (Bool-cases (x == y)) [
  | inl same ↦
      let equal : x ≡ y = ground arith in ap₂ ◌∷◌ equal (str_eq_sound xs ys (simp same at h))
  | inr other ↦ absurd (not_both (simp other at h))
]
  where
    not_both : ¬ (false ≡ true)
    not_both e = cc

-- The vhost as it is written, behind its slash.
abbrev shown_vhost : List ℕ → List ℕ
shown_vhost vhost = if not (str_eq vhost (b'/' ∷ [])) then vhost else []

shown-Lacks : (vhost : List ℕ) → Lacks b'?' vhost → Lacks b'?' (shown_vhost vhost)
shown-Lacks vhost h = by_test (str_eq vhost (b'/' ∷ []))
  where
    by_test : (t : Bool) → Lacks b'?' (if not t then vhost else [])
    by_test true = tt
    by_test false = h

marked_vhost :
    (v t : List ℕ) (parts : List ℕ × List ℕ) → parse_vhost (v ++ (b'?' ∷ t)) (some parts) ≡ parts.0
unfolding parse_vhost
marked_vhost [] t parts = refl
marked_vhost (x ∷ xs) t parts = refl

unmarked_vhost : (v : List ℕ) → v ≢ [] → parse_vhost v none ≡ v
unfolding parse_vhost
unmarked_vhost [] h = absurd (h refl)
unmarked_vhost (x ∷ xs) h = refl

vhost_lem :
    (vhost : List ℕ) (os : Options)
    → Lacks b'?' vhost
    → KeepsVhost vhost os
    → let behind = shown_vhost vhost ++ write_query os in
      parse_vhost behind (memchr b'?' behind) ≡ vhost
unfolding write_query
vhost_lem vhost (o ∷ os) h k =
    simp (k, memchr-append b'?' vhost (write_options (o ∷ os)) h)
      (marked_vhost vhost (write_options (o ∷ os)) _)
vhost_lem vhost [] h k = elim (Bool-cases (str_eq vhost (b'/' ∷ []))) [
  | inl root ↦ simp root (unfold memchr parse_vhost in sym (str_eq_sound vhost (b'/' ∷ []) root))
  | inr other ↦ simp (other, append-nil vhost, memchr-Lacks b'?' vhost h) (unmarked_vhost vhost k)
]

-- The text behind the login, and the address with the port that is read back.
abbrev place_of : ℕ → Address → List ℕ
place_of shown a =
    a.hostname ++ (write_port shown a.port ++ (write_vhost a.vhost ++ write_query a.options))

abbrev pub reread : ℕ → Address → Address
reread shown a = record a { port = if a.port == shown then default_port a.secure else a.port }

place_lem :
    (shown : ℕ) (a : Address)
    → IsWritable a
    → KeepsVhost a.vhost a.options
    → parse_place a.secure a.login (place_of shown a) (memchr b'/' (place_of shown a))
      ≡ some (constructed (reread shown a))
unfolding parse_place build write_vhost
place_lem shown a (_, _, _, c, s, p, q, o, sorted) k =
    let front = a.hostname ++ write_port shown a.port in
    let behind = shown_vhost a.vhost ++ write_query a.options in
    let text : place_of shown a ≡ front ++ (b'/' ∷ behind) =
      sym (append_assoc a.hostname (write_port shown a.port) (b'/' ∷ behind)) in
    let lacks =
      All-append (λ x. (x == b'/') ≡ false) a.hostname (write_port shown a.port) s
        (port-Lacks shown a.port) in
    let slash = ap (memchr b'/') text ∙ memchr-append b'/' front behind lacks in
    let host = host_lem (default_port a.secure) shown a.port a.hostname c p in
    let vhost = vhost_lem a.vhost a.options q k in
    let options =
      parse_options-write_query (shown_vhost a.vhost) a.options (shown-Lacks a.vhost q) o sorted in
    simp (slash, host, vhost, options) refl

pub scheme_lem :
    (secure : Bool) (login : Login) (behind place : List ℕ) (out : Option (Parsed Address))
    → split_login behind (memchr b'@' behind) ≡ (login, place)
    → parse_place secure login place (memchr b'/' place) ≡ out
    → parse_address (write_scheme secure ++ behind) ≡ out
unfolding parse_address write_scheme
scheme_lem true login behind place out e p = rw e p
scheme_lem false login behind place out e p = rw e p

written_lem :
    (shown : ℕ) (a : Address)
    → IsWritable a
    → KeepsVhost a.vhost a.options
    → parse_address (
        write_scheme a.secure
        ++ (a.login.user ++ (b':' ∷ (a.login.password ++ (b'@' ∷ place_of shown a)))))
      ≡ some (constructed (reread shown a))
written_lem shown a w k =
    scheme_lem a.secure a.login _ (place_of shown a) _
      (split_login_lem a.login (place_of shown a) w.0 w.1 w.2) (place_lem shown a w k)

same_port : (p d : ℕ) → (if p == d then d else p) ≡ p
same_port p d = ground arith

given_login :
    (l : Login) (place : List ℕ)
    → is_given l ≡ true
    → (if is_given l then write_login l ++ (b'@' ∷ []) else []) ++ place
      ≡ l.user ++ (b':' ∷ (l.password ++ (b'@' ∷ place)))
unfolding write_login
given_login l place g = simp g (
    append_assoc (l.user ++ (b':' ∷ l.password)) (b'@' ∷ []) place
    ∙ append_assoc l.user (b':' ∷ l.password) (b'@' ∷ place))

stream_text :
    (a : Address)
    → let place = place_of (default_port a.secure) a in
      let text = a.login.user ++ (b':' ∷ (a.login.password ++ (b'@' ∷ place))) in
      (if is_given a.login then write_login a.login ++ (b'@' ∷ []) else []) ++ place ≡ text
      → stream a ≡ write_scheme a.secure ++ text
unfolding stream
stream_text a e = ap (λ t. write_scheme a.secure ++ t) e

-- An address with a login, no part of which holds the sign that ends it, with its options in the order of
-- the map and its vhost the default only where no option follows: written to a stream and read back, it
-- is the same address.
pub parse_address-stream :
    (a : Address)
    → IsWritable a
    → KeepsVhost a.vhost a.options
    → is_given a.login ≡ true
    → parse_address (stream a) ≡ some (constructed a)
parse_address-stream a w k g =
    ap parse_address (stream_text a (given_login a.login (place_of (default_port a.secure) a) g))
    ∙ written_lem (default_port a.secure) a w k
    ∙ ap (λ p. some (constructed (record a { port = p })))
        (same_port a.port (default_port a.secure))

-- The same for the cast to a string, which needs no login, but for the port: an address with the port 5672
-- comes back with the default port of its scheme, which is 5671 where it is secure.
pub parse_address-cast_to_string :
    (a : Address)
    → IsWritable a
    → KeepsVhost a.vhost a.options
    → parse_address (cast_to_string a) ≡ some (constructed (reread 5672 a))
unfolding cast_to_string
parse_address-cast_to_string a w k = written_lem 5672 a w k
