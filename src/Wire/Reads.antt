-- ===== src/Wire/Reads.antt =====
-- What it means that a read of src/inbuffer.cpp takes certain bytes off the buffer, and how such reads
-- compose.
use mathlib.Core.Path.{subst₂}
use amqp_cpp.Wire.{InBuffer, Reader, ok, err, out_of_range, pure, ◌>>=◌, next_data, unread}
use amqp_cpp.Base.{
  ℕ, ◌<◌, ◌^◌, ◌≡◌, ◌∙◌, List, [], ◌++◌, length, length-append, append_assoc, append-nil,
  take-length-append, drop-length-append, arith,
}

-- The buffer whose bytes `front` have been read and whose bytes `rest` have not.
abbrev pub at : List ℕ → List ℕ → InBuffer
at front rest = record { buffer = front ++ rest; skip = length front }

-- At every place in a buffer that a `size_t` can index, the read takes off `enc`, whatever follows,
-- and returns `v`.
pub record Reads {ℓ} {A : Type ℓ} (p : Reader A) (enc : List ℕ) (v : A) : Type ℓ where
  pub run :
      (front rest : List ℕ)
      → length (front ++ (enc ++ rest)) < 2 ^ 64
      → p (at front (enc ++ rest)) ≡ ok (v, at (front ++ enc) rest)

pub Reads-pure {ℓ} : {A : Type ℓ} (v : A) → Reads (pure v) [] v
Reads-pure v = record { run = λ front rest h. rw append-nil }

pub Reads-bind {ℓ κ} :
    {A : Type ℓ} {B : Type κ} {p : Reader A} (f : A → Reader B) {xs ys : List ℕ} {v : A} {w : B}
    → Reads p xs v
    → Reads (f v) ys w
    → Reads (p >>= f) (xs ++ ys) w
Reads-bind {p} f {xs} {ys} {v} {w} hp hf = record {
  run = λ front rest h.
      let h' = rw (append_assoc xs ys rest) at h in
      rw (append_assoc xs ys rest) (
        rw (hp.run front (ys ++ rest) h', ◌>>=◌)
          (hf.run (front ++ xs) rest (rw (append_assoc front xs (ys ++ rest)) h')
            ∙ rw (append_assoc front xs ys)));
}

-- The last read of a chain.
pub Reads-map {ℓ κ} :
    {A : Type ℓ} {B : Type κ} {p : Reader A} (f : A → B) {xs : List ℕ} {v : A}
    → Reads p xs v
    → Reads (p >>= λ a. pure (f a)) xs (f v)
Reads-map f {xs} hp = record { run = λ front rest h. rw (hp.run front rest h, ◌>>=◌) }

pub Reads-cast {ℓ} :
    {A : Type ℓ} {p : Reader A} {xs ys : List ℕ} {v w : A}
    → xs ≡ ys
    → v ≡ w
    → Reads p xs v
    → Reads p ys w
Reads-cast {p} e d h = subst₂ (Reads p) e d h

pub unread-at :
    (front rest : List ℕ) → length (front ++ rest) < 2 ^ 64 → unread (at front rest) ≡ length rest
unfolding unread
unread-at front rest h = omega (arith, length-append front rest)

pub Reads-next_data :
    (bytes : List ℕ) → length bytes < 2 ^ 32 → Reads (next_data (length bytes)) bytes bytes
unfolding next_data
Reads-next_data bytes h = record {
  run = λ front rest k. ground (
    arith,
    length-append front (bytes ++ rest),
    length-append front bytes,
    length-append bytes rest,
    append_assoc front bytes rest,
    drop-length-append front (bytes ++ rest),
    take-length-append bytes rest,
  );
}

-- A read of more bytes than are left throws.
pub next_data-out_of_range :
    (n : ℕ) (front rest : List ℕ)
    → length (front ++ rest) < 2 ^ 64
    → length rest < n
    → next_data n (at front rest) ≡ err out_of_range
unfolding next_data
next_data-out_of_range n front rest h k = ground (arith, unread-at front rest h)
