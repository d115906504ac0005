-- ===== src/TcpOutBuffer/Content.antt =====
-- The bytes that wait in the buffer of src/linux_tcp/tcpoutbuffer.h.
use amqp_cpp.Base.{
  ℕ, zero, suc, ◌+◌, ◌-◌, ◌≤◌, ◌≡◌, refl, sym, ap, ◌∙◌, ◌==◌, leb, leb→le, tests, List, [], ◌∷◌,
  ◌++◌, length, drop, arith, inl, inr, Bool-cases, append_assoc, append-nil, length-append,
  length-drop, drop_within, drop_past, drop-drop, drop-nil,
}
use amqp_cpp.Channel.Publish.Frames.{join}
use amqp_cpp.TcpOutBuffer.{TcpOutBuffer, add, clear, shrink_loop, shrink}

-- The buffers, without what is skipped of the first.
abbrev pub rest_of : ℕ → List (List ℕ) → List ℕ
rest_of skip [] = []
rest_of skip (first ∷ others) = drop skip first ++ join others

abbrev pub content : TcpOutBuffer → List ℕ
content b = rest_of b.skip b.buffers

abbrev pub SkipsWithin : ℕ → List (List ℕ) → Type 0
SkipsWithin skip [] = skip ≡ 0
SkipsWithin skip (first ∷ others) = skip ≤ length first

-- What is skipped lies in the first buffer, and the size is that of the content.
abbrev pub IsConsistent : TcpOutBuffer → Type 0
IsConsistent b = SkipsWithin b.skip b.buffers × (b.size ≡ length (content b))

rest_of-zero : (bs : List (List ℕ)) → rest_of 0 bs ≡ join bs
rest_of-zero [] = refl
rest_of-zero (b ∷ bs) = refl

SkipsWithin-zero : (bs : List (List ℕ)) → SkipsWithin 0 bs
SkipsWithin-zero [] = refl
SkipsWithin-zero (b ∷ bs) = omega arith

join-snoc : (bs : List (List ℕ)) (b : List ℕ) → join (bs ++ (b ∷ [])) ≡ join bs ++ b
join-snoc [] b = append-nil b
join-snoc (x ∷ xs) b = ap (λ r. x ++ r) (join-snoc xs b) ∙ sym (append_assoc x (join xs) b)

rest_of-snoc :
    (skip : ℕ) (bs : List (List ℕ)) (b : List ℕ)
    → SkipsWithin skip bs
    → (rest_of skip (bs ++ (b ∷ [])) ≡ rest_of skip bs ++ b) × SkipsWithin skip (bs ++ (b ∷ []))
rest_of-snoc skip [] b h = (rw h (append-nil b), rw h (omega arith))
rest_of-snoc skip (x ∷ xs) b h =
    (ap (λ r. drop skip x ++ r) (join-snoc xs b) ∙ sym (append_assoc (drop skip x) (join xs) b), h)

pub add-content :
    (bytes : List ℕ) (b : TcpOutBuffer)
    → IsConsistent b
    → IsConsistent (add bytes b) × (content (add bytes b) ≡ content b ++ bytes)
unfolding add
add-content bytes b i =
    let more = rest_of-snoc b.skip b.buffers bytes i.0 in
    (
      (
        more.1,
        ap (λ n. n + length bytes) i.1
            ∙ sym (length-append (content b) bytes)
            ∙ ap length (sym more.0),
      ),
      more.0,
    )

-- Some bytes of the first buffer, and all of them.
part_of_first :
    (skip n : ℕ) (x : List ℕ) (xs : List (List ℕ))
    → skip + n ≤ length x
    → rest_of (skip + n) (x ∷ xs) ≡ drop n (rest_of skip (x ∷ xs))
part_of_first skip n x xs h =
    ap (λ r. r ++ join xs) (sym (drop-drop n skip x))
    ∙ sym (drop_within n (drop skip x) (join xs) (omega (arith, length-drop skip x)))

past_first :
    (skip n : ℕ) (x : List ℕ) (xs : List (List ℕ))
    → length x - skip ≤ n
    → drop (n - (length x - skip)) (rest_of 0 xs) ≡ drop n (rest_of skip (x ∷ xs))
past_first skip n x xs h =
    ap (drop (n - (length x - skip))) (rest_of-zero xs)
    ∙ ap (λ l. drop (n - l) (join xs)) (sym (length-drop skip x))
    ∙ sym (drop_past n (drop skip x) (join xs) (omega (arith, length-drop skip x)))

size_of_others :
    (skip size : ℕ) (x : List ℕ) (xs : List (List ℕ))
    → size ≡ length (rest_of skip (x ∷ xs))
    → (length x - skip ≤ size) × (size - (length x - skip) ≡ length (rest_of 0 xs))
size_of_others skip size x xs e =
    omega (
      arith,
      length-append (drop skip x) (join xs),
      length-drop skip x,
      ap length (rest_of-zero xs),
    )

nothing_left : (n : ℕ) (xs : List ℕ) → length xs ≤ n → drop n xs ≡ []
nothing_left zero [] h = refl
nothing_left (suc n) [] h = refl
nothing_left zero (x ∷ xs) h = elim h [ ]
nothing_left (suc n) (x ∷ xs) h = nothing_left n xs (omega arith)

shrink_loop-content :
    (bs : List (List ℕ)) (skip size n : ℕ)
    → SkipsWithin skip bs
    → size ≡ length (rest_of skip bs)
    → n ≤ size
    → SkipsWithin (shrink_loop bs skip size n).skip (shrink_loop bs skip size n).buffers
      × (content (shrink_loop bs skip size n) ≡ drop n (rest_of skip bs))
      × ((shrink_loop bs skip size n).size ≡ size - n)
unfolding shrink_loop
shrink_loop-content [] skip size n w e h = (w, sym (drop-nil n), omega arith)
shrink_loop-content (x ∷ xs) skip size n w e h = elim (Bool-cases (n == 0)) [
  | inl z ↦
      let n0 : n ≡ 0 = ground arith in
      simp z (w, sym (ap (λ m. drop m (rest_of skip (x ∷ xs))) n0), omega arith)
  | inr more ↦ elim (Bool-cases (leb (length x - skip) n)) [
    | inl all ↦
        let below : length x - skip ≤ n = leb→le _ _ all in
        let others = size_of_others skip size x xs e in
        let ih =
          shrink_loop-content xs 0 (size - (length x - skip)) (n - (length x - skip))
            (SkipsWithin-zero xs) others.1 (omega arith) in
        simp (more, all) (ih.0, ih.1 ∙ past_first skip n x xs below, ih.2 ∙ omega arith)
    | inr part ↦
        let inside : skip + n ≤ length x = ground arith in
        simp (more, part) (inside, part_of_first skip n x xs inside, refl)
  ]
]

-- Shrinking a consistent buffer by at most its size, and by more.
pub shrink-content :
    (n : ℕ) (b : TcpOutBuffer)
    → IsConsistent b
    → IsConsistent (shrink n b)
      × (content (shrink n b) ≡ drop n (content b))
      × ((shrink n b).size ≡ b.size - n)
unfolding shrink
shrink-content n b i = elim (Bool-cases (leb b.size n)) [
  | inl all ↦
      let none : drop n (content b) ≡ [] = nothing_left n (content b) (omega (tests, i.1)) in
      simp all (unfold clear in ((refl, refl), sym none, omega tests))
  | inr some_left ↦
      let left = shrink_loop-content b.buffers b.skip b.size n i.0 i.1 (ground arith) in
      simp some_left (
        (
          left.0,
          left.2 ∙ ap (λ l. l - n) i.1 ∙ sym (length-drop n (content b)) ∙ ap length (sym left.1),
        ),
        left.1,
        left.2,
      )
]
