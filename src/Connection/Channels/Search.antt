-- ===== src/Connection/Channels/Search.antt =====
-- The search of `ConnectionImpl::add`: what it finds, when it ends, and when it does not.
use amqp_cpp.Base.{
  ℕ, zero, suc, ◌+◌, ◌-◌, ◌%◌, ◌^◌, ◌<◌, ◌≤◌, ◌≡◌, refl, ◌∙◌, true, false, not, ◌&&◌, ltb, List, [],
  ◌∷◌, length, Option, none, some, arith,
}
use amqp_cpp.Connection.Channels.{Slots, in_use, next16, find_free, limit_reached, add, erase_id}

-- The id that the search looks at after that many steps.
abbrev nth : ℕ → ℕ → ℕ
nth next i = (next + i) % 2 ^ 16

find_free-none :
    (n next i : ℕ) (ids : List ℕ)
    → next < 2 ^ 16
    → i < n
    → find_free n next ids ≡ none
    → (ltb 0 (nth next i) && not (in_use (nth next i) ids)) ≡ false
unfolding find_free
find_free-none zero next i ids b h e = elim h [ ]
find_free-none (suc n) next zero ids b h e =
    let first : nth next 0 ≡ next = omega arith in rw first (ground arith)
find_free-none (suc n) next (suc i) ids b h e =
    let later : nth next (suc i) ≡ nth (next16 next) i = omega arith in
    rw later (find_free-none n (next16 next) i ids (omega arith) (omega arith) (ground arith))

find_free-some :
    (n next id : ℕ) (ids : List ℕ)
    → next < 2 ^ 16
    → find_free n next ids ≡ some id
    → (0 < id) × (id < 2 ^ 16) × (in_use id ids ≡ false)
unfolding find_free
find_free-some zero next id ids b e = cc
find_free-some (suc n) next id ids b e = ground (arith, find_free-some n (next16 next) id ids)

length-erase_id :
    (id : ℕ) (xs : List ℕ) → in_use id xs ≡ true → suc (length (erase_id id xs)) ≡ length xs
unfolding in_use erase_id
length-erase_id id [] h = cc
length-erase_id id (x ∷ xs) h = ground (arith, length-erase_id id xs)

in_use-erase_id : (id v : ℕ) (xs : List ℕ) → v < id → in_use v (erase_id id xs) ≡ in_use v xs
unfolding in_use erase_id
in_use-erase_id id v [] h = refl
in_use-erase_id id v (x ∷ xs) h = ground (arith, in_use-erase_id id v xs h)

-- A list that has every number up to `k` is that long.
pigeons : (k : ℕ) (xs : List ℕ) → ((v : ℕ) → v < k → in_use (suc v) xs ≡ true) → k ≤ length xs
pigeons zero xs h = omega arith
pigeons (suc k) xs h =
    let ih =
      pigeons k (erase_id (suc k) xs)
        (λ v lt. in_use-erase_id (suc k) (suc v) xs (omega arith) ∙ h v (omega arith)) in
    omega (arith, length-erase_id (suc k) xs (h k (omega arith)))

-- Each id is looked at within 2 ^ 16 steps.
reaches : (next v : ℕ) → next < 2 ^ 16 → v < 2 ^ 16 → nth next ((v + 2 ^ 16 - next) % 2 ^ 16) ≡ v
reaches next v b c = omega arith

busy :
    (v w : ℕ) (ids : List ℕ)
    → v ≡ suc w
    → (ltb 0 v && not (in_use v ids)) ≡ false
    → in_use (suc w) ids ≡ true
busy v w ids e h = rw (← e) (ground (arith, h))

used_up :
    (next v : ℕ) (ids : List ℕ)
    → next < 2 ^ 16
    → find_free 65536 next ids ≡ none
    → v < 65535
    → in_use (suc v) ids ≡ true
used_up next v ids b e l =
    let i = (suc v + 2 ^ 16 - next) % 2 ^ 16 in
    let looked = find_free-none 65536 next i ids b (omega arith) e in
    busy (nth next i) v ids (reaches next (suc v) b (omega arith)) looked

find_free-total :
    (next : ℕ) (ids : List ℕ)
    → next < 2 ^ 16
    → length ids < 65535
    → (id : ℕ) × (find_free 65536 next ids ≡ some id)
find_free-total next ids b l = go (find_free 65536 next ids) refl
  where
    go :
        (r : Option ℕ)
        → find_free 65536 next ids ≡ r
        → (id : ℕ) × (find_free 65536 next ids ≡ some id)
    go (some id) e = (id, e)
    go none e = absurd (omega (arith, pigeons 65535 ids (λ v lt. used_up next v ids b e lt)))

-- Below the limit on channels, and with an id that is not in use, `add` ends within 2 ^ 16 steps: it
-- gives an id that is not 0, fits in 16 bits and was not in use, and the channel has it from then on.
pub add-fresh :
    (s : Slots)
    → s.next_free < 2 ^ 16
    → limit_reached s ≡ false
    → length s.ids < 65535
    → (id : ℕ) × (add 65536 s ≡ some (record s { ids = id ∷ s.ids; next_free = next16 id }, id))
      × (0 < id)
      × (id < 2 ^ 16)
      × (in_use id s.ids ≡ false)
unfolding add
add-fresh s b f l =
    let (id, found) = find_free-total s.next_free s.ids b l in
    let facts = find_free-some 65536 s.next_free id s.ids b found in
    (id, rw (f, found), facts.0, facts.1, facts.2)

busy_forever :
    (fuel next : ℕ) (ids : List ℕ)
    → next < 2 ^ 16
    → ((v : ℕ) → v < 65535 → in_use (suc v) ids ≡ true)
    → find_free fuel next ids ≡ none
unfolding find_free
busy_forever zero next ids b h = refl
busy_forever (suc n) zero ids b h = busy_forever n (next16 zero) ids (omega arith) h
busy_forever (suc n) (suc v) ids b h =
    ground (arith, h v (omega arith), busy_forever n (next16 (suc v)) ids (omega arith) h)

-- Where the number of channels is not limited and every id is in use, `add` never ends.
pub add-endless :
    (fuel : ℕ) (s : Slots)
    → s.next_free < 2 ^ 16
    → s.max_channels ≡ 0
    → ((v : ℕ) → v < 65535 → in_use (suc v) s.ids ≡ true)
    → add fuel s ≡ none
unfolding add limit_reached
add-endless fuel s b m h = ground (arith, busy_forever fuel s.next_free s.ids b h)
