-- ===== src/Connection/Channels.antt =====
-- `ConnectionImpl::add` and `ConnectionImpl::remove` of src/connectionimpl.cpp: the ids that the channels
-- of a connection have. The search for an id that is free recurs on fuel; `none` is running out.
pub mod Search
use mathlib.Core.Option
use amqp_cpp.Base.{
  ℕ, zero, suc, ◌+◌, ◌%◌, ◌^◌, Bool, true, false, not, ◌&&◌, ◌||◌, ltb, leb, ◌==◌, if◌then◌else◌,
  List, [], ◌∷◌, length, Option, none, some,
}

-- `ids` are the keys of `_channels`.
pub record Slots : Type 0 where
  pub next_free : ℕ
  pub max_channels : ℕ
  pub ids : List ℕ

unfoldable pub in_use : ℕ → List ℕ → Bool
in_use id [] = false
in_use id (x ∷ xs) = id == x || in_use id xs

-- `++` on a `uint16_t`.
abbrev pub next16 : ℕ → ℕ
next16 n = (n + 1) % 2 ^ 16

unfoldable pub find_free : ℕ → ℕ → List ℕ → Option ℕ
unfolding in_use
find_free zero next ids = none
find_free (suc n) next ids =
    let rest = find_free n (next16 next) ids in
    if ltb 0 next && not (in_use next ids) then some next else rest

unfoldable pub limit_reached : Slots → Bool
limit_reached s = ltb 0 s.max_channels && leb s.max_channels (length s.ids)

abbrev pub taken_id : Slots → ℕ → Slots × ℕ
taken_id s id = (record s { ids = id ∷ s.ids; next_free = next16 id }, id)

unfoldable pub add : ℕ → Slots → Option (Slots × ℕ)
unfolding limit_reached
add fuel s =
    if limit_reached s
    then some (s, 0)
    else Option.map (taken_id s) (find_free fuel s.next_free s.ids)

unfoldable pub erase_id : ℕ → List ℕ → List ℕ
erase_id id [] = []
erase_id id (x ∷ xs) = let rest = erase_id id xs in if id == x then xs else x ∷ rest

unfoldable pub remove : ℕ → Slots → Slots
unfolding erase_id
remove id s = if id == 0 then s else record s { ids = erase_id id s.ids }
