-- ===== src/Reliable.antt =====
-- include/amqpcpp/reliable.h: publishing with a handler for each message. `handlers` is the map from
-- delivery tags to handlers, in the order of the tags, and a handler is a number. The base class is a
-- parameter where it publishes, by the tag that it returns, and its own work on a confirm and on an error
-- is left out. The callbacks of the user are taken to make no calls of their own.
pub mod Confirms
use amqp_cpp.Base.{
  ℕ, Bool, true, false, ltb, ◌==◌, if◌then◌else◌, List, [], ◌∷◌, ◌++◌, length, map, Option, none,
  some,
}

-- What a handler is told: `DeferredPublish::reportAck`, `reportNack` and `reportError`.
pub data Told : Type 0 where
  acked nacked lost : ℕ → Told

pub record Reliable : Type 0 where
  pub handlers : List (ℕ × ℕ)
  pub reports : List Told

-- `_handlers[tag] = handler`.
unfoldable pub set_handler : ℕ → ℕ → List (ℕ × ℕ) → List (ℕ × ℕ)
set_handler tag d [] = (tag, d) ∷ []
set_handler tag d (h ∷ hs) =
    let rest = set_handler tag d hs in
    if ltb tag h.0 then (tag, d) ∷ h ∷ hs else (if ltb h.0 tag then h ∷ rest else (tag, d) ∷ hs)

unfoldable pub find_handler : ℕ → List (ℕ × ℕ) → Option ℕ
find_handler tag [] = none
find_handler tag (h ∷ hs) = let rest = find_handler tag hs in if h.0 == tag then some h.1 else rest

unfoldable pub erase_handler : ℕ → List (ℕ × ℕ) → List (ℕ × ℕ)
erase_handler tag [] = []
erase_handler tag (h ∷ hs) = let rest = erase_handler tag hs in if h.0 == tag then hs else h ∷ rest

-- The loop over the handlers up to the tag.
unfoldable pub confirm_loop : (ℕ → Told) → ℕ → List (ℕ × ℕ) → List Told → Reliable
confirm_loop report tag [] reports = record { handlers = []; reports = reports }
confirm_loop report tag (h ∷ hs) reports =
    let rest = confirm_loop report tag hs (reports ++ (report h.1 ∷ [])) in
    if ltb tag h.0 then record { handlers = h ∷ hs; reports = reports } else rest

-- One confirm, for the handler that was found.
unfoldable pub confirm_one : (ℕ → Told) → ℕ → Option ℕ → Reliable → Reliable
unfolding erase_handler
confirm_one report tag none r = r
confirm_one report tag (some d) r = record {
  handlers = erase_handler tag r.handlers;
  reports = r.reports ++ (report d ∷ []);
}

-- What `onAck` and `onNack` share.
unfoldable pub confirm : (ℕ → Told) → ℕ → Bool → Reliable → Reliable
unfolding find_handler confirm_one confirm_loop
confirm report tag multiple r =
    if multiple
    then confirm_loop report tag r.handlers r.reports
    else confirm_one report tag (find_handler tag r.handlers) r

unfoldable pub on_ack : ℕ → Bool → Reliable → Reliable
unfolding confirm
on_ack = confirm acked

unfoldable pub on_nack : ℕ → Bool → Reliable → Reliable
unfolding confirm
on_nack = confirm nacked

unfoldable pub report_error : Reliable → Reliable
report_error r = record { handlers = []; reports = r.reports ++ map (λ h. lost h.1) r.handlers }

-- `publish`, by the tag that the base class returns, which is 0 where it failed.
unfoldable pub publish : ℕ → ℕ → Reliable → Reliable
unfolding set_handler
publish tag d r = record r { handlers = set_handler tag d r.handlers }

unfoldable pub unacknowledged : Reliable → ℕ
unacknowledged r = length r.handlers
