-- ===== src/Reliable/Confirms.antt =====
-- The confirms of include/amqpcpp/reliable.h against the messages that they cover.
use amqp_cpp.Base.{
  ℕ, ◌<◌, ◌≤◌, ◌≡◌, ◌⊎◌, refl, sym, ap, ◌∙◌, Bool, true, false, ltb, leb, ◌==◌, if◌then◌else◌, List,
  [], ◌∷◌, ◌++◌, map, All, none, some, append_assoc, append-nil, arith, Bool-cases, inl, inr,
}
use amqp_cpp.Reliable.{
  Told, acked, Reliable, set_handler, find_handler, erase_handler, confirm_loop, confirm_one,
  confirm, on_ack, publish,
}

abbrev pub IsSorted : List (ℕ × ℕ) → Type 0
IsSorted [] = Unit {0}
IsSorted (h ∷ hs) = All (λ o. h.0 < o.0) hs × IsSorted hs

-- The messages that a confirm is about.
abbrev pub covers : ℕ → Bool → ℕ → Bool
covers tag true id = leb id tag
covers tag false id = id == tag

abbrev pub covered : ℕ → Bool → List (ℕ × ℕ) → List (ℕ × ℕ)
covered tag multiple [] = []
covered tag multiple (h ∷ hs) =
    let rest = covered tag multiple hs in if covers tag multiple h.0 then h ∷ rest else rest

abbrev pub uncovered : ℕ → Bool → List (ℕ × ℕ) → List (ℕ × ℕ)
uncovered tag multiple [] = []
uncovered tag multiple (h ∷ hs) =
    let rest = uncovered tag multiple hs in if covers tag multiple h.0 then rest else h ∷ rest

-- Behind a tag that is not below it, a confirm covers nothing.
none_covered :
    (tag id : ℕ) (multiple : Bool) (hs : List (ℕ × ℕ))
    → tag ≤ id
    → All (λ o. id < o.0) hs
    → (covered tag multiple hs ≡ []) × (uncovered tag multiple hs ≡ hs)
none_covered tag id multiple [] h a = (refl, refl)
none_covered tag id true (o ∷ os) h a =
    let ih = none_covered tag id true os h a.1 in
    let out : leb o.0 tag ≡ false = ground (arith, a.0) in
    (simp (out, ih.0) refl, simp (out, ih.1) refl)
none_covered tag id false (o ∷ os) h a =
    let ih = none_covered tag id false os h a.1 in
    let out : (o.0 == tag) ≡ false = ground (arith, a.0) in
    (simp (out, ih.0) refl, simp (out, ih.1) refl)

loop_lem :
    (report : ℕ → Told) (tag : ℕ) (hs : List (ℕ × ℕ)) (reports : List Told)
    → IsSorted hs
    → ((confirm_loop report tag hs reports).handlers ≡ uncovered tag true hs)
      × ((confirm_loop report tag hs reports).reports
          ≡ reports ++ map (λ h. report h.1) (covered tag true hs))
unfolding confirm_loop
loop_lem report tag [] reports s = (refl, sym (append-nil reports))
loop_lem report tag (h ∷ hs) reports s = elim (Bool-cases (ltb tag h.0)) [
  | inl past ↦
      let out : leb h.0 tag ≡ false = ground (arith, past) in
      let none = none_covered tag h.0 true hs (ground (arith, past)) s.0 in
      simp (past, out, none.0, none.1) (refl, sym (append-nil reports))
  | inr within ↦
      let inside : leb h.0 tag ≡ true = ground (arith, within) in
      let ih = loop_lem report tag hs (reports ++ (report h.1 ∷ [])) s.1 in
      simp (within, inside)
        (
          ih.0,
          ih.1
              ∙ append_assoc reports (report h.1 ∷ [])
                  (map (λ h. report h.1) (covered tag true hs)),
        )
]

-- What one confirm finds: nothing that it covers, or the one handler that it does.
found_lem :
    (report : ℕ → Told) (tag : ℕ) (hs : List (ℕ × ℕ))
    → IsSorted hs
    → ((find_handler tag hs ≡ none) × (covered tag false hs ≡ []) × (uncovered tag false hs ≡ hs))
      ⊎ ((d : ℕ) × (find_handler tag hs ≡ some d)
          × (map (λ h. report h.1) (covered tag false hs) ≡ report d ∷ [])
          × (erase_handler tag hs ≡ uncovered tag false hs))
unfolding find_handler erase_handler
found_lem report tag [] s = inl (refl, refl, refl)
found_lem report tag (h ∷ hs) s = elim (Bool-cases (h.0 == tag)) [
  | inl same ↦
      let none = none_covered tag h.0 false hs (ground (arith, same)) s.0 in
      simp (same, none.0, none.1) (inr (h.1, refl, refl, refl))
  | inr other ↦ elim (found_lem report tag hs s.1) [
    | inl absent ↦ simp (other, absent.0, absent.1, absent.2) (inl (refl, refl, refl))
    | inr found ↦
        let (d, found_it, told, erased) = found in
        simp (other, found_it, told, erased) (inr (d, refl, refl, refl))
  ]
]

one_lem :
    (report : ℕ → Told) (tag : ℕ) (r : Reliable)
    → IsSorted r.handlers
    → let r' = confirm_one report tag (find_handler tag r.handlers) r in
      (r'.handlers ≡ uncovered tag false r.handlers)
      × (r'.reports ≡ r.reports ++ map (λ h. report h.1) (covered tag false r.handlers))
unfolding confirm_one
one_lem report tag r s = elim (found_lem report tag r.handlers s) [
  | inl absent ↦ simp (absent.0, absent.1, absent.2) (refl, sym (append-nil r.reports))
  | inr found ↦
      let (d, found_it, told, erased) = found in simp (found_it, told, erased) (refl, refl)
]

-- A confirm of one message, or of all up to one, tells each handler whose message it covers, in the order
-- of the tags, and keeps all others.
pub confirm-covered :
    (report : ℕ → Told) (tag : ℕ) (multiple : Bool) (r : Reliable)
    → IsSorted r.handlers
    → ((confirm report tag multiple r).handlers ≡ uncovered tag multiple r.handlers)
      × ((confirm report tag multiple r).reports
          ≡ r.reports ++ map (λ h. report h.1) (covered tag multiple r.handlers))
unfolding confirm
confirm-covered report tag true r s = loop_lem report tag r.handlers r.reports s
confirm-covered report tag false r s = one_lem report tag r s

set_first :
    (d : ℕ) (hs : List (ℕ × ℕ)) → (others : List (ℕ × ℕ)) × (set_handler 0 d hs ≡ (0, d) ∷ others)
unfolding set_handler
set_first d [] = ([], refl)
set_first d (h ∷ hs) = elim (Bool-cases (ltb 0 h.0)) [
  | inl above ↦ (h ∷ hs, simp above refl)
  | inr zero_tag ↦
      let not_below : ltb h.0 0 ≡ false = ground arith in (hs, simp (zero_tag, not_below) refl)
]

loop_extends :
    (report : ℕ → Told) (tag : ℕ) (hs : List (ℕ × ℕ)) (reports : List Told)
    → (x : List Told) × ((confirm_loop report tag hs reports).reports ≡ reports ++ x)
unfolding confirm_loop
loop_extends report tag [] reports = ([], sym (append-nil reports))
loop_extends report tag (h ∷ hs) reports = elim (Bool-cases (ltb tag h.0)) [
  | inl past ↦ ([], simp past (sym (append-nil reports)))
  | inr within ↦
      let (x, told) = loop_extends report tag hs (reports ++ (report h.1 ∷ [])) in
      (report h.1 ∷ x, simp within (told ∙ append_assoc reports (report h.1 ∷ []) x))
]

loop_zero :
    (report : ℕ → Told) (tag d : ℕ) (hs : List (ℕ × ℕ)) (reports : List Told)
    → (confirm_loop report tag ((0, d) ∷ hs) reports).reports
      ≡ (confirm_loop report tag hs (reports ++ (report d ∷ []))).reports
unfolding confirm_loop
loop_zero report tag d hs reports =
    let within : ltb tag 0 ≡ false = ground arith in simp within refl

-- A message that could not be published, so that the base class returned the tag 0: the first confirm of
-- several messages tells its handler that it was acknowledged.
pub on_ack-unpublished :
    (d tag : ℕ) (r : Reliable)
    → (x : List Told) × ((on_ack tag true (publish 0 d r)).reports ≡ r.reports ++ (acked d ∷ x))
unfolding on_ack confirm publish
on_ack-unpublished d tag r =
    let (others, first) = set_first d r.handlers in
    let (x, told) = loop_extends acked tag others (r.reports ++ (acked d ∷ [])) in
    (
      x,
      ap (λ hs. (confirm_loop acked tag hs r.reports).reports) first
          ∙ loop_zero acked tag d others r.reports
          ∙ told
          ∙ append_assoc r.reports (acked d ∷ []) x,
    )
