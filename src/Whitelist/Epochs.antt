-- ===== src/Whitelist/Epochs.antt =====
-- taiko-preconfer/src/util.rs: the operators of an epoch and of the next one.
use native.Mathlib.Decide.{dec_lt}
use taiko_preconfer.Prelude.{
  ℕ, ◌+◌, ◌<◌, ◌≡◌, ◌∙◌, ap, ◌↔◌, ◌⊎◌, inl, inr, refl, Bool, true, false, ◌&&◌, some, List, [], ◌∷◌,
  arith, u64_mod, ltb, leb, retain, Sorted, All, Sorted-retain, retain_none, All-map, retain-All,
  List-cases, ltb→lt, le→leb, add64,
}
use taiko_preconfer.Whitelist.{
  Address, ActiveOperator, WhitelistMonitor, is_current_and_next, is_active_in, change_epoch,
  update_current_operator, update_next_operator,
}

abbrev Earlier : ActiveOperator → ActiveOperator → Type 0
Earlier a b = a.epoch < b.epoch

-- Epochs rise along the list, so each has one operator.
abbrev pub IsOrdered : WhitelistMonitor → Type 0
IsOrdered m = Sorted Earlier m.operators

abbrev pub entry : ℕ → Address → ActiveOperator
entry e a = record { epoch = e; operator = a }

abbrev in_range : ℕ → ActiveOperator → Bool
in_range e o = leb e o.epoch && leb o.epoch (add64 e 1)

rejected : (e : ℕ) (o : ActiveOperator) → e + 1 < u64_mod → e + 1 < o.epoch → in_range e o ≡ false
rejected e o fits h = ground arith

-- Of operators past epoch `e` in order, at most the one of epoch `e + 1` is kept.
next_only :
    (e : ℕ) (os : List ActiveOperator)
    → e + 1 < u64_mod
    → All (λ o. e < o.epoch) os
    → Sorted Earlier os
    → let kept = retain (in_range e) os in
      (kept ≡ []) ⊎ ((a : Address) × (kept ≡ entry (e + 1) a ∷ []))
next_only e [] fits h s = inl refl
next_only e (o ∷ os) fits h s = elim (dec_lt (e + 1) o.epoch) [
  | yes far ↦ inl (
      retain_none (in_range e) (o ∷ os) (
        rejected e o fits far,
        All-map (Earlier o) os (λ x h. rejected e x fits (omega arith)) s.0,
      ))
  | no near ↦ inr (
    o.operator,
    let here : o.epoch ≡ e + 1 = omega (arith, h.0) in
        let tail =
          retain_none (in_range e) os
            (All-map (Earlier o) os (λ x g. rejected e x fits (omega arith)) s.0) in
        ground (arith, tail),
  )
]

current_front :
    (m : WhitelistMonitor) (e : ℕ) (a : Address)
    → (update_current_operator m e (some a)).operators
      ≡ entry e a ∷ retain (λ o. ltb e o.epoch) m.operators
unfolding update_current_operator
current_front m e a = elim (List-cases (retain (λ o. ltb e o.epoch) m.operators)) [
  | inl none_left ↦ rw none_left
  | inr (o, os, left) ↦ rw left
]

-- What `update_next_operator` leaves of a list that holds this epoch's operator and later ones.
next_end :
    (m : WhitelistMonitor) (e : ℕ) (a b : Address) (os : List ActiveOperator)
    → e + 1 < u64_mod
    → m.operators ≡ entry e a ∷ os
    → All (λ o. e < o.epoch) os
    → Sorted Earlier os
    → (update_next_operator m e (some b)).operators ≡ entry e a ∷ entry (e + 1) b ∷ []
unfolding update_next_operator
next_end m e a b os fits here later sorted =
    let exact : add64 e 1 ≡ e + 1 = omega arith in
    let low = le→leb e e (omega arith) in
    let high = le→leb e (add64 e 1) (omega arith) in
    elim (next_only e os fits later sorted) [
      | inl gone ↦ rw (here, low, high, gone, exact) (ground arith)
      | inr (x, left) ↦ rw (here, low, high, left, exact) (ground arith)
    ]

-- Both answers in, the monitor holds exactly the operators of the epoch and of the next one,
-- whatever it held before.
pub update-operators :
    (m : WhitelistMonitor) (e : ℕ) (a b : Address)
    → IsOrdered m
    → e + 1 < u64_mod
    → (update_next_operator (update_current_operator m e (some a)) e (some b)).operators
      ≡ entry e a ∷ entry (e + 1) b ∷ []
update-operators m e a b ordered fits =
    next_end _ e a b _ fits (current_front m e a)
      (retain-All _ (λ o. ltb e o.epoch) m.operators (λ o h. ltb→lt e o.epoch h))
      (Sorted-retain Earlier (λ o. ltb e o.epoch) m.operators ordered)

-- An epoch later the next operator has become the current one.
pub change_epoch-update_next_operator :
    (m : WhitelistMonitor) (e : ℕ) (a b c : Address)
    → m.operators ≡ entry e a ∷ entry (e + 1) b ∷ []
    → e + 2 < u64_mod
    → (update_next_operator (change_epoch m (e + 1)) (e + 1) (some c)).operators
      ≡ entry (e + 1) b ∷ entry (e + 2) c ∷ []
change_epoch-update_next_operator m e a b c held fits =
    let unchanged : (change_epoch m (e + 1)).operators ≡ entry (e + 1) b ∷ [] =
      unfold change_epoch in rw held (ground arith) in
    let later : e + 1 + 1 ≡ e + 2 = omega arith in
    next_end (change_epoch m (e + 1)) (e + 1) b c [] (omega arith) unchanged tt tt
    ∙ ap (λ (n : ℕ). entry (e + 1) b ∷ entry n c ∷ []) later

-- Of a monitor that holds both operators: a preconfer is current and next if it is both of them,
-- and it is active in an epoch if it is that epoch's operator.
pub operator_queries :
    (m : WhitelistMonitor) (e : ℕ) (a b p : Address)
    → m.operators ≡ entry e a ∷ entry (e + 1) b ∷ []
    → ((is_current_and_next m p ≡ true) ↔ ((a ≡ p) × (b ≡ p)))
      × ((x : ℕ) → (is_active_in m p x ≡ true) ↔ (((x ≡ e) × (a ≡ p)) ⊎ ((x ≡ e + 1) × (b ≡ p))))
unfolding is_current_and_next is_active_in
operator_queries m e a b p held = (
  rw held (λ h. ground arith, λ h. ground arith),
  λ x. rw held (λ h. ground arith, λ h. ground arith),
)
