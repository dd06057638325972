-- ===== src/Runtime/Ledger/Trace.antt =====
-- All the transitions that a gateway has made, of which its history keeps the latest ones
-- (agent_ros/safety/gateway.py), and how they are found by number.
use ros2_agent_workflow.Common.{
  ℕ, suc, ◌<◌, ◌≡◌, sym, ◌∙◌, ◌⊎◌, subst, ap, false, List, [], ◌∷◌, ◌++◌, some, arith, inl, inr,
  ◌==◌, Bool-cases, All, leb,
}
use ros2_agent_workflow.Safety.{SafetyState, new}
use ros2_agent_workflow.Gateway.{SafetyTransition, transitions_from}
use ros2_agent_workflow.Runtime.Ledger.{find_transition}

-- Newest first: numbered without a gap from 0, each beginning where the one before it ended and the
-- first one in NEW.
abbrev pub Whole : ℕ → SafetyState → List SafetyTransition → Type 0
Whole n state [] = (n ≡ 0) × (state ≡ new)
Whole n state (t ∷ older) =
    (suc t.sequence ≡ n) × (t.state_after ≡ state) × Whole t.sequence t.state_before older

-- The transition is the one of its number.
abbrev pub Known : List SafetyTransition → SafetyTransition → Type 0
Known trace t = find_transition t.sequence trace ≡ some t

pub find_below :
    (k n : ℕ) (state : SafetyState) (t : SafetyTransition) (trace : List SafetyTransition)
    → Whole n state trace
    → find_transition k trace ≡ some t
    → k < n
unfolding find_transition
find_below k n state t [] w h = cc
find_below k n state t (u ∷ older) w h = elim (Bool-cases (u.sequence == k)) [
  | inl e ↦ ground (arith, e, w.0)
  | inr e ↦ omega (arith, find_below k u.sequence u.state_before t older w.2 (rw (e) at h), w.0)
]

pub find_sequence :
    (k : ℕ) (t : SafetyTransition) (trace : List SafetyTransition)
    → find_transition k trace ≡ some t
    → t.sequence ≡ k
unfolding find_transition
find_sequence k t [] h = cc
find_sequence k t (u ∷ older) h = ground (arith, find_sequence k t older)

pub find-All :
    (P : SafetyTransition → Type 0) (k : ℕ) (t : SafetyTransition) (trace : List SafetyTransition)
    → All P trace
    → find_transition k trace ≡ some t
    → P t
unfolding find_transition
find-All P k t [] p h = cc
find-All P k t (u ∷ older) p h = elim (Bool-cases (u.sequence == k)) [
  | inl e ↦ let h' : some u ≡ some t = rw (e) at h in subst P (cc) p.0
  | inr e ↦ find-All P k t older p.1 (rw (e) at h)
]

pub Known-grows :
    (u t : SafetyTransition) (state : SafetyState) (trace : List SafetyTransition)
    → Whole u.sequence state trace
    → Known trace t
    → Known (u ∷ trace) t
unfolding find_transition
Known-grows u t state trace w k =
    ground (arith, find_below t.sequence u.sequence state t trace w k, k)

pub Known-newest : (u : SafetyTransition) (trace : List SafetyTransition) → Known (u ∷ trace) u
unfolding find_transition
Known-newest u trace = ground arith

pub All-Known-grows :
    (u : SafetyTransition) (state : SafetyState) (trace ts : List SafetyTransition)
    → Whole u.sequence state trace
    → All (Known trace) ts
    → All (Known (u ∷ trace)) ts
All-Known-grows u state trace [] w a = tt
All-Known-grows u state trace (t ∷ ts) w a =
    (Known-grows u t state trace w a.0, All-Known-grows u state trace ts w a.1)

All-append :
    (P : SafetyTransition → Type 0) (xs ys : List SafetyTransition)
    → All P xs
    → All P ys
    → All P (xs ++ ys)
All-append P [] ys a b = b
All-append P (x ∷ xs) ys a b = (a.0, All-append P xs ys a.1 b)

pub transitions_from-All :
    (P : SafetyTransition → Type 0) (n : ℕ) (history : List SafetyTransition)
    → All P history
    → All P (transitions_from n history)
unfolding transitions_from
transitions_from-All P n [] a = tt
transitions_from-All P n (t ∷ older) a = elim (Bool-cases (leb n t.sequence)) [
  | inl e ↦
      rw (transitions_from, e)
        (All-append P (transitions_from n older) (t ∷ []) (transitions_from-All P n older a.1)
          (a.0, tt))
  | inr e ↦ rw (transitions_from, e) (transitions_from-All P n older a.1)
]

Known-inv :
    (t u : SafetyTransition) (older : List SafetyTransition)
    → Known (u ∷ older) t
    → (t ≡ u) ⊎ (((u.sequence == t.sequence) ≡ false) × Known older t)
unfolding find_transition
Known-inv t u older k = elim (Bool-cases (u.sequence == t.sequence)) [
  | inl e ↦ let h : some u ≡ some t = rw (e) at k in inl (cc)
  | inr e ↦ inr (e, rw (e) at k)
]

Whole-zero :
    (n : ℕ) (state : SafetyState) (trace : List SafetyTransition)
    → Whole n state trace
    → n ≡ 0
    → state ≡ new
Whole-zero n state [] w z = w.1
Whole-zero n state (u ∷ older) w z = ground (arith, w.0, z)

-- The newest transition ended in the present state.
newest_after :
    (n : ℕ) (state : SafetyState) (u : SafetyTransition) (trace : List SafetyTransition)
    → Whole n state trace
    → suc u.sequence ≡ n
    → Known trace u
    → u.state_after ≡ state
unfolding find_transition
newest_after n state u [] w z k = cc
newest_after n state u (v ∷ older) w z k = elim (Known-inv u v older k) [
  | inl e ↦ subst (λ x. x.state_after ≡ state) (sym e) w.1
  | inr (e, l) ↦ ground (arith, e, w.0, z)
]

-- A transition begins where the one before it ended, and the one of number 0 begins in NEW.
pub begins :
    (n : ℕ) (state : SafetyState) (t : SafetyTransition) (trace : List SafetyTransition)
    → Whole n state trace
    → t.sequence ≡ 0
    → Known trace t
    → t.state_before ≡ new
unfolding find_transition
begins n state t [] w z k = cc
begins n state t (u ∷ older) w z k = elim (Known-inv t u older k) [
  | inl e ↦
      subst (λ x. x.state_before ≡ new) (sym e)
        (Whole-zero u.sequence u.state_before older w.2 (sym (ap (λ x. x.sequence) e) ∙ z))
  | inr (e, l) ↦ begins u.sequence u.state_before t older w.2 z l
]

pub adjoins :
    (n : ℕ) (state : SafetyState) (t u : SafetyTransition) (trace : List SafetyTransition)
    → Whole n state trace
    → t.sequence ≡ suc u.sequence
    → Known trace t
    → Known trace u
    → t.state_before ≡ u.state_after
unfolding find_transition
adjoins n state t u [] w z k l = cc
adjoins n state t u (v ∷ older) w z k l = elim (Known-inv t v older k) [
  | inl e ↦ elim (Known-inv u v older l) [
    | inl f ↦ ground (arith, z, ap (λ x. x.sequence) (e ∙ sym f))
    | inr (f, l') ↦ sym (
        newest_after v.sequence t.state_before u older
          (subst (λ x. Whole v.sequence x.state_before older) (sym e) w.2)
          (sym z ∙ ap (λ x. x.sequence) e) l')
  ]
  | inr (e, k') ↦ elim (Known-inv u v older l) [
    | inl f ↦ ground (
      arith,
      z,
      find_below t.sequence v.sequence v.state_before t older w.2 k',
      ap (λ x. x.sequence) f,
    )
    | inr (f, l') ↦ adjoins v.sequence v.state_before t u older w.2 z k' l'
  ]
]
