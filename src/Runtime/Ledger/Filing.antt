-- ===== src/Runtime/Ledger/Filing.antt =====
-- The items of the ledger are the gateway's own transitions (agent_ros/runtime/controller.py).
use ros2_agent_workflow.Common.{
  some-injective, ℕ, ◌≡◌, ◌⊎◌, refl, sym, subst, ◌∙◌, List, [], ◌∷◌, Option, none, some, arith, inl,
  inr, ◌==◌, Bool-cases, All, ==_iff,
}
use ros2_agent_workflow.Safety.{SafetyState}
use ros2_agent_workflow.Gateway.{Gateway, SafetyTransition, transitions_from}
use ros2_agent_workflow.Audit.Schema.{AuditOperation, AuditOutcome}
use ros2_agent_workflow.Audit.{Mapping}
use ros2_agent_workflow.Runtime.Ledger.{
  Item, Ledger, Pending, Reference, get_pending, pop_pending, owned_transition, item_of,
  register_item, register_transition, infer_gateway_fault, fault_item, first_fault, or_else,
  register_owned, register_made, next_item,
}
use ros2_agent_workflow.Runtime.Ledger.Trace.{
  Whole, Known, find-All, Known-grows, transitions_from-All,
}

-- A pending item is filed under the number of its transition.
abbrev pub Filed : List SafetyTransition → ℕ × Item → Type 0
Filed trace (k, i) = (i.transition.sequence ≡ k) × Known trace i.transition

Filed-get :
    (trace : List SafetyTransition) (n : ℕ) (i : Item) (pending : Pending)
    → All (Filed trace) pending
    → get_pending n pending ≡ some i
    → (i.transition.sequence ≡ n) × Known trace i.transition
unfolding get_pending
Filed-get trace n i [] a h = cc
Filed-get trace n i ((k, j) ∷ pending) a h = elim (Bool-cases (k == n)) [
  | inl e ↦
      let same : some j ≡ some i = rw (e) at h in
      subst (λ (x : Item). (x.transition.sequence ≡ n) × Known trace x.transition)
        (some-injective same) (a.0.0 ∙ (==_iff k n).0 e, a.0.1)
  | inr e ↦ Filed-get trace n i pending a.1 (rw (e) at h)
]

pub Filed-pop :
    (trace : List SafetyTransition) (n : ℕ) (pending : Pending)
    → All (Filed trace) pending
    → All (Filed trace) (pop_pending n pending)
unfolding pop_pending
Filed-pop trace n [] a = tt
Filed-pop trace n ((k, j) ∷ pending) a = elim (Bool-cases (k == n)) [
  | inl e ↦ rw (pop_pending, e) (Filed-pop trace n pending a.1)
  | inr e ↦ rw (pop_pending, e) (a.0, Filed-pop trace n pending a.1)
]

pub Filed-grows :
    (u : SafetyTransition) (state : SafetyState) (trace : List SafetyTransition) (pending : Pending)
    → Whole u.sequence state trace
    → All (Filed trace) pending
    → All (Filed (u ∷ trace)) pending
Filed-grows u state trace [] w a = tt
Filed-grows u state trace ((k, i) ∷ pending) w a = (
  (a.0.0, Known-grows u i.transition state trace w a.0.1),
  Filed-grows u state trace pending w a.1,
)

fault_item-transition : (t : SafetyTransition) (i : Item) → fault_item t ≡ some i → i.transition ≡ t
unfolding fault_item
fault_item-transition t i h = ground arith

first_fault-Known :
    (trace ts : List SafetyTransition) (n : ℕ) (i : Item)
    → All (Known trace) ts
    → first_fault n ts ≡ some i
    → (i.transition.sequence ≡ n) × Known trace i.transition
unfolding first_fault
first_fault-Known trace [] n i a h = cc
first_fault-Known trace (t ∷ ts) n i a h = elim (Bool-cases (t.sequence == n)) [
  | inl e ↦
      subst (λ (x : SafetyTransition). (x.sequence ≡ n) × Known trace x)
        (sym (fault_item-transition t i (rw (e) at h))) ((==_iff t.sequence n).0 e, a.0)
  | inr e ↦ let none_is : none ≡ some i = rw (e) at h in cc
]

or_else-some : (o p : Option Item) (i : Item) → or_else o p ≡ some i → (o ≡ some i) ⊎ (p ≡ some i)
or_else-some none p i h = inr h
or_else-some (some j) p i h = inl h

-- The item that the drain takes has the number that it expects.
pub next_item-Known :
    (g : Gateway) (l : Ledger) (trace : List SafetyTransition) (i : Item)
    → All (Known trace) g.transition_history
    → All (Filed trace) l.pending_audit
    → next_item g l ≡ some i
    → (i.transition.sequence ≡ l.next_audit_sequence) × Known trace i.transition
unfolding next_item infer_gateway_fault
next_item-Known g l trace i a f h =
    let n = l.next_audit_sequence in
    let pending = get_pending n l.pending_audit in
    elim (or_else-some pending (infer_gateway_fault g n) i h) [
      | inl e ↦ Filed-get trace n i l.pending_audit f e
      | inr e ↦
          first_fault-Known trace (transitions_from n g.transition_history) n i
            (transitions_from-All (Known trace) n g.transition_history a) e
    ]

item_of-transition :
    (operation : AuditOperation) (t : SafetyTransition) (d : Option Mapping)
    (outcome : AuditOutcome) (i : Item)
    → item_of operation t d outcome ≡ some i
    → i.transition ≡ t
unfolding item_of
item_of-transition operation t d outcome i h = ground arith

-- What is registered is the gateway's own, and a registration changes the pending items only.
abbrev pub Registered : List SafetyTransition → Ledger → Ledger → Type 0
Registered trace l l' = (p : Pending) × (l' ≡ record l { pending_audit = p }) × All (Filed trace) p

unchanged-Registered :
    (trace : List SafetyTransition) (l : Ledger)
    → All (Filed trace) l.pending_audit
    → Registered trace l l
unchanged-Registered trace l f = (l.pending_audit, refl, f)

register_item-cases :
    (l : Ledger) (i : Item)
    → ((register_item l i).0 ≡ l)
      ⊎ ((register_item l i).0 ≡ record l {
        pending_audit =
            (i.transition.sequence, i) ∷ pop_pending i.transition.sequence l.pending_audit;
      })
unfolding register_item
register_item-cases l i = ground arith

register_item-Registered :
    (l : Ledger) (i : Item) (trace : List SafetyTransition)
    → Known trace i.transition
    → All (Filed trace) l.pending_audit
    → Registered trace l (register_item l i).0
register_item-Registered l i trace k f = elim (register_item-cases l i) [
  | inl e ↦ (l.pending_audit, e, f)
  | inr e ↦
      let n = i.transition.sequence in
      ((n, i) ∷ pop_pending n l.pending_audit, e, ((refl, k), Filed-pop trace n l.pending_audit f))
]

register_made-Registered :
    (l : Ledger) (o : Option Item) (trace : List SafetyTransition)
    → ((i : Item) → o ≡ some i → Known trace i.transition)
    → All (Filed trace) l.pending_audit
    → Registered trace l (register_made l o).0
unfolding register_made
register_made-Registered l none trace k f = unchanged-Registered trace l f
register_made-Registered l (some i) trace k f = register_item-Registered l i trace (k i refl) f

register_owned-Registered :
    (l : Ledger) (operation : AuditOperation) (d : Option Mapping) (outcome : AuditOutcome)
    (o : Option SafetyTransition) (trace : List SafetyTransition)
    → ((t : SafetyTransition) → o ≡ some t → Known trace t)
    → All (Filed trace) l.pending_audit
    → Registered trace l (register_owned l operation d outcome o).0
unfolding register_owned
register_owned-Registered l operation d outcome none trace k f = unchanged-Registered trace l f
register_owned-Registered l operation d outcome (some t) trace k f =
    register_made-Registered l (item_of operation t d outcome) trace
      (λ i e. subst (Known trace) (sym (item_of-transition operation t d outcome i e)) (k t refl)) f

owned-Known :
    (g : Gateway) (trace : List SafetyTransition) (reference : Reference) (t : SafetyTransition)
    → All (Known trace) g.transition_history
    → owned_transition g reference ≡ some t
    → Known trace t
unfolding owned_transition
owned-Known g trace Reference.foreign t a h = cc
owned-Known g trace (Reference.own n) t a h = find-All (Known trace) n t g.transition_history a h

pub register-Registered :
    (g : Gateway) (l : Ledger) (trace : List SafetyTransition) (operation : AuditOperation)
    (reference : Reference) (d : Option Mapping) (outcome : AuditOutcome)
    → All (Known trace) g.transition_history
    → All (Filed trace) l.pending_audit
    → Registered trace l (register_transition g l operation reference d outcome).0
unfolding register_transition
register-Registered g l trace operation reference d outcome a f =
    register_owned-Registered l operation d outcome (owned_transition g reference) trace
      (λ t h. owned-Known g trace reference t a h) f
