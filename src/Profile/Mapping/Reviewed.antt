-- ===== src/Profile/Mapping/Reviewed.antt =====
-- What a profile that `from_mapping` accepts is known to satisfy (agent_ros/profiles/models.py).
mod Examples
use ros2_agent_workflow.Common.{
  ℕ, ◌≤◌, ◌<◌, ◌≡◌, ◌≢◌, refl, subst, ◌⊎◌, inl, inr, String, Bool, true, false, ◌&&◌, ◌||◌, not,
  List, [], ◌∷◌, Option, none, some, arith, Value, pos, ltb, same_text, same_text_iff, all,
  contains, is_empty, is_some, Result, ok, err, guard, >>=-eq-ok, ok-injective, guard-true,
}
use ros2_agent_workflow.Common.Value.{absent, number}
use ros2_agent_workflow.Profile.{
  Mode, simulation, hardware, AdapterKind, hospital_delivery, RobotInterfaces, MotionLimits,
  SafetyConfig, RobotProfile,
}
use ros2_agent_workflow.Profile.Mapping.{
  RawProfile, Items, ProfileError, validation_error, item, only_keys, mapping, text_of,
  finite_positive, optional, parse_mode, parse_kind, parse_interfaces, parse_limits, parse_safety,
  validate_adapter_interfaces, confined, finish_profile, with_interfaces, from_mapping, limit_names,
  safety_names, profile_names, is_simulated, is_frame, is_source,
}

pub record PositiveLimits (l : MotionLimits) : Type 0 where
  pub linear_velocity : 0 < l.max_linear_velocity
  pub angular_velocity : 0 < l.max_angular_velocity
  pub linear_acceleration : 0 < l.max_linear_acceleration
  pub angular_acceleration : 0 < l.max_angular_acceleration

abbrev pub positive_timeout : SafetyConfig → Bool
positive_timeout s = elim s.heartbeat_timeout [ none ↦ true | some t ↦ ltb 0 t ]

-- Positive limits and timeout, a heartbeat and an emergency stop on hardware, and the hospital
-- adapter only in the simulation of its own robot.
pub record Reviewed (p : RobotProfile) : Type 0 where
  pub limits : PositiveLimits p.limits
  pub timeout : positive_timeout p.safety ≡ true
  pub watched :
      (p.mode ≡ simulation)
      ⊎ ((is_some p.safety.heartbeat_timeout ≡ true) × (is_some p.safety.estop_topic ≡ true))
  pub hospital : (p.kind ≢ hospital_delivery) ⊎ ((p.mode ≡ simulation) × (p.name ≡ "hospital-amr"))

finite_positive_lem : (v : Value) {n : ℕ} → finite_positive v ≡ ok n → 0 < n
unfolding finite_positive
finite_positive_lem (number (pos n)) h = ground arith
finite_positive_lem absent h = cc
finite_positive_lem _ h = cc

parse_limits-PositiveLimits :
    (items : Items) (l : MotionLimits) → parse_limits items ≡ ok l → PositiveLimits l
unfolding parse_limits
parse_limits-PositiveLimits items l h =
    let (_, _, h0) = >>=-eq-ok (guard (only_keys items limit_names) validation_error) _ h in
    let (a, ea, h1) = >>=-eq-ok (finite_positive (item "max_linear_velocity" items)) _ h0 in
    let (b, eb, h2) = >>=-eq-ok (finite_positive (item "max_angular_velocity" items)) _ h1 in
    let (c, ec, h3) = >>=-eq-ok (finite_positive (item "max_linear_acceleration" items)) _ h2 in
    let (d, ed, h4) = >>=-eq-ok (finite_positive (item "max_angular_acceleration" items)) _ h3 in
    ground (
      arith,
      h4,
      finite_positive_lem (item "max_linear_velocity" items) ea,
      finite_positive_lem (item "max_angular_velocity" items) eb,
      finite_positive_lem (item "max_linear_acceleration" items) ec,
      finite_positive_lem (item "max_angular_acceleration" items) ed,
    )

optional-positive :
    (v : Value) {t : Option ℕ}
    → optional finite_positive v ≡ ok t
    → elim t [ none ↦ true | some n ↦ ltb 0 n ] ≡ true
unfolding optional finite_positive
optional-positive (number (pos n)) h = ground arith
optional-positive absent h = ground arith
optional-positive _ h = cc

parse_safety_lem :
    (mode : Mode) (items : Items) (s : SafetyConfig)
    → parse_safety mode items ≡ ok s
    → (positive_timeout s ≡ true)
      × ((mode ≡ simulation)
          ⊎ ((is_some s.heartbeat_timeout ≡ true) × (is_some s.estop_topic ≡ true)))
unfolding parse_safety
parse_safety_lem mode items s h =
    let (_, _, h0) = >>=-eq-ok (guard (only_keys items safety_names) validation_error) _ h in
    let (t, et, h1) = >>=-eq-ok (optional finite_positive (item "heartbeat_timeout" items)) _ h0 in
    let (topic, _, h2) = >>=-eq-ok (optional text_of (item "estop_topic" items)) _ h1 in
    let (_, g, h3) =
      >>=-eq-ok (guard (is_simulated mode || (is_some t && is_some topic)) validation_error) _ h2 in
    ground (arith, g, h3, optional-positive (item "heartbeat_timeout" items) et)

confined_lem :
    (kind : AdapterKind) (name : String) (mode : Mode) (namespace : String) (i : RobotInterfaces)
    → confined kind name mode namespace i ≡ true
    → (kind ≢ hospital_delivery) ⊎ ((mode ≡ simulation) × (name ≡ "hospital-amr"))
unfolding confined
confined_lem kind name mode namespace i h = ground (arith, same_text_iff name "hospital-amr")

Reviewed-of :
    {p : RobotProfile}
    → PositiveLimits p.limits
    → (positive_timeout p.safety ≡ true)
      × ((p.mode ≡ simulation)
          ⊎ ((is_some p.safety.heartbeat_timeout ≡ true) × (is_some p.safety.estop_topic ≡ true)))
    → (p.kind ≢ hospital_delivery) ⊎ ((p.mode ≡ simulation) × (p.name ≡ "hospital-amr"))
    → Reviewed p
Reviewed-of l s h = record { limits = l; timeout = s.0; watched = s.1; hospital = h }

finish_profile-Reviewed :
    (raw : RawProfile) (name : String) (mode : Mode) (kind : AdapterKind)
    (interfaces : RobotInterfaces) (p : RobotProfile)
    → (kind ≢ hospital_delivery) ⊎ ((mode ≡ simulation) × (name ≡ "hospital-amr"))
    → finish_profile raw name mode kind interfaces ≡ ok p
    → Reviewed p
unfolding finish_profile
finish_profile-Reviewed raw name mode kind interfaces p case h =
    let (limit_items, _, h1) = >>=-eq-ok (mapping raw.limits) _ h in
    let (limits, el, h2) = >>=-eq-ok (parse_limits limit_items) _ h1 in
    let (safety_items, _, h3) = >>=-eq-ok (mapping raw.safety) _ h2 in
    let (safety, es, h4) = >>=-eq-ok (parse_safety mode safety_items) _ h3 in
    let (sources, _, h5) = >>=-eq-ok (mapping raw.observation_sources) _ h4 in
    let (_, _, h6) = >>=-eq-ok (guard (all is_source sources) validation_error) _ h5 in
    subst Reviewed (ok-injective h6) (
      Reviewed-of (parse_limits-PositiveLimits limit_items limits el)
        (parse_safety_lem mode safety_items safety es) case)

with_interfaces-Reviewed :
    (raw : RawProfile) (name : String) (mode : Mode) (namespace : String) (kind : AdapterKind)
    (p : RobotProfile)
    → with_interfaces raw name mode namespace kind ≡ ok p
    → Reviewed p
unfolding with_interfaces
with_interfaces-Reviewed raw name mode namespace kind p h =
    let (items, _, h1) = >>=-eq-ok (mapping raw.interfaces) _ h in
    let (interfaces, _, h2) = >>=-eq-ok (parse_interfaces items) _ h1 in
    let (_, _, h3) =
      >>=-eq-ok (guard (validate_adapter_interfaces kind interfaces) validation_error) _ h2 in
    let (_, case, h4) =
      >>=-eq-ok (guard (confined kind name mode namespace interfaces) validation_error) _ h3 in
    finish_profile-Reviewed raw name mode kind interfaces p
      (confined_lem kind name mode namespace interfaces (guard-true validation_error case)) h4

-- A profile that is accepted has positive limits and a positive timeout if any, a heartbeat timeout
-- and an emergency stop topic on hardware, and the hospital adapter only in the simulation of the
-- robot hospital-amr.
pub from_mapping-Reviewed :
    (raw : RawProfile) (p : RobotProfile) → from_mapping raw ≡ ok p → Reviewed p
unfolding from_mapping
from_mapping-Reviewed raw p h =
    let (_, _, h1) =
      >>=-eq-ok (guard (all (λ n. contains n profile_names) raw.names) validation_error) _ h in
    let (_, _, h2) =
      >>=-eq-ok (guard (all (λ n. contains n raw.names) profile_names) validation_error) _ h1 in
    let (name, _, h3) = >>=-eq-ok (text_of (item "name" raw.items)) _ h2 in
    let (mode, _, h4) = >>=-eq-ok (parse_mode (item "mode" raw.items)) _ h3 in
    let (namespace, _, h5) = >>=-eq-ok (text_of (item "namespace" raw.items)) _ h4 in
    let (frames, _, h6) = >>=-eq-ok (mapping raw.frames) _ h5 in
    let (_, _, h7) =
      >>=-eq-ok (guard (all is_frame frames && not (is_empty frames)) validation_error) _ h6 in
    let (adapter, _, h8) = >>=-eq-ok (mapping raw.adapter) _ h7 in
    let (_, _, h9) = >>=-eq-ok (guard (only_keys adapter ("kind" ∷ [])) validation_error) _ h8 in
    let (kind, _, h10) = >>=-eq-ok (parse_kind (item "kind" adapter)) _ h9 in
    with_interfaces-Reviewed raw name mode namespace kind p h10
