-- ===== src/Helpers/Laws.antt =====
-- What the options of internal/testhelpers mean for the policies of a test.
use text.Mathlib.Text.{◌==◌ as str_eq}
use text.Mathlib.TextEquality.{eq_iff}
use temporal_mistakes.Base.{
  ◌≡◌, ◌≢◌, refl, ap, sym, ◌∙◌, inl, inr, Option, none, some, Bool-cases, String, List, [], ◌∷◌,
  ◌++◌, map, All, if◌then◌else◌,
}
use temporal_mistakes.Base.Text.{str_eq-other, str_eq-same}
use temporal_mistakes.Policy.Config.{Severity, Options, lookup, severity_for}
use temporal_mistakes.Helpers.{
  assign, HelperConfig, HelperOption, zero_config, apply_options, new_helper_config, entries,
  with_activity_policy_severity, with_dev_server_extra_args, activity_policy_options,
  zero_policy_options,
}

lookup-assign_same :
    (k : String) (s : Severity) (m : List (String × Severity)) → lookup k (assign k s m) ≡ some s
unfolding lookup assign
lookup-assign_same k s [] = rw (str_eq-same k) refl
lookup-assign_same k s ((j, t) ∷ m) = elim (Bool-cases (str_eq j k)) [
  | inl e ↦ rw (e, e) refl
  | inr e ↦ rw (e, e) (lookup-assign_same k s m)
]

lookup-assign_other :
    (k p : String) (s : Severity) (m : List (String × Severity))
    → k ≢ p
    → lookup p (assign k s m) ≡ lookup p m
unfolding lookup assign
lookup-assign_other k p s [] n = rw (str_eq-other k p n) refl
lookup-assign_other k p s ((j, t) ∷ m) n = elim (Bool-cases (str_eq j k)) [
  | inl e ↦ rw (e, str_eq-other j p (λ h. n (sym ((eq_iff j k).0 e) ∙ h))) refl
  | inr e ↦ rw e (ap (λ r. if str_eq j p then some t else r) (lookup-assign_other k p s m n))
]

-- What a helper can be asked for: the severity of a policy, or arguments of the server.
pub data Setting : Type 0 where
  severity : String → Severity → Setting
  extra_args : List String → Setting

abbrev pub option_of : Setting → HelperOption
option_of (severity policy s) = with_activity_policy_severity policy s
option_of (extra_args args) = with_dev_server_extra_args args

abbrev pub Leaves : String → Setting → Type 0
Leaves p (severity policy s) = policy ≢ p
Leaves p (extra_args args) = Unit

-- The options of the policy interceptor under these settings.
abbrev pub configured : List Setting → Options
configured settings = activity_policy_options (new_helper_config (map option_of settings))

abbrev entry : String → HelperConfig → Option Severity
entry p c = lookup p (entries c.policy_severities)

apply_options-left :
    (p : String) (settings : List Setting) (c : HelperConfig)
    → All (Leaves p) settings
    → entry p (apply_options (map option_of settings) c) ≡ entry p c
unfolding with_activity_policy_severity with_dev_server_extra_args
apply_options-left p [] c h = refl
apply_options-left p (severity policy s ∷ settings) c (n, h) =
    apply_options-left p settings (with_activity_policy_severity policy s c) h
    ∙ lookup-assign_other policy p s (entries c.policy_severities) n
apply_options-left p (extra_args args ∷ settings) c (_, h) =
    apply_options-left p settings (with_dev_server_extra_args args c) h

apply_options-last :
    (p : String) (s : Severity) (before after : List Setting) (c : HelperConfig)
    → All (Leaves p) after
    → entry p (apply_options (map option_of (before ++ severity p s ∷ after)) c) ≡ some s
unfolding with_activity_policy_severity
apply_options-last p s [] after c h =
    apply_options-left p after (with_activity_policy_severity p s c) h
    ∙ lookup-assign_same p s (entries c.policy_severities)
apply_options-last p s (x ∷ before) after c h =
    apply_options-last p s before after (option_of x c) h

severity_for-entry :
    (o : Options) (p : String) (s : Severity)
    → lookup p o.severities ≡ some s
    → severity_for o p ≡ s
unfolding severity_for
severity_for-entry o p s e = rw (severity_for, e) refl

severity_for-missing :
    (o : Options) (p : String)
    → lookup p o.severities ≡ none
    → severity_for o p ≡ severity_for zero_policy_options p
unfolding severity_for lookup
severity_for-missing o p e = rw (severity_for, e) refl

-- The severity of a policy is that of the last setting on it, whatever is set before, and whatever is
-- set after it on others; without a setting on it, it is the one of the interceptor's defaults.
pub configured-severity_for :
    (p : String) (s : Severity) (before after : List Setting)
    → All (Leaves p) after
    → (severity_for (configured (before ++ severity p s ∷ after)) p ≡ s)
      × (severity_for (configured after) p ≡ severity_for zero_policy_options p)
unfolding activity_policy_options new_helper_config lookup
configured-severity_for p s before after h = (
  severity_for-entry (configured (before ++ severity p s ∷ after)) p s
      (apply_options-last p s before after zero_config h),
  severity_for-missing (configured after) p (apply_options-left p after zero_config h),
)
