-- ===== src/Control/Policy.antt =====
-- What the constructors of the controls accept.
use gldap.Base.{List, arith, negsuc, pos, ℤ, ◌<◌, ◌^◌, ◌≡◌}
use gldap.Outcome.{ok}
use gldap.Options.{GoOption}
use gldap.Options.Apply.{get_control_opts}
use gldap.Control.{BeheraPasswordPolicy, new_control_behera_password_policy, policy_of}
use gldap.Control.RoundTrip.{IsSettled, has_error, has_expire, has_grace, unset}

-- A setting that is unset or in range: what `int(x)` gives for a uint below 2^63.
abbrev pub IsSetting : ℤ → Type 0
IsSetting (pos n) = n < 2 ^ 63
IsSetting (negsuc n) = n ≡ 0

module _ (p : BeheraPasswordPolicy) where
  policy_of-IsSettled :
      (g e c : ℤ) → IsSetting g → IsSetting e → IsSetting c → policy_of g e c ≡ ok p → IsSettled p
  unfolding policy_of
  policy_of-IsSettled (pos n) e c hg he hc made = has_grace n hg (ground arith)
  policy_of-IsSettled (negsuc k) (pos n) c hg he hc made = has_expire n he (ground arith)
  policy_of-IsSettled (negsuc k) (negsuc j) (pos n) hg he hc made =
      has_error n (ground arith) (ground arith)
  policy_of-IsSettled (negsuc k) (negsuc j) (negsuc i) hg he hc made = unset (ground arith)

-- Every password policy that `NewControlBeheraPasswordPolicy` makes of settings in range has at
-- most one of them set, and an error code of at most 8 with its text.
pub new_policy-IsSettled :
    (opt : List GoOption) (p : BeheraPasswordPolicy)
    → IsSetting (get_control_opts opt).with_grace
    → IsSetting (get_control_opts opt).with_expire
    → IsSetting (get_control_opts opt).with_error_code
    → new_control_behera_password_policy opt ≡ ok p
    → IsSettled p
unfolding new_control_behera_password_policy
new_policy-IsSettled opt p g e c made = policy_of-IsSettled p _ _ _ g e c made
