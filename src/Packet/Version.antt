-- ===== src/Packet/Version.antt =====
-- The LDAP version of a bind request.
use gldap.Base.{Text, arith, if◌then◌else◌, int_eq, pos, ℕ, ℤ, ◌≡◌}
use gldap.Outcome.{ok, panic}
use gldap.Ber.{
  Packet, Packets, class_application, class_universal, cons, int64, nil, nil_value, node,
  tag_integer, type_constructed, type_primitive,
}
use gldap.Packet.{assert, check_version}

-- A bind request as the library decodes it: a constructed packet without a value of its own, whose
-- first child is the version.
abbrev pub versioned : ℤ → (contents version_contents : Text) → (rest : Packets) → ℕ → Packet
versioned v d e rest g =
    node class_application type_constructed g nil_value d
      (cons (node class_universal type_primitive tag_integer (int64 v) e nil) rest)

-- A bind request without a value of its own passes the version check if its version is 3; for any
-- other version the check panics instead of returning an error.
pub check_version-versioned :
    (v : ℤ) (d e : Text) (rest : Packets) (g : ℕ)
    → check_version (versioned v d e rest g) ≡ (if int_eq v (pos 3) then ok tt else panic)
unfolding check_version assert
check_version-versioned v d e rest g = ground arith
