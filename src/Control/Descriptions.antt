-- ===== src/Control/Descriptions.antt =====
-- `addControlDescriptions` of control.go: the errors that it returns. The descriptions are left out,
-- and so is what it writes back into the packet that it has read.
pub mod Accepted
use gldap.Base.{
  List, Option, Text, [], get_elem?, if◌then◌else◌, none, some, text_eq, ℕ, ◌++◌, ◌==◌, ◌∷◌,
}
use gldap.Outcome.{
  Outcome, err, from_library, instead, invalid_parameter, ok, or_panic, plain, ◌>>=◌, ◌>>◌,
}
use gldap.Ber.{Ber, Packet, as_bool, children, contents, nil_value, tag, value}
use gldap.Control.{control_type_behera_password_policy, control_type_paging}
use gldap.Control.Codec.{error_byte, type_of}

-- The type and the value of one control's packet; a third child is not looked at.
unfoldable pub described_fields : List Packet → Outcome (Text × Option Packet)
described_fields [] = err plain
described_fields (t ∷ []) = do control_type ← type_of t; ok (control_type, none)
described_fields (t ∷ u ∷ []) = do
  control_type ← type_of t
  ok (control_type, elim (as_bool (value u)) [ some c ↦ none | none ↦ some u ])
described_fields (t ∷ c ∷ v ∷ []) = do control_type ← type_of t; ok (control_type, some v)
described_fields (t ∷ c ∷ v ∷ w ∷ rest) = err plain

-- An index expression for its panic alone.
abbrev pub has_child : Packet → ℕ → Outcome (Unit {0})
has_child p i = do child ← or_panic (get_elem? (children p) i); ok tt

module _ (b : Ber) where
  -- The children of a value; what is decoded must have as many children as are touched.
  unfoldable pub described_children : (Packet → Outcome (Unit {0})) → Packet → Outcome (List Packet)
  described_children touch v = elim (value v) [
    | nil_value ↦ ok (children v)
    | _ ↦ do
      decoded ← instead plain (from_library (b.decode_packet (contents v)))
      touch decoded
      ok (children v ++ decoded ∷ [])
  ]

  -- The case of `ControlTypePaging`.
  unfoldable pub describe_paging : Packet → Outcome (Unit {0})
  describe_paging v = do
    inner ← described_children (λ decoded. has_child decoded 1) v
    seq ← or_panic (get_elem? inner 0)
    has_child seq 0
    has_child seq 1

  -- One child of the policy's sequence.
  unfoldable pub describe_policy_child : Packet → Outcome (Unit {0})
  describe_policy_child child =
      if tag child == 0
      then (do
        warning_packet ← or_panic (get_elem? (children child) 0)
        val ← instead plain (from_library (b.parse_int64 (contents warning_packet)))
        ok tt)
      else if tag child == 1
      then (do n ← error_byte (contents child); ok tt)
      else ok tt

  abbrev pub describe_policy_children : List Packet → Outcome (Unit {0})
  describe_policy_children [] = ok tt
  describe_policy_children (p ∷ ps) = do describe_policy_child p; describe_policy_children ps

  -- The case of `ControlTypeBeheraPasswordPolicy`.
  unfoldable pub describe_policy : Packet → Outcome (Unit {0})
  describe_policy v = do
    inner ← described_children (λ decoded. ok tt) v
    seq ← or_panic (get_elem? inner 0)
    describe_policy_children (children seq)

  -- The second switch of the loop.
  unfoldable pub describe_value : Text → Option Packet → Outcome (Unit {0})
  describe_value control_type none = ok tt
  describe_value control_type (some v) =
      if text_eq control_type control_type_paging
      then describe_paging v
      else if text_eq control_type control_type_behera_password_policy
      then describe_policy v
      else ok tt

  unfoldable pub describe_control : Packet → Outcome (Unit {0})
  describe_control child = do
    (control_type, value) ← described_fields (children child)
    describe_value control_type value

  abbrev pub describe_controls : List Packet → Outcome (Unit {0})
  describe_controls [] = ok tt
  describe_controls (p ∷ ps) = do describe_control p; describe_controls ps

  -- `addControlDescriptions`
  unfoldable pub add_control_descriptions : Option Packet → Outcome (Unit {0})
  add_control_descriptions none = err invalid_parameter
  add_control_descriptions (some p) = describe_controls (children p)
