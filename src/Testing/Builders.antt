-- ===== src/Testing/Builders.antt =====
-- testing.go: the controls and the encoded strings that the repository's tests build. An error fails
-- the test.
use gldap.Base.{List, Text, ℕ}
use gldap.Outcome.{Outcome, from_library, ok, ◌>>=◌}
use gldap.Options.{GoOption}
use gldap.Ber.{Ber, class_universal, tag, type_primitive}
use gldap.Control.{
  Control, new_control_manage_dsa_it, new_control_microsoft_notification,
  new_control_microsoft_server_link_ttl, new_control_microsoft_show_deleted, new_control_paging,
  new_control_string,
}

abbrev pub test_control_string : Text → List GoOption → Outcome Control
test_control_string control_type opt = new_control_string control_type opt

abbrev pub test_control_manage_dsa_it : List GoOption → Outcome Control
test_control_manage_dsa_it opt = new_control_manage_dsa_it opt

abbrev pub test_control_microsoft_notification : List GoOption → Outcome Control
test_control_microsoft_notification opt = new_control_microsoft_notification opt

abbrev pub test_control_microsoft_server_link_ttl : List GoOption → Outcome Control
test_control_microsoft_server_link_ttl opt = new_control_microsoft_server_link_ttl opt

abbrev pub test_control_microsoft_show_deleted : List GoOption → Outcome Control
test_control_microsoft_show_deleted opt = new_control_microsoft_show_deleted opt

abbrev pub test_control_paging : ℕ → List GoOption → Outcome Control
test_control_paging paging_size opt = new_control_paging paging_size opt

module _ (b : Ber) where
  -- `TestEncodeString`
  unfoldable pub test_encode_string : (tag : ℕ) → Text → Outcome Text
  test_encode_string tag s = do
    dec ←
        from_library (b.decode_packet (b.bytes (b.new_string class_universal type_primitive tag s)))
    ok (b.bytes dec)
