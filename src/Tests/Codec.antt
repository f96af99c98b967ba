-- ===== src/Tests/Codec.antt =====
-- Runs of the encoders and decoders.
use mathlib.Core.List.{Permᴰ}
use gldap.Base.{[], arith, codes, map, minus_one, negsuc, pos, refl, some, text_eq, ◌∷◌, ◌≡◌}
use gldap.Outcome.{ok, ◌>>=◌}
use gldap.Options.Apply.{with_grace_auth_ns_remaining}
use gldap.Ber.{class_context, nil, node, string, type_primitive}
use gldap.Ber.Model.{sample_ber, sample_ber-IsBer}
use gldap.Strconv.{format_int, format_uint, parse_int}
use gldap.Strconv.RoundTrip.{parse_int-format_int}
use gldap.Attribute.{AttributeMap, new_entry, new_entry_attribute}
use gldap.Attribute.Order.{new_entry-perm}
use gldap.Control.{control_paging, new_control_behera_password_policy, policy_of}
use gldap.Control.Encoding.{encode_control, encode_controls}
use gldap.Control.Codec.{decode_control}
use gldap.Control.RoundTrip.{IsSettled, decode-encode_control}
use gldap.Control.Policy.{new_policy-IsSettled}
use gldap.Message.{add, modify, new_message, search}
use gldap.Testing.{test_add_request_packet, test_modify_request_packet, test_search_request_packet}
use gldap.Testing.Changes.{as_read, new_message-add, new_message-modify}
use gldap.Testing.Searches.{new_message-search}
use gldap.Tests.{
  alice_dn, sample_add, sample_bind, sample_change, sample_ldap, sample_modify, sample_search,
}
use gldap.Codes.Descriptions.{application_code_map, application_text, result_code_map, result_text}
use gldap.Control.Printing.{control_text, control_type_text, quote_byte, quoted, type_line}
use gldap.Attribute.Printing.{print_attribute, print_entry}
use gldap.Control.Descriptions.{add_control_descriptions}
use gldap.Control.Descriptions.Accepted.{add_control_descriptions-encode_controls}

decode-encode_control_example :
    decode_control sample_ber (some (encode_control sample_ber (control_paging 5 (codes "next"))))
    ≡ ok (control_paging 5 (codes "next"))
decode-encode_control_example =
    decode-encode_control sample_ber sample_ber-IsBer (control_paging 5 (codes "next"))
      (omega arith)

parse_int-format_int_example : parse_int (format_int (negsuc 41)) ≡ some (negsuc 41)
parse_int-format_int_example = parse_int-format_int (negsuc 41) (omega arith)

new_message-add_example :
    new_message sample_ber sample_ldap (test_add_request_packet sample_ber sample_add)
    ≡ ok (add sample_add)
new_message-add_example = new_message-add sample_ber sample_ldap sample_ber-IsBer sample_add tt

new_message-modify_example :
    new_message sample_ber sample_ldap (test_modify_request_packet sample_ber sample_modify)
    ≡ ok (
        modify (record sample_modify {
          changes = map (as_read sample_ber sample_ldap sample_ber-IsBer) (sample_change ∷ []);
        }))
new_message-modify_example =
    new_message-modify sample_ber sample_ldap sample_ber-IsBer sample_modify tt

new_message-search_example :
    (test_search_request_packet sample_ber sample_ldap sample_search
      >>= new_message sample_ber sample_ldap)
    ≡ ok (search sample_search)
unfolding text_eq
new_message-search_example =
    new_message-search sample_ber sample_ldap sample_ber-IsBer sample_search
      (node class_context type_primitive 7 (string (codes "(uid=alice)")) (codes "(uid=alice)") nil)
      refl refl ((refl, (refl, (refl, (refl, (refl, (refl, (refl, (refl, tt)))))))), tt)

abbrev two_names : AttributeMap
two_names = (codes "sn", codes "b" ∷ []) ∷ (codes "cn", codes "a" ∷ []) ∷ []

abbrev two_names_swapped : AttributeMap
two_names_swapped = (codes "cn", codes "a" ∷ []) ∷ (codes "sn", codes "b" ∷ []) ∷ []

new_entry-perm_example : new_entry alice_dn two_names ≡ new_entry alice_dn two_names_swapped
unfolding text_eq
new_entry-perm_example =
    new_entry-perm alice_dn two_names two_names_swapped ((refl, tt), (tt, tt))
      (Permᴰ.swap refl refl)

new_policy-IsSettled_example :
    IsSettled (record { grace = pos 4; expire = minus_one; error = minus_one; error_string = [] })
unfolding new_control_behera_password_policy policy_of
new_policy-IsSettled_example =
    new_policy-IsSettled (with_grace_auth_ns_remaining 4 ∷ [])
      (record { grace = pos 4; expire = minus_one; error = minus_one; error_string = [] })
      (omega arith) refl refl refl

-- The texts of codes, of a control's type and of a quoted byte.
result_texts :
    (result_text (pos 49) ≡ codes "Invalid Credentials")
    × (result_text (pos 9) ≡ [])
    × (application_text (pos 24) ≡ codes "Extended Response")
unfolding result_text application_text result_code_map application_code_map
result_texts = (refl, refl, refl)

control_texts :
    control_text (control_paging 5 (10 ∷ 34 ∷ 0 ∷ []))
    ≡ codes
        "Control Type: Paging (\"1.2.840.113556.1.4.319\")  Criticality: false  PagingSize: 5  Cookie: \"\\n\\\"\\x00\""
unfolding control_text type_line control_type_text text_eq quoted quote_byte format_uint
control_texts = refl

add_control_descriptions-encode_controls_example :
    add_control_descriptions sample_ber (some (encode_controls sample_ber sample_bind.controls))
    ≡ ok tt
add_control_descriptions-encode_controls_example =
    add_control_descriptions-encode_controls sample_ber sample_ber-IsBer sample_bind.controls
      (tt, (omega arith, tt))

printed_entry :
    print_entry 1 (record {
      dn = codes "cn=a";
      attributes = new_entry_attribute (codes "mail") (codes "x" ∷ codes "y" ∷ []) ∷ [];
    })
    ≡ codes " DN: cn=a\n   mail: [x y]\n"
unfolding print_entry print_attribute new_entry_attribute
printed_entry = refl
