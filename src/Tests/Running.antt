-- ===== src/Tests/Running.antt =====
-- Runs of the server, of the version check, of security identifiers and of encoded strings.
use gldap.Base.{
  All, Fits, List, [], arith, codes, false, if◌then◌else◌, inl, inr, int_eq, map, none, pos, refl,
  true, ℕ, ◌++◌, ◌∷◌, ◌≡◌, ◌≤◌,
}
use gldap.Outcome.{ok, panic}
use gldap.Ber.{nil, tag_general_string, tag_octet_string}
use gldap.Ber.Model.{sample_ber}
use gldap.Packet.{check_version}
use gldap.Packet.Version.{check_version-versioned, versioned}
use gldap.Strconv.{format_uint}
use gldap.Sid.{format_parts, sid_bytes_to_string}
use gldap.Sid.RoundTrip.{Identifier, identifier_octets, sid_bytes_to_string-octets}
use gldap.Convert.{convert_string, read_length, read_length_octets}
use gldap.Convert.Encoded.{
  Encoded, IsEncoded, convert_string-empty, convert_string-encoded, encoded_octets, long, short,
}
use gldap.Convert.Bounds.{read_length-bounds}
use gldap.Server.{
  Server, at_start, by_listen, by_select, by_step, by_stop, listen, new_server, no_listener,
  not_run, not_stopped, select_turn, stop,
}
use gldap.Server.Stoppable.{IsStoppable}
use gldap.Server.Stopping.{ServerReachable-IsStoppable}
use gldap.Server.Numbering.{IsNumbered}
use gldap.Server.Numbered.{ServerReachable-IsNumbered}
use gldap.Tests.{empty_mux, no_unicode, sample_ldap}

check_version-versioned_example :
    check_version (versioned (pos 2) [] [] nil 0)
    ≡ (if int_eq (pos 2) (pos 3) then ok tt else panic)
check_version-versioned_example = check_version-versioned (pos 2) [] [] nil 0

-- A server that listens and stops.
abbrev pub new_state : Server ℕ
new_state = record {
  router = empty_mux;
  listener = no_listener;
  listener_ready = false;
  read_timeout = pos 0;
  write_timeout = pos 0;
  disable_panic_recovery = false;
  on_close_handler = none;
  shutdown_done = false;
  conn_id = 0;
  run_status = not_run;
  stop_status = not_stopped;
  goroutines = [];
  on_close_calls = [];
  crashed = false;
}

ServerReachable-IsStoppable_example : IsStoppable (stop true (select_turn (listen true new_state)))
unfolding new_server listen select_turn
ServerReachable-IsStoppable_example =
    ServerReachable-IsStoppable sample_ber sample_ldap no_unicode [] new_state
      (stop true (select_turn (listen true new_state))) refl
      (by_step (select_turn (listen true new_state))
        (stop true (select_turn (listen true new_state)))
        (by_step (listen true new_state) (select_turn (listen true new_state))
          (by_step new_state (listen true new_state) at_start (by_listen true refl))
          (by_select refl))
        (by_stop true refl))

abbrev sample_identifier : Identifier
sample_identifier = record { revision = 1; authority = 5; sub_authorities = 21 ∷ 512 ∷ [] }

sid_bytes_to_string-octets_example :
    sid_bytes_to_string (identifier_octets sample_identifier ++ [])
    ≡ ok (codes "S-" ++ format_uint 1 ++ codes "-" ++ format_uint 5 ++ format_parts (21 ∷ 512 ∷ []))
sid_bytes_to_string-octets_example = sid_bytes_to_string-octets sample_identifier [] (record {
  authority_fits = omega arith;
  sub_authorities_fit = (omega arith, (omega arith, tt));
})

abbrev sample_encoded : List Encoded
sample_encoded =
    record { tag = tag_octet_string; length_octets = 2 ∷ []; content = codes "ab" }
    ∷ record { tag = tag_general_string; length_octets = 129 ∷ 1 ∷ []; content = codes "c" }
    ∷ []

sample_encoded-IsEncoded : All IsEncoded sample_encoded
sample_encoded-IsEncoded = (
  record { is_string = inl refl; is_length = short 2 (omega arith) },
  (record { is_string = inr refl; is_length = long (1 ∷ []) (omega arith) (omega arith) }, tt),
)

convert_string-encoded_example :
    convert_string (map encoded_octets sample_encoded) ≡ ok (codes "ab" ∷ codes "c" ∷ [])
convert_string-encoded_example = convert_string-encoded sample_encoded sample_encoded-IsEncoded

convert_string-empty_example : convert_string (map encoded_octets sample_encoded ++ [] ∷ []) ≡ panic
convert_string-empty_example = convert_string-empty sample_encoded [] sample_encoded-IsEncoded

ServerReachable-IsNumbered_example : IsNumbered (select_turn (listen true new_state))
unfolding new_server listen select_turn
ServerReachable-IsNumbered_example =
    ServerReachable-IsNumbered sample_ber sample_ldap no_unicode [] new_state
      (select_turn (listen true new_state)) refl
      (by_step (listen true new_state) (select_turn (listen true new_state))
        (by_step new_state (listen true new_state) at_start (by_listen true refl)) (by_select refl))

read_length-bounds_example : (1 ≤ 3) × (3 ≤ 9) × (3 ≤ 4) × Fits 63 (pos 513)
unfolding read_length read_length_octets
read_length-bounds_example = read_length-bounds (130 ∷ 2 ∷ 1 ∷ 7 ∷ []) (pos 513) 3 refl
