-- ===== src/Tests/Turns.antt =====
-- Runs of a connection.
use gldap.Base.{[], codes, false, none, pos, refl, some, true, ℕ, ◌∷◌, ◌≡◌, ◌≢◌, ◌⊎◌}
use gldap.Outcome.{Error, err, ok, panic}
use gldap.Ber.{Packet, class_universal, nil, nil_value, node, tag_boolean, type_primitive}
use gldap.Ber.Model.{sample_ber, sample_ber-IsBer}
use gldap.Codes.{application_extended_response, result_unwilling_to_perform}
use gldap.Packet.{
  assert, assert_application_request, basic_validation, request_message_id, request_packet,
  request_type,
}
use gldap.Response.{general_response}
use gldap.Response.Reading.{IsResponse}
use gldap.Request.{Request, extended_name_of, new_request, operation_of, unbind_route_operation}
use gldap.Mux.{serve}
use gldap.Conn.{
  Conn, after_call, again, by_turn, by_wait, call_unbind, finish, more, new_conn, read_packet,
  read_request, reading, received, returned, serve_turn, serving, shutdown, start, take_turn,
}
use gldap.Conn.Invariant.{IsSound, Reachable-IsSound}
use gldap.Conn.Turns.{serve_turn-readable, serve_turn-shutdown, serve_turn-unreadable, turn_writer}
use gldap.Message.{Message, extended_operation_start_tls, message_of_type, new_message}
use gldap.Testing.{enveloped, test_simple_bind_request_packet, test_unbind_request_packet}
use gldap.Tests.{no_unicode, one_route, sample_bind, sample_ldap, sample_session}

abbrev sample_conn : Conn ℕ
sample_conn = record {
  conn_id = pos 1;
  router = one_route;
  request_id = 0;
  session = sample_session;
  in_flight = [];
  status = serving;
}

abbrev pub bind_packet : Packet
bind_packet = (test_simple_bind_request_packet sample_ber sample_bind).ber

abbrev unbind_packet : Packet
unbind_packet = (test_unbind_request_packet sample_ber (pos 3)).ber

abbrev reading_conn : Conn ℕ
reading_conn = record sample_conn { status = reading }

abbrev bound_conn : Conn ℕ
bound_conn = serve_turn sample_ber sample_ldap no_unicode (received bind_packet false) reading_conn

Reachable-IsSound_example : IsSound bound_conn
unfolding new_conn
Reachable-IsSound_example =
    Reachable-IsSound sample_ber sample_ldap no_unicode true true (pos 1) (some sample_session)
      (some one_route) sample_conn bound_conn refl
      (more reading_conn bound_conn (more sample_conn reading_conn start (by_wait refl))
        (by_turn (received bind_packet false) refl refl))

serve_turn-shutdown_example :
    (p : Packet) × (serve_turn sample_ber sample_ldap no_unicode (shutdown true) sample_conn
      ≡ record sample_conn {
        request_id = 1;
        session = record sample_session { sent = sample_ber.bytes p ∷ [] };
        status = returned (ok tt);
      })
    × IsResponse sample_ber
        (general_response (record {
          base = record {
            message_id = pos 0;
            code = result_unwilling_to_perform;
            diag_message = codes "server stopping";
            matched_dn = codes "Unused";
          };
          application_code = pos application_extended_response;
        }))
        p
serve_turn-shutdown_example =
    serve_turn-shutdown sample_ber sample_ldap no_unicode true sample_conn sample_ber-IsBer refl

abbrev junk_packet : Packet
junk_packet = node class_universal type_primitive tag_boolean nil_value [] nil

serve_turn-unreadable_example :
    ((e : Error) × (read_request sample_ber sample_ldap (pos 1) (pos 1) junk_packet ≡ err e)
      × (serve_turn sample_ber sample_ldap no_unicode (received junk_packet true) sample_conn
          ≡ record sample_conn { request_id = 1; status = returned (ok tt) }))
    ⊎ ((read_request sample_ber sample_ldap (pos 1) (pos 1) junk_packet ≡ panic)
        × (serve_turn sample_ber sample_ldap no_unicode (received junk_packet true) sample_conn
            ≡ record sample_conn { request_id = 1; status = returned panic }))
unfolding read_request read_packet basic_validation assert
serve_turn-unreadable_example =
    serve_turn-unreadable sample_ber sample_ldap no_unicode junk_packet true sample_conn refl
      (λ req e. cc e)

abbrev unbind_request_1 : Request
unbind_request_1 = record {
  id = pos 1;
  conn_id = pos 1;
  message = Message.unbind (pos 3);
  route_op = unbind_route_operation;
  extended_name = [];
}

unbind_request_1-is_read :
    read_request sample_ber sample_ldap (pos 1) (pos 1) unbind_packet ≡ ok unbind_request_1
unfolding read_request read_packet new_request new_message message_of_type request_type
    request_packet request_message_id assert_application_request basic_validation assert
    test_unbind_request_packet enveloped operation_of extended_name_of
unbind_request_1-is_read = refl

serve_turn-readable_example :
    ((Message.unbind (pos 3) ≡ Message.unbind (pos 3))
      × (serve_turn sample_ber sample_ldap no_unicode (received unbind_packet false) sample_conn
          ≡ take_turn sample_conn 1 (
              after_call sample_session
                (λ s. finish s (ok tt))
                (call_unbind none (turn_writer (pos 1) 1) unbind_request_1 sample_session))))
    ⊎ ((extended_name_of (Message.unbind (pos 3)) ≡ extended_operation_start_tls)
        × (serve_turn sample_ber sample_ldap no_unicode (received unbind_packet false) sample_conn
            ≡ take_turn sample_conn 1 (
                after_call sample_session
                  (λ s. again s [])
                  (serve sample_ber no_unicode
                    (some (turn_writer (pos 1) 1))
                    (some unbind_request_1)
                    one_route
                    sample_session))))
    ⊎ ((Message.unbind (pos 3) ≢ Message.unbind (pos 3))
        × (extended_name_of (Message.unbind (pos 3)) ≢ extended_operation_start_tls)
        × (serve_turn sample_ber sample_ldap no_unicode (received unbind_packet false) sample_conn
            ≡ record sample_conn {
              request_id = 1;
              in_flight = (turn_writer (pos 1) 1, unbind_request_1) ∷ [];
              status = serving;
            }))
serve_turn-readable_example =
    serve_turn-readable sample_ber sample_ldap no_unicode unbind_packet false sample_conn
      unbind_request_1 refl unbind_request_1-is_read
