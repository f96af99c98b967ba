-- ===== src/Tests/Serving.antt =====
-- Runs of the routes, the multiplexer, the responses and a connection.
use gldap.Message.{simple_bind}
use gldap.Base.{List, [], arith, codes, false, none, pos, refl, some, true, ℕ, ◌↔◌, ◌∷◌, ◌≡◌, ◌⊎◌}
use gldap.Outcome.{err, invalid_parameter, ok}
use gldap.Options.Apply.{with_base_dn}
use gldap.Ber.Model.{sample_ber, sample_ber-IsBer}
use gldap.Packet.{request_message_id}
use gldap.Response.{Response, response_packet, search_response_entry, set_result_code}
use gldap.Response.Reading.{IsResponse}
use gldap.Response.Shape.{response_packet-IsResponse}
use gldap.Request.{
  Request, bind_route_operation, extended_name_of, new_bind_response, new_request, operation_of,
}
use gldap.Request.Answers.{answer-message_id, by_new_bind_response, by_set_result_code}
use gldap.Route.{matches}
use gldap.Route.Matching.{Asks, IsConsistent, matches_iff, request_of}
use gldap.Mux.{Mux, serve}
use gldap.Mux.Registered.{IsRegistered, Registration, for_default, for_search, register_all}
use gldap.Mux.Offered.{
  all_handled, answer_by, chosen, empty_mux, handler_at, last_default, last_unbind,
}
use gldap.Mux.Routed.{serve-register_all}
use gldap.Mux.Serving.{Served, serve-Served}
use gldap.Message.{Message}
use gldap.Testing.{test_simple_bind_request_packet}
use gldap.Testing.RoundTrip.{new_message-simple_bind}
use gldap.Tests.{
  alice_dn, counting, no_unicode, one_route, people_route, sample_bind, sample_ldap, sample_search,
  sample_session, sample_writer, search_request_1,
}

pub search_request_1-IsConsistent : IsConsistent search_request_1
unfolding operation_of extended_name_of
search_request_1-IsConsistent = record { has_operation = refl; has_name = refl }

matches_iff_example :
    (matches no_unicode people_route (some search_request_1) ≡ true)
    ↔ Asks no_unicode people_route search_request_1.message
matches_iff_example =
    matches_iff no_unicode people_route search_request_1 refl search_request_1-IsConsistent

pub one_route-IsRegistered : IsRegistered one_route
one_route-IsRegistered = record {
  routes_servable = (record { served = counting; has_handler = refl; has_operation = refl }, tt);
  default_servable = tt;
  unbind_servable = tt;
}

serve-Served_example :
    Served sample_ber no_unicode one_route sample_writer search_request_1 sample_session (
      serve sample_ber no_unicode
        (some sample_writer)
        (some search_request_1)
        one_route
        sample_session)
serve-Served_example =
    serve-Served sample_ber no_unicode one_route sample_writer search_request_1 sample_session
      one_route-IsRegistered

abbrev sample_registrations : List (Registration ℕ)
sample_registrations =
    for_search (some counting) (with_base_dn (codes "ou=people") ∷ [])
    ∷ for_default (some counting) []
    ∷ []

serve-register_all_example :
    ((all_handled sample_registrations ≡ false)
      × (register_all sample_registrations empty_mux ≡ err invalid_parameter))
    ⊎ ((all_handled sample_registrations ≡ true)
        × ((n : Mux ℕ) × (register_all sample_registrations empty_mux ≡ ok n)
            × (serve sample_ber no_unicode
                  (some sample_writer)
                  (some (request_of (pos 1) (pos 1) (Message.search sample_search)))
                  n
                  sample_session
                ≡ answer_by sample_ber
                    (chosen no_unicode sample_registrations
                      (Message.search sample_search)
                      (last_default sample_registrations none))
                    sample_writer
                    (request_of (pos 1) (pos 1) (Message.search sample_search))
                    sample_session)
            × (handler_at n.unbind_route ≡ last_unbind sample_registrations none)))
serve-register_all_example =
    serve-register_all sample_ber no_unicode sample_registrations sample_writer (pos 1) (pos 1)
      (Message.search sample_search) sample_session

abbrev sample_response : Response
sample_response =
    search_response_entry
      (record { message_id = pos 8; code = pos 0; diag_message = []; matched_dn = [] })
      (record {
        dn = alice_dn;
        attributes =
            record { name = codes "mail"; values = codes "a" ∷ []; byte_values = codes "a" ∷ [] }
            ∷ [];
      })

response_packet-IsResponse_example :
    IsResponse sample_ber sample_response (response_packet sample_ber sample_response)
response_packet-IsResponse_example =
    response_packet-IsResponse sample_ber sample_ber-IsBer sample_response

abbrev bind_request_3 : Request
bind_request_3 = record {
  id = pos 3;
  conn_id = pos 1;
  message = simple_bind sample_bind;
  route_op = bind_route_operation;
  extended_name = [];
}

bind_request_3-is_new :
    new_request sample_ber sample_ldap
      (pos 3)
      (some (pos 1))
      (some (test_simple_bind_request_packet sample_ber sample_bind))
    ≡ ok bind_request_3
unfolding new_request operation_of extended_name_of
bind_request_3-is_new = rw (
    new_message-simple_bind sample_ber sample_ldap sample_ber-IsBer sample_bind refl
      (tt, (omega arith, tt)))

answer-message_id_example :
    request_message_id (record {
      ber =
          response_packet sample_ber
            (set_result_code (pos 49) (new_bind_response bind_request_3 []));
      validated = false;
    })
    ≡ request_message_id (test_simple_bind_request_packet sample_ber sample_bind)
answer-message_id_example =
    answer-message_id sample_ber sample_ldap (pos 3) (some (pos 1))
      (test_simple_bind_request_packet sample_ber sample_bind) bind_request_3
      (set_result_code (pos 49) (new_bind_response bind_request_3 [])) sample_ber-IsBer
      bind_request_3-is_new
      (by_set_result_code (pos 49) (new_bind_response bind_request_3 []) (by_new_bind_response []))
