-- ===== src/Tests/Connected.antt =====
-- A connection to the directory for tests.
use gldap.Base.{List, [], false, none, pos, refl, ◌++◌, ◌↔◌, ◌∷◌, ◌≡◌}
use gldap.Ber.Model.{sample_ber, sample_ber-IsBer}
use gldap.Codes.{result_success}
use gldap.Testing.{test_simple_bind_request_packet}
use gldap.Message.{Message}
use gldap.Response.{Response, base_of}
use gldap.Response.Writer.{ResponseWriter}
use gldap.Request.{Request}
use gldap.Route.Matching.{request_of}
use gldap.Mux.{Mux, write_response}
use gldap.Conn.{Conn, reading, received, serve_in_flight, serve_turn, serving}
use gldap.Conn.Turns.{turn_writer}
use gldap.Directory.{Directory}
use gldap.Directory.Authentication.{Authenticates}
use gldap.Directory.Login.{bind_packet-Authenticates}
use gldap.Directory.Start.{start_mux-started_mux, started_mux}
use gldap.Tests.{no_unicode, sample_ldap}
use gldap.Tests.Searches.{alice_login, company_directory, company_state}

abbrev company_mux : Mux Directory
company_mux = started_mux sample_ber none company_directory

abbrev company_conn : Conn Directory
company_conn = record {
  conn_id = pos 1;
  router = company_mux;
  request_id = 0;
  session = company_state;
  in_flight = [];
  status = reading;
}

-- The connection behind the turn that read Alice's bind.
abbrev login_conn : Conn Directory
login_conn = record company_conn {
  request_id = 1;
  status = serving;
  in_flight =
      (turn_writer (pos 1) 1, request_of (pos 1) (pos 1) (Message.simple_bind alice_login)) ∷ [];
}

bind_packet-Authenticates_example :
    (w : ResponseWriter) × (req : Request) × (serve_turn sample_ber sample_ldap no_unicode
        (received (test_simple_bind_request_packet sample_ber alice_login).ber false)
        company_conn
      ≡ record company_conn { request_id = 1; in_flight = (w, req) ∷ []; status = serving })
    × ((before after : List (ResponseWriter × Request))
        → (resp : Response) × (serve_in_flight sample_ber sample_ldap no_unicode before after w req
              login_conn
            ≡ record login_conn {
              session = write_response sample_ber resp company_state;
              in_flight = before ++ after;
            })
          × ((base_of resp).message_id ≡ pos 4)
          × (((base_of resp).code ≡ result_success) ↔ Authenticates company_directory alice_login))
bind_packet-Authenticates_example =
    bind_packet-Authenticates sample_ber sample_ldap no_unicode sample_ber-IsBer none
      company_directory false company_conn login_conn alice_login refl refl tt
      (start_mux-started_mux sample_ber none company_directory)
