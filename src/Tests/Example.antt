-- ===== src/Tests/Example.antt =====
-- A run of the example server: a search behind a login on the same connection.
use gldap.Base.{List, Text, [], pos, refl, some, true, ℤ, ◌∷◌, ◌≡◌}
use gldap.Outcome.{ok}
use gldap.Ber.Model.{sample_ber}
use gldap.Message.{SimpleBindMessage, simple_bind}
use gldap.Request.{Request}
use gldap.Route.{Session}
use gldap.Route.Matching.{IsConsistent, request_of}
use gldap.Mux.{Mux, serve}
use gldap.Simple.{alice_name, simple_mux}
use gldap.Simple.Guarded.{any_login, guarded_answer, serve_each, serve_each-guarded}
use gldap.Tests.{no_unicode, sample_bind, sample_search, sample_writer, search_request_1}
use gldap.Tests.Serving.{search_request_1-IsConsistent}

abbrev alice_bind : SimpleBindMessage
alice_bind = record sample_bind { user_name = alice_name }

abbrev alice_bind_request : Request
alice_bind_request = request_of (pos 1) (pos 1) (simple_bind alice_bind)

alice_bind_request-IsConsistent : IsConsistent alice_bind_request
alice_bind_request-IsConsistent = record { has_operation = refl; has_name = refl }

abbrev no_connections : Session (List ℤ)
no_connections = record { state = []; sent = []; write_ok = true; flush_ok = true }

abbrev source_order : List (Text × List Text) → List (Text × List Text)
source_order attributes = attributes

serve_each-guarded_example :
    (mux : Mux (List ℤ)) × (simple_mux sample_ber source_order ≡ ok mux)
    × (t : Session (List ℤ)) × (serve_each sample_ber source_order no_unicode mux sample_writer
          (alice_bind_request ∷ [])
          no_connections
        ≡ some t)
    × (serve sample_ber no_unicode (some sample_writer) (some search_request_1) mux t
        ≡ some (
            guarded_answer sample_ber source_order no_unicode
              (any_login search_request_1.conn_id (alice_bind_request ∷ []))
              sample_search
              search_request_1
              t))
serve_each-guarded_example =
    serve_each-guarded sample_ber source_order no_unicode sample_writer (alice_bind_request ∷ [])
      search_request_1 sample_search no_connections refl (alice_bind_request-IsConsistent, tt)
      search_request_1-IsConsistent refl
