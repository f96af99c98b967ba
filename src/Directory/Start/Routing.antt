-- ===== src/Directory/Start/Routing.antt =====
-- Which handler of the directory for tests serves a request.
use gldap.Base.{
  Bool, Bool-cases, Option, Text, if◌then◌else◌, inl, inr, refl, some, subst, text_eq, ℤ, ◌≡◌,
}
use gldap.Outcome.{ok}
use gldap.Ber.{Ber}
use gldap.Message.{
  Message, add, delete, extended_operation, extended_operation_start_tls, modify, search,
  simple_auth_choice, simple_bind, unbind,
}
use gldap.Request.{Request, extended_name_of, operation_of}
use gldap.Route.{HandlerFunc, Session, accepts_text, match_message, matches}
use gldap.Route.Matching.{IsConsistent, request_of, request_of-IsConsistent}
use gldap.Response.Writer.{ResponseWriter}
use gldap.Mux.{Mux, serve, serve_loop}
use gldap.Directory.{Directory}
use gldap.Directory.Handlers.{
  handle_add, handle_bind, handle_delete, handle_modify, handle_not_found, handle_start_tls,
}
use gldap.Directory.Searching.{handle_search_generic, handle_search_groups, handle_search_users}
use gldap.Directory.Start.{start_mux, start_mux-started_mux, started_mux}

module _ (b : Ber) (fold : Text → Text → Bool) (handshake : Option Text) where
  -- The handler of a message. A search base is compared with the DN of the users first, and a DN that
  -- is empty takes every base.
  abbrev pub handler_for : Directory → Message → HandlerFunc Directory
  handler_for d (simple_bind m) =
      if text_eq simple_auth_choice m.auth_choice then handle_bind b else handle_not_found b
  handler_for d (search m) =
      if accepts_text fold d.user_dn m.base_dn
      then handle_search_users b
      else if accepts_text fold d.group_dn m.base_dn
      then handle_search_groups b
      else handle_search_generic b
  handler_for d (extended_operation m) =
      if text_eq extended_operation_start_tls m.name
      then handle_start_tls b handshake
      else handle_not_found b
  handler_for d (modify m) = handle_modify b
  handler_for d (add m) = handle_add b
  handler_for d (delete m) = handle_delete b
  handler_for d (unbind id) = handle_not_found b

  serve_message :
      (d : Directory) (w : ResponseWriter) (id conn_id : ℤ) (m : Message) (s : Session Directory)
      → serve b fold (some w) (some (request_of id conn_id m)) (started_mux b handshake d) s
        ≡ handler_for d m w (request_of id conn_id m) s
  unfolding serve serve_loop matches match_message operation_of extended_name_of text_eq
  serve_message d w id conn_id (simple_bind m) s =
      elim (Bool-cases (text_eq simple_auth_choice m.auth_choice)) [ inl e ↦ rw e | inr e ↦ rw e ]
  serve_message d w id conn_id (search m) s =
      elim (Bool-cases (accepts_text fold d.user_dn m.base_dn)) [
        | inl e ↦ rw e
        | inr e ↦ elim (Bool-cases (accepts_text fold d.group_dn m.base_dn)) [
          | inl g ↦ rw (e, g)
          | inr g ↦ rw (e, g)
        ]
      ]
  serve_message d w id conn_id (extended_operation m) s =
      elim (Bool-cases (text_eq extended_operation_start_tls m.name)) [
        | inl e ↦ rw e
        | inr e ↦ rw e
      ]
  serve_message d w id conn_id (modify m) s = refl
  serve_message d w id conn_id (add m) s = refl
  serve_message d w id conn_id (delete m) s = refl
  serve_message d w id conn_id (unbind m) s = refl

  -- `Start` registers its routes without an error, and `serve` on them hands each request whose
  -- operation and extended name are those of its message to one handler: simple binds, modify, add
  -- and delete requests and StartTLS to their own, a search by its base to that of the users, else
  -- of the groups, else the generic one, and anything else to the handler of what is not found.
  pub serve-handler_for :
      (d : Directory) (w : ResponseWriter) (req : Request) (s : Session Directory)
      → IsConsistent req
      → (m : Mux Directory) × (start_mux b handshake d ≡ ok m)
        × (serve b fold (some w) (some req) m s ≡ handler_for d req.message w req s)
  serve-handler_for d w req s c = (
    started_mux b handshake d,
    start_mux-started_mux b handshake d,
    subst
        (λ r.
          serve b fold (some w) (some r) (started_mux b handshake d) s
          ≡ handler_for d req.message w r s)
        (request_of-IsConsistent req c) (serve_message d w req.id req.conn_id req.message s),
  )
