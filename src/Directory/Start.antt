-- ===== src/Directory/Start.antt =====
-- `Start` of testdirectory/directory.go: the directory that it makes of its options, the options of the
-- server, and the routes of its multiplexer. Listening, certificates and the wait for the server are
-- left out.
pub mod Routing
use gldap.Base.{
  Bool, List, Option, Text, [], codes, if◌then◌else◌, none, not, pos, refl, some, ℕ, ◌++◌, ◌∷◌, ◌≡◌,
}
use gldap.Outcome.{Outcome, ok, ◌>>=◌, ◌>>◌}
use gldap.Options.{GoOption}
use gldap.Options.Apply.{
  with_base_dn, with_disable_panic_recovery, with_label, with_logger, with_tls_config,
}
use gldap.Ber.{Ber}
use gldap.Attribute.{Entry}
use gldap.Mux.{
  Mux, add, bind, delete, extended_operation, modify, new_mux, search, set_default_route,
}
use gldap.Directory.{Directory}
use gldap.Directory.Settings.{TestOptions, with_defaults, with_no_tls}
use gldap.Directory.Handlers.{
  handle_add, handle_bind, handle_delete, handle_modify, handle_not_found, handle_start_tls,
}
use gldap.Directory.Searching.{handle_search_generic, handle_search_groups, handle_search_users}
use gldap.Request.{
  add_route_operation, bind_route_operation, delete_route_operation, extended_route_operation,
  modify_route_operation, search_route_operation,
}
use gldap.Route.{
  BaseRoute, HandlerFunc, add_route, base_route, delete_route, extended_route, modify_route,
  search_route, simple_bind_route, unbind_route,
}
use gldap.Message.{extended_operation_start_tls, simple_auth_choice}
use gldap.Server.{Server, stop}

-- A nil slice is read as an empty one.
abbrev pub entries_in : Option (List Entry) → List Entry
entries_in none = []
entries_in (some es) = es

-- The directory that `Start` makes; the TLS configuration is the one that `GetTLSConfig` returns.
unfoldable pub start_directory : TestOptions → (server : ℕ) → Directory
start_directory opts server = record {
  users = entries_in opts.with_defaults.users;
  groups = entries_in opts.with_defaults.groups;
  token_groups = [];
  allow_anonymous_bind = opts.with_defaults.allow_anonymous_bind;
  controls = [];
  user_dn = opts.with_defaults.user_dn;
  group_dn = opts.with_defaults.group_dn;
  server = some server;
}

-- The options that `Start` gives to `NewServer`.
unfoldable pub server_options : TestOptions → List GoOption
server_options opts =
    (elim opts.with_logger [ none ↦ [] | some l ↦ with_logger (some l) ∷ [] ])
    ++ (if opts.with_disable_panic_recovery then with_disable_panic_recovery ∷ [] else [])

-- The options that `Start` gives to `Run`.
unfoldable pub run_options : TestOptions → (server : ℕ) → List GoOption
run_options opts server = if not opts.with_no_tls then with_tls_config (some server) ∷ [] else []

-- `Stop`, on what `Server.Stop` does up to its waiting; with a `testing.T` it does nothing, since `Start`
-- has registered it with `Cleanup`.
unfoldable pub stop_directory {ℓ} : {S : Type ℓ} (has_cleanup close_ok : Bool) → Server S → Server S
stop_directory has_cleanup close_ok s = if not has_cleanup then stop close_ok s else s

module _ (b : Ber) (handshake : Option Text) where
  -- The routes that `Start` registers; an error fails the test.
  unfoldable pub start_mux : Directory → Outcome (Mux Directory)
  start_mux d = do
    m ← new_mux []
    m ← set_default_route (some (handle_not_found b)) [] m
    m ← bind (some (handle_bind b)) [] m
    m ← extended_operation (some (handle_start_tls b handshake)) extended_operation_start_tls [] m
    m ←
        search (some (handle_search_users b))
          (with_base_dn d.user_dn ∷ with_label (codes "Search - Users") ∷ []) m
    m ←
        search (some (handle_search_groups b))
          (with_base_dn d.group_dn ∷ with_label (codes "Search - Groups") ∷ []) m
    m ← search (some (handle_search_generic b)) (with_label (codes "Search - Generic") ∷ []) m
    m ← modify (some (handle_modify b)) (with_label (codes "Modify") ∷ []) m
    m ← add (some (handle_add b)) (with_label (codes "Add") ∷ []) m
    delete (some (handle_delete b)) (with_label (codes "Delete") ∷ []) m

  abbrev pub route_of : HandlerFunc Directory → Text → Text → BaseRoute Directory
  route_of h operation label = record { h = some h; route_op = operation; label = label }

  -- The multiplexer of a directory that has been started.
  abbrev pub started_mux : Directory → Mux Directory
  started_mux d = record {
    routes =
        simple_bind_route (route_of (handle_bind b) bind_route_operation []) simple_auth_choice
        ∷ extended_route (route_of (handle_start_tls b handshake) extended_route_operation [])
            extended_operation_start_tls
        ∷ search_route
            (route_of (handle_search_users b) search_route_operation (codes "Search - Users"))
            d.user_dn [] (pos 0)
        ∷ search_route
            (route_of (handle_search_groups b) search_route_operation (codes "Search - Groups"))
            d.group_dn [] (pos 0)
        ∷ search_route
            (route_of (handle_search_generic b) search_route_operation (codes "Search - Generic"))
            [] [] (pos 0)
        ∷ modify_route (route_of (handle_modify b) modify_route_operation (codes "Modify"))
        ∷ add_route (route_of (handle_add b) add_route_operation (codes "Add"))
        ∷ delete_route (route_of (handle_delete b) delete_route_operation (codes "Delete"))
        ∷ [];
    default_route = some (base_route (route_of (handle_not_found b) bind_route_operation []));
    unbind_route = none;
  }

  pub start_mux-started_mux : (d : Directory) → start_mux d ≡ ok (started_mux d)
  unfolding start_mux set_default_route bind extended_operation search modify add delete
  start_mux-started_mux d = refl
