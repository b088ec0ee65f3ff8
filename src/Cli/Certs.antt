-- ===== src/Cli/Certs.antt =====
-- crates/cli/src/commands/certs.rs: the names of the server's certificate.
pub mod Bundle
pub mod Sans
pub mod Issue
pub mod Import
pub mod Manage
use nanny.Prelude.{
  String, ◌≡◌, Bool, true, not, ◌&&◌, List, [], ◌∷◌, string_eq, if◌then◌else◌, push, contains,
  is_empty, trim, arith,
}

abbrev pub always_sans : List String
always_sans = "localhost" ∷ "127.0.0.1" ∷ []

-- One turn of the loop over the names that were asked for.
unfoldable pub add_name : List String → String → List String
add_name sans name =
    let n = trim name in if not (is_empty n) && not (contains sans n) then push sans n else sans

-- The loop.
unfoldable pub add_names : List String → List String → List String
unfolding add_name
add_names sans [] = sans
add_names sans (name ∷ extra) = add_names (add_name sans name) extra

-- `server_sans`
unfoldable pub server_sans : List String → List String
unfolding add_names
server_sans extra = add_names always_sans extra

-- `env_dir_name`
unfoldable pub env_dir_name : Bool → String
env_dir_name live = if live then "live" else "sandbox"

contains-push :
    (a x : String) (xs : List String) → contains xs a ≡ true → contains (push xs x) a ≡ true
contains-push a x [] h = cc
contains-push a x (y ∷ ys) h = ground (arith, contains-push a x ys)

contains-add_names :
    (a : String) (sans extra : List String)
    → contains sans a ≡ true
    → contains (add_names sans extra) a ≡ true
unfolding add_names add_name
contains-add_names a sans [] h = h
contains-add_names a sans (name ∷ extra) h =
    contains-add_names a (add_name sans name) extra
      (ground (arith, h, contains-push a (trim name) sans h))

-- Whatever is asked for, the certificate has every name that it always has.
pub contains-server_sans :
    (a : String) (extra : List String)
    → contains always_sans a ≡ true
    → contains (server_sans extra) a ≡ true
unfolding server_sans
contains-server_sans a extra h = contains-add_names a always_sans extra h
