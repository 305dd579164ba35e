-- ===== src/Acl/Center.antt =====
-- `ACL_CENTER` of src/http2socks.rs and src/socks2socks.rs: the access control list of a server
-- module, set once, and the question both modules ask it.
pub mod File
pub mod Listed
use socks_hub.Prelude.{
  ℕ, ◌≡◌, refl, Bool, true, false, Option, none, some, List, if◌then◌else◌, arith,
}
use socks_hub.Text.{Text}
use socks_hub.Io.{Result, ok, err}
use socks_hub.Config.{Config}
use socks_hub.Acl.Externals.{Externals}
use socks_hub.Acl.AccessControl.{AccessControl, load_from_file, Mode}
use socks_hub.Acl.AccessControl.Checks.{check_host_in_proxy_list, convert_to_ascii}
use socks_hub.Acl.Rules.{check_host_matched}

-- `OnceLock<Option<AccessControl>>`: `none` until it is set.
abbrev pub Center : Externals → Type 0
Center x = Option (Option (AccessControl x))

module _ (x : Externals) where
  abbrev ok_of : Result (AccessControl x) → Option (AccessControl x)
  ok_of (ok acl) = some acl
  ok_of (err e) = none

  -- The closure that `get_or_init` is given: an ACL file that fails to load is no ACL.
  unfoldable pub load_acl : (Text → Result (List (Result Text))) → Config → Option (AccessControl x)
  load_acl open_file config = elim config.acl_file [
    | none ↦ none
    | some path ↦ ok_of (load_from_file x open_file path)
  ]

  -- `ACL_CENTER.get_or_init(…)`
  unfoldable pub init_center : (Text → Result (List (Result Text))) → Config → Center x → Center x
  unfolding load_acl
  init_center open_file config none = some (load_acl open_file config)
  init_center open_file config (some acl) = some acl

-- `unwrap_or_default`
abbrev or_false : Option Bool → Bool
or_false none = false
or_false (some b) = b

module _ {x : Externals} where
  -- The lines that compute `must_proxied`.
  unfoldable pub must_proxied : Center x → Text → Bool
  must_proxied none host = true
  must_proxied (some none) host = true
  must_proxied (some (some acl)) host = or_false (check_host_in_proxy_list acl host)

  -- With an access control list loaded, a host is proxied exactly when the white list matches it:
  -- neither the black list nor the mode of the file makes a difference.
  pub must_proxied-white_list :
      (acl : AccessControl x) (host : Text)
      → must_proxied (some (some acl)) host
        ≡ check_host_matched acl.white_list (convert_to_ascii x host)
  unfolding must_proxied check_host_in_proxy_list
  must_proxied-white_list acl host = ground arith

  -- The first configuration of a module decides its list: a later one is not read.
  init_center_once :
      (open_file open_file' : Text → Result (List (Result Text))) (config config' : Config)
      (center : Center x)
      → init_center x open_file' config' (init_center x open_file config center)
        ≡ init_center x open_file config center
  unfolding init_center
  init_center_once open_file open_file' config config' none = refl
  init_center_once open_file open_file' config config' (some acl) = refl
