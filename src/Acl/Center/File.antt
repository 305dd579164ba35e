-- ===== src/Acl/Center/File.antt =====
-- From the text of the configured ACL file to the question that the servers ask.
use socks_hub.Prelude.{◌≡◌, refl, sym, ap, ◌∙◌, true, false, not, ◌||◌, List, map, none, some}
use socks_hub.Text.{Text}
use socks_hub.Io.{Result, ok, err}
use socks_hub.Config.{Config}
use socks_hub.Acl.Externals.{Externals}
use socks_hub.Acl.AccessControl.{AccessControl, proxy, load_from_file}
use socks_hub.Acl.AccessControl.Checks.{convert_to_ascii}
use socks_hub.Acl.Center.{init_center, must_proxied, must_proxied-white_list}
use socks_hub.Acl.Reading.Files.{
  file_names, file_builds, is_ok, load_from_file_hosts, load_from_file_total,
}

-- A server that starts with an ACL file whose lines can be read, where no list has been set before,
-- proxies a host exactly when a line under the white list's headers names it; but it proxies every
-- host if some regular expression of the file does not compile.
pub must_proxied_file :
    (x : Externals) (open_file : Text → Result (List (Result Text))) (config : Config) (path : Text)
    (lines : List Text) (host : Text)
    → config.acl_file ≡ some path
    → open_file path ≡ ok (map ok lines)
    → must_proxied (init_center x open_file config none) host
      ≡ (not (file_builds x lines) || file_names x proxy lines (convert_to_ascii x host))
unfolding init_center
must_proxied_file x open_file config path lines host named opened =
    rw named (
      go (load_from_file x open_file path) refl
        (load_from_file_total x open_file path lines opened))
  where
    go :
        (r : Result (AccessControl x))
        → load_from_file x open_file path ≡ r
        → is_ok (load_from_file x open_file path) ≡ file_builds x lines
        → must_proxied (some (elim r [ ok acl ↦ some acl | err e ↦ none ])) host
          ≡ (not (file_builds x lines) || file_names x proxy lines (convert_to_ascii x host))
    go (err e) loaded total =
        unfold must_proxied in
        (let fails : file_builds x lines ≡ false = sym total ∙ ap is_ok loaded in rw fails refl)
    go (ok acl) loaded total =
        let builds : file_builds x lines ≡ true = sym total ∙ ap is_ok loaded in
        rw builds (
          must_proxied-white_list acl host
          ∙ (load_from_file_hosts open_file path lines acl proxy (convert_to_ascii x host) opened
              loaded).0)
